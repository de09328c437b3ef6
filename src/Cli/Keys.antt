-- ===== src/Cli/Keys.antt =====
-- The keys of a request beside the keys of a handler.
use ghidra_rpc_win.Common.{
  ℕ, String, str_eq, ◌≡◌, refl, Bool, true, false, ◌||◌, ◌&&◌, Option, none, some, List, [], ◌∷◌,
  ◌++◌, Bool-cases, inl, inr, arith,
}
use ghidra_rpc_win.Common.Dict.{Dict}
use ghidra_rpc_win.Json.{Json}
use ghidra_rpc_win.Cli.{given_text, given_number, given_flag}

abbrev pub has_key : String → Dict Json → Bool
has_key key [] = false
has_key key ((k, v) ∷ args) = str_eq k key || has_key key args

abbrev pub has_all : List String → Dict Json → Bool
has_all [] args = true
has_all (key ∷ keys) args = has_key key args && has_all keys args

abbrev pub is_read : String → List String → Bool
is_read k [] = false
is_read k (key ∷ keys) = str_eq k key || is_read k keys

abbrev pub reads_all : List String → Dict Json → Bool
reads_all keys [] = true
reads_all keys ((k, v) ∷ args) = is_read k keys && reads_all keys args

pub reads_all-append :
    (keys : List String) (a b : Dict Json)
    → reads_all keys a ≡ true
    → reads_all keys b ≡ true
    → reads_all keys (a ++ b) ≡ true
reads_all-append keys [] b h k = k
reads_all-append keys ((j, v) ∷ a) b h k = ground (arith, reads_all-append keys a b)

pub reads_all-given_text :
    (keys : List String) (key text : String)
    → is_read key keys ≡ true
    → reads_all keys (given_text key text) ≡ true
reads_all-given_text keys key text h = elim (Bool-cases (str_eq text "")) [
  | inl empty ↦ rw empty refl
  | inr given ↦ rw (given, h) refl
]

pub reads_all-given_number :
    (keys : List String) (key : String) (n : Option ℕ)
    → is_read key keys ≡ true
    → reads_all keys (given_number key n) ≡ true
reads_all-given_number keys key none h = refl
reads_all-given_number keys key (some n) h = rw h refl

pub reads_all-given_flag :
    (keys : List String) (key : String) (value flag : Bool)
    → is_read key keys ≡ true
    → reads_all keys (given_flag key value flag) ≡ true
reads_all-given_flag keys key value true h = rw h refl
reads_all-given_flag keys key value false h = refl
