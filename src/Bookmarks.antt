-- ===== src/Bookmarks.antt =====
-- ghidra_rpc/server/tools/bookmarks.py: setting, listing and removing bookmarks.
-- The limit is a natural number.
pub mod Marking
pub mod Found
use ghidra_rpc_win.Common.{
  ℕ, String, str_eq, Bool, true, false, ◌&&◌, ◌||◌, not, Option, none, some, List, [], ◌∷◌,
  if◌then◌else◌,
}
use ghidra_rpc_win.Common.Dict.{Dict}
use ghidra_rpc_win.Common.Text.{codes, text_eq, lower}
use ghidra_rpc_win.Common.Exec.{Exn, Result, ok, err, raise, value_error, reject_if, ◌>>=◌, ◌>>◌}
use ghidra_rpc_win.Context.{ProgramInfo, get_program, parse_address}
use ghidra_rpc_win.Listing.{Page, page}

-- Ghidra's bookmark manager. `set_bookmark` and `remove_bookmark` stand with their transactions.
pub record Manager : Type 1 where
  pub P : Type 0
  pub W : Type 0
  pub Address : Type 0
  pub Bookmark : Type 0
  pub get_address : P → List ℕ → Option Address
  pub get_bookmark : P → Address → String → String → W → Option Bookmark
  pub set_bookmark : P → Address → String → String → String → W → Result (Unit {0}) × W
  pub remove_bookmark : P → Bookmark → W → Result (Unit {0}) × W
  pub bookmarks_at : P → Address → W → List Bookmark
  pub bookmarks_of : P → String → W → List Bookmark
  pub all_bookmarks : P → W → List Bookmark
  pub address_of : Bookmark → Address
  pub type_string : Bookmark → String
  pub category : Bookmark → String
  pub comment : Bookmark → String
  pub save : P → W → Result (Unit {0}) × W

abbrev pub valid_types : List String
valid_types = "Analysis" ∷ "Error" ∷ "Info" ∷ "Note" ∷ "Warning" ∷ []

-- At most one type agrees in lower case, so the order of the set does not matter.
unfoldable pub find_type : String → List String → Option String
unfolding text_eq lower
find_type bm_type [] = none
find_type bm_type (vt ∷ types) =
    let rest = find_type bm_type types in
    if text_eq (lower (codes bm_type)) (lower (codes vt)) then some vt else rest

abbrev type_or_error : Option String → Result String
type_or_error none = raise value_error ("Invalid bookmark type '" ∷ [])
type_or_error (some vt) = ok vt

unfoldable pub normalize_type : String → Result String
unfolding find_type
normalize_type bm_type = type_or_error (find_type bm_type valid_types)

pub data Action : Type 0 where
  created updated : Action

abbrev pub action_of : {A : Type 0} → Option A → Action
action_of none = created
action_of (some bm) = updated

module _ (g : Manager) where
  open g use {
    P, W, Address, Bookmark, get_address, get_bookmark, bookmarks_at, bookmarks_of, all_bookmarks,
    address_of, type_string, category, comment, save,
  }

  pub record SetResult : Type 0 where
    pub address : Address
    pub bm_type : String
    pub category_text : String
    pub comment_text : String
    pub action : Action

  pub record RemoveResult : Type 0 where
    pub address : Address
    pub bm_type : String
    pub removed : Bool

  -- A bookmark as it is listed.
  pub record Row : Type 0 where
    pub address : Address
    pub bm_type : String
    pub category_text : String
    pub comment_text : String

  abbrev pub after_save : {R : Type 0} → R → Result (Unit {0}) × W → Result R × W
  after_save r (err e, w) = (err e, w)
  after_save r (ok u, w) = (ok r, w)

  -- `ctx.save_program` comes after the transaction.
  abbrev pub then_save : {R : Type 0} → P → R → Result (Unit {0}) × W → Result R × W
  then_save program r (err e, w) = (err e, w)
  then_save program r (ok u, w) = after_save r (save program w)

  -- The checks before a bookmark is looked for: the program, the address, the type.
  pub record Place : Type 0 where
    pub program : P
    pub addr : Address
    pub bm_type : String

  unfoldable pub place : String → String → String → Dict (ProgramInfo P) → Result Place
  unfolding normalize_type get_program parse_address
  place binary address_str bm_type programs = do
    bm_type_norm ← normalize_type bm_type
    pi ← get_program binary programs
    addr ← parse_address get_address pi.program address_str
    ok (record { program = pi.program; addr = addr; bm_type = bm_type_norm })

  abbrev pub set_at : String → String → Result Place → W → Result SetResult × W
  set_at cat text (err e) w = (err e, w)
  set_at cat text (ok p) w =
      then_save p.program
        (record {
          address = p.addr;
          bm_type = p.bm_type;
          category_text = cat;
          comment_text = text;
          action = action_of (get_bookmark p.program p.addr p.bm_type cat w);
        })
        (Manager.set_bookmark g p.program p.addr p.bm_type cat text w)

  unfoldable pub set_bookmark :
      String → String → String → String → String → Dict (ProgramInfo P) → W → Result SetResult × W
  unfolding place
  set_bookmark binary address_str bm_type cat text programs w =
      set_at cat text
        (do
          reject_if (str_eq address_str "") ("Missing required argument: address" ∷ [])
          reject_if (str_eq text "" && str_eq cat "")
              ("At least one of 'comment' or 'category' is required" ∷ [])
          place binary address_str bm_type programs)
        w

  abbrev pub removal : Place → Bool → RemoveResult
  removal p removed = record { address = p.addr; bm_type = p.bm_type; removed = removed }

  -- Where there is no such bookmark the program is saved all the same.
  abbrev pub remove_found : Place → Option Bookmark → W → Result RemoveResult × W
  remove_found p none w = after_save (removal p false) (save p.program w)
  remove_found p (some bm) w =
      then_save p.program (removal p true) (Manager.remove_bookmark g p.program bm w)

  abbrev pub remove_at : String → Result Place → W → Result RemoveResult × W
  remove_at cat (err e) w = (err e, w)
  remove_at cat (ok p) w = remove_found p (get_bookmark p.program p.addr p.bm_type cat w) w

  unfoldable pub remove_bookmark :
      String → String → String → String → Dict (ProgramInfo P) → W → Result RemoveResult × W
  unfolding place
  remove_bookmark binary address_str bm_type cat programs w =
      remove_at cat
        (do
          reject_if (str_eq address_str "") ("Missing required argument: address" ∷ [])
          place binary address_str bm_type programs)
        w

  abbrev row : Bookmark → Row
  row bm = record {
    address = address_of bm;
    bm_type = type_string bm;
    category_text = category bm;
    comment_text = comment bm;
  }

  -- The type that is asked for; the empty text asks for none.
  unfoldable pub type_filter : String → Result String
  unfolding normalize_type
  type_filter bm_type = if str_eq bm_type "" then ok "" else normalize_type bm_type

  abbrev pub of_type : String → Bookmark → Bool
  of_type bm_type bm = str_eq bm_type "" || str_eq (type_string bm) bm_type

  abbrev pub at_address : P → String → ℕ → W → Result Address → Result (Page Row)
  at_address program bm_type limit w (err e) = err e
  at_address program bm_type limit w (ok addr) =
      ok (page (of_type bm_type) row limit (bookmarks_at program addr w))

  unfoldable pub do_list : P → String → String → ℕ → W → Result (Page Row)
  unfolding page parse_address
  do_list program bm_type address_str limit w =
      if not (str_eq address_str "")
      then at_address program bm_type limit w (parse_address get_address program address_str)
      else if not (str_eq bm_type "")
      then ok (page (λ bm. true) row limit (bookmarks_of program bm_type w))
      else ok (page (λ bm. true) row limit (all_bookmarks program w))

  unfoldable pub list_bookmarks :
      String → String → String → ℕ → Dict (ProgramInfo P) → W → Result (Page Row)
  unfolding type_filter get_program do_list
  list_bookmarks binary bm_type address_str limit programs w = do
    bm_type_norm ← type_filter bm_type
    pi ← get_program binary programs
    do_list pi.program bm_type_norm address_str limit w
