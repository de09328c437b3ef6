-- ===== src/Json.antt =====
-- JSON values, and the text that `json.dumps` and `json.loads` stand between.
-- Objects keep their insertion order, as Python's dicts do.
use ghidra_rpc_win.Common.{
  ℕ, String, ◌≡◌, refl, Bool, true, false, Option, some, List, [], ◌∷◌, ap, str_eq, ◌==◌, not,
}
use ghidra_rpc_win.Common.Dict.{Dict}

mutual
  pub data Json : Type 0 where
    null : Json
    bool : Bool → Json
    num : ℕ → Json
    str : String → Json
    arr : Items → Json
    obj : Fields → Json

  pub data Items : Type 0 where
    nil : Items
    cons : Json → Items → Items

  pub data Fields : Type 0 where
    end : Fields
    field : String → Json → Fields → Fields

-- An object as a dict, and back.
unfoldable pub to_dict : Fields → Dict Json
to_dict end = []
to_dict (field k v fs) = (k, v) ∷ to_dict fs

unfoldable pub of_dict : Dict Json → Fields
of_dict [] = end
of_dict ((k, v) ∷ d) = field k v (of_dict d)

pub to_dict-of_dict : (d : Dict Json) → to_dict (of_dict d) ≡ d
unfolding to_dict of_dict
to_dict-of_dict [] = refl
to_dict-of_dict ((k, v) ∷ d) = ap (λ r. (k, v) ∷ r) (to_dict-of_dict d)

pub of_dict-to_dict : (fs : Fields) → of_dict (to_dict fs) ≡ fs
unfolding to_dict of_dict
of_dict-to_dict end = refl
of_dict-to_dict (field k v fs) = ap (field k v) (of_dict-to_dict fs)

unfoldable pub of_list : List Json → Items
of_list [] = nil
of_list (v ∷ vs) = cons v (of_list vs)

-- `bool(v)`
unfoldable pub truthy : Json → Bool
truthy null = false
truthy (bool b) = b
truthy (num n) = not (n == 0)
truthy (str s) = not (str_eq s "")
truthy (arr nil) = false
truthy (arr (cons v vs)) = true
truthy (obj end) = false
truthy (obj (field k v fs)) = true

-- A text format for JSON: `loads` is none where `json.loads` raises `JSONDecodeError`, and
-- `blank t` says that `t.strip()` is empty.
pub record Codec : Type 1 where
  pub Text : Type 0
  pub empty : Text
  pub blank : Text → Bool
  pub loads : Text → Option Json
  pub dumps : Json → Text

-- What the code relies on: a dumped value is read back, and is not blank; the empty text is.
pub record IsLawful (c : Codec) : Type 0 where
  pub loads-dumps : (v : Json) → Codec.loads c (Codec.dumps c v) ≡ some v
  pub blank-dumps : (v : Json) → Codec.blank c (Codec.dumps c v) ≡ false
  pub blank-empty : Codec.blank c (Codec.empty c) ≡ true
