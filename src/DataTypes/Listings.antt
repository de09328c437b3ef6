-- ===== src/DataTypes/Listings.antt =====
-- The listings of ghidra_rpc/server/tools/data_types.py: data types, labels and equates. Texts that
-- are searched are lists of characters.
use ghidra_rpc_win.Common.{
  ℕ, zero, suc, ◌+◌, String, Bool, true, false, not, ◌||◌, ◌&&◌, Option, none, some, List, [], ◌∷◌,
  ◌++◌, length, take, ltb, if◌then◌else◌, is_empty, str_eq,
}
use ghidra_rpc_win.Common.Dict.{Dict}
use ghidra_rpc_win.Common.Text.{codes, text_eq, in_text, lower}
use ghidra_rpc_win.Common.Exec.{Result, ok, err, reject_if, ◌>>=◌, ◌>>◌}
use ghidra_rpc_win.Context.{ProgramInfo, get_program, parse_address}
use ghidra_rpc_win.Listing.{Page, page}

-- The tables of a program that Ghidra keeps. `class_name` is none where the call raises.
pub record Tables : Type 1 where
  pub P : Type 0
  pub W : Type 0
  pub D : Type 0
  pub S : Type 0
  pub Q : Type 0
  pub X : Type 0
  pub all_data_types : P → W → List D
  pub class_name : D → Option (List ℕ)
  pub type_name_of : D → List ℕ
  pub path_of : D → String
  pub length_of : D → ℕ
  pub get_address : P → List ℕ → Option ℕ
  pub primary_symbols : P → ℕ → ℕ → W → List S
  pub get_symbols : P → ℕ → W → List S
  pub symbol_address : S → ℕ
  pub symbol_name : S → String
  pub symbol_type : S → String
  pub symbol_source : S → String
  pub is_primary : S → Bool
  pub get_data_at : P → ℕ → W → Option X
  pub data_name_and_length : X → Result (String × ℕ)
  pub get_equates : P → W → List Q
  pub get_equates_at : P → ℕ → ℕ → W → List Q
  pub equate_name : Q → String
  pub equate_value : Q → ℕ

pub record TypeRow : Type 0 where
  pub name : List ℕ
  pub path : String
  pub category : List ℕ
  pub size : ℕ

pub record Label : Type 0 where
  pub address : ℕ
  pub name : String
  pub kind : String
  pub source : String
  pub is_primary : Bool
  pub data_type : Option String
  pub data_length : Option ℕ

-- The operand and the address stand with an equate that is looked up at an address.
pub record EquateRow : Type 0 where
  pub name : String
  pub value : ℕ
  pub operand_index : Option ℕ
  pub address : Option ℕ

-- A part of a class name, and the category it stands for.
unfoldable pub class_categories : List (String × String)
class_categories =
    ("Structure", "struct")
    ∷ ("Enum", "enum")
    ∷ ("Union", "union")
    ∷ ("Typedef", "typedef")
    ∷ ("Pointer", "pointer")
    ∷ ("Array", "array")
    ∷ []

unfoldable pub category_in : List (String × String) → List ℕ → List ℕ
unfolding in_text
category_in [] cname = codes "other"
category_in ((part, category) ∷ rest) cname =
    let later = category_in rest cname in
    if in_text (codes part) cname then codes category else later

unfoldable pub classify : Option (List ℕ) → List ℕ
unfolding category_in class_categories
classify none = codes "other"
classify (some cname) = category_in class_categories cname

abbrev valid_categories : List String
valid_categories =
    "all" ∷ "struct" ∷ "enum" ∷ "union" ∷ "typedef" ∷ "pointer" ∷ "array" ∷ "other" ∷ []

unfoldable pub is_category : List String → List ℕ → Bool
unfolding text_eq
is_category [] category = false
is_category (c ∷ cs) category = text_eq (codes c) category || is_category cs category

module _ (g : Tables) where
  open g use {
    P, W, D, S, Q, X, all_data_types, class_name, type_name_of, path_of, length_of, get_address,
    primary_symbols, get_symbols, symbol_address, symbol_name, symbol_type, symbol_source,
    get_data_at, data_name_and_length, get_equates, get_equates_at, equate_name, equate_value,
  }

  unfoldable pub is_asked : List ℕ → List ℕ → D → Bool
  unfolding text_eq in_text lower classify
  is_asked category query dt =
      (text_eq category (codes "all") || text_eq (classify (class_name dt)) category)
      && (is_empty query || in_text query (lower (type_name_of dt)))

  unfoldable pub type_row : D → TypeRow
  unfolding classify
  type_row dt = record {
    name = type_name_of dt;
    path = path_of dt;
    category = classify (class_name dt);
    size = length_of dt;
  }

  unfoldable pub list_data_types :
      String → List ℕ → List ℕ → ℕ → Dict (ProgramInfo P) → W → Result (Page TypeRow)
  unfolding lower get_program is_category is_asked type_row page
  list_data_types binary category query limit programs w = do
    reject_if (not (is_category valid_categories (lower category))) ("Invalid category" ∷ [])
    pi ← get_program binary programs
    ok (page (is_asked (lower category) (lower query)) type_row limit (all_data_types pi.program w))

  abbrev readable : Result (String × ℕ) → Option String × Option ℕ
  readable (err e) = (none, none)
  readable (ok (name, size)) = (some name, some size)

  unfoldable pub data_type_at : P → ℕ → W → Option String × Option ℕ
  data_type_at program addr w = elim (get_data_at program addr w) [
    | none ↦ (none, none)
    | some unit ↦ readable (data_name_and_length unit)
  ]

  abbrev label : Bool → Option String × Option ℕ → S → Label
  label primary (dt_name, dt_len) sym = record {
    address = symbol_address sym;
    name = symbol_name sym;
    kind = symbol_type sym;
    source = symbol_source sym;
    is_primary = primary;
    data_type = dt_name;
    data_length = dt_len;
  }

  unfoldable pub labels_in : P → ℕ → ℕ → ℕ → W → Page Label
  unfolding data_type_at page
  labels_in program addr end_addr limit w =
      page (λ sym. true) (λ sym. label true (data_type_at program (symbol_address sym) w) sym) limit
        (primary_symbols program addr end_addr w)

  unfoldable pub label_each : Option String × Option ℕ → List S → List Label
  label_each dt [] = []
  label_each dt (sym ∷ syms) = label (Tables.is_primary g sym) dt sym ∷ label_each dt syms

  unfoldable pub labels_at : P → ℕ → ℕ → W → Page Label
  unfolding data_type_at label_each
  labels_at program addr limit w =
      let syms = get_symbols program addr w in
      let labels = label_each (data_type_at program addr w) (take limit syms) in
      record { rows = labels; count = length labels; total = length syms }

  -- An address alone, or a range when its end is given.
  unfoldable pub list_labels :
      String → String → String → ℕ → Dict (ProgramInfo P) → W → Result (Page Label)
  unfolding get_program parse_address labels_in labels_at
  list_labels binary address_str end_str limit programs w = do
    reject_if (str_eq address_str "") ("Missing required argument: address" ∷ [])
    pi ← get_program binary programs
    addr ← parse_address get_address pi.program address_str
    if str_eq end_str "" then ok (labels_at pi.program addr limit w) else (do
      end_addr ← parse_address get_address pi.program end_str
      reject_if (ltb end_addr addr) ("address must be <= end" ∷ [])
      ok (labels_in pi.program addr end_addr limit w))

  unfoldable pub is_seen : String → List String → Bool
  is_seen name [] = false
  is_seen name (n ∷ names) = str_eq n name || is_seen name names

  unfoldable pub new_equates : List String → List Q → List Q
  unfolding is_seen
  new_equates seen [] = []
  new_equates seen (eq ∷ equates) = elim (is_seen (equate_name eq) seen) [
    | true ↦ new_equates seen equates
    | false ↦ eq ∷ new_equates (equate_name eq ∷ seen) equates
  ]

  -- From an operand on, with the operands that are left. The keys of `seen` end in the operand, so
  -- those of two operands differ.
  unfoldable pub operand_equates : ℕ → ℕ → P → ℕ → W → List (Q × ℕ)
  unfolding new_equates
  operand_equates zero op_idx program addr w = []
  operand_equates (suc n) op_idx program addr w =
      paired op_idx (new_equates [] (get_equates_at program addr op_idx w))
      ++ operand_equates n (op_idx + 1) program addr w
    where
      paired : ℕ → List Q → List (Q × ℕ)
      paired i [] = []
      paired i (eq ∷ equates) = (eq, i) ∷ paired i equates

  abbrev equate_row : Q → EquateRow
  equate_row eq = record {
    name = equate_name eq;
    value = equate_value eq;
    operand_index = none;
    address = none;
  }

  abbrev equate_row_at : ℕ → Q × ℕ → EquateRow
  equate_row_at addr (eq, op_idx) = record {
    name = equate_name eq;
    value = equate_value eq;
    operand_index = some op_idx;
    address = some addr;
  }

  unfoldable pub list_equates :
      String → String → ℕ → Dict (ProgramInfo P) → W → Result (Page EquateRow)
  unfolding get_program parse_address operand_equates page
  list_equates binary address_str limit programs w = do
    pi ← get_program binary programs
    if str_eq address_str ""
        then ok (page (λ eq. true) equate_row limit (get_equates pi.program w))
        else (do
          addr ← parse_address get_address pi.program address_str
          ok (page (λ eq. true) (equate_row_at addr) limit (operand_equates 8 0 pi.program addr w)))
