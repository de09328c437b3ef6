-- ===== src/DataTypes.antt =====
-- `_resolve_data_type` of ghidra_rpc/server/tools/modifications.py: from the text of a type to a
-- Ghidra data type. Texts are lists of characters, digits are ASCII, and there is no line break.
pub mod Creating
pub mod Expressions
pub mod Listings
pub mod Range
pub mod Stamping
use ghidra_rpc_win.Common.{
  ℕ, zero, suc, ◌+◌, ◌-◌, ◌*◌, String, Bool, true, false, not, ◌||◌, ◌&&◌, Option, none, some, List,
  [], ◌∷◌, ◌++◌, leb, ◌==◌, if◌then◌else◌, is_empty, length,
}
use ghidra_rpc_win.Common.Dict.{Dict}
use ghidra_rpc_win.Common.Text.{codes, text_eq, strip, lower, starts_with}
use ghidra_rpc_win.Common.Exec.{Exn, Result, ok, err, raise, value_error, runtime_error, and_then}

-- Ghidra's data types: a class of ghidra.program.model.data by its name, if it can be loaded, the
-- constructors for pointers and arrays, and the program's data type manager.
pub record TypeManager : Type 1 where
  pub P : Type 0
  pub W : Type 0
  pub D : Type 0
  pub class_instance : String → Option D
  pub pointer_data_type : P → D → D
  pub array_data_type : D → ℕ → D
  pub get_data_type : P → List ℕ → W → Option D
  pub find_data_types : P → List ℕ → W → List D

-- `t[:-1]`, where t ends with a star
unfoldable pub without_star : List ℕ → Option (List ℕ)
without_star [] = none
without_star (c ∷ []) = if c == 42 then some [] else none
without_star (c ∷ d ∷ t) =
    let rest = without_star (d ∷ t) in elim rest [ none ↦ none | some u ↦ some (c ∷ u) ]

-- The value of the digits before a bracket that ends the text, at least one.
unfoldable pub count_digits : ℕ → Bool → List ℕ → Option ℕ
count_digits n seen [] = none
count_digits n seen (c ∷ t) =
    let rest = count_digits (10 * n + (c - 48)) true t in
    if c == 93
    then (if is_empty t && seen then some n else none)
    else if leb 48 c && leb c 57
    then rest
    else none

abbrev pub longer_base : ℕ → Option (List ℕ × ℕ) → Option (List ℕ × ℕ)
longer_base c none = none
longer_base c (some (base, count)) = some (c ∷ base, count)

abbrev pub bracket_or : Option ℕ → Option (List ℕ × ℕ) → Option (List ℕ × ℕ)
bracket_or none later = later
bracket_or (some count) later = some ([], count)

-- `(.+?)\s*\[(\d+)\]`, less the test that the base is not empty
unfoldable pub array_parts : List ℕ → Option (List ℕ × ℕ)
unfolding count_digits
array_parts [] = none
array_parts (c ∷ t) =
    let later = longer_base c (array_parts t) in
    if c == 91 then bracket_or (count_digits 0 false t) later else later

abbrev pub array_match : Option (List ℕ × ℕ) → Option (List ℕ × ℕ)
array_match none = none
array_match (some (base, count)) = if is_empty base then none else some (base, count)

abbrev string_aliases : List String
string_aliases = "string" ∷ "cstring" ∷ "c_string" ∷ "terminated_string" ∷ []

abbrev unicode_aliases : List String
unicode_aliases = "unicode" ∷ "wstring" ∷ "terminated_unicode" ∷ []

abbrev pub builtins : Dict String
builtins =
    ("byte", "ByteDataType")
    ∷ ("char", "CharDataType")
    ∷ ("word", "WordDataType")
    ∷ ("dword", "DWordDataType")
    ∷ ("qword", "QWordDataType")
    ∷ ("int", "IntegerDataType")
    ∷ ("uint", "UnsignedIntegerDataType")
    ∷ ("short", "ShortDataType")
    ∷ ("ushort", "UnsignedShortDataType")
    ∷ ("long", "LongDataType")
    ∷ ("ulong", "UnsignedLongDataType")
    ∷ ("float", "FloatDataType")
    ∷ ("double", "DoubleDataType")
    ∷ ("void", "VoidDataType")
    ∷ ("bool", "BooleanDataType")
    ∷ ("boolean", "BooleanDataType")
    ∷ ("pointer", "PointerDataType")
    ∷ []

-- `t.lower() in names`
unfoldable pub is_one_of : List ℕ → List String → Bool
unfolding text_eq
is_one_of t [] = false
is_one_of t (name ∷ names) = text_eq t (codes name) || is_one_of t names

-- `_BUILTINS.get(t.lower())`
unfoldable pub builtin_class : List ℕ → Dict String → Option String
unfolding text_eq
builtin_class t [] = none
builtin_class t ((name, cls) ∷ table) =
    let rest = builtin_class t table in if text_eq t (codes name) then some cls else rest

module _ (g : TypeManager) where
  open g use {
    P, W, D, class_instance, pointer_data_type, array_data_type, get_data_type, find_data_types,
  }

  -- The first class that can be loaded.
  abbrev first_class : List String → Option D
  first_class [] = none
  first_class (cls ∷ classes) = elim (class_instance cls) [
    | some d ↦ some d
    | none ↦ first_class classes
  ]

  abbrev class_of : Option String → Option D
  class_of none = none
  class_of (some cls) = class_instance cls

  abbrev or_else : Option D → Option D → Option D
  or_else (some d) other = some d
  or_else none other = other

  -- The aliases of texts, of wide texts, and the built-in names; a class that cannot be loaded leads
  -- to the next.
  unfoldable pub built_in : List ℕ → Option D
  unfolding is_one_of builtin_class lower
  built_in t =
      or_else
        (if is_one_of (lower t) string_aliases
          then first_class ("TerminatedCStringDataType" ∷ "StringDataType" ∷ [])
          else none)
        (or_else
          (if is_one_of (lower t) unicode_aliases
            then first_class ("TerminatedUnicode32DataType" ∷ "TerminatedUnicodeDataType" ∷ [])
            else none)
          (class_of (builtin_class (lower t) builtins)))

  abbrev only_hit : List D → Result D
  only_hit [] = raise value_error ("Unknown data type." ∷ [])
  only_hit (d ∷ []) = ok d
  only_hit (d ∷ e ∷ _) = raise value_error ("Ambiguous type." ∷ [])

  -- The data type manager: the path, then the name in all categories.
  unfoldable pub lookup_type : P → List ℕ → W → Result D
  unfolding starts_with
  lookup_type program t w =
      let path = if starts_with (codes "/") t then t else 47 ∷ t in
      elim (get_data_type program path w) [
        | some d ↦ ok d
        | none ↦ only_hit (find_data_types program t w)
      ]

  abbrev named_or_looked_up : Option D → Result D → Result D
  named_or_looked_up (some d) found = ok d
  named_or_looked_up none found = found

  unfoldable pub resolve_name : P → List ℕ → W → Result D
  unfolding built_in lookup_type
  resolve_name program t w = named_or_looked_up (built_in t) (lookup_type program t w)

  abbrev as_array : P → List ℕ → W → (List ℕ → Result D) → Option (List ℕ × ℕ) → Result D
  as_array program t w recurse none = resolve_name program t w
  as_array program t w recurse (some (base, count)) =
      and_then (λ d. ok (array_data_type d count)) (recurse base)

  abbrev as_pointer : P → List ℕ → W → (List ℕ → Result D) → Option (List ℕ) → Result D
  as_pointer program t w recurse none = as_array program t w recurse (array_match (array_parts t))
  as_pointer program t w recurse (some base) =
      and_then (λ d. ok (pointer_data_type program d)) (recurse base)

  -- A stripped text, with the recursive call as an argument.
  unfoldable pub resolve_text : P → (List ℕ → Result D) → List ℕ → W → Result D
  unfolding without_star array_parts resolve_name
  resolve_text program recurse t w = as_pointer program t w recurse (without_star t)

  -- With fuel; each call takes a character off the text.
  unfoldable pub resolve_steps : ℕ → P → List ℕ → W → Result D
  unfolding resolve_text
  resolve_steps zero program text w = raise runtime_error []
  resolve_steps (suc n) program text w =
      resolve_text program (λ base. resolve_steps n program (strip base) w) (strip text) w

  unfoldable pub resolve_data_type : P → List ℕ → W → Result D
  unfolding resolve_steps
  resolve_data_type program text w = resolve_steps (length text + 1) program text w
