-- ===== src/DataTypes/Creating.antt =====
-- ghidra_rpc/server/tools/data_types.py: creating structs, unions and enums. The type that a field
-- names is resolved as in DataTypes.
use ghidra_rpc_win.Common.{
  ℕ, zero, suc, ◌+◌, String, Bool, true, false, not, ◌||◌, ◌&&◌, Option, none, some, List, [], ◌∷◌,
  ◌==◌, if◌then◌else◌, is_empty, str_eq,
}
use ghidra_rpc_win.Common.Dict.{Dict}
use ghidra_rpc_win.Common.Text.{codes}
use ghidra_rpc_win.Common.Exec.{Result, ok, err, raise, value_error, reject_if, ◌>>=◌, ◌>>◌}
use ghidra_rpc_win.Context.{ProgramInfo, get_program}
use ghidra_rpc_win.DataTypes.{TypeManager, resolve_data_type}
use ghidra_rpc_win.DataTypes.Range.{Listing}

-- A field and a value of a request; a missing key is the empty text.
pub record Field : Type 0 where
  pub type_str : String
  pub name : String

pub record EnumValue : Type 0 where
  pub name : String
  pub value : ℕ

-- A component of a structure or a union.
pub record Component (D : Type 0) : Type 0 where
  pub offset : ℕ
  pub field_name : Option String
  pub data_type : D
  pub length : ℕ

-- Ghidra's structures, unions and enums. `add_struct` and `add_union` register an empty placeholder
-- and return the managed type. `E` is an enum that is not registered yet. A type of dynamic length
-- has length 0.
pub record Composites (g : TypeManager) : Type 1 where
  pub E : Type 0
  pub type_name_of : TypeManager.D g → TypeManager.W g → String
  pub path_of : TypeManager.D g → TypeManager.W g → String
  pub length_in : TypeManager.D g → TypeManager.W g → ℕ
  pub num_components : TypeManager.D g → TypeManager.W g → ℕ
  pub get_component : TypeManager.D g → ℕ → TypeManager.W g → Component (TypeManager.D g)
  pub enum_values : TypeManager.D g → TypeManager.W g → List EnumValue
  pub remove :
      TypeManager.P g → TypeManager.D g → TypeManager.W g → Result (Unit {0}) × TypeManager.W g
  pub add_struct :
      TypeManager.P g → String → TypeManager.W g → Result (TypeManager.D g) × TypeManager.W g
  pub add_union :
      TypeManager.P g → String → TypeManager.W g → Result (TypeManager.D g) × TypeManager.W g
  pub add_component :
      TypeManager.D g
      → TypeManager.D g
      → ℕ
      → String
      → TypeManager.W g
      → Result (Unit {0}) × TypeManager.W g
  pub new_enum : TypeManager.P g → String → ℕ → TypeManager.W g → Result E
  pub enum_add : E → String → ℕ → Result E
  pub add_enum : TypeManager.P g → E → TypeManager.W g → Result (TypeManager.D g) × TypeManager.W g

pub record FieldRow : Type 0 where
  pub offset : ℕ
  pub name : String
  pub data_type : String
  pub length : ℕ

-- The answer, with the fields or the values.
pub record Created (R : Type 0) : Type 0 where
  pub name : String
  pub path : String
  pub size : ℕ
  pub rows : List R
  pub already_existed : Bool

abbrev or_blank : Option String → String
or_blank none = ""
or_blank (some s) = s

module _ (g : TypeManager) (l : Listing g) (c : Composites g) where
  open g use {P, W, D, get_data_type}
  open l use {start_transaction, end_transaction, save}
  open c use {
    E, type_name_of, path_of, length_in, num_components, get_component, enum_values, remove,
    add_struct, add_union, add_component, new_enum, enum_add, add_enum,
  }

  abbrev field_row : Component D → W → FieldRow
  field_row comp w = record {
    offset = comp.offset;
    name = or_blank comp.field_name;
    data_type = type_name_of comp.data_type w;
    length = comp.length;
  }

  -- `for i in range(n)`, from `i` on with the rounds that are left
  unfoldable pub field_rows : ℕ → ℕ → D → W → List FieldRow
  field_rows zero i dt w = []
  field_rows (suc n) i dt w = field_row (get_component dt i w) w ∷ field_rows n (i + 1) dt w

  unfoldable pub summarise : D → W → List FieldRow
  unfolding field_rows
  summarise dt w = field_rows (num_components dt w) 0 dt w

  abbrev ended : {R : Type 0} → P → Result R × W → Result R × W
  ended program (err e, w) = (err e, end_transaction program false w)
  ended program (ok r, w) = (ok r, end_transaction program true w)

  abbrev in_transaction : {R : Type 0} → P → (W → Result R × W) → W → Result R × W
  in_transaction program body w = ended program (body (start_transaction program w))

  abbrev shown : {R : Type 0} → (D → W → List R) → Bool → D → W → Created R
  shown rows already dt w = record {
    name = type_name_of dt w;
    path = path_of dt w;
    size = length_in dt w;
    rows = rows dt w;
    already_existed = already;
  }

  abbrev added : {R : Type 0} → (D → W → List R) → Result D × W → Result (Created R) × W
  added rows (err e, w) = (err e, w)
  added rows (ok dt, w) = (ok (shown rows false dt w), w)

  abbrev rebuilt :
      {R : Type 0}
      → (D → W → List R)
      → (W → Result D × W)
      → Result (Unit {0}) × W
      → Result (Created R) × W
  rebuilt rows build (err e, w) = (err e, w)
  rebuilt rows build (ok u, w) = added rows (build w)

  -- `do_create`: a type of that name is returned, removed in a transaction of its own, or refused.
  unfoldable pub create_type :
      {R : Type 0}
      → (D → W → List R)
      → P
      → String
      → Bool
      → Bool
      → (W → Result D × W)
      → W
      → Result (Created R) × W
  create_type rows program name if_not_exists or_replace build w =
      elim (get_data_type program (47 ∷ codes name) w) [
        | none ↦ added rows (build w)
        | some existing ↦
            if if_not_exists
            then (ok (shown rows true existing w), w)
            else if or_replace
            then rebuilt rows build (in_transaction program (remove program existing) w)
            else (raise value_error ("Data type already exists." ∷ []), w)
      ]

  -- The type of a field, which must have a length.
  unfoldable pub field_type : P → Field → W → Result D
  unfolding resolve_data_type
  field_type program field w = do
    reject_if (str_eq field.type_str "" || str_eq field.name "")
        ("Each field must have 'type' and 'name'" ∷ [])
    fdt ← resolve_data_type g program (codes field.type_str) w
    reject_if (length_in fdt w == 0) ("The type of a field is dynamic-length" ∷ [])
    ok fdt

  abbrev then_next : (W → Result (Unit {0}) × W) → Result (Unit {0}) × W → Result (Unit {0}) × W
  then_next next (err e, w) = (err e, w)
  then_next next (ok u, w) = next w

  abbrev pub add_field :
      D → Field → (W → Result (Unit {0}) × W) → Result D → W → Result (Unit {0}) × W
  add_field resolved field next (err e) w = (err e, w)
  add_field resolved field next (ok fdt) w =
      then_next next (add_component resolved fdt (length_in fdt w) field.name w)

  unfoldable pub add_fields : P → D → List Field → W → Result (Unit {0}) × W
  unfolding field_type
  add_fields program resolved [] w = (ok tt, w)
  add_fields program resolved (field ∷ fields) w =
      add_field resolved field (add_fields program resolved fields) (field_type program field w) w

  abbrev filled : D → Result (Unit {0}) × W → Result D × W
  filled resolved (err e, w) = (err e, w)
  filled resolved (ok u, w) = (ok resolved, w)

  -- `_build_struct` and `_build_union`, from the registered placeholder on
  unfoldable pub build_fields : P → List Field → Result D × W → Result D × W
  unfolding add_fields
  build_fields program fields (err e, w) = (err e, w)
  build_fields program fields (ok resolved, w) =
      filled resolved (add_fields program resolved fields w)

  abbrev saved : {R : Type 0} → R → Result (Unit {0}) × W → Result R × W
  saved r (err e, w) = (err e, w)
  saved r (ok u, w) = (ok r, w)

  abbrev then_save : {R : Type 0} → P → Result R × W → Result R × W
  then_save program (err e, w) = (err e, w)
  then_save program (ok r, w) = saved r (save program w)

  abbrev handled : {R : Type 0} → Result (ProgramInfo P) → (P → W → Result R × W) → W → Result R × W
  handled (err e) body w = (err e, w)
  handled (ok pi) body w = then_save pi.program (body pi.program w)

  unfoldable pub composite_request :
      String → String → List Field → Bool → Dict (ProgramInfo P) → Result (ProgramInfo P)
  unfolding get_program
  composite_request binary name fields if_not_exists programs = do
    reject_if (str_eq name "") ("Missing required argument: name" ∷ [])
    reject_if (is_empty fields && not if_not_exists) ("At least one field is required" ∷ [])
    get_program binary programs

  unfoldable pub create_struct :
      String
      → String
      → List Field
      → Bool
      → Bool
      → Dict (ProgramInfo P)
      → W
      → Result (Created FieldRow) × W
  unfolding summarise create_type build_fields composite_request
  create_struct binary name fields if_not_exists or_replace programs w =
      handled (composite_request binary name fields if_not_exists programs)
        (λ program.
          create_type summarise program name if_not_exists or_replace
            (in_transaction program (λ v. build_fields program fields (add_struct program name v))))
        w

  unfoldable pub create_union :
      String
      → String
      → List Field
      → Bool
      → Bool
      → Dict (ProgramInfo P)
      → W
      → Result (Created FieldRow) × W
  unfolding summarise create_type build_fields composite_request
  create_union binary name fields if_not_exists or_replace programs w =
      handled (composite_request binary name fields if_not_exists programs)
        (λ program.
          create_type summarise program name if_not_exists or_replace
            (in_transaction program (λ v. build_fields program fields (add_union program name v))))
        w

  -- The values are added to an enum that is not registered yet.
  unfoldable pub fill_enum : List EnumValue → E → Result E
  fill_enum [] e = ok e
  fill_enum (entry ∷ values) e = do
    reject_if (str_eq entry.name "") ("Each value entry must have 'name'" ∷ [])
    with_entry ← enum_add e entry.name entry.value
    fill_enum values with_entry

  abbrev register_enum : P → Result E → W → Result D × W
  register_enum program (err e) w = (err e, w)
  register_enum program (ok e) w = in_transaction program (add_enum program e) w

  unfoldable pub build_enum : P → String → ℕ → List EnumValue → W → Result D × W
  unfolding fill_enum
  build_enum program name size values w =
      register_enum program (do e ← new_enum program name size w; fill_enum values e) w

  unfoldable pub enum_request :
      String → String → List EnumValue → ℕ → Bool → Dict (ProgramInfo P) → Result (ProgramInfo P)
  unfolding get_program
  enum_request binary name values size if_not_exists programs = do
    reject_if (str_eq name "") ("Missing required argument: name" ∷ [])
    reject_if (not (size == 1 || size == 2 || size == 4 || size == 8))
        ("Invalid enum size. Must be 1, 2, 4, or 8." ∷ [])
    reject_if (is_empty values && not if_not_exists) ("At least one value is required" ∷ [])
    get_program binary programs

  unfoldable pub create_enum :
      String
      → String
      → List EnumValue
      → ℕ
      → Bool
      → Bool
      → Dict (ProgramInfo P)
      → W
      → Result (Created EnumValue) × W
  unfolding create_type build_enum enum_request
  create_enum binary name values size if_not_exists or_replace programs w =
      handled (enum_request binary name values size if_not_exists programs)
        (λ program.
          create_type enum_values program name if_not_exists or_replace
            (build_enum program name size values))
        w
