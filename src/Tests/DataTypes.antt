-- ===== src/Tests/DataTypes.antt =====
-- Runs of the reading of types, of stamping a range, and of replacing a struct.
use ghidra_rpc_win.Common.{
  ℕ, ◌+◌, ◌*◌, ◌≡◌, refl, Bool, true, false, ◌&&◌, none, some, List, [], ◌∷◌, length, arith, ◌==◌,
  if◌then◌else◌,
}
use ghidra_rpc_win.Common.Text.{codes, is_space, lstrip, rstrip, text_eq, in_text}
use ghidra_rpc_win.Common.Exec.{Exn, ok, err, os_error, value_error}
use ghidra_rpc_win.Common.Dict
use ghidra_rpc_win.Common.Dict.{Dict}
use ghidra_rpc_win.Context.{ProgramInfo, get_program}
use ghidra_rpc_win.DataTypes.{TypeManager, without_star, array_parts, resolve_data_type}
use ghidra_rpc_win.DataTypes.Expressions.{
  TypeExpr, named, pointer_to, array_of, print, IsExpr, build, resolve_data_type-print,
}
use ghidra_rpc_win.DataTypes.Range.{Listing, stamp_range}
use ghidra_rpc_win.DataTypes.Creating.{Field, Composites, create_struct}
use ghidra_rpc_win.DataTypes.Listings.{classify}
use ghidra_rpc_win.DataTypes.Stamping.{targets, stamp_all, stamp_range_lem}

-- A data type is its length; every class has four bytes, a pointer eight.
abbrev types : TypeManager
types = record {
  P = Unit {0};
  W = List ℕ;
  D = ℕ;
  class_instance = λ cls. some 4;
  pointer_data_type = λ program d. 8;
  array_data_type = λ d count. d * count;
  get_data_type = λ program path w. none;
  find_data_types = λ program name w. [];
}

-- `int *[12]`
abbrev pointers : TypeExpr
pointers = array_of (pointer_to (named (codes "int"))) (49 ∷ 50 ∷ [])

pointers-IsExpr : IsExpr pointers
unfolding is_space rstrip without_star array_parts
pointers-IsExpr = (
  record { starts = refl; ends = refl; no_star = refl; no_array = refl },
  refl,
  (refl, (refl, tt)),
)

resolve_data_type-print_example :
    resolve_data_type types tt (print pointers) [] ≡ build types tt pointers []
resolve_data_type-print_example = resolve_data_type-print types tt pointers [] pointers-IsExpr

abbrev taken : Exn
taken = record { kind = os_error; message = [] }

-- Data can be created everywhere but at 104.
abbrev listing : Listing types
listing = record {
  get_address = λ program t. some 0;
  last_offset = λ program. 255;
  length_of = λ d. d;
  clear_code_units = λ program a b w. (ok tt, []);
  create_data = λ program addr d w. if addr == 104 then (err taken, w) else (ok tt, addr ∷ w);
  start_transaction = λ program w. w;
  end_transaction = λ program b w. w;
  invalidate_all = λ program w. w;
  save = λ program w. (ok tt, w);
}

-- Three types of four bytes fit into fourteen.
stamp_range_lem_example :
    let s = stamp_range types listing 14 tt 4 4 113 100 [] in
    (s ≡ stamp_all types listing (targets 3 4 100) tt 4 []) × (s.applied + length s.errors ≡ 3)
stamp_range_lem_example =
    stamp_range_lem types listing 3 tt 4 4 100 113 [] (omega arith) (omega arith) (omega arith)
      (omega arith) (omega arith)

-- The world says whether `Node` is registered, now and when the transaction started. A type is its
-- length.
abbrev is_there : Bool × Bool → Bool
is_there (now, before) = now

abbrev set_there : Bool → Bool × Bool → Bool × Bool
set_there there (now, before) = (there, before)

abbrev begun : Bool × Bool → Bool × Bool
begun (now, before) = (now, now)

abbrev committed_or_not : Bool → Bool × Bool → Bool × Bool
committed_or_not true w = w
committed_or_not false (now, before) = (before, before)

abbrev one_struct : TypeManager
one_struct = record {
  P = Unit {0};
  W = Bool × Bool;
  D = ℕ;
  class_instance = λ cls. some 4;
  pointer_data_type = λ program d. 8;
  array_data_type = λ d count. d * count;
  get_data_type =
      λ program path w. if text_eq path (codes "/Node") && is_there w then some 12 else none;
  find_data_types = λ program name w. [];
}

abbrev one_listing : Listing one_struct
one_listing = record {
  get_address = λ program t. some 0;
  last_offset = λ program. 255;
  length_of = λ d. d;
  clear_code_units = λ program a b w. (ok tt, w);
  create_data = λ program addr d w. (ok tt, w);
  start_transaction = λ program w. begun w;
  end_transaction = λ program committed w. committed_or_not committed w;
  invalidate_all = λ program w. w;
  save = λ program w. (ok tt, w);
}

abbrev composites : Composites one_struct
composites = record {
  E = Unit {0};
  type_name_of = λ d w. "Node";
  path_of = λ d w. "/Node";
  length_in = λ d w. d;
  num_components = λ d w. 1;
  get_component =
      λ d i w. record { offset = 0; field_name = some "next"; data_type = 8; length = 8 };
  enum_values = λ d w. [];
  remove = λ program d w. (ok tt, set_there false w);
  add_struct = λ program name w. (ok 12, set_there true w);
  add_union = λ program name w. (ok 12, set_there true w);
  add_component = λ d field n name w. (ok tt, w);
  new_enum = λ program name size w. ok tt;
  enum_add = λ e name value. ok e;
  add_enum = λ program e w. (ok 12, set_there true w);
}

abbrev next_field : Field
next_field = record { type_str = "Node *"; name = "next" }

abbrev bad_field : Field
bad_field = record { type_str = "Missing"; name = "next" }

abbrev node_programs : Dict (ProgramInfo Unit)
node_programs =
    ("/ls", record { name = "ls"; program = tt; analysis_complete = true; file_path = none }) ∷ []

create_struct_run :
    create_struct one_struct one_listing composites "ls" "Node"
      (next_field ∷ [])
      false
      true
      node_programs
      (true, true)
    ≡ (
      ok (record {
        name = "Node";
        path = "/Node";
        size = 12;
        rows = record { offset = 0; name = "next"; data_type = "Node"; length = 8 } ∷ [];
        already_existed = false;
      }),
      (true, false),
    )
unfolding create_struct get_program Dict.lookup in_text text_eq rstrip lstrip is_space
create_struct_run = refl

-- Replacing by a struct with a field of an unknown type fails, and the old struct is gone.
create_struct_loss :
    create_struct one_struct one_listing composites "ls" "Node"
      (bad_field ∷ [])
      false
      true
      node_programs
      (true, true)
    ≡ (err (record { kind = value_error; message = "Unknown data type." ∷ [] }), (false, false))
unfolding create_struct get_program Dict.lookup in_text text_eq rstrip lstrip is_space
create_struct_loss = refl

struct_class : classify (some (codes "StructureDB")) ≡ codes "struct"
unfolding classify in_text
struct_class = refl
