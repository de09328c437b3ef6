-- ===== src/VersionTracking/Bulk.antt =====
-- `decompile_all` of ghidra_rpc/server/tools/version_tracking.py. The offset and the limit are
-- natural numbers; characters are below 256.
use ghidra_rpc_win.Common.{
  ℕ, ◌+◌, String, str_eq, Bool, true, false, not, ◌||◌, Option, none, some, List, [], ◌∷◌,
  if◌then◌else◌, is_empty, length, take, drop, keep,
}
use ghidra_rpc_win.Common.Dict.{Dict}
use ghidra_rpc_win.Common.Text.{codes, strip}
use ghidra_rpc_win.Common.Exec.{Result, ok, err, reject_if, ◌>>◌, message_text}
use ghidra_rpc_win.Context.{ProgramInfo, get_program}

-- What the decompiler gives: an error message, if any, and the text and signature, if any.
pub record Decompiled : Type 0 where
  pub error_message : Option String
  pub c_and_signature : Option (String × String)

-- The functions of a program, and a decompiler of its pool, which may raise.
pub record Decompiler : Type 1 where
  pub P : Type 0
  pub W : Type 0
  pub F : Type 0
  pub functions : P → W → List F
  pub is_external : F → Bool
  pub is_thunk : F → Bool
  pub name : F → String
  pub entry_point : F → String
  pub signature : F → String
  pub decompile : P → F → ℕ → W → Result Decompiled × W

pub record FunctionRow : Type 0 where
  pub name : String
  pub address : String
  pub signature : String
  pub c_code : Option String
  pub error : Option String

pub record Bulk : Type 0 where
  pub functions : List FunctionRow
  pub count : ℕ
  pub total : ℕ
  pub offset : ℕ
  pub errors : ℕ

-- `error_msg and error_msg.strip()`
abbrev pub is_message : Option String → Bool
is_message none = false
is_message (some text) = not (is_empty (strip (codes text)))

module _ (g : Decompiler) where
  open g use {P, W, F, functions, is_external, is_thunk, decompile}

  unfoldable pub own_functions : List F → List F
  own_functions fs = keep (λ f. not (is_external f || is_thunk f)) fs

  abbrev error_row : F → String → FunctionRow
  error_row f text = record {
    name = Decompiler.name g f;
    address = Decompiler.entry_point g f;
    signature = Decompiler.signature g f;
    c_code = none;
    error = some text;
  }

  abbrev pub code_row : F → Option (String × String) → FunctionRow
  code_row f none = record {
    name = Decompiler.name g f;
    address = Decompiler.entry_point g f;
    signature = Decompiler.signature g f;
    c_code = some "";
    error = none;
  }
  code_row f (some (c, signature)) = record {
    name = Decompiler.name g f;
    address = Decompiler.entry_point g f;
    signature = signature;
    c_code = some c;
    error = none;
  }

  abbrev text_or_empty : Option String → String
  text_or_empty none = ""
  text_or_empty (some text) = text

  -- The row of a function, an exception being a row too.
  unfoldable pub decompiled_row : F → Result Decompiled → FunctionRow
  decompiled_row f (err e) = error_row f (message_text e.message)
  decompiled_row f (ok d) =
      if is_message d.error_message
      then error_row f (text_or_empty d.error_message)
      else code_row f d.c_and_signature

  abbrev pub has_error : FunctionRow → Bool
  has_error row = elim row.error [ none ↦ false | some text ↦ true ]

  -- The loop: the rows, the number of errors, and the state.
  unfoldable pub decompile_each : P → ℕ → List F → W → List FunctionRow × ℕ × W
  unfolding decompiled_row
  decompile_each program timeout [] w = ([], 0, w)
  decompile_each program timeout (f ∷ fs) w =
      let (r, w') = decompile program f timeout w in
      let row = decompiled_row f r in
      let (rows, errors, w'') = decompile_each program timeout fs w' in
      (row ∷ rows, if has_error row then errors + 1 else errors, w'')

  -- `all_funcs[offset:]`, and `[:limit]` if there is one
  abbrev pub funcs_to_decompile : ℕ → Option ℕ → List F → List F
  funcs_to_decompile offset none fs = drop offset fs
  funcs_to_decompile offset (some limit) fs = take limit (drop offset fs)

  abbrev bulk : ℕ → ℕ → List FunctionRow × ℕ × W → Bulk × W
  bulk offset total (rows, errors, w) = (
    record {
      functions = rows;
      count = length rows;
      total = total;
      offset = offset;
      errors = errors;
    },
    w,
  )

  abbrev pub decompile_program : ℕ → Option ℕ → ℕ → P → W → Bulk × W
  decompile_program offset limit timeout program w =
      let all_funcs = own_functions (functions program w) in
      bulk offset (length all_funcs)
        (decompile_each program timeout (funcs_to_decompile offset limit all_funcs) w)

  abbrev decompile_found : ℕ → Option ℕ → ℕ → Result (ProgramInfo P) → W → Result Bulk × W
  decompile_found offset limit timeout (err e) w = (err e, w)
  decompile_found offset limit timeout (ok pi) w =
      let (b, w') = decompile_program offset limit timeout pi.program w in (ok b, w')

  unfoldable pub decompile_all :
      String → ℕ → Option ℕ → ℕ → Dict (ProgramInfo P) → W → Result Bulk × W
  unfolding get_program own_functions decompile_each
  decompile_all binary offset limit timeout programs w =
      decompile_found offset limit timeout
        (do
          reject_if (str_eq binary "") ("Missing required argument: binary" ∷ [])
          get_program binary programs)
        w
