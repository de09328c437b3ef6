-- ===== src/Common/Exec.antt =====
-- Python code that may raise: a state comes back beside the result or the exception.
use Prim.Native.String.{String, ◌++◌ as ◌<>◌}
use mathlib.Core.Path.{◌≡◌, refl}
use mathlib.Core.Bool.{Bool, true, false}
use mathlib.Core.List.{List, [], ◌∷◌}

-- The exception classes that the code raises or tells apart.
pub data ExnType : Type 0 where
  value_error runtime_error file_not_found_error connection_refused_error timeout_error : ExnType
  os_error key_error type_error attribute_error other_error : ExnType

-- An exception: its class, and the parts of its message in order.
pub record Exn : Type 0 where
  pub kind : ExnType
  pub message : List String

-- The result of a call: the exception that it raised, or the value that it returned.
pub data Result {ℓ} (A : Type ℓ) : Type ℓ where
  err : Exn → Result A
  ok : A → Result A

abbrev pub raise {ℓ} : {A : Type ℓ} → ExnType → List String → Result A
raise k m = err (record { kind = k; message = m })

-- What comes after a call; an exception skips it.
abbrev pub and_then {ℓ κ} : {A : Type ℓ} {B : Type κ} → (A → Result B) → Result A → Result B
and_then next (err e) = err e
and_then next (ok a) = next a

infixl 6 ◌>>=◌ ◌>>◌
abbrev pub ◌>>=◌ {ℓ κ} : {A : Type ℓ} {B : Type κ} → Result A → (A → Result B) → Result B
call >>= next = and_then next call

abbrev pub ◌>>◌ {κ} : {B : Type κ} → Result (Unit {0}) → Result B → Result B
call >> next = and_then (λ _. next) call

-- `if test: raise ValueError(message)`
abbrev pub reject_if : Bool → List String → Result (Unit {0})
reject_if true m = raise value_error m
reject_if false m = ok tt

-- `type(e).__name__`; an exception of a class that the model does not tell apart has this name.
unfoldable pub type_name : ExnType → String
type_name value_error = "ValueError"
type_name runtime_error = "RuntimeError"
type_name file_not_found_error = "FileNotFoundError"
type_name connection_refused_error = "ConnectionRefusedError"
type_name timeout_error = "TimeoutError"
type_name os_error = "OSError"
type_name key_error = "KeyError"
type_name type_error = "TypeError"
type_name attribute_error = "AttributeError"
type_name other_error = "Exception"

-- `str(e)`
unfoldable pub message_text : List String → String
message_text [] = ""
message_text (part ∷ parts) = part <> message_text parts

-- A chain that returns has a first call that returns.
pub >>=-ok {ℓ κ} :
    {A : Type ℓ} {B : Type κ} (call : Result A) (next : A → Result B) {b : B}
    → and_then next call ≡ ok b
    → (a : A) × (call ≡ ok a) × (next a ≡ ok b)
>>=-ok (err e) next h = cc
>>=-ok (ok a) next h = (a, refl, h)

-- A chain behind a check returns only if the check is passed.
pub reject_if-passed {κ} :
    {B : Type κ} (test : Bool) (m : List String) {next : Result B} {b : B}
    → and_then (λ _. next) (reject_if test m) ≡ ok b
    → (test ≡ false) × (next ≡ ok b)
reject_if-passed true m h = cc
reject_if-passed false m h = (refl, h)
