-- ===== src/Functions.antt =====
-- `_find_function` of ghidra_rpc/server/tools/decompiler.py, and `ghidra_transaction` of
-- ghidra_rpc/server/tools/modifications.py. Names are lists of characters, in ASCII case.
pub mod Resolve
use ghidra_rpc_win.Common.{
  ℕ, String, Bool, true, false, ◌||◌, Option, none, some, List, [], ◌∷◌, if◌then◌else◌, drop,
}
use ghidra_rpc_win.Common.Text.{codes, text_eq, in_text, starts_with, lower}
use ghidra_rpc_win.Common.Exec.{Exn, Result, ok, err, raise, value_error}

-- Ghidra's functions of a program, and its transactions.
pub record FunctionManager : Type 1 where
  pub P : Type 0
  pub W : Type 0
  pub Address : Type 0
  pub Function : Type 0
  pub get_address : P → List ℕ → Result (Option Address)
  pub function_at : P → Address → W → Result (Option Function)
  pub function_containing : P → Address → W → Result (Option Function)
  pub functions : P → W → List Function
  pub name : Function → W → List ℕ
  pub start_transaction : P → W → W
  pub end_transaction : P → Bool → W → W

abbrev pub is_ok : {A : Type 0} → Result A → Bool
is_ok (err e) = false
is_ok (ok a) = true

module _ (g : FunctionManager) where
  open g use {
    P, W, Address, Function, get_address, function_at, function_containing, functions, name,
    start_transaction, end_transaction,
  }

  -- The body of a `with ghidra_transaction`, committed where it does not raise.
  unfoldable pub ghidra_transaction : P → (W → Result (Unit {0}) × W) → W → Result (Unit {0}) × W
  ghidra_transaction program body w =
      let (r, w') = body (start_transaction program w) in (r, end_transaction program (is_ok r) w')

  -- An exception on the way leads to the search by name.
  abbrev containing_or_none : Result (Option Function) → Option Function
  containing_or_none (err e) = none
  containing_or_none (ok found) = found

  abbrev at_or_containing : P → Address → W → Result (Option Function) → Option Function
  at_or_containing program addr w (err e) = none
  at_or_containing program addr w (ok (some func)) = some func
  at_or_containing program addr w (ok none) =
      containing_or_none (function_containing program addr w)

  abbrev at_address : P → W → Result (Option Address) → Option Function
  at_address program w (err e) = none
  at_address program w (ok none) = none
  at_address program w (ok (some addr)) =
      at_or_containing program addr w (function_at program addr w)

  abbrev pub looks_like_address : List ℕ → Bool
  looks_like_address t = starts_with (codes "0x") t || starts_with (codes "0X") t

  unfoldable pub find_by_address : P → List ℕ → W → Option Function
  unfolding starts_with
  find_by_address program target w =
      if looks_like_address target
      then at_address program w (get_address program (drop 2 target))
      else none

  abbrev pub is_exact : List ℕ → W → Function → Bool
  is_exact target w func = text_eq (lower (name func w)) (lower target)

  abbrev pub is_part : List ℕ → W → Function → Bool
  is_part target w func = in_text (lower target) (lower (name func w))

  -- The exact matches and the partial ones, in the order of the functions.
  unfoldable pub find_matches : List ℕ → W → List Function → List Function × List Function
  unfolding text_eq in_text lower
  find_matches target w [] = ([], [])
  find_matches target w (func ∷ funcs) =
      let rest = find_matches target w funcs in
      if is_exact target w func
      then (func ∷ rest.0, rest.1)
      else if is_part target w func
      then (rest.0, func ∷ rest.1)
      else rest

  abbrev pub only_partial : List Function → Result Function
  only_partial [] = raise value_error ("Function not found." ∷ [])
  only_partial (func ∷ []) = ok func
  only_partial (func ∷ other ∷ _) =
      raise value_error ("Ambiguous function name. Partial matches: " ∷ [])

  abbrev pub choose : List Function → List Function → Result Function
  choose [] partial_matches = only_partial partial_matches
  choose (func ∷ []) partial_matches = ok func
  choose (func ∷ other ∷ _) partial_matches =
      raise value_error ("Ambiguous function name. Matches: " ∷ [])

  abbrev pub found_or_named : Option Function → Result Function → Result Function
  found_or_named (some func) named = ok func
  found_or_named none named = named

  unfoldable pub find_function : P → List ℕ → W → Result Function
  unfolding find_by_address find_matches
  find_function program target w =
      let (exact_matches, partial_matches) = find_matches target w (functions program w) in
      found_or_named (find_by_address program target w) (choose exact_matches partial_matches)
