-- ===== src/Context.antt =====
-- ghidra_rpc/server/context.py: looking programs up, addresses, running analysis and saving.
-- `P` is the type of Ghidra's program handles.
pub mod Lookup
pub mod Saving
pub mod Loading
use ghidra_rpc_win.Common.{
  ℕ, ◌+◌, zero, suc, String, str_eq, Bool, true, false, ◌||◌, Option, none, some, List, [], ◌∷◌,
  ◌++◌, ltb, ◌==◌, if◌then◌else◌, is_empty,
}
use ghidra_rpc_win.Common.Dict
use ghidra_rpc_win.Common.Dict.{Dict}
use ghidra_rpc_win.Common.Text.{codes, text_eq, in_text}
use ghidra_rpc_win.Common.Exec.{Exn, Result, ok, err, raise, value_error}

pub record ProgramInfo (P : Type 0) : Type 0 where
  pub name : String
  pub program : P
  pub analysis_complete : Bool
  pub file_path : Option String

-- The components of a path: what stands between slashes, without the empty ones and `.`.
abbrev add_component : List ℕ → List (List ℕ) → List (List ℕ)
add_component w ws = if is_empty w || text_eq w (46 ∷ []) then ws else w ∷ ws

unfoldable pub components : List ℕ → List ℕ → List (List ℕ)
unfolding text_eq
components w [] = add_component w []
components w (c ∷ t) =
    let next = components [] t in
    let longer = components (w ++ c ∷ []) t in if c == 47 then add_component w next else longer

abbrev last_or_empty : List (List ℕ) → List ℕ
last_or_empty [] = []
last_or_empty (w ∷ []) = w
last_or_empty (w ∷ v ∷ ws) = last_or_empty (v ∷ ws)

-- `Path(key).name`, for a POSIX path
unfoldable pub path_name : List ℕ → List ℕ
unfolding components
path_name key = last_or_empty (components [] key)

module _ {P : Type 0} where
  -- `binary == pi.name or binary == Path(key).name or binary in key`
  unfoldable pub matches : String → String → ProgramInfo P → Bool
  unfolding path_name in_text text_eq
  matches binary key pi =
      str_eq binary pi.name
      || text_eq (codes binary) (path_name (codes key))
      || in_text (codes binary) (codes key)

  unfoldable pub candidates : String → Dict (ProgramInfo P) → List (ProgramInfo P)
  unfolding matches
  candidates binary [] = []
  candidates binary ((key, pi) ∷ programs) =
      let rest = candidates binary programs in if matches binary key pi then pi ∷ rest else rest

  abbrev pick : String → List (ProgramInfo P) → Result (ProgramInfo P)
  pick binary [] = raise value_error ("Binary '" ∷ binary ∷ "' not found." ∷ [])
  pick binary (pi ∷ []) = ok pi
  pick binary (pi ∷ qi ∷ _) = raise value_error ("Ambiguous binary name '" ∷ binary ∷ "'." ∷ [])

  abbrev exact_or_pick : Option (ProgramInfo P) → Result (ProgramInfo P) → Result (ProgramInfo P)
  exact_or_pick (some pi) picked = ok pi
  exact_or_pick none picked = picked

  unfoldable pub get_program : String → Dict (ProgramInfo P) → Result (ProgramInfo P)
  unfolding candidates
  get_program binary programs =
      exact_or_pick (Dict.lookup binary programs) (pick binary (candidates binary programs))

-- `flat_api.analyzeAll` ends after some seconds, with or without an exception.
pub record Analysis : Type 0 where
  pub seconds : ℕ
  pub outcome : Result (Unit {0})

abbrev completed : Result (Unit {0}) → Result Bool
completed (ok u) = ok true
completed (err e) = err e

-- What the worker raises after the timeout is never seen.
unfoldable pub run_analysis : Analysis → Option ℕ → Result Bool
run_analysis run none = completed run.outcome
run_analysis run (some timeout) =
    if ltb timeout run.seconds then ok false else completed run.outcome

-- One `df.save`: saved, refused for an active transaction, or another exception.
pub data SaveAttempt : Type 0 where
  saved active_transaction : SaveAttempt
  save_failed : Exn → SaveAttempt

-- How `GuiContext.save_program` ends: saved, given up with a warning, or raised.
pub data SaveOutcome : Type 0 where
  done gave_up : SaveOutcome
  save_raised : Exn → SaveOutcome

-- The rounds of the loop that are left, and the attempts of those rounds.
unfoldable pub save_rounds : ℕ → (ℕ → SaveAttempt) → SaveOutcome
save_rounds zero attempt = gave_up
save_rounds (suc left) attempt = elim (attempt 0) [
  | saved ↦ done
  | active_transaction ↦ save_rounds left (λ n. attempt (suc n))
  | save_failed e ↦ save_raised e
]

-- `for attempt in range(6)`
unfoldable pub save_program : (ℕ → SaveAttempt) → SaveOutcome
save_program attempt = save_rounds 6 attempt

-- `address[2:] if address.lower().startswith("0x") else address`
abbrev pub without_prefix : List ℕ → List ℕ
without_prefix (z ∷ x ∷ t) =
    if z == 48 then (if x == 120 || x == 88 then t else z ∷ x ∷ t) else z ∷ x ∷ t
without_prefix t = t

abbrev pub address_or_error {ℓ} : {A : Type ℓ} → Option A → Result A
address_or_error none = raise value_error ("Invalid address: " ∷ [])
address_or_error (some a) = ok a

-- `_parse_address`, over Ghidra's address factory, which gives nothing for a text that it cannot read
unfoldable pub parse_address : {P A : Type 0} → (P → List ℕ → Option A) → P → String → Result A
parse_address get_address program address =
    address_or_error (get_address program (without_prefix (codes address)))
