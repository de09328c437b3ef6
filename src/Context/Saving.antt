-- ===== src/Context/Saving.antt =====
-- When saving in GUI mode raises, and when it gives up.
use ghidra_rpc_win.Common.{ℕ, zero, suc, ◌<◌, ◌≡◌, refl, ◌∙◌, ◌↔◌, arith}
use ghidra_rpc_win.Common.Exec.{Exn}
use ghidra_rpc_win.Context.{
  SaveAttempt, saved, active_transaction, save_failed, save_raised, save_rounds, save_program,
}

-- The first attempt below a bound that an active transaction does not refuse raises `e`.
abbrev pub RaisesAt : (ℕ → SaveAttempt) → ℕ → Exn → Type 0
RaisesAt attempt bound e =
    (n : ℕ) × (n < bound)
    × (attempt n ≡ save_failed e)
    × ((m : ℕ) → m < n → attempt m ≡ active_transaction)

rounds_raise :
    (left : ℕ) (attempt : ℕ → SaveAttempt) (e : Exn) (a : SaveAttempt)
    → attempt 0 ≡ a
    → (save_rounds left (λ n. attempt (suc n)) ≡ save_raised e
        → RaisesAt (λ n. attempt (suc n)) left e)
    → save_rounds (suc left) attempt ≡ save_raised e
    → RaisesAt attempt (suc left) e
unfolding save_rounds
rounds_raise left attempt e saved first ih h = cc (rw (first, save_rounds) at h)
rounds_raise left attempt e active_transaction first ih h =
    let (n, lt, fails, before) = ih (rw (first, save_rounds) at h) in
    (suc n, omega arith, fails, earlier n before)
  where
    earlier :
        (n : ℕ)
        → ((m : ℕ) → m < n → attempt (suc m) ≡ active_transaction)
        → (m : ℕ) → m < suc n
        → attempt m ≡ active_transaction
    earlier n before zero lt = first
    earlier n before (suc m) lt = before m (omega arith)
rounds_raise left attempt e (save_failed x) first ih h =
    (0, omega arith, first ∙ cc (rw (first, save_rounds) at h), λ m lt. absurd (omega arith))

save_rounds-RaisesAt :
    (left : ℕ) (attempt : ℕ → SaveAttempt) (e : Exn)
    → save_rounds left attempt ≡ save_raised e
    → RaisesAt attempt left e
unfolding save_rounds
save_rounds-RaisesAt zero attempt e h = cc
save_rounds-RaisesAt (suc left) attempt e h =
    rounds_raise left attempt e (attempt 0) refl
      (save_rounds-RaisesAt left (λ n. attempt (suc n)) e) h

RaisesAt-save_rounds :
    (left : ℕ) (attempt : ℕ → SaveAttempt) (e : Exn) (n : ℕ)
    → n < left
    → attempt n ≡ save_failed e
    → ((m : ℕ) → m < n → attempt m ≡ active_transaction)
    → save_rounds left attempt ≡ save_raised e
unfolding save_rounds
RaisesAt-save_rounds zero attempt e n lt fails before = absurd (omega arith)
RaisesAt-save_rounds (suc left) attempt e zero lt fails before = rw (fails, save_rounds)
RaisesAt-save_rounds (suc left) attempt e (suc n) lt fails before =
    rw (before 0 (omega arith), save_rounds)
      (RaisesAt-save_rounds left (λ m. attempt (suc m)) e n (omega arith) fails
        (λ m h. before (suc m) (omega arith)))

-- Saving in GUI mode raises an exception exactly when it is what one of the first six attempts
-- fails with, all attempts before it being refused for an active transaction.
pub save_program_iff :
    (attempt : ℕ → SaveAttempt) (e : Exn)
    → (save_program attempt ≡ save_raised e) ↔ RaisesAt attempt 6 e
unfolding save_program
save_program_iff attempt e = (
  save_rounds-RaisesAt 6 attempt e,
  λ (n, lt, fails, before). RaisesAt-save_rounds 6 attempt e n lt fails before,
)
