-- ===== src/Daemon/Waiting.antt =====
-- When the wait for a started daemon succeeds.
use ghidra_rpc_win.Common.{
  ℕ, ◌≢◌, ◌≡◌, refl, ◌↔◌, true, false, Bool-cases, Option-cases, inl, inr, none, some, List, [],
  ◌∷◌, ◌++◌, arith, ap, All,
}
use ghidra_rpc_win.Common.Exec.{ok}
use ghidra_rpc_win.Daemon.{Poll, wait_until_running}

-- A round in which the process lives and does not answer yet.
pub record IsPending (p : Poll) : Type 0 where
  pub silent : p.running ≡ false
  pub alive : p.exit_code ≡ none

-- Some round answers, and the process lives until then.
abbrev pub Answers : List Poll → Type 0
Answers polls =
    (before : List Poll) × (p : Poll) × (after : List Poll) × (polls ≡ before ++ p ∷ after)
    × All IsPending before
    × (p.running ≡ true)

wait-pending :
    (before : List Poll) (p : Poll) (after : List Poll)
    → All IsPending before
    → p.running ≡ true
    → wait_until_running (before ++ p ∷ after) ≡ ok tt
unfolding wait_until_running
wait-pending [] p after pending up = rw up
wait-pending (q ∷ before) p after pending up =
    rw (pending.0.silent, pending.0.alive) (wait-pending before p after pending.1 up)

ended :
    (q : Poll) (polls : List Poll) (code : ℕ)
    → q.running ≡ false
    → q.exit_code ≡ some code
    → wait_until_running (q ∷ polls) ≢ ok tt
unfolding wait_until_running
ended q polls code down gone h = ground arith

wait-Answers : (polls : List Poll) → wait_until_running polls ≡ ok tt → Answers polls
unfolding wait_until_running
wait-Answers [] h = cc
wait-Answers (q ∷ polls) h = elim (Bool-cases q.running) [
  | inl up ↦ ([], q, polls, refl, tt, up)
  | inr down ↦ elim (Option-cases q.exit_code) [
    | inl lives ↦
        let (before, p, after, split, pending, up) = wait-Answers polls (rw (down, lives) at h) in
        (
          q ∷ before,
          p,
          after,
          ap (λ r. q ∷ r) split,
          (record { silent = down; alive = lives }, pending),
          up,
        )
    | inr (code, gone) ↦ absurd (ended q polls code down gone h)
  ]
]

-- The wait returns exactly when some round answers before the deadline and the process lives until
-- then.
pub wait_until_running_iff :
    (polls : List Poll) → (wait_until_running polls ≡ ok tt) ↔ Answers polls
wait_until_running_iff polls = (
  wait-Answers polls,
  λ (before, p, after, split, pending, up). rw split (wait-pending before p after pending up),
)
