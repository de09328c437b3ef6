-- ===== src/Server/Threads/Shutdown.antt =====
-- The server ends after a `stop`.
use ghidra_rpc_win.Common.{
  ◌≡◌, ◌⊎◌, inl, inr, String, str_eq, Bool-cases, Option-cases, refl, ℕ, zero, suc, ◌+◌, ◌<◌, true,
  Option, some, none, List, [], ◌∷◌, ◌++◌, get_elem?, set, arith,
}
use ghidra_rpc_win.Common.Exec.{Result}
use ghidra_rpc_win.Json.{Json, null, str, obj, to_dict, of_dict}
use ghidra_rpc_win.Rpc.{Parsed, undecodable, value}
use ghidra_rpc_win.Server.{Server, request_id, get_or_default}
use ghidra_rpc_win.Server.Threads.{
  Loop, testing, accepting, finished, System, Stage, reading, closed, waiting, handling, replying,
  stop_reply, start, set_stage, received, chosen, stage_of_name, stage_of_cmd, stage_of,
  handle_locked, Step, go_on, leave_loop, time_out, accept, accept_failed, receive, acquire,
  release, reply, stop, stop_failed, Reach,
}
use ghidra_rpc_win.Server.Threads.Exclusion.{Exclusive, IsExclusive, Reach-Exclusive}

-- How many steps of its own a thread, or the loop of a server that was told to stop, has at most.
abbrev pub stage_steps : {S : Type 0} → Stage S → ℕ
stage_steps reading = 4
stage_steps (waiting r) = 3
stage_steps (handling r s) = 2
stage_steps (replying response) = 1
stage_steps (stop_reply response) = 1
stage_steps closed = 0

abbrev pub loop_steps : Loop → ℕ
loop_steps testing = 1
loop_steps accepting = 6
loop_steps finished = 0

abbrev pub threads_steps : {S : Type 0} → List (Stage S) → ℕ
threads_steps [] = 0
threads_steps (st ∷ threads) = stage_steps st + threads_steps threads

abbrev pub steps_left : {S : Type 0} → System S → ℕ
steps_left t = loop_steps t.loop + threads_steps t.threads

nat_cases : (n : ℕ) → (n ≡ 0) ⊎ (0 < n)
nat_cases zero = inl refl
nat_cases (suc n) = inr (omega arith)

Loop-cases : (l : Loop) → (l ≡ finished) ⊎ (l ≡ accepting) ⊎ (l ≡ testing)
Loop-cases testing = inr (inr refl)
Loop-cases accepting = inr (inl refl)
Loop-cases finished = inl refl

module _ {S : Type 0} where
  threads_steps-snoc :
      (threads : List (Stage S)) (st : Stage S)
      → threads_steps (threads ++ st ∷ []) ≡ threads_steps threads + stage_steps st
  threads_steps-snoc [] st = omega arith
  threads_steps-snoc (t ∷ threads) st = let rest = threads_steps-snoc threads st in omega arith

  threads_steps-set :
      (threads : List (Stage S)) (i : ℕ) (st old : Stage S)
      → get_elem? threads i ≡ some old
      → threads_steps (set threads i st) + stage_steps old ≡ threads_steps threads + stage_steps st
  threads_steps-set [] i st old h = cc
  threads_steps-set (t ∷ threads) zero st old h = let same = first t old h in omega arith
    where
      first :
          (t old : Stage S)
          → ◌≡◌ {A = Option (Stage S)} (some t) (some old)
          → stage_steps t ≡ stage_steps old
      first t old h = cc
  threads_steps-set (t ∷ threads) (suc i) st old h =
      let rest = threads_steps-set threads i st old h in omega arith

  threads_steps-less :
      (threads : List (Stage S)) (i : ℕ) (st old : Stage S)
      → get_elem? threads i ≡ some old
      → stage_steps st < stage_steps old
      → threads_steps (set threads i st) < threads_steps threads
  threads_steps-less threads i st old h less =
      let both = threads_steps-set threads i st old h in omega arith

module _ {S : Type 0} (server : Server S) where
  chosen-less :
      (id : Json) (cmd : String) (args : Json) (o : Option (Json → S → Result Json × S))
      → stage_steps (chosen server id cmd args o) < 4
  chosen-less id cmd args none = omega arith
  chosen-less id cmd args (some handler) = omega arith

  name-less :
      (id : Json) (cmd : String) (args : Json) → stage_steps (stage_of_name server id cmd args) < 4
  name-less id cmd args = elim (Bool-cases (str_eq cmd "ping")) [
    | inl ping ↦ rw ping (omega arith)
    | inr other ↦ elim (Bool-cases (str_eq cmd "stop")) [
      | inl stops ↦ rw (other, stops) (omega arith)
      | inr tool ↦ rw (other, tool) (chosen-less id cmd args (Server.handlers server cmd))
    ]
  ]

  cmd-less : (id cmd args : Json) → stage_steps (stage_of_cmd server id cmd args) < 4
  cmd-less id (str cmd) args = name-less id cmd args
  cmd-less id null args = omega arith
  cmd-less id _ args = omega arith

  received-less : (p : Option Parsed) → stage_steps (received server p) < 4
  unfolding stage_of
  received-less none = omega arith
  received-less (some (value (obj fs))) =
      cmd-less (request_id server (to_dict fs)) (get_or_default "cmd" (str "") (to_dict fs))
        (get_or_default "args" (obj (of_dict [])) (to_dict fs))
  received-less (some undecodable) = omega arith
  received-less (some (value _)) = omega arith
  received-less (some _) = omega arith

  -- Once the shutdown event is set it stays set, and each step of the loop or of a thread, whichever
  -- is scheduled, leaves fewer steps: the loop and all threads end after at most `steps_left` steps.
  pub Step-steps_left :
      {t u : System S}
      → Step server t u
      → t.shutdown ≡ true
      → (u.shutdown ≡ true) × (steps_left u < steps_left t)
  unfolding set_stage
  Step-steps_left (go_on t l s) on = cc
  Step-steps_left (leave_loop t l s) on = (on, rw l (omega arith))
  Step-steps_left (time_out t l) on = (on, rw l (omega arith))
  Step-steps_left (accept t l) on =
      (on, rw l (let e = threads_steps-snoc t.threads reading in omega arith))
  Step-steps_left (accept_failed t l) on = (on, rw l (omega arith))
  Step-steps_left (receive t i p at) on = (
    on,
    let less = threads_steps-less t.threads i (received server p) reading at (received-less p) in
        omega arith,
  )
  Step-steps_left (acquire t i r at free) on = (
    on,
    let less = threads_steps-less t.threads i (handling r t.context) (waiting r) at (omega arith) in
        omega arith,
  )
  Step-steps_left (release t i r s at) on = (
    on,
    let less =
          threads_steps-less t.threads i (replying (handle_locked server r s).0) (handling r s) at
            (omega arith) in
        omega arith,
  )
  Step-steps_left (reply t i response at) on = (
    on,
    let less = threads_steps-less t.threads i closed (replying response) at (omega arith) in
        omega arith,
  )
  Step-steps_left (stop t i response at) on = (
    refl,
    let less = threads_steps-less t.threads i closed (stop_reply response) at (omega arith) in
        omega arith,
  )
  Step-steps_left (stop_failed t i response at) on = (
    on,
    let less = threads_steps-less t.threads i closed (stop_reply response) at (omega arith) in
        omega arith,
  )

  -- A thread that has steps left, and no other handles a request, has a step.
  thread_step :
      (t : System S) (i : ℕ) (st : Stage S)
      → Exclusive server t
      → get_elem? t.threads i ≡ some st
      → 0 < stage_steps st
      → (u : System S) × Step server t u
  thread_step t i reading ex at more = (_, receive t i none at)
  thread_step t i (waiting r) ex at more = elim (Option-cases t.lock) [
    | inl free ↦ (_, acquire t i r at free)
    | inr (j, taken) ↦
        let (q, busy) = IsExclusive.held ex j taken in (_, release t j q t.context busy)
  ]
  thread_step t i (handling r s) ex at more = (_, release t i r s at)
  thread_step t i (replying response) ex at more = (_, reply t i response at)
  thread_step t i (stop_reply response) ex at more = (_, stop t i response at)
  thread_step t i closed ex at more = absurd (omega arith)

  busy_thread :
      (threads : List (Stage S))
      → (threads_steps threads ≡ 0)
        ⊎ ((i : ℕ) × (st : Stage S) × (get_elem? threads i ≡ some st) × (0 < stage_steps st))
  busy_thread [] = inl refl
  busy_thread (st ∷ threads) = elim (nat_cases (stage_steps st)) [
    | inr more ↦ inr (0, st, refl, more)
    | inl none_left ↦ elim (busy_thread threads) [
      | inl idle ↦ inl (omega arith)
      | inr (i, x, at, more) ↦ inr (suc i, x, at, more)
    ]
  ]

  loop_step : (t : System S) → (loop_steps t.loop ≡ 0) ⊎ ((u : System S) × Step server t u)
  loop_step t = elim (Loop-cases t.loop) [
    | inl ended ↦ inl (rw ended refl)
    | inr (inl waits) ↦ inr (_, time_out t waits)
    | inr (inr tests) ↦ elim (Bool-cases t.shutdown) [
      | inl on ↦ inr (_, leave_loop t tests on)
      | inr off ↦ inr (_, go_on t tests off)
    ]
  ]

  -- From every system that can be reached, either the loop has ended and every thread is closed,
  -- or there is a step: no request waits for a lock that nobody gives back.
  pub Reach-steps_left :
      (s0 : S) {t : System S}
      → Reach server (start s0) t
      → (steps_left t ≡ 0) ⊎ ((u : System S) × Step server t u)
  Reach-steps_left s0 {t} reach = elim (loop_step t) [
    | inr step ↦ inr step
    | inl ended ↦ elim (busy_thread t.threads) [
      | inl idle ↦ inl (omega arith)
      | inr (i, st, at, more) ↦ inr (thread_step t i st (Reach-Exclusive server s0 reach) at more)
    ]
  ]
