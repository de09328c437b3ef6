-- ===== src/Server/Threads/Serial.antt =====
-- The lock makes the handlers' calls a sequence.
use ghidra_rpc_win.Common.{◌≡◌, refl, sym, subst, List, [], ◌∷◌}
use ghidra_rpc_win.Json.{Json}
use ghidra_rpc_win.Server.{Server}
use ghidra_rpc_win.Server.Threads.{
  Request, System, start, set_stage, handle_locked, Step, go_on, leave_loop, time_out, accept,
  accept_failed, receive, acquire, release, reply, stop, stop_failed, Reach, here, next,
}
use ghidra_rpc_win.Server.Threads.Exclusion.{Exclusive, IsExclusive, Reach-Exclusive}

module _ {S : Type 0} (server : Server S) where
  -- The context after the calls, made one at a time, the last one first in the list, when each had
  -- the listed reply.
  unfoldable pub Sequential : S → List (Request S × Json) → S → Type 0
  Sequential s0 [] s = s ≡ s0
  Sequential s0 ((r, response) ∷ served) s =
      (before : S) × Sequential s0 served before × ((response, s) ≡ handle_locked server r before)

  Step-Sequential :
      (s0 : S) {t u : System S}
      → Step server t u
      → Exclusive server t
      → Sequential s0 t.served t.context
      → Sequential s0 u.served u.context
  unfolding set_stage Sequential
  Step-Sequential s0 (go_on t l s) ex inv = inv
  Step-Sequential s0 (leave_loop t l s) ex inv = inv
  Step-Sequential s0 (time_out t l) ex inv = inv
  Step-Sequential s0 (accept t l) ex inv = inv
  Step-Sequential s0 (accept_failed t l) ex inv = inv
  Step-Sequential s0 (receive t i p at) ex inv = inv
  Step-Sequential s0 (acquire t i r at free) ex inv = inv
  Step-Sequential s0 (release t i r s at) ex inv =
      (s, subst (λ c. Sequential s0 t.served c) (sym (IsExclusive.only ex i r s at).1) inv, refl)
  Step-Sequential s0 (reply t i response at) ex inv = inv
  Step-Sequential s0 (stop t i response at) ex inv = inv
  Step-Sequential s0 (stop_failed t i response at) ex inv = inv

  -- However the threads are scheduled, the context is what the calls make of the first context when
  -- they are made one at a time in the order in which they ended, and each reply is the reply of
  -- that sequence.
  pub Reach-Sequential :
      (s0 : S) {t : System S} → Reach server (start s0) t → Sequential s0 t.served t.context
  unfolding start Sequential
  Reach-Sequential s0 here = refl
  Reach-Sequential s0 (next r st) =
      Step-Sequential s0 st (Reach-Exclusive server s0 r) (Reach-Sequential s0 r)
