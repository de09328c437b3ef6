-- ===== src/Server/Threads/Exclusion.antt =====
-- The lock keeps the handlers apart.
use ghidra_rpc_win.Common.{
  ℕ, zero, suc, ◌==◌, ◌≢◌, ◌⊎◌, ◌≡◌, refl, sym, ◌∙◌, ap, subst, String, str_eq, Bool, true, false,
  Option, none, some, List, [], ◌∷◌, ◌++◌, get_elem?, set, get_elem?-set, get_elem?-append,
  Bool-cases, inl, inr, arith,
}
use ghidra_rpc_win.Common.Exec.{Result}
use ghidra_rpc_win.Json.{Json, null, str, obj, to_dict, of_dict}
use ghidra_rpc_win.Rpc.{Parsed, undecodable, value}
use ghidra_rpc_win.Server.{Server, request_id, get_or_default}
use ghidra_rpc_win.Server.Threads.{
  Stage, reading, closed, waiting, handling, replying, stop_reply, Request, System, set_stage,
  start, received, chosen, stage_of_name, stage_of_cmd, stage_of, handle_locked, Step, go_on,
  leave_loop, time_out, accept, accept_failed, receive, acquire, release, reply, stop, stop_failed,
  Reach, here, next,
}

pub some_inj : (i j : ℕ) → ◌≡◌ {A = Option ℕ} (some i) (some j) → i ≡ j
some_inj i j h = cc

module _ {S : Type 0} where
  -- The thread that handles a request holds the lock and works on the context, and the thread that
  -- holds the lock handles a request.
  pub record IsExclusive (threads : List (Stage S)) (lock : Option ℕ) (context : S) : Type 0 where
    pub only :
        (i : ℕ) (r : Request S) (s : S)
        → get_elem? threads i ≡ some (handling r s)
        → (lock ≡ some i) × (s ≡ context)
    pub held :
        (i : ℕ)
        → lock ≡ some i
        → (r : Request S) × (get_elem? threads i ≡ some (handling r context))

  abbrev pub is_handling : Stage S → Bool
  is_handling (handling r s) = true
  is_handling _ = false

  two_ways : (st x : Stage S) → some st ≡ some x → is_handling st ≡ false → is_handling x ≡ true → ⊥
  two_ways st x h idle busy = cc

  get_elem?-snoc :
      (threads : List (Stage S)) (st : Stage S) (i : ℕ) (x : Stage S)
      → get_elem? (threads ++ st ∷ []) i ≡ some x
      → is_handling st ≡ false
      → is_handling x ≡ true
      → get_elem? threads i ≡ some x
  get_elem?-snoc [] st zero x h idle busy = absurd (two_ways st x h idle busy)
  get_elem?-snoc [] st (suc i) x h idle busy = cc
  get_elem?-snoc (t ∷ threads) st zero x h idle busy = h
  get_elem?-snoc (t ∷ threads) st (suc i) x h idle busy = get_elem?-snoc threads st i x h idle busy

  -- What is found after a write is what was written, or was there.
  set_cases :
      (threads : List (Stage S)) (i j : ℕ) (st old x : Stage S)
      → get_elem? threads i ≡ some old
      → get_elem? (set threads i st) j ≡ some x
      → ((i ≡ j) × (st ≡ x)) ⊎ ((i ≢ j) × (get_elem? threads j ≡ some x))
  set_cases threads i j st old x at h = elim (Bool-cases (i == j)) [
    | inl same ↦ inl (ground arith, cc (rw (get_elem?-set threads i j st old at, same) at h))
    | inr other ↦ inr (ground arith, rw (get_elem?-set threads i j st old at, other) at h)
  ]

  get_elem?-set_ne :
      (threads : List (Stage S)) (i j : ℕ) (st old : Stage S)
      → get_elem? threads i ≡ some old
      → (i == j) ≡ false
      → get_elem? (set threads i st) j ≡ get_elem? threads j
  get_elem?-set_ne threads i j st old at ne = rw (get_elem?-set threads i j st old at, ne)

  get_elem?-set_self :
      (threads : List (Stage S)) (i : ℕ) (st old : Stage S)
      → get_elem? threads i ≡ some old
      → get_elem? (set threads i st) i ≡ some st
  get_elem?-set_self threads i st old at = get_elem?-set threads i i st old at ∙ (ground arith)

  idle_apart :
      (threads : List (Stage S)) (i j : ℕ) (old x : Stage S)
      → get_elem? threads i ≡ some old
      → get_elem? threads j ≡ some x
      → is_handling old ≡ false
      → is_handling x ≡ true
      → (i == j) ≡ false
  idle_apart threads i j old x at h idle busy = elim (Bool-cases (i == j)) [
    | inl same ↦ absurd (clash i j (ground arith) at h)
    | inr other ↦ other
  ]
    where
      clash : (i j : ℕ) → i ≡ j → get_elem? threads i ≡ some old → get_elem? threads j ≡ some x → ⊥
      clash i j e a b = two_ways old x (sym a ∙ rw e b) idle busy

  -- A thread that handles nothing before or after its step.
  set-IsExclusive :
      (threads : List (Stage S)) (lock : Option ℕ) (context : S) (i : ℕ) (old st : Stage S)
      → get_elem? threads i ≡ some old
      → is_handling old ≡ false
      → is_handling st ≡ false
      → IsExclusive threads lock context
      → IsExclusive (set threads i st) lock context
  set-IsExclusive threads lock context i old st at idle idle' inv = record {
    only = λ j r s h. elim (set_cases threads i j st old (handling r s) at h) [
      | inl (_, e) ↦ cc
      | inr (_, there) ↦ inv.only j r s there
    ];
    held = λ j h.
        let (r, there) = inv.held j h in
        (
          r,
          get_elem?-set_ne threads i j st old at (idle_apart threads i j old _ at there idle refl)
              ∙ there,
        );
  }

  snoc-IsExclusive :
      (threads : List (Stage S)) (lock : Option ℕ) (context : S)
      → IsExclusive threads lock context
      → IsExclusive (threads ++ reading ∷ []) lock context
  snoc-IsExclusive threads lock context inv = record {
    only = λ j r s h. inv.only j r s (get_elem?-snoc threads reading j (handling r s) h refl refl);
    held = λ j h.
        let (r, there) = inv.held j h in
        (r, get_elem?-append threads reading j (handling r context) there);
  }

  acquire-IsExclusive :
      (threads : List (Stage S)) (context : S) (i : ℕ) (r : Request S)
      → get_elem? threads i ≡ some (waiting r)
      → IsExclusive threads none context
      → IsExclusive (set threads i (handling r context)) (some i) context
  acquire-IsExclusive threads context i r at inv = record {
    only = λ j q s h.
        elim (set_cases threads i j (handling r context) (waiting r) (handling q s) at h) [
          | inl (e, same) ↦ (ap some e, cc)
          | inr (_, there) ↦ cc ((inv.only j q s there).0)
        ];
    held = λ j h. (
      r,
      subst (λ k. get_elem? (set threads i (handling r context)) k ≡ some (handling r context))
          (some_inj i j h) (get_elem?-set_self threads i (handling r context) (waiting r) at),
    );
  }

  release-IsExclusive :
      (threads : List (Stage S)) (lock : Option ℕ) (context context' : S) (i : ℕ) (r : Request S)
      (s : S) (response : Json)
      → get_elem? threads i ≡ some (handling r s)
      → IsExclusive threads lock context
      → IsExclusive (set threads i (replying response)) none context'
  release-IsExclusive threads lock context context' i r s response at inv = record {
    only = λ j q s' h.
        elim (set_cases threads i j (replying response) (handling r s) (handling q s') at h) [
          | inl (e, same) ↦ cc
          | inr (ne, there) ↦
              absurd (ne (some_inj i j (sym (inv.only i r s at).0 ∙ (inv.only j q s' there).0)))
        ];
    held = λ j h. cc;
  }

module _ {S : Type 0} (server : Server S) where
  abbrev pub Exclusive : System S → Type 0
  Exclusive t = IsExclusive t.threads t.lock t.context

  -- What a thread goes on with after reading is no handler at work.
  chosen_idle :
      (id : Json) (cmd : String) (args : Json) (o : Option (Json → S → Result Json × S))
      → is_handling (chosen server id cmd args o) ≡ false
  chosen_idle id cmd args none = refl
  chosen_idle id cmd args (some handler) = refl

  name_idle :
      (id : Json) (cmd : String) (args : Json)
      → is_handling (stage_of_name server id cmd args) ≡ false
  name_idle id cmd args = elim (Bool-cases (str_eq cmd "ping")) [
    | inl ping ↦ rw ping
    | inr other ↦ elim (Bool-cases (str_eq cmd "stop")) [
      | inl stops ↦ rw (other, stops)
      | inr tool ↦ rw (other, tool) (chosen_idle id cmd args (Server.handlers server cmd))
    ]
  ]

  cmd_idle : (id cmd args : Json) → is_handling (stage_of_cmd server id cmd args) ≡ false
  cmd_idle id (str cmd) args = name_idle id cmd args
  cmd_idle id null args = refl
  cmd_idle id _ args = refl

  pub received-idle : (p : Option Parsed) → is_handling (received server p) ≡ false
  unfolding stage_of
  received-idle none = refl
  received-idle (some (value (obj fs))) =
      cmd_idle (request_id server (to_dict fs)) (get_or_default "cmd" (str "") (to_dict fs))
        (get_or_default "args" (obj (of_dict [])) (to_dict fs))
  received-idle (some undecodable) = refl
  received-idle (some (value _)) = refl
  received-idle (some _) = refl

  pub Step-Exclusive : {t u : System S} → Step server t u → Exclusive t → Exclusive u
  unfolding set_stage
  Step-Exclusive (go_on t l s) inv = inv
  Step-Exclusive (leave_loop t l s) inv = inv
  Step-Exclusive (time_out t l) inv = inv
  Step-Exclusive (accept t l) inv = snoc-IsExclusive t.threads t.lock t.context inv
  Step-Exclusive (accept_failed t l) inv = inv
  Step-Exclusive (receive t i p at) inv =
      set-IsExclusive t.threads t.lock t.context i reading (received server p) at refl
        (received-idle p) inv
  Step-Exclusive (acquire t i r at free) inv =
      acquire-IsExclusive t.threads t.context i r at
        (subst (λ l. IsExclusive t.threads l t.context) free inv)
  Step-Exclusive (release t i r s at) inv =
      release-IsExclusive t.threads t.lock t.context (handle_locked server r s).1 i r s
        (handle_locked server r s).0 at inv
  Step-Exclusive (reply t i response at) inv =
      set-IsExclusive t.threads t.lock t.context i (replying response) closed at refl refl inv
  Step-Exclusive (stop t i response at) inv =
      set-IsExclusive t.threads t.lock t.context i (stop_reply response) closed at refl refl inv
  Step-Exclusive (stop_failed t i response at) inv =
      set-IsExclusive t.threads t.lock t.context i (stop_reply response) closed at refl refl inv

  start-Exclusive : (s : S) → Exclusive (start s)
  unfolding start
  start-Exclusive s = record { only = λ i r s' h. cc; held = λ i h. cc }

  -- However the threads are scheduled: a thread that handles a request holds the lock and works on
  -- the present context, and a thread that holds the lock handles a request. So two threads never
  -- handle requests at once.
  pub Reach-Exclusive : (s : S) {t : System S} → Reach server (start s) t → Exclusive t
  Reach-Exclusive s here = start-Exclusive s
  Reach-Exclusive s (next r st) = Step-Exclusive st (Reach-Exclusive s r)
