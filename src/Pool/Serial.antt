-- ===== src/Pool/Serial.antt =====
-- How many decompilers there are when a thread that decides to create one does so at once.
use ghidra_rpc_win.Common.{
  ℕ, zero, suc, ◌+◌, ◌≤◌, ◌<◌, ◌≡◌, refl, subst, Bool, true, false, ◌&&◌, not, Option, none, some,
  List, [], ◌∷◌, ltb, if◌then◌else◌, length, is_empty, arith, Bool-cases, Option-cases, inl, inr,
}
use ghidra_rpc_win.Pool.Counted.{never_disposed, run-Counted}
use ghidra_rpc_win.Pool.{
  Pool, empty_pool, pool_size, Act, get, decide, create, create_failed, dispose, put, count,
  get_from, create_for, give_up_for, perform, run,
}

abbrev pub calls_factory : Act → Bool
calls_factory create = true
calls_factory create_failed = true
calls_factory _ = false

abbrev pub is_decision : Act → Bool
is_decision decide = true
is_decision _ = false

-- Every decision is followed at once by the factory's call, and there is no other call; the flag
-- says that a call is due.
unfoldable pub is_serial : Bool → List Act → Bool
is_serial due [] = true
is_serial true (a ∷ acts) = calls_factory a && is_serial false acts
is_serial false (a ∷ acts) = not (calls_factory a) && is_serial (is_decision a) acts

-- Between the calls of the factory the size bounds the decompilers; before one there is room.
abbrev Bounded : Bool → ℕ → Pool → Type 0
Bounded false size p = (length p.created ≤ size) × (p.creating ≡ 0)
Bounded true size p = (length p.created < size) × (p.creating ≡ 1)

abbrev Keeps : Bool → ℕ → Option Pool → Type 0
Keeps due size none = Unit
Keeps due size (some p) = Bounded due size p

get_from-Keeps :
    (size : ℕ) (queue : List ℕ) (p : Pool)
    → Bounded false size p
    → Keeps false size (get_from queue p)
get_from-Keeps size [] p h = tt
get_from-Keeps size (d ∷ rest) p h = h

put-Keeps :
    (size d : ℕ) (p : Pool) → Bounded false size p → Keeps false size (perform size (put d) p)
unfolding perform
put-Keeps size d p h = elim (Bool-cases (ltb 0 (count d p.held) && ltb (length p.queue) size)) [
  | inl possible ↦ rw possible h
  | inr blocked ↦ rw blocked tt
]

decide-Keeps :
    (size : ℕ) (p : Pool) → Bounded false size p → Keeps true size (perform size decide p)
unfolding perform
decide-Keeps size p h =
    room (is_empty p.queue) (ltb (length p.created) size) (ltb-lt (length p.created) size) h
  where
    ltb-lt : (n size : ℕ) → ltb n size ≡ true → n < size
    ltb-lt n size h = ground arith

    room :
        (b c : Bool)
        → (c ≡ true → length p.created < size)
        → Bounded false size p
        → Keeps true size (if b && c then some (record p { creating = p.creating + 1 }) else none)
    room false c lt h = tt
    room true false lt h = tt
    room true true lt h = (lt refl, omega (arith, h.1))

create_for-Keeps :
    (size n : ℕ) (p : Pool) → length p.created < size → n ≡ 1 → Keeps false size (create_for n p)
create_for-Keeps size zero p lt e = tt
create_for-Keeps size (suc n) p lt e = (omega arith, omega arith)

give_up_for-Keeps :
    (size n : ℕ) (p : Pool) → length p.created < size → n ≡ 1 → Keeps false size (give_up_for n p)
give_up_for-Keeps size zero p lt e = tt
give_up_for-Keeps size (suc n) p lt e = (omega arith, omega arith)

called-Keeps :
    (size : ℕ) (a : Act) (p : Pool)
    → calls_factory a ≡ true
    → Bounded true size p
    → Keeps false size (perform size a p)
unfolding perform
called-Keeps size create p call h = create_for-Keeps size p.creating p h.0 h.1
called-Keeps size create_failed p call h = give_up_for-Keeps size p.creating p h.0 h.1
called-Keeps size get p call h = cc
called-Keeps size decide p call h = cc
called-Keeps size dispose p call h = cc
called-Keeps size (put d) p call h = cc

other-Keeps :
    (size : ℕ) (a : Act) (p : Pool)
    → calls_factory a ≡ false
    → Bounded false size p
    → Keeps (is_decision a) size (perform size a p)
unfolding perform
other-Keeps size create p no_call h = cc
other-Keeps size create_failed p no_call h = cc
other-Keeps size get p no_call h = get_from-Keeps size p.queue p h
other-Keeps size decide p no_call h = decide-Keeps size p h
other-Keeps size dispose p no_call h = (omega arith, h.1)
other-Keeps size (put d) p no_call h = put-Keeps size d p h

weakened : (due : Bool) (size : ℕ) (p : Pool) → Bounded due size p → length p.created ≤ size
weakened false size p h = h.0
weakened true size p h = omega (arith, h.0)

both : (a b : Bool) → a && b ≡ true → (a ≡ true) × (b ≡ true)
both true b h = (refl, h)
both false b h = cc

neither : (a b : Bool) → not a && b ≡ true → (a ≡ false) × (b ≡ true)
neither false b h = (refl, h)
neither true b h = cc

run-Bounded :
    (size : ℕ) (due : Bool) (acts : List Act) (p q : Pool)
    → is_serial due acts ≡ true
    → Bounded due size p
    → run size acts p ≡ some q
    → length q.created ≤ size
unfolding run is_serial
run-Bounded size due [] p q s h e = weakened due size q (subst (Keeps due size) e h)
run-Bounded size true (a ∷ acts) p q s h e = elim (Option-cases (perform size a p)) [
  | inl stuck ↦ cc (rw (stuck, run) at e)
  | inr (p', went) ↦
      let (call, rest) = both (calls_factory a) (is_serial false acts) s in
      run-Bounded size false acts p' q rest
        (subst (Keeps false size) went (called-Keeps size a p call h)) (rw (went, run) at e)
]
run-Bounded size false (a ∷ acts) p q s h e = elim (Option-cases (perform size a p)) [
  | inl stuck ↦ cc (rw (stuck, run) at e)
  | inr (p', went) ↦
      let (no_call, rest) = neither (calls_factory a) (is_serial (is_decision a) acts) s in
      run-Bounded size (is_decision a) acts p' q rest
        (subst (Keeps (is_decision a) size) went (other-Keeps size a p no_call h))
        (rw (went, run) at e)
]

-- Where each decision to create is followed at once by the factory's call and nobody disposes of
-- the pool, the decompilers that are free and those that threads hold are together at most as many
-- as its size.
pub run-bound :
    (size : ℕ) (acts : List Act) (q : Pool)
    → is_serial false acts ≡ true
    → never_disposed acts ≡ true
    → run (pool_size size) acts empty_pool ≡ some q
    → length q.queue + length q.held ≤ pool_size size
unfolding empty_pool
run-bound size acts q s n e =
    let bounded = run-Bounded (pool_size size) false acts empty_pool q s (omega arith, refl) e in
    let counted = run-Counted (pool_size size) acts empty_pool q n refl e in omega arith
