-- ===== src/Pool/Counted.antt =====
-- A pool that is not disposed of accounts for the decompilers that it has created.
use ghidra_rpc_win.Common.{
  ℕ, zero, suc, ◌+◌, ◌<◌, ◌≡◌, refl, subst, Bool, true, false, ◌&&◌, Option, none, some, List, [],
  ◌∷◌, ltb, if◌then◌else◌, length, is_empty, arith, Bool-cases, Option-cases, inl, inr,
}
use ghidra_rpc_win.Pool.{
  Pool, Act, get, decide, create, create_failed, dispose, put, count, take_out, get_from,
  create_for, give_up_for, perform, run,
}

abbrev pub disposes : Act → Bool
disposes dispose = true
disposes _ = false

-- No thread disposes of the pool.
unfoldable pub never_disposed : List Act → Bool
never_disposed [] = true
never_disposed (a ∷ acts) = if disposes a then false else never_disposed acts

length-take_out : (d : ℕ) (xs : List ℕ) → 0 < count d xs → length (take_out d xs) + 1 ≡ length xs
unfolding count take_out
length-take_out d [] h = absurd (omega arith)
length-take_out d (x ∷ xs) h = ground (arith, length-take_out d xs)

abbrev pub Counted : Pool → Type 0
Counted p = length p.queue + length p.held ≡ length p.created

abbrev Keeps : Option Pool → Type 0
Keeps none = Unit
Keeps (some p) = Counted p

get_from-Keeps :
    (queue : List ℕ) (p : Pool)
    → length queue + length p.held ≡ length p.created
    → Keeps (get_from queue p)
get_from-Keeps [] p h = tt
get_from-Keeps (d ∷ rest) p h = omega arith

create_for-Keeps : (n : ℕ) (p : Pool) → Counted p → Keeps (create_for n p)
create_for-Keeps zero p h = tt
create_for-Keeps (suc n) p h = omega arith

give_up_for-Keeps : (n : ℕ) (p : Pool) → Counted p → Keeps (give_up_for n p)
give_up_for-Keeps zero p h = tt
give_up_for-Keeps (suc n) p h = h

put-Keeps :
    (d : ℕ) (p : Pool) (is_held room : Bool)
    → (is_held ≡ true → 0 < count d p.held)
    → Counted p
    → Keeps (
        if is_held && room
        then some (record p { queue = d ∷ p.queue; held = take_out d p.held })
        else none)
put-Keeps d p false room lt h = tt
put-Keeps d p true false lt h = tt
put-Keeps d p true true lt h = omega (arith, length-take_out d p.held (lt refl))

ltb-lt : (n : ℕ) → ltb 0 n ≡ true → 0 < n
ltb-lt n h = ground arith

perform-Keeps :
    (size : ℕ) (a : Act) (p : Pool) → disposes a ≡ false → Counted p → Keeps (perform size a p)
unfolding perform
perform-Keeps size get p n h = get_from-Keeps p.queue p h
perform-Keeps size decide p n h =
    elim (Bool-cases (is_empty p.queue && ltb (length p.created) size)) [
      | inl yes_it_is ↦ rw yes_it_is h
      | inr not_so ↦ rw not_so tt
    ]
perform-Keeps size create p n h = create_for-Keeps p.creating p h
perform-Keeps size create_failed p n h = give_up_for-Keeps p.creating p h
perform-Keeps size dispose p n h = cc
perform-Keeps size (put d) p n h =
    put-Keeps d p (ltb 0 (count d p.held)) (ltb (length p.queue) size) (ltb-lt (count d p.held)) h

-- The decompilers that are free and those that are held are as many as have been created.
pub run-Counted :
    (size : ℕ) (acts : List Act) (p q : Pool)
    → never_disposed acts ≡ true
    → Counted p
    → run size acts p ≡ some q
    → Counted q
unfolding run never_disposed
run-Counted size [] p q n h e = subst Keeps e h
run-Counted size (a ∷ acts) p q n h e = elim (Bool-cases (disposes a)) [
  | inl gone ↦ cc (rw gone at n)
  | inr kept ↦ elim (Option-cases (perform size a p)) [
    | inl stuck ↦ cc (rw (stuck, run) at e)
    | inr (p', went) ↦
        run-Counted size acts p' q (rw kept at n) (subst Keeps went (perform-Keeps size a p kept h))
          (rw (went, run) at e)
  ]
]
