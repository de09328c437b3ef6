-- ===== src/Pool/Exclusive.antt =====
-- No decompiler is used twice at a time.
use ghidra_rpc_win.Common.{
  ℕ, zero, suc, ◌+◌, ◌≤◌, ◌<◌, ◌≡◌, refl, subst, Bool, true, false, ◌&&◌, Option, none, some, List,
  [], ◌∷◌, ltb, ◌==◌, if◌then◌else◌, length, is_empty, arith, Bool-cases, Option-cases, inl, inr,
}
use ghidra_rpc_win.Pool.{
  Pool, empty_pool, Act, get, decide, create, create_failed, dispose, put, count, take_out,
  get_from, create_for, give_up_for, perform, run,
}

-- A decompiler is free or held, once, if at all; those to come are neither.
pub record IsExclusive (queue held : List ℕ) (next : ℕ) : Type 0 where
  pub once : (d : ℕ) → count d queue + count d held ≤ 1
  pub fresh : (d : ℕ) → next ≤ d → count d queue + count d held ≡ 0

count-take_out :
    (d e : ℕ) (xs : List ℕ)
    → 0 < count d xs
    → count e (take_out d xs) + (if d == e then 1 else 0) ≡ count e xs
unfolding count take_out
count-take_out d e [] h = absurd (omega arith)
count-take_out d e (x ∷ xs) h = ground (arith, count-take_out d e xs)

get-IsExclusive :
    (d : ℕ) (queue held : List ℕ) (next : ℕ)
    → IsExclusive (d ∷ queue) held next
    → IsExclusive queue (d ∷ held) next
unfolding count
get-IsExclusive d queue held next h = record {
  once = λ e. ground (arith, h.once e);
  fresh = λ e le. ground (arith, h.fresh e le);
}

create-IsExclusive :
    (queue held : List ℕ) (next : ℕ)
    → IsExclusive queue held next
    → IsExclusive queue (next ∷ held) (next + 1)
unfolding count
create-IsExclusive queue held next h = record {
  once = λ e. ground (arith, h.once e, h.fresh next (omega arith));
  fresh = λ e le. ground (arith, h.fresh e (omega arith));
}

put-IsExclusive :
    (d : ℕ) (queue held : List ℕ) (next : ℕ)
    → 0 < count d held
    → IsExclusive queue held next
    → IsExclusive (d ∷ queue) (take_out d held) next
unfolding count
put-IsExclusive d queue held next lt h = record {
  once = λ e. ground (arith, h.once e, count-take_out d e held lt);
  fresh = λ e le. ground (arith, h.fresh e le, count-take_out d e held lt);
}

dispose-IsExclusive :
    (queue held : List ℕ) (next : ℕ) → IsExclusive queue held next → IsExclusive [] held next
unfolding count
dispose-IsExclusive queue held next h = record {
  once = λ e. omega (arith, h.once e);
  fresh = λ e le. omega (arith, h.fresh e le);
}

-- The invariant of a pool, and of an act that may not be possible.
abbrev pub Exclusive : Pool → Type 0
Exclusive p = IsExclusive p.queue p.held p.next

abbrev Keeps : Option Pool → Type 0
Keeps none = Unit
Keeps (some p) = Exclusive p

get_from-Keeps :
    (queue : List ℕ) (p : Pool) → IsExclusive queue p.held p.next → Keeps (get_from queue p)
get_from-Keeps [] p h = tt
get_from-Keeps (d ∷ rest) p h = get-IsExclusive d rest p.held p.next h

create_for-Keeps : (n : ℕ) (p : Pool) → Exclusive p → Keeps (create_for n p)
create_for-Keeps zero p h = tt
create_for-Keeps (suc n) p h = create-IsExclusive p.queue p.held p.next h

give_up_for-Keeps : (n : ℕ) (p : Pool) → Exclusive p → Keeps (give_up_for n p)
give_up_for-Keeps zero p h = tt
give_up_for-Keeps (suc n) p h = h

put-Keeps :
    (d : ℕ) (p : Pool) (is_held room : Bool)
    → (is_held ≡ true → 0 < count d p.held)
    → Exclusive p
    → Keeps (
        if is_held && room
        then some (record p { queue = d ∷ p.queue; held = take_out d p.held })
        else none)
put-Keeps d p false room lt h = tt
put-Keeps d p true false lt h = tt
put-Keeps d p true true lt h = put-IsExclusive d p.queue p.held p.next (lt refl) h

ltb-lt : (n : ℕ) → ltb 0 n ≡ true → 0 < n
ltb-lt n h = ground arith

perform-Keeps : (size : ℕ) (a : Act) (p : Pool) → Exclusive p → Keeps (perform size a p)
unfolding perform
perform-Keeps size get p h = get_from-Keeps p.queue p h
perform-Keeps size decide p h =
    elim (Bool-cases (is_empty p.queue && ltb (length p.created) size)) [
      | inl yes_it_is ↦ rw yes_it_is h
      | inr not_so ↦ rw not_so tt
    ]
perform-Keeps size create p h = create_for-Keeps p.creating p h
perform-Keeps size create_failed p h = give_up_for-Keeps p.creating p h
perform-Keeps size dispose p h = dispose-IsExclusive p.queue p.held p.next h
perform-Keeps size (put d) p h =
    put-Keeps d p (ltb 0 (count d p.held)) (ltb (length p.queue) size) (ltb-lt (count d p.held)) h

run-Exclusive :
    (size : ℕ) (acts : List Act) (p q : Pool) → Exclusive p → run size acts p ≡ some q → Exclusive q
unfolding run
run-Exclusive size [] p q h e = subst Keeps e h
run-Exclusive size (a ∷ acts) p q h e = elim (Option-cases (perform size a p)) [
  | inl stuck ↦ cc (rw (stuck, run) at e)
  | inr (p', went) ↦
      run-Exclusive size acts p' q (subst Keeps went (perform-Keeps size a p h))
        (rw (went, run) at e)
]

-- Whatever the threads do, in any order, no decompiler is held by two of them, or held while it is
-- free.
pub run-once :
    (size : ℕ) (acts : List Act) (q : Pool) (d : ℕ)
    → run size acts empty_pool ≡ some q
    → count d q.queue + count d q.held ≤ 1
unfolding empty_pool count
run-once size acts q d e =
    (run-Exclusive size acts empty_pool q (record { once = λ d. omega arith; fresh = λ d le. refl })
        e).once
      d
