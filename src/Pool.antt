-- ===== src/Pool.antt =====
-- DecompilerPool of ghidra_rpc/server/context.py: threads that take decompilers from a bounded
-- stack, create them and put them back. A decompiler is a number, in the order of creation.
pub mod Counted
pub mod Exclusive
pub mod Serial
use ghidra_rpc_win.Common.{
  ℕ, zero, suc, ◌+◌, max, Bool, true, false, ◌&&◌, not, Option, none, some, List, [], ◌∷◌, ltb,
  ◌==◌, if◌then◌else◌, length, is_empty,
}

-- `held` are the decompilers that threads work with; `creating` counts the threads that have found
-- the pool empty and below its size, and are about to call the factory.
pub record Pool : Type 0 where
  pub queue : List ℕ
  pub created : List ℕ
  pub held : List ℕ
  pub creating : ℕ
  pub next : ℕ

unfoldable pub empty_pool : Pool
empty_pool = record { queue = []; created = []; held = []; creating = 0; next = 0 }

-- `self._size = max(1, size)`
unfoldable pub pool_size : ℕ → ℕ
pool_size size = max 1 size

-- What one thread does at once: `get` is `get_nowait` or the end of a blocked `get`, `decide` the
-- test under the lock, `create` and `create_failed` the factory's call, `put` the `finally`.
pub data Act : Type 0 where
  get decide create create_failed dispose : Act
  put : ℕ → Act

unfoldable pub count : ℕ → List ℕ → ℕ
count d [] = 0
count d (x ∷ xs) = let rest = count d xs in if x == d then rest + 1 else rest

unfoldable pub take_out : ℕ → List ℕ → List ℕ
take_out d [] = []
take_out d (x ∷ xs) = let rest = take_out d xs in if x == d then xs else x ∷ rest

abbrev pub get_from : List ℕ → Pool → Option Pool
get_from [] p = none
get_from (d ∷ rest) p = some (record p { queue = rest; held = d ∷ p.held })

abbrev pub create_for : ℕ → Pool → Option Pool
create_for zero p = none
create_for (suc n) p = some (record {
  queue = p.queue;
  created = p.next ∷ p.created;
  held = p.next ∷ p.held;
  creating = n;
  next = p.next + 1;
})

abbrev pub give_up_for : ℕ → Pool → Option Pool
give_up_for zero p = none
give_up_for (suc n) p = some (record p { creating = n })

-- The pool after an act; none where the act is not possible, or blocks.
unfoldable pub perform : ℕ → Act → Pool → Option Pool
unfolding count take_out
perform size get p = get_from p.queue p
perform size decide p =
    if is_empty p.queue && ltb (length p.created) size
    then some (record p { creating = p.creating + 1 })
    else none
perform size create p = create_for p.creating p
perform size create_failed p = give_up_for p.creating p
perform size dispose p = some (record p { queue = []; created = [] })
perform size (put d) p =
    if ltb 0 (count d p.held) && ltb (length p.queue) size
    then some (record p { queue = d ∷ p.queue; held = take_out d p.held })
    else none

-- An interleaving of the threads' acts.
unfoldable pub run : ℕ → List Act → Pool → Option Pool
unfolding perform
run size [] p = some p
run size (a ∷ acts) p = elim (perform size a p) [ none ↦ none | some q ↦ run size acts q ]
