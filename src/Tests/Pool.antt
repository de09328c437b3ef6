-- ===== src/Tests/Pool.antt =====
-- Runs of the decompiler pool.
use ghidra_rpc_win.Common.{◌+◌, ◌≤◌, ◌≡◌, refl, some, [], ◌∷◌, length}
use ghidra_rpc_win.Pool.{Pool, empty_pool, decide, create, put, count, take_out, pool_size, run}
use ghidra_rpc_win.Pool.Exclusive.{run-once}
use ghidra_rpc_win.Pool.Counted.{never_disposed}
use ghidra_rpc_win.Pool.Serial.{is_serial, run-bound}

-- Three threads decide before one of them has created: the pool of size two has three decompilers.
abbrev crowded : Pool
crowded = record {
  queue = 1 ∷ [];
  created = 2 ∷ 1 ∷ 0 ∷ [];
  held = 2 ∷ 0 ∷ [];
  creating = 0;
  next = 3;
}

overshoot :
    run 2 (decide ∷ decide ∷ decide ∷ create ∷ create ∷ create ∷ put 1 ∷ []) empty_pool
    ≡ some crowded
unfolding run empty_pool count take_out
overshoot = refl

run-once_example : count 1 (1 ∷ []) + count 1 (2 ∷ 0 ∷ []) ≤ 1
run-once_example =
    run-once 2 (decide ∷ decide ∷ decide ∷ create ∷ create ∷ create ∷ put 1 ∷ []) crowded 1
      overshoot

-- One is given back, and another thread works with the other one.
abbrev one_held : Pool
one_held = record { queue = 0 ∷ []; created = 1 ∷ 0 ∷ []; held = 1 ∷ []; creating = 0; next = 2 }

serial_run :
    run (pool_size 2) (decide ∷ create ∷ decide ∷ create ∷ put 0 ∷ []) empty_pool ≡ some one_held
unfolding run empty_pool pool_size count take_out
serial_run = refl

run-bound_example : length one_held.queue + length one_held.held ≤ pool_size 2
unfolding is_serial never_disposed
run-bound_example =
    run-bound 2 (decide ∷ create ∷ decide ∷ create ∷ put 0 ∷ []) one_held refl refl serial_run
