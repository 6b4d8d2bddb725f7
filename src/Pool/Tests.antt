-- ===== src/Pool/Tests.antt =====
-- Runs of a pool of one and two threads.
use simple_redis_client.Prelude.{
  ℕ, zero, suc, ◌<◌, ◌≤◌, ◌≡◌, refl, true, false, Option, none, some, List, [], ◌∷◌, replicate,
  arith,
}
use simple_redis_client.Pool.{
  finished, ThreadPool, Move, put_task, worker, join_shutdown, join_store, run, new_pool,
}
use simple_redis_client.Pool.Count.{count}
use simple_redis_client.Pool.Joined.{joined_completes}
use simple_redis_client.Pool.Drains.{thread_ends}
use simple_redis_client.Pool.Task.{
  returned, threw, Result, at_once, run_task, get, called, success, failure, run_task_once,
  run_task_twice,
}

-- A task that is put after the shutdown is dropped.
abbrev joined_run : List Move
joined_run =
    put_task 4
    ∷ worker 0
    ∷ put_task 5
    ∷ join_shutdown
    ∷ worker 1
    ∷ put_task 6
    ∷ join_store
    ∷ worker 0
    ∷ worker 0
    ∷ worker 1
    ∷ worker 0
    ∷ worker 1
    ∷ worker 1
    ∷ []

run-joined :
    ((run 2 new_pool joined_run).accepted ≡ 4 ∷ 5 ∷ [])
    × ((run 2 new_pool joined_run).completed ≡ 4 ∷ 5 ∷ [])
unfolding run
run-joined = (refl, refl)

joined-finished : (i : ℕ) → i < 2 → (run 2 new_pool joined_run).workers i ≡ finished
unfolding run
joined-finished zero h = refl
joined-finished (suc zero) h = refl
joined-finished (suc (suc i)) h = absurd (omega arith)

joined_completes_example :
    ((run 2 new_pool joined_run).tasks.queue ≡ [])
    × (count 5 (run 2 new_pool joined_run).completed ≡ count 5 (run 2 new_pool joined_run).accepted)
joined_completes_example = joined_completes 2 joined_run 5 (omega arith) joined-finished

abbrev joining : ThreadPool
joining = record new_pool { tasks = record { queue = 4 ∷ 5 ∷ []; stopped = true }; joined = true }

thread_ends_example : ((run 1 joining (replicate 6 (worker 0))).workers 0 ≡ finished) × (◌≤◌ 6 7)
thread_ends_example = thread_ends 1 joining 0 (omega arith) (refl, refl)

-- A callback that throws on a value, not on an exception.
abbrev throwing : Result ℕ ℕ → Option ℕ
throwing r = elim r.exception [ none ↦ some 9 | some e ↦ none ]

run_task_twice_example :
    (run_task false throwing (returned (some 3))).0
    ≡ at_once (success (some 3)) ∷ (at_once (failure 9) ∷ [])
run_task_twice_example = run_task_twice throwing (some 3) 9 refl

run_task_once_example :
    (r : Result ℕ ℕ) × (run_task false (λ r. none) (threw 5) ≡ (called false r ∷ [], none))
    × (get r ≡ threw 5)
run_task_once_example = run_task_once false (λ r. none) (threw 5) (λ r. refl)
