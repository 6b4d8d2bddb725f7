-- ===== src/Queue/Tests.antt =====
-- Runs of the queues.
use simple_redis_client.Prelude.{ℕ, ◌<◌, ◌≡◌, refl, List, [], ◌∷◌, ◌++◌, arith}
use simple_redis_client.Queue.Ring.{contents}
use simple_redis_client.Queue.Spsc.{
  Move, call_push, producer_moves, call_pop, consumer_moves, run, new_queue,
}
use simple_redis_client.Queue.Spsc.Refines.{run_refines}

-- The second push ends while the pop of the first item is under way.
abbrev overlapping : List (Move ℕ)
overlapping =
    call_push 7
    ∷ producer_moves
    ∷ producer_moves
    ∷ producer_moves
    ∷ producer_moves
    ∷ call_push 8
    ∷ call_pop
    ∷ producer_moves
    ∷ consumer_moves
    ∷ producer_moves
    ∷ consumer_moves
    ∷ producer_moves
    ∷ consumer_moves
    ∷ producer_moves
    ∷ consumer_moves
    ∷ []

run-overlapping :
    ((run 3 (new_queue 3 (λ i. 0)) overlapping).pushed ≡ 7 ∷ 8 ∷ [])
    × ((run 3 (new_queue 3 (λ i. 0)) overlapping).popped ≡ 7 ∷ [])
unfolding run
run-overlapping = (refl, refl)

run_refines_example :
    (n : ℕ) × (n < 3)
    × ((run 3 (new_queue 3 (λ i. 0)) overlapping).pushed
        ≡ (run 3 (new_queue 3 (λ i. 0)) overlapping).popped
          ++ contents 3
              (run 3 (new_queue 3 (λ i. 0)) overlapping).slots
              (run 3 (new_queue 3 (λ i. 0)) overlapping).tail
              n)
run_refines_example = run_refines 3 (λ i. 0) overlapping (omega arith)
