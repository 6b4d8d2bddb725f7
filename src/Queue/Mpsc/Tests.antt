-- ===== src/Queue/Mpsc/Tests.antt =====
-- Runs of an `MPSCQueue`.
use simple_redis_client.Prelude.{ℕ, ◌<◌, ◌≡◌, refl, true, List, [], ◌∷◌, ◌++◌, arith}
use simple_redis_client.Queue.Ring.{contents}
use simple_redis_client.Queue.Mpsc.{
  Move, call_push, pusher_moves, exchange_fails, call_pop, popper_moves, awaiting, no_lap, run,
  new_mpsc,
}
use simple_redis_client.Queue.Mpsc.Refines.{mpsc_refines}

-- Thread 1 claims the second slot and fills it before thread 0 fills the first.
abbrev overtaking : List (Move ℕ)
overtaking =
    call_push 0 7
    ∷ call_push 1 8
    ∷ pusher_moves 0
    ∷ pusher_moves 1
    ∷ pusher_moves 1
    ∷ pusher_moves 0
    ∷ pusher_moves 0
    ∷ pusher_moves 1
    ∷ pusher_moves 1
    ∷ exchange_fails 1
    ∷ pusher_moves 1
    ∷ pusher_moves 1
    ∷ pusher_moves 1
    ∷ pusher_moves 1
    ∷ call_pop
    ∷ popper_moves
    ∷ popper_moves
    ∷ popper_moves
    ∷ []

run-overtaking :
    ((run 4 (new_mpsc 4 (λ i. 0)) overtaking).claimed ≡ 7 ∷ 8 ∷ [])
    × ((run 4 (new_mpsc 4 (λ i. 0)) overtaking).popper ≡ awaiting 0)
unfolding run
run-overtaking = (refl, refl)

-- Thread 0 finishes, and the first item is popped.
abbrev filled : List (Move ℕ)
filled =
    overtaking
    ++ (pusher_moves 0
        ∷ pusher_moves 0
        ∷ popper_moves
        ∷ popper_moves
        ∷ popper_moves
        ∷ popper_moves
        ∷ [])

run-filled : (run 4 (new_mpsc 4 (λ i. 0)) filled).popped ≡ 7 ∷ []
unfolding run
run-filled = refl

filled-no_lap : no_lap 4 (new_mpsc 4 (λ i. 0)) filled ≡ true
unfolding no_lap
filled-no_lap = refl

mpsc_refines_example :
    (n : ℕ) × (n < 4)
    × ((run 4 (new_mpsc 4 (λ i. 0)) filled).claimed
        ≡ (run 4 (new_mpsc 4 (λ i. 0)) filled).popped
          ++ contents 4
              (run 4 (new_mpsc 4 (λ i. 0)) filled).promised
              (run 4 (new_mpsc 4 (λ i. 0)) filled).tail
              n)
mpsc_refines_example = mpsc_refines 4 (λ i. 0) filled (omega arith) filled-no_lap

-- Two slots. Thread 0 looks at the tail and waits, while thread 1 pushes, and pushes again after a
-- pop, so that the head is where it was and the queue is full.
abbrev gone_round : List (Move ℕ)
gone_round =
    call_push 0 7
    ∷ pusher_moves 0
    ∷ pusher_moves 0
    ∷ call_push 1 8
    ∷ pusher_moves 1
    ∷ pusher_moves 1
    ∷ pusher_moves 1
    ∷ pusher_moves 1
    ∷ pusher_moves 1
    ∷ call_pop
    ∷ popper_moves
    ∷ popper_moves
    ∷ popper_moves
    ∷ popper_moves
    ∷ popper_moves
    ∷ popper_moves
    ∷ call_push 1 9
    ∷ pusher_moves 1
    ∷ pusher_moves 1
    ∷ pusher_moves 1
    ∷ pusher_moves 1
    ∷ pusher_moves 1
    ∷ pusher_moves 0
    ∷ pusher_moves 0
    ∷ pusher_moves 0
    ∷ []

-- Three items were pushed and one popped, and the queue is empty.
run-gone_round :
    ((run 2 (new_mpsc 2 (λ i. 0)) gone_round).claimed ≡ 8 ∷ 9 ∷ 7 ∷ [])
    × ((run 2 (new_mpsc 2 (λ i. 0)) gone_round).popped ≡ 8 ∷ [])
    × ((run 2 (new_mpsc 2 (λ i. 0)) gone_round).head
        ≡ (run 2 (new_mpsc 2 (λ i. 0)) gone_round).tail)
unfolding run
run-gone_round = (refl, refl, refl)
