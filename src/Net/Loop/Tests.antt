-- ===== src/Net/Loop/Tests.antt =====
-- Runs of an `EpollContext` with two posting threads.
use simple_redis_client.Prelude.{
  true, false, ◌++◌, ℕ, ◌+◌, ◌*◌, ◌<◌, ◌≤◌, ◌≡◌, ◌≢◌, refl, List, [], ◌∷◌, length, replicate, arith,
}
use simple_redis_client.Net.Loop.{
  idle, waiting, ended, Move, post_batch, poster, exchange_fails, store_lands, loop_moves, run,
  new_loop,
}
use simple_redis_client.Net.Loop.Owned.{tasks}
use simple_redis_client.Net.Loop.Wakes.{no_task_forgotten}
use simple_redis_client.Net.Loop.Drains.{loop_drains}

-- `n` accesses of thread `i`.
abbrev steps : ℕ → ℕ → List Move
steps i n = replicate n (poster i)

-- Thread 2 posts between the loop's last look at the queue and its store to `awake`.
abbrev late_post : List Move
late_post =
    (loop_moves ∷ post_batch 1 (7 ∷ []) ∷ steps 1 6)
    ++ replicate 5 loop_moves
    ++ (post_batch 2 (8 ∷ 9 ∷ []) ∷ steps 2 3)
    ++ (exchange_fails 2 ∷ steps 2 8)
    ++ (loop_moves ∷ store_lands ∷ replicate 4 loop_moves)

run_late :
    ((run 512 new_loop late_post).loop ≡ waiting)
    × ((run 512 new_loop late_post).started ≡ 7 ∷ [])
    × (tasks (run 512 new_loop late_post).queue ≡ 8 ∷ 9 ∷ [])
unfolding run
run_late = (refl, refl, refl)

late-idle : (i : ℕ) → (run 512 new_loop late_post).posters i ≡ idle
unfolding run
late-idle i = ground arith

late-waiting : (run 512 new_loop late_post).loop ≢ ended
unfolding run
late-waiting = λ e. cc

late_queue : (run 512 new_loop late_post).queue ≢ []
unfolding run
late_queue = λ e. cc

late_fits :
    ((run 512 new_loop late_post).overrun ≡ false) × ((run 512 new_loop late_post).early ≡ false)
unfolding run
late_fits = (refl, refl)

no_task_forgotten_example : 0 < (run 512 new_loop late_post).eventfd
no_task_forgotten_example =
    no_task_forgotten 512 late_post run_late.0 late-idle late_queue late_fits.0 late_fits.1

loop_drains_example :
    (k : ℕ) × (k ≤ 2 * length (run 512 new_loop late_post).queue + 7)
    × ((run 512 (run 512 new_loop late_post) (replicate k loop_moves)).queue ≡ [])
    × ((run 512 (run 512 new_loop late_post) (replicate k loop_moves)).started
        ≡ (run 512 new_loop late_post).posted)
loop_drains_example = loop_drains 512 late_post late-idle late-waiting late_fits.0 late_fits.1

-- The loop looks at the queue before its store lands, and thread 2 posts in between: thread 2 finds
-- `awake` set and does not write, so that the loop waits for good.
abbrev early_look : List Move
early_look =
    (loop_moves ∷ post_batch 1 (7 ∷ []) ∷ steps 1 6)
    ++ replicate 7 loop_moves
    ++ (post_batch 2 (8 ∷ []) ∷ steps 2 5)
    ++ (store_lands ∷ replicate 3 loop_moves)

run_early :
    ((run 512 new_loop early_look).loop ≡ waiting)
    × (tasks (run 512 new_loop early_look).queue ≡ 8 ∷ [])
    × ((run 512 new_loop early_look).posters 2 ≡ idle)
    × ((run 512 new_loop early_look).eventfd ≡ 0)
    × ((run 512 new_loop early_look).early ≡ true)
unfolding run
run_early = (refl, refl, refl, refl, refl)

-- With two places one task fits. Thread 1 finds the room, thread 2 posts and the loop takes that
-- task; thread 2 posts again, and thread 1 exchanges the head, which stands where it was: it meets
-- the tail, and both tasks are lost.
abbrev overtaken : List Move
overtaken =
    (post_batch 1 (7 ∷ []) ∷ steps 1 2)
    ++ (post_batch 2 (8 ∷ []) ∷ steps 2 6)
    ++ replicate 4 loop_moves
    ++ (post_batch 2 (9 ∷ []) ∷ steps 2 6)
    ++ steps 1 1

run-overtaken :
    ((run 2 new_loop overtaken).overrun ≡ true)
    × ((run 2 new_loop overtaken).posted ≡ 8 ∷ 9 ∷ 7 ∷ [])
    × ((run 2 new_loop overtaken).started ≡ 8 ∷ [])
    × ((run 2 new_loop overtaken).queue ≡ [])
unfolding run
run-overtaken = (refl, refl, refl, refl)
