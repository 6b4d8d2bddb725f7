-- ===== src/Pool/Drains.antt =====
-- After `join` has shut the queue down and stored `joined`, a thread of the pool ends.
use simple_redis_client.Prelude.{
  ℕ, zero, suc, ◌+◌, ◌*◌, ◌≤◌, ◌<◌, ◌≡◌, ◌∙◌, refl, ap, true, List, [], ◌∷◌, lt→ltb, length, arith,
  replicate,
}
use simple_redis_client.Pool.{
  Worker, popping, running, checking, finished, ThreadPool, run_worker, worker, move, run,
}

-- The moves that a thread still makes when it finds `queue`.
abbrev pub moves_left : List ℕ → Worker → ℕ
moves_left queue popping = 2 * length queue + 2
moves_left queue (running t) = 2 * length queue + 3
moves_left [] checking = 1
moves_left (x ∷ queue) checking = 2 * length queue + 5
moves_left queue finished = 0

-- `join` waits for the threads.
abbrev pub IsJoining : ThreadPool → Type 0
IsJoining p = (p.joined ≡ true) × (p.tasks.stopped ≡ true)

run_worker_left :
    (p : ThreadPool) (i k : ℕ) (w : Worker) (queue : List ℕ)
    → IsJoining p
    → p.tasks.queue ≡ queue
    → moves_left queue w ≡ suc k
    → IsJoining (run_worker p i w)
      × (moves_left (run_worker p i w).tasks.queue ((run_worker p i w).workers i) ≡ k)
unfolding run_worker
run_worker_left p i k popping [] (j, s) q e = ground arith
run_worker_left p i k popping (x ∷ queue) (j, s) q e = ground arith
run_worker_left p i k (running t) [] (j, s) q e = ground arith
run_worker_left p i k (running t) (x ∷ queue) (j, s) q e = ground arith
run_worker_left p i k checking [] (j, s) q e = ground arith
run_worker_left p i k checking (x ∷ queue) (j, s) q e = ground arith
run_worker_left p i k finished queue (j, s) q e = absurd (omega arith)

module _ (n : ℕ) where
  move_worker :
      (p : ThreadPool) (i : ℕ) → i < n → move n p (worker i) ≡ run_worker p i (p.workers i)
  unfolding move
  move_worker p i lt = rw (lt→ltb i n lt) refl

  ends :
      (k : ℕ) (p : ThreadPool) (i : ℕ)
      → i < n
      → IsJoining p
      → moves_left p.tasks.queue (p.workers i) ≡ k
      → (run n p (replicate k (worker i))).workers i ≡ finished
  unfolding run
  ends zero p i lt j e = ended p.tasks.queue (p.workers i) e
    where
      ended : (queue : List ℕ) (w : Worker) → moves_left queue w ≡ 0 → w ≡ finished
      ended queue popping e' = absurd (omega arith)
      ended queue (running t) e' = absurd (omega arith)
      ended [] checking e' = absurd (omega arith)
      ended (x ∷ queue) checking e' = absurd (omega arith)
      ended queue finished e' = refl
  ends (suc k) p i lt j e =
      let (joining, left) = run_worker_left p i k (p.workers i) p.tasks.queue j refl e in
      ap (λ q. (run n q (replicate k (worker i))).workers i) (move_worker p i lt)
      ∙ ends k (run_worker p i (p.workers i)) i lt joining left

  -- After `join` has shut the queue down and stored `joined`, a thread that moves alone runs the
  -- waiting tasks and ends: two moves for each task, and three at most besides.
  pub thread_ends :
      (p : ThreadPool) (i : ℕ)
      → i < n
      → IsJoining p
      → ((run n p (replicate (moves_left p.tasks.queue (p.workers i)) (worker i))).workers i
          ≡ finished)
        × (moves_left p.tasks.queue (p.workers i) ≤ 2 * length p.tasks.queue + 3)
  thread_ends p i lt j = (ends _ p i lt j refl, left-le p.tasks.queue (p.workers i))
    where
      left-le : (queue : List ℕ) (w : Worker) → moves_left queue w ≤ 2 * length queue + 3
      left-le queue popping = omega arith
      left-le queue (running t) = omega arith
      left-le [] checking = omega arith
      left-le (x ∷ queue) checking = omega arith
      left-le queue finished = omega arith
