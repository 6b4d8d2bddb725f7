-- ===== src/Rpc/Service/Answered.antt =====
-- Each request that src/app/rpc/RpcServer.cpp reads from a client is answered once.
use simple_redis_client.Prelude.{
  ◌⊎◌, zero, suc, Bool, true, false, ℕ, ◌+◌, ◌<◌, ◌≡◌, refl, ap, List, [], ◌∷◌, length, ltb,
  if◌then◌else◌, arith, Bool-cases, inl, inr,
}
use simple_redis_client.Rpc.Types.{fresh}
use simple_redis_client.Rpc.Server.{Handlers, on_read}
use simple_redis_client.Rpc.Service.{
  Service, pool_size, Move, accepts, reads, worker_moves, pool_shuts_down, pool_joins, move, run,
  new_service,
}
use simple_redis_client.Rpc.Service.Known.{answers}
use simple_redis_client.Pool
use simple_redis_client.Pool.{
  ThreadPool, Worker, popping, running, checking, finished, after_pop, update, run_worker,
  set_worker, new_pool,
}
use simple_redis_client.Pool.Count.{count, running_count, count-append}
use simple_redis_client.Pool.Joined.{
  run_worker-IsSound, run_worker-IsShut, move-IsSound, new_pool-IsSound, finished-completes,
}
use simple_redis_client.Rpc.Service.Kept.{IsServed, set_context-IsServed, after_serving-IsServed}
use simple_redis_client.Rpc.Service.Workers.{worker-IsServed, pool-IsServed}

abbrev pub has_ended : Worker → Bool
has_ended finished = true
has_ended other = false

has_ended-finished : (w : Worker) → has_ended w ≡ true → w ≡ finished
has_ended-finished finished h = refl
has_ended-finished popping h = cc
has_ended-finished (running t) h = cc
has_ended-finished checking h = cc

module _ (hs : Handlers) where
  move-IsServed : (s : Service) (m : Move) → IsServed hs s → IsServed hs (move hs s m)
  unfolding move
  move-IsServed s (accepts client) h = set_context-IsServed hs s client fresh h
  move-IsServed s (reads client src) h =
      after_serving-IsServed hs s client (on_read src (s.contexts client)) h
  move-IsServed s (worker_moves i) h = elim (Bool-cases (ltb i pool_size)) [
    | inl e ↦ simp e (
        worker-IsServed hs s i (s.pool.workers i) refl
          (run_worker-IsSound pool_size s.pool i (s.pool.workers i) (ground arith) refl h.sound
            h.shut)
          (run_worker-IsShut pool_size s.pool i (s.pool.workers i) h.shut) h)
    | inr e ↦ simp e h
  ]
  move-IsServed s pool_shuts_down h =
      let (sound, shut) = move-IsSound pool_size s.pool Pool.join_shutdown (h.sound, h.shut) in
      pool-IsServed hs s _ sound shut (unfold Pool.move in refl) (unfold Pool.move in refl)
        (unfold Pool.move in refl) (unfold Pool.move in refl) h
  move-IsServed s pool_joins h =
      let (sound, shut) = move-IsSound pool_size s.pool Pool.join_store (h.sound, h.shut) in
      pool-IsServed hs s _ sound shut (unfold Pool.move in refl) (unfold Pool.move in refl)
        (unfold Pool.move in refl) (unfold Pool.move in refl) h

  run-IsServed : (s : Service) (ms : List Move) → IsServed hs s → IsServed hs (run hs s ms)
  unfolding run
  run-IsServed s [] h = h
  run-IsServed s (m ∷ ms) h = run-IsServed (move hs s m) ms (move-IsServed s m h)

  at_end :
      (s : Service) (t : ℕ)
      → IsServed hs s
      → (b c : Bool) → has_ended (s.pool.workers 0) ≡ b
      → has_ended (s.pool.workers 1) ≡ c
      → ((i : ℕ) × (i < pool_size) × (has_ended (s.pool.workers i) ≡ false))
        ⊎ (count t s.pool.completed + count t s.dropped
            ≡ (if ltb t (length s.requests) then 1 else 0))
  at_end s t h false c e f = inl (0, omega arith, e)
  at_end s t h true false e f = inl (1, omega arith, f)
  at_end s t h true true e f =
      let (empty, once) = finished-completes pool_size s.pool t h.sound (omega arith) all in
      inr (omega (arith, once, h.counted t))
    where
      all : (i : ℕ) → i < pool_size → s.pool.workers i ≡ finished
      all zero lt = has_ended-finished (s.pool.workers 0) e
      all (suc zero) lt = has_ended-finished (s.pool.workers 1) f
      all (suc (suc i)) lt = absurd (omega arith)

  new_service-IsServed : IsServed hs new_service
  unfolding count
  new_service-IsServed = record {
    sound = new_pool-IsSound pool_size;
    shut = λ i e. cc;
    queue_known = tt;
    workers_known = λ i. tt;
    done_known = tt;
    answered = refl;
    counted = λ t. ground arith;
  }

  -- However clients, reads and the pool's threads are interleaved, and at every point: the responses
  -- written are those of the requests whose tasks have ended, one for each, with the dispatched frame,
  -- to the client that sent the request, in the order of the ends. Each request stands at one place and once:
  -- in the queue, with a thread, among the tasks that have ended, or among those that came after the
  -- shutdown and were dropped. And a thread of the pool has yet to end, or each request
  -- was answered once or dropped once.
  pub requests_answered :
      (ms : List Move) (t : ℕ)
      → ((run hs new_service ms).responses
          ≡ answers hs (run hs new_service ms).requests (run hs new_service ms).pool.completed)
        × (count t (run hs new_service ms).pool.tasks.queue
              + running_count t pool_size (run hs new_service ms).pool.workers
              + count t (run hs new_service ms).pool.completed
              + count t (run hs new_service ms).dropped
            ≡ (if ltb t (length (run hs new_service ms).requests) then 1 else 0))
        × (((i : ℕ) × (i < pool_size)
              × (has_ended ((run hs new_service ms).pool.workers i) ≡ false))
            ⊎ (count t (run hs new_service ms).pool.completed
                  + count t (run hs new_service ms).dropped
                ≡ (if ltb t (length (run hs new_service ms).requests) then 1 else 0)))
  requests_answered ms t =
      let s = run hs new_service ms in
      let h : IsServed hs s = run-IsServed new_service ms new_service-IsServed in
      (
        h.answered,
        omega (
          arith,
          h.counted t,
          h.sound.counts t,
          ap (count t) h.sound.order,
          count-append t s.pool.started s.pool.tasks.queue,
        ),
        at_end s t h (has_ended (s.pool.workers 0)) (has_ended (s.pool.workers 1)) refl refl,
      )
