-- ===== src/Rpc/Service/Kept.antt =====
-- What the server keeps while it puts the requests of a client into the pool.
use simple_redis_client.Prelude.{
  ℕ, ◌+◌, ◌≤◌, ◌≡◌, ◌∙◌, sym, Option, none, some, List, [], ◌∷◌, ◌++◌, length, length-append, ltb,
  if◌then◌else◌, arith, Bool-cases, inl, inr,
}
use simple_redis_client.Rpc.Types.{RpcContext}
use simple_redis_client.Rpc.Server.{Served, Handlers}
use simple_redis_client.Rpc.Service.{
  Service, pool_size, put_request, put_requests, set_context, after_serving,
}
use simple_redis_client.Rpc.Service.Known.{
  AreBelow, AreBelow-le, AreBelow-append, IsKnown, IsKnown-le, answers, answers-append_requests,
}
use simple_redis_client.Queue.Blocking.{BlockingQueue, pop_first}
use simple_redis_client.Queue.Blocking
use simple_redis_client.Pool
use simple_redis_client.Pool.{
  ThreadPool, Worker, popping, running, checking, finished, after_pop, update, run_worker,
  set_worker, new_pool,
}
use simple_redis_client.Pool.Count.{count, count-snoc}
use simple_redis_client.Pool.Joined.{IsSound, IsShut, put-IsSound, put-IsShut}

-- The pool's tasks are requests, and the responses are those of the tasks that have ended.
pub record IsServed (hs : Handlers) (s : Service) : Type 0 where
  pub sound : IsSound pool_size s.pool
  pub shut : IsShut s.pool
  pub queue_known : AreBelow (length s.requests) s.pool.tasks.queue
  pub workers_known : (i : ℕ) → IsKnown (length s.requests) (s.pool.workers i)
  pub done_known : AreBelow (length s.requests) s.pool.completed
  pub answered : s.responses ≡ answers hs s.requests s.pool.completed
  pub counted :
      (t : ℕ)
      → count t s.pool.accepted + count t s.dropped ≡ (if ltb t (length s.requests) then 1 else 0)

module _ (hs : Handlers) where
  pub set_context-IsServed :
      (s : Service) (client : ℕ) (c : RpcContext)
      → IsServed hs s
      → IsServed hs (set_context s client c)
  set_context-IsServed s client c h = record {
    sound = h.sound;
    shut = h.shut;
    queue_known = h.queue_known;
    workers_known = h.workers_known;
    done_known = h.done_known;
    answered = h.answered;
    counted = h.counted;
  }

  put_request-IsServed :
      (s : Service) (client : ℕ) (c : RpcContext)
      → IsServed hs s
      → IsServed hs (put_request s client c)
  unfolding put_request
  put_request-IsServed s client c h = record {
    sound = put-IsSound pool_size s.pool (length s.requests) h.sound;
    shut = put-IsShut s.pool (length s.requests) h.shut;
    queue_known = queue;
    workers_known =
        λ i. IsKnown-le (length s.requests) _ (s.pool.workers i) more (h.workers_known i);
    done_known = AreBelow-le (length s.requests) _ s.pool.completed more h.done_known;
    answered =
        h.answered
        ∙ sym (
            answers-append_requests hs s.requests ((client, c) ∷ []) s.pool.completed h.done_known);
    counted = λ t. counts t;
  }
    where
      longer : length (s.requests ++ ((client, c) ∷ [])) ≡ length s.requests + 1
      longer = length-append s.requests ((client, c) ∷ [])

      more : length s.requests ≤ length (s.requests ++ ((client, c) ∷ []))
      more = omega (arith, longer)

      queue :
          AreBelow
            (length (s.requests ++ ((client, c) ∷ [])))
            (Blocking.push s.pool.tasks (length s.requests)).queue
      queue = elim (Bool-cases s.pool.tasks.stopped) [
        | inl e ↦ simp e (AreBelow-le (length s.requests) _ s.pool.tasks.queue more h.queue_known)
        | inr e ↦ simp e (
            AreBelow-append _ s.pool.tasks.queue (length s.requests ∷ [])
              (AreBelow-le (length s.requests) _ s.pool.tasks.queue more h.queue_known)
              (omega (arith, longer), tt))
      ]

      counts :
          (t : ℕ)
          → count t (Pool.put s.pool (length s.requests)).accepted
              + count t (
                  if s.pool.tasks.stopped then s.dropped ++ (length s.requests ∷ []) else s.dropped)
            ≡ (if ltb t (length (s.requests ++ ((client, c) ∷ []))) then 1 else 0)
      counts t = ground (
        arith,
        h.counted t,
        longer,
        count-snoc t s.pool.accepted (length s.requests),
        count-snoc t s.dropped (length s.requests),
      )

  put_requests-IsServed :
      (s : Service) (client : ℕ) (cs : List RpcContext)
      → IsServed hs s
      → IsServed hs (put_requests s client cs)
  unfolding put_requests
  put_requests-IsServed s client [] h = h
  put_requests-IsServed s client (c ∷ cs) h =
      put_requests-IsServed (put_request s client c) client cs (put_request-IsServed s client c h)

  pub after_serving-IsServed :
      (s : Service) (client : ℕ) (r : Option Served)
      → IsServed hs s
      → IsServed hs (after_serving s client r)
  after_serving-IsServed s client none h = h
  after_serving-IsServed s client (some served) h =
      put_requests-IsServed (set_context s client served.context) client served.tasks
        (set_context-IsServed s client served.context h)
