-- ===== src/Rpc/Service/Workers.antt =====
-- What a thread of the pool's move does to the responses of src/app/rpc/RpcServer.cpp.
use simple_redis_client.Prelude.{
  ℕ, ◌<◌, ◌≡◌, ◌∙◌, refl, sym, ap, subst, [], ◌∷◌, ◌++◌, append-nil, length, ◌&&◌, Bool-cases, inl,
  inr,
}
use simple_redis_client.Rpc.Server.{Handlers}
use simple_redis_client.Rpc.Service.{Service, pool_size, respond, responses_of}
use simple_redis_client.Rpc.Service.Known.{
  after_pop-IsKnown, update-IsKnown, AreBelow, AreBelow-append, IsKnown, answers, answers-append,
  respond_lem,
}
use simple_redis_client.Queue.Blocking.{BlockingQueue, pop_first}
use simple_redis_client.Queue.Blocking
use simple_redis_client.Pool.{ThreadPool, Worker, popping, running, checking, finished, run_worker}
use simple_redis_client.Pool.Joined.{IsSound, IsShut}
use simple_redis_client.Rpc.Service.Kept.{IsServed}

module _ (hs : Handlers) where
  -- A thread that is not at the end of a task.
  silent-IsServed :
      (s : Service) (p : ThreadPool)
      → IsSound pool_size p
      → IsShut p
      → AreBelow (length s.requests) p.tasks.queue
      → ((i : ℕ) → IsKnown (length s.requests) (p.workers i))
      → p.completed ≡ s.pool.completed
      → p.accepted ≡ s.pool.accepted
      → IsServed hs s
      → IsServed hs (record s { pool = p; responses = s.responses ++ [] })
  silent-IsServed s p sound shut queue workers done accepted h = record {
    sound = sound;
    shut = shut;
    queue_known = queue;
    workers_known = workers;
    done_known = rw done h.done_known;
    answered = append-nil s.responses ∙ h.answered ∙ ap (answers hs s.requests) (sym done);
    counted = λ t. rw accepted (h.counted t);
  }

  pub worker-IsServed :
      (s : Service) (i : ℕ) (w : Worker)
      → s.pool.workers i ≡ w
      → IsSound pool_size (run_worker s.pool i w)
      → IsShut (run_worker s.pool i w)
      → IsServed hs s
      → IsServed hs (record s {
        pool = run_worker s.pool i w;
        responses = s.responses ++ responses_of hs s.requests w;
      })
  unfolding run_worker
  worker-IsServed s i popping e sound shut h =
      let (a, b, c, d) =
        after_pop-IsKnown (length s.requests) s.pool i s.pool.tasks.queue refl h.queue_known
          h.workers_known in
      silent-IsServed s _ sound shut a b c d h
  worker-IsServed s i (running t) e sound shut h =
      let known : t < length s.requests =
        subst (IsKnown (length s.requests)) e (h.workers_known i) in
      record {
        sound = sound;
        shut = shut;
        queue_known = h.queue_known;
        workers_known = λ j.
            update-IsKnown (length s.requests) s.pool.workers i popping j tt (h.workers_known j);
        done_known =
            AreBelow-append (length s.requests) s.pool.completed (t ∷ []) h.done_known (known, tt);
        answered =
            ap (λ l. l ++ respond hs s.requests t) h.answered
            ∙ ap (λ l. answers hs s.requests s.pool.completed ++ l) (respond_lem hs s.requests t)
            ∙ sym (answers-append hs s.requests s.pool.completed (t ∷ []));
        counted = h.counted;
      }
  worker-IsServed s i checking e sound shut h =
      elim (Bool-cases (s.pool.joined && Blocking.empty s.pool.tasks)) [
        | inl f ↦
            silent-IsServed s _ sound shut (simp f h.queue_known)
              (simp f (λ j.
                update-IsKnown (length s.requests) s.pool.workers i finished j tt
                  (h.workers_known j)))
              (simp f refl) (simp f refl) h
        | inr f ↦
            silent-IsServed s _ sound shut (simp f h.queue_known)
              (simp f (λ j.
                update-IsKnown (length s.requests) s.pool.workers i popping j tt
                  (h.workers_known j)))
              (simp f refl) (simp f refl) h
      ]
  worker-IsServed s i finished e sound shut h =
      silent-IsServed s s.pool sound shut h.queue_known h.workers_known refl refl h

  pub pool-IsServed :
      (s : Service) (p : ThreadPool)
      → IsSound pool_size p
      → IsShut p
      → p.tasks.queue ≡ s.pool.tasks.queue
      → p.workers ≡ s.pool.workers
      → p.completed ≡ s.pool.completed
      → p.accepted ≡ s.pool.accepted
      → IsServed hs s
      → IsServed hs (record s { pool = p })
  pool-IsServed s p sound shut queue workers done accepted h = record {
    sound = sound;
    shut = shut;
    queue_known = rw queue h.queue_known;
    workers_known = λ i. rw workers (h.workers_known i);
    done_known = rw done h.done_known;
    answered = h.answered ∙ ap (answers hs s.requests) (sym done);
    counted = λ t. rw accepted (h.counted t);
  }
