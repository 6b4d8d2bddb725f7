-- ===== src/Pool/Joined.antt =====
-- When `ThreadPool::join` returns, every accepted task has been run once.
use simple_redis_client.Prelude.{
  ℕ, ◌+◌, ◌<◌, ◌≡◌, ◌∙◌, refl, sym, ap, true, ◌&&◌, List, [], ◌∷◌, ◌++◌, ltb, arith, Bool-cases,
  inl, inr, append-nil, append_assoc,
}
use simple_redis_client.Queue.Blocking
use simple_redis_client.Queue.Blocking.{
  BlockingQueue, Popped, item, default, not_yet, no_items, pop_first,
}
use simple_redis_client.Pool.{
  Worker, popping, running, checking, finished, ThreadPool, update, set_worker, put, after_pop,
  run_worker, Move, put_task, worker, join_shutdown, join_store, move, run, new_pool,
}
use simple_redis_client.Pool.Count.{
  count, runs, running_count, count-snoc, running_count-update, running_count_finished,
  running_count_popping,
}

pub record IsSound (n : ℕ) (p : ThreadPool) : Type 0 where
  -- The tasks accepted are the tasks begun, and then those that wait.
  pub order : p.accepted ≡ p.started ++ p.tasks.queue
  -- A task that was begun has ended or is being run.
  pub counts : (t : ℕ) → count t p.completed + running_count t n p.workers ≡ count t p.started
  -- A thread ends only when the queue is shut down and empty.
  pub ended : (i : ℕ) → p.workers i ≡ finished → (p.tasks.stopped ≡ true) × (p.tasks.queue ≡ [])

-- A thread looks at `joined` only after `T{}` from a queue that is shut down.
abbrev pub IsShut : ThreadPool → Type 0
IsShut p = (i : ℕ) → p.workers i ≡ checking → p.tasks.stopped ≡ true

no_items_lem : (xs : List ℕ) → no_items xs ≡ true → xs ≡ []
no_items_lem [] h = refl
no_items_lem (x ∷ xs) h = cc

pub put-IsShut : (p : ThreadPool) (t : ℕ) → IsShut p → IsShut (put p t)
unfolding put
put-IsShut p t h = λ j e. ground (arith, h j e)

module _ (n : ℕ) where
  -- A thread that goes from one state with no task to another.
  set_worker-IsSound :
      (p : ThreadPool) (i : ℕ) (w : Worker)
      → i < n
      → IsSound n p
      → ((t : ℕ) → runs t (p.workers i) ≡ 0)
      → ((t : ℕ) → runs t w ≡ 0)
      → (w ≡ finished → (p.tasks.stopped ≡ true) × (p.tasks.queue ≡ []))
      → IsSound n (set_worker p i w)
  set_worker-IsSound p i w lt s a b f = record {
    order = s.order;
    counts = λ t. omega (arith, s.counts t, running_count-update t n p.workers i w lt, a t, b t);
    ended = λ j e. ground (arith, s.ended j, f);
  }

  pub put-IsSound : (p : ThreadPool) (t : ℕ) → IsSound n p → IsSound n (put p t)
  unfolding put
  put-IsSound p t s = record {
    order = ground (arith, s.order, append_assoc p.started p.tasks.queue (t ∷ []));
    counts = λ u. ground (arith, s.counts u);
    ended = λ j e. ground (arith, s.ended j e);
  }

  popping-IsSound :
      (p : ThreadPool) (i : ℕ) (queue : List ℕ)
      → i < n
      → p.workers i ≡ popping
      → p.tasks.queue ≡ queue
      → IsSound n p
      → IsSound n (after_pop p i (pop_first p.tasks queue).0 (pop_first p.tasks queue).1)
  popping-IsSound p i [] lt w q s = elim (Bool-cases p.tasks.stopped) [
    | inl e ↦ simp e (set_worker-IsSound p i checking lt s (λ t. rw w refl) (λ t. refl) (λ f. cc))
    | inr e ↦ simp e s
  ]
  popping-IsSound p i (t ∷ ts) lt w q s = record {
    order = s.order ∙ ap (λ l. p.started ++ l) q ∙ sym (append_assoc p.started (t ∷ []) ts);
    counts = λ u. omega (
      arith,
      s.counts u,
      count-snoc u p.started t,
      running_count-update u n p.workers i (running t) lt,
      ap (runs u) w,
    );
    ended = λ j e. ground (arith, s.ended j);
  }

  running-IsSound :
      (p : ThreadPool) (i t : ℕ)
      → i < n
      → p.workers i ≡ running t
      → IsSound n p
      → IsSound n
          (record p { workers = update p.workers i popping; completed = p.completed ++ (t ∷ []) })
  running-IsSound p i t lt w s = record {
    order = s.order;
    counts = λ u. omega (
      arith,
      s.counts u,
      count-snoc u p.completed t,
      running_count-update u n p.workers i popping lt,
      ap (runs u) w,
    );
    ended = λ j e. ground (arith, s.ended j);
  }

  pub run_worker-IsSound :
      (p : ThreadPool) (i : ℕ) (w : Worker)
      → i < n
      → p.workers i ≡ w
      → IsSound n p
      → IsShut p
      → IsSound n (run_worker p i w)
  unfolding run_worker
  run_worker-IsSound p i popping lt w s shut = popping-IsSound p i p.tasks.queue lt w refl s
  run_worker-IsSound p i (running t) lt w s shut = running-IsSound p i t lt w s
  run_worker-IsSound p i checking lt w s shut =
      elim (Bool-cases (p.joined && Blocking.empty p.tasks)) [
        | inl e ↦ simp e (
            set_worker-IsSound p i finished lt s (λ t. rw w refl) (λ t. refl)
              (λ f. (shut i w, no_items_lem p.tasks.queue (ground arith))))
        | inr e ↦
            simp e (set_worker-IsSound p i popping lt s (λ t. rw w refl) (λ t. refl) (λ f. cc))
      ]
  run_worker-IsSound p i finished lt w s shut = s

  popping-IsShut :
      (p : ThreadPool) (i : ℕ) (queue : List ℕ)
      → IsShut p
      → IsShut (after_pop p i (pop_first p.tasks queue).0 (pop_first p.tasks queue).1)
  popping-IsShut p i [] h = elim (Bool-cases p.tasks.stopped) [
    | inl e ↦ simp e (λ j f. refl)
    | inr e ↦ simp e (λ j f. sym e ∙ h j f)
  ]
  popping-IsShut p i (t ∷ ts) h = λ j f. ground (arith, h j)

  pub run_worker-IsShut :
      (p : ThreadPool) (i : ℕ) (w : Worker) → IsShut p → IsShut (run_worker p i w)
  unfolding run_worker
  run_worker-IsShut p i popping h = popping-IsShut p i p.tasks.queue h
  run_worker-IsShut p i (running t) h = λ j f. ground (arith, h j)
  run_worker-IsShut p i checking h = λ j f. ground (arith, h j)
  run_worker-IsShut p i finished h = h

  pub move-IsSound :
      (p : ThreadPool) (m : Move)
      → IsSound n p × IsShut p
      → IsSound n (move n p m) × IsShut (move n p m)
  unfolding move
  move-IsSound p (put_task t) (s, shut) = (put-IsSound p t s, put-IsShut p t shut)
  move-IsSound p (worker i) (s, shut) = elim (Bool-cases (ltb i n)) [
    | inl e ↦ simp e (
      run_worker-IsSound p i (p.workers i) (ground arith) refl s shut,
      run_worker-IsShut p i (p.workers i) shut,
    )
    | inr e ↦ simp e (s, shut)
  ]
  move-IsSound p join_shutdown (s, shut) = (
    record { order = s.order; counts = s.counts; ended = λ i e. (refl, (s.ended i e).1) },
    λ i e. refl,
  )
  move-IsSound p join_store (s, shut) =
      (record { order = s.order; counts = s.counts; ended = s.ended }, shut)

  run-IsSound :
      (p : ThreadPool) (ms : List Move)
      → IsSound n p × IsShut p
      → IsSound n (run n p ms) × IsShut (run n p ms)
  unfolding run
  run-IsSound p [] h = h
  run-IsSound p (m ∷ ms) h = run-IsSound (move n p m) ms (move-IsSound p m h)

  pub new_pool-IsSound : IsSound n new_pool
  unfolding count
  new_pool-IsSound = record {
    order = refl;
    counts = λ t. omega (arith, running_count_popping t n);
    ended = λ i e. cc;
  }

  -- A pool whose threads have all ended.
  pub finished-completes :
      (p : ThreadPool) (t : ℕ)
      → IsSound n p
      → 0 < n
      → ((i : ℕ) → i < n → p.workers i ≡ finished)
      → (p.tasks.queue ≡ []) × (count t p.completed ≡ count t p.accepted)
  finished-completes p t s pos all =
      let e : p.tasks.queue ≡ [] = (s.ended 0 (all 0 pos)).1 in
      (
        e,
        omega (arith, s.counts t, running_count_finished t n p.workers all)
            ∙ ap (count t)
                (sym (append-nil p.started) ∙ ap (λ l. p.started ++ l) (sym e) ∙ sym s.order),
      )

  -- When all the threads of a pool with a thread have ended, which is what `join` waits for, no task
  -- waits, and every accepted task has been run to its end, as often as it was accepted.
  pub joined_completes :
      (ms : List Move) (t : ℕ)
      → 0 < n
      → ((i : ℕ) → i < n → (run n new_pool ms).workers i ≡ finished)
      → ((run n new_pool ms).tasks.queue ≡ [])
        × (count t (run n new_pool ms).completed ≡ count t (run n new_pool ms).accepted)
  joined_completes ms t pos all =
      let (s, shut) = run-IsSound new_pool ms (new_pool-IsSound, λ i e. cc) in
      finished-completes (run n new_pool ms) t s pos all
