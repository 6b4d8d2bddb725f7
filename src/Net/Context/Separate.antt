-- ===== src/Net/Context/Separate.antt =====
-- The loops of `EpollContextImpl` of src/net/context/EpollContext.cpp keep each descriptor in one
-- loop and apart from the others.
use simple_redis_client.Prelude.{
  ℕ, ◌≡◌, ◌≢◌, ◌∙◌, refl, sym, ap, Bool, true, false, none, some, List, [], ◌∷◌, ◌++◌, ◌==◌,
  if◌then◌else◌, arith, Bool-cases, inl, inr,
}
use simple_redis_client.Net.Context.{
  unknown, Task, Report, report, Context, Move, submit, loop_runs, epoll_reports, is_absent, route,
  make_step, first_task, move, run, new_context,
}
use simple_redis_client.Net.Context.Descriptors.{of_fd, tasks_of, steps, IsSeparate}
use simple_redis_client.Net.Context.Steps.{report-IsSeparate, first-IsSeparate}
use simple_redis_client.Net.Context.Submits.{submit-IsSeparate}

module _ (iov_max : ℕ) (hash : ℕ → ℕ) where
  first_task-IsSeparate :
      (c : Context) (i : ℕ) (q : List (ℕ × Task))
      → c.queues i ≡ q
      → IsSeparate iov_max hash c
      → IsSeparate iov_max hash (first_task iov_max c i q)
  first_task-IsSeparate c i [] e h = h
  first_task-IsSeparate c i ((fd, t) ∷ q) e h = elim (Bool-cases (route hash fd == i)) [
    | inl f ↦ first-IsSeparate iov_max hash c i fd t q e (ground arith) h
    | inr f ↦ absurd (none_there (fd == fd) self (ap (of_fd fd) (sym e) ∙ h.no_task_else i fd f))
  ]
    where
      self : (fd == fd) ≡ true
      self = ground arith

      none_there : (b : Bool) → b ≡ true → (if b then t ∷ of_fd fd q else of_fd fd q) ≢ []
      none_there true f n = cc
      none_there false f n = cc

  epoll_reports-IsSeparate :
      (c : Context) (i fd : ℕ) (r : Report)
      → is_absent (c.tables i fd).watched ≡ false
      → IsSeparate iov_max hash c
      → IsSeparate iov_max hash (make_step iov_max c i fd (report r))
  epoll_reports-IsSeparate c i fd r e h = elim (Bool-cases (route hash fd == i)) [
    | inl f ↦ report-IsSeparate iov_max hash c i fd r (ground arith) h
    | inr f ↦ absurd (ground (arith, ap (λ d. is_absent d.watched) (h.nowhere_else i fd f)))
  ]

  move-IsSeparate :
      (c : Context) (m : Move)
      → IsSeparate iov_max hash c
      → IsSeparate iov_max hash (move iov_max hash c m)
  unfolding move
  move-IsSeparate c (submit none t) h = record {
    nowhere_else = h.nowhere_else;
    no_task_else = h.no_task_else;
    by_itself = h.by_itself;
    in_order = h.in_order;
  }
  move-IsSeparate c (submit (some fd) t) h = submit-IsSeparate iov_max hash c fd t h
  move-IsSeparate c (loop_runs i) h = first_task-IsSeparate c i (c.queues i) refl h
  move-IsSeparate c (epoll_reports i fd r) h =
      elim (Bool-cases (is_absent (c.tables i fd).watched)) [
        | inl e ↦ simp e h
        | inr e ↦ simp e (epoll_reports-IsSeparate c i fd r e h)
      ]

  run-IsSeparate :
      (c : Context) (ms : List Move)
      → IsSeparate iov_max hash c
      → IsSeparate iov_max hash (run iov_max hash c ms)
  unfolding run
  run-IsSeparate c [] h = h
  run-IsSeparate c (m ∷ ms) h = run-IsSeparate (move iov_max hash c m) ms (move-IsSeparate c m h)

  new_context-IsSeparate : IsSeparate iov_max hash new_context
  new_context-IsSeparate = record {
    nowhere_else = λ i fd e. refl;
    no_task_else = λ i fd e. refl;
    by_itself = λ fd. refl;
    in_order = λ fd. refl;
  }

  -- However threads post tasks, the loops run them and epoll reports, of any number of descriptors:
  -- what the program has of a descriptor is what this descriptor's own steps, in their order, make of
  -- an unknown one; and the tasks posted for it are those run and then those in the queue of its
  -- loop, in the order of the posts.
  pub sockets_separate :
      (ms : List Move) (fd : ℕ)
      → ((run iov_max hash new_context ms).tables (route hash fd) fd
          ≡ steps iov_max unknown (of_fd fd (run iov_max hash new_context ms).executed))
        × (of_fd fd (run iov_max hash new_context ms).submitted
            ≡ tasks_of (of_fd fd (run iov_max hash new_context ms).executed)
              ++ of_fd fd ((run iov_max hash new_context ms).queues (route hash fd)))
  sockets_separate ms fd =
      let h = run-IsSeparate new_context ms new_context-IsSeparate in
      (h.by_itself fd, h.in_order fd)
