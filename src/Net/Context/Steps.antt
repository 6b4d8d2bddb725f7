-- ===== src/Net/Context/Steps.antt =====
-- A step of a descriptor keeps the descriptors of `EpollContextImpl` apart.
use simple_redis_client.Prelude.{
  ℕ, ◌≡◌, ◌∙◌, refl, sym, ap, subst, Bool, true, false, List, [], ◌∷◌, ◌++◌, append_assoc, ◌==◌,
  if◌then◌else◌, arith, Bool-cases, inl, inr,
}
use simple_redis_client.Net.Context.{
  unknown, Task, Report, Step, task, report, Context, route, step, put_queue, make_step,
}
use simple_redis_client.Net.Context.Descriptors.{
  of_fd, of_fd-append, of_fd-same, of_fd-other, tasks_of, tasks_of-task, tasks_of-report, steps,
  steps-append, IsSeparate,
}

module _ (iov_max : ℕ) (hash : ℕ → ℕ) where
  -- A step of a descriptor in its own loop.
  pub step-tables :
      (c : Context) (i fd : ℕ) (s : Step)
      → IsSeparate iov_max hash c
      → i ≡ route hash fd
      → (k : ℕ)
      → (make_step iov_max c i fd s).tables (route hash k) k
        ≡ steps iov_max unknown (of_fd k (make_step iov_max c i fd s).executed)
  step-tables c i fd s h e k = elim (Bool-cases (fd == k)) [
    | inl f ↦
        let same : fd ≡ k = ground arith in
        subst
          (λ m.
            (make_step iov_max c i fd s).tables (route hash m) m
            ≡ steps iov_max unknown (of_fd m (make_step iov_max c i fd s).executed))
          same
          (own (ground arith)
            ∙ ap (λ d. step iov_max d s) (ap (λ j. c.tables j fd) e ∙ h.by_itself fd)
            ∙ sym (steps-append iov_max unknown (of_fd fd c.executed) s)
            ∙ ap (steps iov_max unknown) (sym (of_fd-same fd s c.executed)))
    | inr f ↦
        other f (i == route hash k)
        ∙ h.by_itself k
        ∙ ap (steps iov_max unknown) (sym (of_fd-other k fd s c.executed f))
  ]
    where
      own :
          (i == route hash fd) ≡ true
          → (make_step iov_max c i fd s).tables (route hash fd) fd ≡ step iov_max (c.tables i fd) s
      own g =
          rw g (
            ap (λ b. if b then step iov_max (c.tables i fd) s else c.tables (route hash fd) fd)
              self)
        where
          self : (fd == fd) ≡ true
          self = ground arith

      other :
          (fd == k) ≡ false
          → (b : Bool)
          → (if b
              then (if fd == k then step iov_max (c.tables i fd) s else c.tables (route hash k) k)
              else c.tables (route hash k) k)
            ≡ c.tables (route hash k) k
      other f true = rw f refl
      other f false = refl

  pub step_elsewhere :
      (c : Context) (i fd : ℕ) (s : Step)
      → IsSeparate iov_max hash c
      → i ≡ route hash fd
      → (j k : ℕ) → (route hash k == j) ≡ false
      → (make_step iov_max c i fd s).tables j k ≡ unknown
  step_elsewhere c i fd s h e j k n = elim (Bool-cases (i == j)) [
    | inl f ↦ elim (Bool-cases (fd == k)) [
      | inl g ↦ let same : fd ≡ k = ground arith in absurd (ground (arith, ap (route hash) same))
      | inr g ↦ rw (f, g) (h.nowhere_else j k n)
    ]
    | inr f ↦ rw f (h.nowhere_else j k n)
  ]

  pub report-IsSeparate :
      (c : Context) (i fd : ℕ) (r : Report)
      → i ≡ route hash fd
      → IsSeparate iov_max hash c
      → IsSeparate iov_max hash (make_step iov_max c i fd (report r))
  report-IsSeparate c i fd r e h = record {
    nowhere_else = step_elsewhere c i fd (report r) h e;
    no_task_else = h.no_task_else;
    by_itself = step-tables c i fd (report r) h e;
    in_order = λ k. h.in_order k ∙ ap (λ l. l ++ of_fd k (c.queues (route hash k))) (sym (tasks k));
  }
    where
      tasks :
          (k : ℕ)
          → tasks_of (of_fd k (c.executed ++ ((fd, report r) ∷ []))) ≡ tasks_of (of_fd k c.executed)
      tasks k = elim (Bool-cases (fd == k)) [
        | inl f ↦
            ap tasks_of (of_fd-append k fd (report r) c.executed)
            ∙ ap (λ b. tasks_of (of_fd k c.executed ++ (if b then report r ∷ [] else []))) f
            ∙ tasks_of-report r (of_fd k c.executed)
        | inr f ↦ ap tasks_of (of_fd-other k fd (report r) c.executed f)
      ]

  -- The first task of the loop's queue.
  pub first-IsSeparate :
      (c : Context) (i fd : ℕ) (t : Task) (q : List (ℕ × Task))
      → c.queues i ≡ (fd, t) ∷ q
      → i ≡ route hash fd
      → IsSeparate iov_max hash c
      → IsSeparate iov_max hash
          (make_step iov_max (record c { queues = put_queue c.queues i q }) i fd (task t))
  first-IsSeparate c i fd t q at e h = record {
    nowhere_else = step_elsewhere c i fd (task t) h e;
    no_task_else = λ j k n. elim (Bool-cases (i == j)) [
      | inl f ↦
          rw f (rest k (ap (of_fd k) (sym at ∙ ap c.queues (same_loop j f)) ∙ h.no_task_else j k n))
      | inr f ↦ rw f (h.no_task_else j k n)
    ];
    by_itself = step-tables c i fd (task t) h e;
    in_order = λ k. h.in_order k ∙ moved k;
  }
    where
      same_loop : (j : ℕ) → (i == j) ≡ true → i ≡ j
      same_loop j f = ground arith

      rest : (k : ℕ) → of_fd k ((fd, t) ∷ q) ≡ [] → of_fd k q ≡ []
      rest k f = elim (Bool-cases (fd == k)) [
        | inl g ↦ absurd (ground arith)
        | inr g ↦ sym (ap (λ b. if b then t ∷ of_fd k q else of_fd k q) g) ∙ f
      ]

      tasks : (k : ℕ) → List Task
      tasks k = tasks_of (of_fd k c.executed)

      done :
          (k : ℕ)
          → (fd == k) ≡ true
          → tasks_of (of_fd k (c.executed ++ ((fd, task t) ∷ []))) ≡ tasks k ++ (t ∷ [])
      done k f =
          ap tasks_of (of_fd-append k fd (task t) c.executed)
          ∙ ap (λ b. tasks_of (of_fd k c.executed ++ (if b then task t ∷ [] else []))) f
          ∙ tasks_of-task t (of_fd k c.executed)

      left :
          (k : ℕ)
          → (b : Bool) → (i == route hash k) ≡ b
          → (fd == k) ≡ false
          → of_fd k (c.queues (route hash k)) ≡ of_fd k (if b then q else c.queues (route hash k))
      left k true f g =
          ap (of_fd k) (ap c.queues (sym (same_loop (route hash k) f)) ∙ at)
          ∙ ap (λ b. if b then t ∷ of_fd k q else of_fd k q) g
      left k false f g = refl

      moved :
          (k : ℕ)
          → tasks k ++ of_fd k (c.queues (route hash k))
            ≡ tasks_of (of_fd k (c.executed ++ ((fd, task t) ∷ [])))
              ++ of_fd k (put_queue c.queues i q (route hash k))
      moved k = elim (Bool-cases (fd == k)) [
        | inl f ↦
            let same : fd ≡ k = ground arith in
            let loop : i ≡ route hash k = e ∙ ap (route hash) same in
            ap (λ l. tasks k ++ of_fd k l) (ap c.queues (sym loop) ∙ at)
            ∙ ap (λ b. tasks k ++ (if b then t ∷ of_fd k q else of_fd k q)) f
            ∙ sym (append_assoc (tasks k) (t ∷ []) (of_fd k q))
            ∙ ap (λ l. l ++ of_fd k q) (sym (done k f))
            ∙ ap
                (λ b.
                  tasks_of (of_fd k (c.executed ++ ((fd, task t) ∷ [])))
                  ++ of_fd k (if b then q else c.queues (route hash k)))
                (sym (found k loop))
        | inr f ↦
            ap (λ l. l ++ of_fd k (c.queues (route hash k)))
              (sym (ap tasks_of (of_fd-other k fd (task t) c.executed f)))
            ∙ ap (λ l. tasks_of (of_fd k (c.executed ++ ((fd, task t) ∷ []))) ++ l)
                (left k (i == route hash k) refl f)
      ]
        where
          found : (k : ℕ) → i ≡ route hash k → (i == route hash k) ≡ true
          found k g = ground arith
