-- ===== src/Net/Context/Descriptors.antt =====
-- The tasks and the steps of one descriptor, and when the loops of `EpollContextImpl` keep the
-- descriptors apart.
use simple_redis_client.Prelude.{
  ℕ, ◌≡◌, ◌∙◌, refl, ap, true, false, List, [], ◌∷◌, ◌++◌, append-nil, ◌==◌, if◌then◌else◌, arith,
  Bool-cases, inl, inr,
}
use simple_redis_client.Net.Context.{
  Descriptor, unknown, Task, Report, Step, task, report, Context, route, step,
}

-- The entries of one descriptor, in their order.
abbrev pub of_fd {ℓ} : {A : Type ℓ} → ℕ → List (ℕ × A) → List A
of_fd fd [] = []
of_fd fd ((k, x) ∷ xs) = if k == fd then x ∷ of_fd fd xs else of_fd fd xs

pub of_fd-append {ℓ} :
    {A : Type ℓ} (fd k : ℕ) (x : A) (xs : List (ℕ × A))
    → of_fd fd (xs ++ ((k, x) ∷ [])) ≡ of_fd fd xs ++ (if k == fd then x ∷ [] else [])
of_fd-append fd k x [] = elim (Bool-cases (k == fd)) [ inl e ↦ rw e refl | inr e ↦ rw e refl ]
of_fd-append fd k x ((l, y) ∷ xs) = elim (Bool-cases (l == fd)) [
  | inl e ↦ rw e (ap (◌∷◌ y) (of_fd-append fd k x xs))
  | inr e ↦ rw e (of_fd-append fd k x xs)
]

pub of_fd-same {ℓ} :
    {A : Type ℓ} (fd : ℕ) (x : A) (xs : List (ℕ × A))
    → of_fd fd (xs ++ ((fd, x) ∷ [])) ≡ of_fd fd xs ++ (x ∷ [])
of_fd-same fd x xs =
    of_fd-append fd fd x xs ∙ ap (λ b. of_fd fd xs ++ (if b then x ∷ [] else [])) same
  where
    same : (fd == fd) ≡ true
    same = ground arith

pub of_fd-other {ℓ} :
    {A : Type ℓ} (fd k : ℕ) (x : A) (xs : List (ℕ × A))
    → (k == fd) ≡ false
    → of_fd fd (xs ++ ((k, x) ∷ [])) ≡ of_fd fd xs
of_fd-other fd k x xs e =
    of_fd-append fd k x xs
    ∙ ap (λ b. of_fd fd xs ++ (if b then x ∷ [] else [])) e
    ∙ append-nil (of_fd fd xs)

-- The steps that are tasks.
abbrev pub tasks_of : List Step → List Task
tasks_of [] = []
tasks_of (task t ∷ ss) = t ∷ tasks_of ss
tasks_of (report r ∷ ss) = tasks_of ss

pub tasks_of-task :
    (t : Task) (ss : List Step) → tasks_of (ss ++ (task t ∷ [])) ≡ tasks_of ss ++ (t ∷ [])
tasks_of-task t [] = refl
tasks_of-task t (task u ∷ ss) = ap (◌∷◌ u) (tasks_of-task t ss)
tasks_of-task t (report r ∷ ss) = tasks_of-task t ss

pub tasks_of-report : (r : Report) (ss : List Step) → tasks_of (ss ++ (report r ∷ [])) ≡ tasks_of ss
tasks_of-report r [] = refl
tasks_of-report r (task u ∷ ss) = ap (◌∷◌ u) (tasks_of-report r ss)
tasks_of-report r (report r' ∷ ss) = tasks_of-report r ss

module _ (iov_max : ℕ) where
  -- A descriptor by itself.
  abbrev pub steps : Descriptor → List Step → Descriptor
  steps d [] = d
  steps d (s ∷ ss) = steps (step iov_max d s) ss

  pub steps-append :
      (d : Descriptor) (ss : List Step) (s : Step)
      → steps d (ss ++ (s ∷ [])) ≡ step iov_max (steps d ss) s
  steps-append d [] s = refl
  steps-append d (x ∷ ss) s = steps-append (step iov_max d x) ss s

module _ (iov_max : ℕ) (hash : ℕ → ℕ) where
  -- Each descriptor is in its own loop only, and there it is what its own steps make of it; its tasks
  -- are done or wait, in their order.
  pub record IsSeparate (c : Context) : Type 0 where
    pub nowhere_else : (i fd : ℕ) → (route hash fd == i) ≡ false → c.tables i fd ≡ unknown
    pub no_task_else : (i fd : ℕ) → (route hash fd == i) ≡ false → of_fd fd (c.queues i) ≡ []
    pub by_itself :
        (fd : ℕ) → c.tables (route hash fd) fd ≡ steps iov_max unknown (of_fd fd c.executed)
    pub in_order :
        (fd : ℕ)
        → of_fd fd c.submitted
          ≡ tasks_of (of_fd fd c.executed) ++ of_fd fd (c.queues (route hash fd))
