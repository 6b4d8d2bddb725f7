-- ===== src/Net/Context/Submits.antt =====
-- A task that is posted keeps the descriptors of `EpollContextImpl` apart.
use simple_redis_client.Prelude.{
  ℕ, ◌≡◌, ◌∙◌, refl, sym, ap, subst, Bool, true, false, [], ◌∷◌, ◌++◌, append_assoc, ◌==◌,
  if◌then◌else◌, arith, Bool-cases, inl, inr,
}
use simple_redis_client.Net.Context.{Task, Context, route, put_queue}
use simple_redis_client.Net.Context.Descriptors.{
  of_fd, of_fd-same, of_fd-other, tasks_of, IsSeparate,
}

module _ (iov_max : ℕ) (hash : ℕ → ℕ) where
  pub submit-IsSeparate :
      (c : Context) (fd : ℕ) (t : Task)
      → IsSeparate iov_max hash c
      → IsSeparate iov_max hash (record c {
        queues = put_queue c.queues (route hash fd) (c.queues (route hash fd) ++ ((fd, t) ∷ []));
        submitted = c.submitted ++ ((fd, t) ∷ []);
      })
  submit-IsSeparate c fd t h = record {
    nowhere_else = h.nowhere_else;
    no_task_else = λ j k n. elim (Bool-cases (route hash fd == j)) [
      | inl f ↦ rw f (
          of_fd-other k fd t (c.queues (route hash fd)) (other j k f n)
          ∙ ap (λ l. of_fd k (c.queues l)) (same_loop j f)
          ∙ h.no_task_else j k n)
      | inr f ↦ rw f (h.no_task_else j k n)
    ];
    by_itself = h.by_itself;
    in_order = λ k. elim (Bool-cases (fd == k)) [
      | inl f ↦ subst ordered (same k f) (
          of_fd-same fd t c.submitted
          ∙ ap (λ l. l ++ (t ∷ [])) (h.in_order fd)
          ∙ append_assoc (tasks_of (of_fd fd c.executed)) (of_fd fd (c.queues (route hash fd)))
              (t ∷ [])
          ∙ ap (λ l. tasks_of (of_fd fd c.executed) ++ l)
              (sym (of_fd-same fd t (c.queues (route hash fd))))
          ∙ ap
              (λ b.
                tasks_of (of_fd fd c.executed)
                ++ of_fd fd (
                    if b
                    then c.queues (route hash fd) ++ ((fd, t) ∷ [])
                    else c.queues (route hash fd)))
              (sym (self (route hash fd))))
      | inr f ↦
          of_fd-other k fd t c.submitted f
          ∙ h.in_order k
          ∙ ap (λ l. tasks_of (of_fd k c.executed) ++ l)
              (kept k f (route hash fd == route hash k) refl)
    ];
  }
    where
      same_loop : (j : ℕ) → (route hash fd == j) ≡ true → route hash fd ≡ j
      same_loop j f = ground arith

      self : (n : ℕ) → (n == n) ≡ true
      self n = ground arith

      same : (k : ℕ) → (fd == k) ≡ true → fd ≡ k
      same k f = ground arith

      other :
          (j k : ℕ) → (route hash fd == j) ≡ true → (route hash k == j) ≡ false → (fd == k) ≡ false
      other j k f n = elim (Bool-cases (fd == k)) [
        | inl g ↦ absurd (ground (arith, ap (route hash) (same k g)))
        | inr g ↦ g
      ]

      ordered : ℕ → Type 0
      ordered k =
          of_fd k (c.submitted ++ ((fd, t) ∷ []))
          ≡ tasks_of (of_fd k c.executed)
            ++ of_fd k (
                put_queue c.queues (route hash fd) (c.queues (route hash fd) ++ ((fd, t) ∷ []))
                  (route hash k))

      kept :
          (k : ℕ)
          → (fd == k) ≡ false
          → (b : Bool) → (route hash fd == route hash k) ≡ b
          → of_fd k (c.queues (route hash k))
            ≡ of_fd k
                (if b then c.queues (route hash fd) ++ ((fd, t) ∷ []) else c.queues (route hash k))
      kept k f true g =
          ap (λ l. of_fd k (c.queues l)) (sym (same_loop (route hash k) g))
          ∙ sym (of_fd-other k fd t (c.queues (route hash fd)) f)
      kept k f false g = refl
