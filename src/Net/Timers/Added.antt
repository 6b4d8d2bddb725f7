-- ===== src/Net/Timers/Added.antt =====
-- What a loop of src/net/context/EpollContext.cpp keeps of its timers, and that `addTimer` keeps it.
use simple_redis_client.Prelude.{
  ℕ, ◌+◌, ◌≡◌, ◌∙◌, refl, sym, ap, subst, Bool, true, false, Option, none, some, List, [], ◌∷◌,
  ◌==◌, if◌then◌else◌, arith, Bool-cases, inl, inr,
}
use simple_redis_client.Net.Timers.{
  Timers, has_key, erase, emplace, it_value, arms, Calls, callback_list, timer_added, timer_created,
  free_fd, add_timer, Addition, add_timers,
}
use simple_redis_client.Net.Timers.Pending.{
  unset, armed, Pending, entries, descriptors, waiting, never_armed, is_at, Fits,
  has_key-descriptors,
}
use simple_redis_client.Net.Timers.Expiry.{count-append}
use simple_redis_client.Pool.Count.{count}

abbrev pub has_firing : Option ℕ → List (ℕ × Bool) → Bool
has_firing none l = true
has_firing (some fd) l = has_key fd l

-- The table of callbacks and the kernel have the same timers, `e` among them when it fires.
pub record IsTimed (e : Option ℕ) (s : Timers) : Type 0 where
  pub pending : List Pending
  pub callbacks : s.timer_fds ≡ entries pending
  pub opened : s.kernel ≡ descriptors pending
  pub fits : Fits e pending
  pub present : has_firing e s.kernel ≡ true
  pub once : (t : ℕ) → count t s.called + count t (waiting pending) ≡ count t s.added
  pub zeros : (t : ℕ) → count t s.untimed ≡ count t (never_armed pending)

abbrev new_pending : ℕ → ℕ → Option ℕ → Pending
new_pending fd ms callback = record {
  fd = fd;
  callback = callback;
  stage = if arms (it_value ms) then armed else unset;
}

is_at_of_free :
    (e : Option ℕ) (fd : ℕ) (l : List (ℕ × Bool))
    → has_firing e l ≡ true
    → has_key fd l ≡ false
    → is_at e fd ≡ false
is_at_of_free none fd l h k = refl
is_at_of_free (some x) fd l h k = elim (Bool-cases (fd == x)) [
  | inl f ↦
      let same : fd ≡ x = ground arith in absurd (cc (h, subst (λ y. has_key y l ≡ false) same k))
  | inr f ↦ f
]

erase_first {ℓ} : {A : Type ℓ} (fd : ℕ) (a : A) (l : List (ℕ × A)) → erase fd ((fd, a) ∷ l) ≡ l
erase_first fd a l = elim (Bool-cases (fd == fd)) [
  | inl e ↦ simp e refl
  | inr e ↦ absurd (ground arith)
]

has_firing-cons :
    (e : Option ℕ) (fd : ℕ) (b : Bool) (l : List (ℕ × Bool))
    → has_firing e l ≡ true
    → has_firing e ((fd, b) ∷ l) ≡ true
has_firing-cons none fd b l h = refl
has_firing-cons (some x) fd b l h = ground (arith, h)

same_timers-IsTimed :
    (e : Option ℕ) (s : Timers) (fds : List (ℕ × Option ℕ)) (kernel : List (ℕ × Bool))
    → fds ≡ s.timer_fds
    → kernel ≡ s.kernel
    → IsTimed e s
    → IsTimed e (record s { timer_fds = fds; kernel = kernel })
same_timers-IsTimed e s fds kernel f k h = record {
  pending = h.pending;
  callbacks = f ∙ h.callbacks;
  opened = k ∙ h.opened;
  fits = h.fits;
  present = ap (has_firing e) k ∙ h.present;
  once = h.once;
  zeros = h.zeros;
}

free_entry :
    (e : Option ℕ) (s : Timers) (fd : ℕ)
    → has_key fd s.kernel ≡ false
    → IsTimed e s
    → has_key fd s.timer_fds ≡ false
free_entry e s fd free h =
    ap (has_key fd) h.callbacks
    ∙ sym (has_key-descriptors fd h.pending)
    ∙ ap (has_key fd) (sym h.opened)
    ∙ free

emplace_free :
    (e : Option ℕ) (s : Timers) (fd : ℕ) (c : Option ℕ)
    → has_key fd s.kernel ≡ false
    → IsTimed e s
    → emplace fd c s.timer_fds ≡ (fd, c) ∷ s.timer_fds
emplace_free e s fd c free h = rw (free_entry e s fd free h) refl

timer_added-IsTimed :
    (e : Option ℕ) (s : Timers) (fd ms : ℕ) (c : Option ℕ)
    → has_key fd s.kernel ≡ false
    → IsTimed e s
    → IsTimed e (timer_added s fd ms c)
timer_added-IsTimed e s fd ms c free h = elim (Bool-cases (arms (it_value ms))) [
  | inl a ↦ record {
    pending = new_pending fd ms c ∷ h.pending;
    callbacks = emplace_free e s fd c free h ∙ ap (λ l. (fd, c) ∷ l) h.callbacks;
    opened = simp a (ap (λ l. (fd, true) ∷ l) h.opened);
    fits = (new, simp a (sym (is_at_of_free e fd s.kernel h.present free)), h.fits);
    present = has_firing-cons e fd _ s.kernel h.present;
    once = λ t. simp a (
        omega (
          arith,
          h.once t,
          count-append t s.added (callback_list c),
          count-append t (callback_list c) (waiting h.pending),
        ));
    zeros = λ t. simp a (h.zeros t);
  }
  | inr a ↦ record {
    pending = new_pending fd ms c ∷ h.pending;
    callbacks = emplace_free e s fd c free h ∙ ap (λ l. (fd, c) ∷ l) h.callbacks;
    opened = simp a (ap (λ l. (fd, false) ∷ l) h.opened);
    fits = (new, simp a (sym (is_at_of_free e fd s.kernel h.present free)), h.fits);
    present = has_firing-cons e fd _ s.kernel h.present;
    once = λ t. simp a (
        omega (
          arith,
          h.once t,
          count-append t s.added (callback_list c),
          count-append t (callback_list c) (waiting h.pending),
        ));
    zeros = λ t. simp a (
        omega (
          arith,
          h.zeros t,
          count-append t s.untimed (callback_list c),
          count-append t (callback_list c) (never_armed h.pending),
        ));
  }
]
  where
    new : has_key fd (entries h.pending) ≡ false
    new = ap (has_key fd) (sym h.callbacks) ∙ free_entry e s fd free h

timer_created-IsTimed :
    (e : Option ℕ) (s : Timers) (k : Calls) (ms : ℕ) (c : Option ℕ) (o : Option ℕ)
    → ((fd : ℕ) → o ≡ some fd → has_key fd s.kernel ≡ false)
    → IsTimed e s
    → IsTimed e (timer_created s k ms c o).0
timer_created-IsTimed e s k ms c none free h = h
timer_created-IsTimed e s k ms c (some fd) free h = elim (Bool-cases k.timerfd_settime) [
  | inr a ↦ simp a (same_timers-IsTimed e s s.timer_fds _ refl (erase_first fd false s.kernel) h)
  | inl a ↦ elim (Bool-cases k.epoll_ctl) [
    | inr b ↦
        simp (a, b)
          (same_timers-IsTimed e s _ _
            (ap (erase fd) (emplace_free e s fd c (free fd refl) h) ∙ erase_first fd c s.timer_fds)
            (erase_first fd (arms (it_value ms)) s.kernel) h)
    | inl b ↦ simp (a, b) (timer_added-IsTimed e s fd ms c (free fd refl) h)
  ]
]

free_fd-has_key :
    (l : List (ℕ × Bool)) (o : Option ℕ) (fd : ℕ) → free_fd l o ≡ some fd → has_key fd l ≡ false
free_fd-has_key l none fd e = cc
free_fd-has_key l (some x) fd e = elim (Bool-cases (has_key x l)) [
  | inl f ↦ absurd (cc (subst (λ b. (if b then none else some x) ≡ some fd) f e))
  | inr f ↦
      let same : some x ≡ some fd = subst (λ b. (if b then none else some x) ≡ some fd) f e in cc
]

pub add_timer-IsTimed :
    (e : Option ℕ) (s : Timers) (k : Calls) (ms : ℕ) (c : Option ℕ)
    → IsTimed e s
    → IsTimed e (add_timer s k ms c).0
unfolding add_timer
add_timer-IsTimed e s k ms c h =
    timer_created-IsTimed e s k ms c (free_fd s.kernel k.timerfd_create)
      (λ fd. free_fd-has_key s.kernel k.timerfd_create fd) h

pub add_timers-IsTimed :
    (e : Option ℕ) (s : Timers) (more : List Addition) → IsTimed e s → IsTimed e (add_timers s more)
unfolding add_timers
add_timers-IsTimed e s [] h = h
add_timers-IsTimed e s ((k, ms, c) ∷ more) h =
    add_timers-IsTimed e (add_timer s k ms c).0 more (add_timer-IsTimed e s k ms c h)
