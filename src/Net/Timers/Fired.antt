-- ===== src/Net/Timers/Fired.antt =====
-- An expired timer of a loop of src/net/context/EpollContext.cpp, from the report to its end.
use simple_redis_client.Prelude.{
  ℕ, ◌+◌, ◌≡◌, ◌∙◌, refl, sym, ap, subst, Bool, true, false, Option, none, some, List, [], ◌∷◌,
  ◌++◌, ◌==◌, append-nil, if◌then◌else◌, arith, Bool-cases, inl, inr,
}
use simple_redis_client.Net.Timers.{
  Timers, has_key, find, erase, disarm, Addition, call_back, handle_timer, expire,
}
use simple_redis_client.Net.Timers.Pending.{
  descriptors, waiting, fire, remove, has_key-descriptors, entries-fire, descriptors-fire,
  entries-remove, descriptors-remove,
}
use simple_redis_client.Net.Timers.Expiry.{
  count-append, found, waiting-fire, never_armed-fire, fire-Fits, remove-Fits, waiting-remove,
  never_armed-remove,
}
use simple_redis_client.Pool.Count.{count}
use simple_redis_client.Net.Timers.Added.{IsTimed, add_timers-IsTimed}

call_back-IsTimed :
    (e : Option ℕ) (s : Timers) (o : Option (Option ℕ)) (more : List Addition)
    → IsTimed e (record s { called = s.called ++ found o })
    → IsTimed e (call_back s o more)
call_back-IsTimed e s none more h =
    subst (λ l. IsTimed e (record s { called = l })) (append-nil s.called) h
call_back-IsTimed e s (some none) more h =
    subst (λ l. IsTimed e (record s { called = l })) (append-nil s.called) h
call_back-IsTimed e s (some (some t)) more h = add_timers-IsTimed e _ more h

closed_timer-IsTimed :
    (fd : ℕ) (s : Timers)
    → IsTimed (some fd) s
    → IsTimed none (record s { kernel = erase fd s.kernel; timer_fds = erase fd s.timer_fds })
closed_timer-IsTimed fd s h = record {
  pending = remove fd h.pending;
  callbacks = ap (erase fd) h.callbacks ∙ sym (entries-remove fd h.pending);
  opened = ap (erase fd) h.opened ∙ sym (descriptors-remove fd h.pending);
  fits = remove-Fits fd h.pending h.fits;
  present = refl;
  once = λ t. rw (waiting-remove fd h.pending h.fits) (h.once t);
  zeros = λ t. rw (never_armed-remove fd h.pending h.fits) (h.zeros t);
}

has_key-of_find : (fd : ℕ) (l : List (ℕ × Bool)) → find fd l ≡ some true → has_key fd l ≡ true
has_key-of_find fd [] e = cc
has_key-of_find fd ((x, b) ∷ l) e = elim (Bool-cases (x == fd)) [
  | inl f ↦ simp f refl
  | inr f ↦
      simp f (has_key-of_find fd l (subst (λ q. (if q then some b else find fd l) ≡ some true) f e))
]

has_key-disarm : (fd x : ℕ) (l : List (ℕ × Bool)) → has_key x (disarm fd l) ≡ has_key x l
has_key-disarm fd x [] = refl
has_key-disarm fd x ((y, b) ∷ l) = ground (arith, has_key-disarm fd x l)

fired-IsTimed :
    (fd : ℕ) (s : Timers)
    → find fd s.kernel ≡ some true
    → IsTimed none s
    → IsTimed
        (some fd)
        (record s { kernel = disarm fd s.kernel; called = s.called ++ found (find fd s.timer_fds) })
fired-IsTimed fd s e h = record {
  pending = fire fd h.pending;
  callbacks = h.callbacks ∙ sym (entries-fire fd h.pending);
  opened = ap (disarm fd) h.opened ∙ sym (descriptors-fire fd h.pending);
  fits = fire-Fits fd h.pending h.fits;
  present = has_key-disarm fd fd s.kernel ∙ has_key-of_find fd s.kernel e;
  once =
      λ t. omega (arith, h.once t, count-append t s.called (found (find fd s.timer_fds)), taken t);
  zeros = λ t. h.zeros t ∙ ap (count t) (sym (never_armed-fire fd h.pending armed_here));
}
  where
    armed_here : find fd (descriptors h.pending) ≡ some true
    armed_here = ap (find fd) (sym h.opened) ∙ e

    taken :
        (t : ℕ)
        → count t (waiting h.pending)
          ≡ count t (waiting (fire fd h.pending)) + count t (found (find fd s.timer_fds))
    taken t = rw h.callbacks (waiting-fire t fd h.pending armed_here)

pub expire-IsTimed :
    (s : Timers) (fd : ℕ) (more : List Addition) (o : Option Bool)
    → find fd s.kernel ≡ o
    → IsTimed none s
    → IsTimed none (expire s fd more o)
unfolding handle_timer
expire-IsTimed s fd more none e h = h
expire-IsTimed s fd more (some false) e h = h
expire-IsTimed s fd more (some true) e h = simp here (
    closed_timer-IsTimed fd _ (
      call_back-IsTimed (some fd) (record s { kernel = disarm fd s.kernel }) (find fd s.timer_fds)
        more (fired-IsTimed fd s e h)))
  where
    here : has_key fd s.timer_fds ≡ true
    here =
        ap (has_key fd) h.callbacks
        ∙ sym (has_key-descriptors fd h.pending)
        ∙ ap (has_key fd) (sym h.opened)
        ∙ has_key-of_find fd s.kernel e
