-- ===== src/Net/Timers/Once.antt =====
-- The callbacks of the timers of src/net/context/EpollContext.cpp, over a whole run of a loop.
use simple_redis_client.Prelude.{
  ℕ, suc, ◌+◌, ◌*◌, ◌<◌, ◌≡◌, ◌∙◌, refl, sym, ap, true, false, not, Option, none, some, List, [],
  ◌∷◌, ◌==◌, arith, Bool-cases, inl, inr,
}
use simple_redis_client.Net.Timers.{Timers, no_timers, find, it_value, arms, Addition, report_timer}
use simple_redis_client.Net.Context.{route}
use simple_redis_client.Net.Timers.Loops.{
  LoopTimers, no_loop_timers, put_timers, Move, socket_adds, context_adds, epoll_reports,
  socket_closes, add_at, add_checked, add_socket_timer, add_context_timer, move, run,
}
use simple_redis_client.Net.Timers.Pending.{Pending, entries, descriptors}
use simple_redis_client.Net.Timers.Expiry.{any_armed, never_armed-waiting}
use simple_redis_client.Pool.Count.{count}
use simple_redis_client.Net.Timers.Added.{IsTimed, add_timer-IsTimed}
use simple_redis_client.Net.Timers.Fired.{expire-IsTimed}

no_timers-IsTimed : IsTimed none no_timers
unfolding count
no_timers-IsTimed = record {
  pending = [];
  callbacks = refl;
  opened = refl;
  fits = tt;
  present = refl;
  once = λ t. refl;
  zeros = λ t. refl;
}

-- The descriptors of a table.
abbrev pub keys {ℓ} : {A : Type ℓ} → List (ℕ × A) → List ℕ
keys [] = []
keys ((x, a) ∷ l) = x ∷ keys l

keys-pending : (ps : List Pending) → keys (entries ps) ≡ keys (descriptors ps)
keys-pending [] = refl
keys-pending (p ∷ ps) = ap (λ l. p.fd ∷ l) (keys-pending ps)

put_timers-IsTimed :
    (c : LoopTimers) (i : ℕ) (s : Timers)
    → ((j : ℕ) → IsTimed none (c.loops j))
    → IsTimed none s
    → (j : ℕ) → IsTimed none ((put_timers c i s).loops j)
put_timers-IsTimed c i s h k j = elim (Bool-cases (i == j)) [
  | inl e ↦ simp e k
  | inr e ↦ simp e (h j)
]

module _ (hash : ℕ → ℕ) where
  add_at-IsTimed :
      (c : LoopTimers) (fd : ℕ) (a : Addition)
      → ((j : ℕ) → IsTimed none (c.loops j))
      → (j : ℕ) → IsTimed none ((add_at hash c fd a).0.loops j)
  unfolding add_at
  add_at-IsTimed c fd (k, ms, callback) h =
      put_timers-IsTimed c (route hash fd) _ h
        (add_timer-IsTimed none (c.loops (route hash fd)) k ms callback (h (route hash fd)))

  add_checked-IsTimed :
      (c : LoopTimers) (s : Option ℕ) (a : Addition)
      → ((j : ℕ) → IsTimed none (c.loops j))
      → (j : ℕ) → IsTimed none ((add_checked hash c s a).0.loops j)
  add_checked-IsTimed c none a h = h
  add_checked-IsTimed c (some fd) a h = add_at-IsTimed c fd a h

  move-IsTimed :
      (c : LoopTimers) (m : Move)
      → ((j : ℕ) → IsTimed none (c.loops j))
      → (j : ℕ) → IsTimed none ((move hash c m).loops j)
  unfolding move add_socket_timer add_context_timer report_timer
  move-IsTimed c (socket_adds true s a) h = add_checked-IsTimed c s a h
  move-IsTimed c (socket_adds false s a) h = h
  move-IsTimed c (context_adds a) h =
      add_at-IsTimed (record c { next_id = suc c.next_id }) (suc c.next_id) a h
  move-IsTimed c (epoll_reports i fd more) h =
      put_timers-IsTimed c i _ h
        (expire-IsTimed (c.loops i) fd more (find fd (c.loops i).kernel) refl (h i))
  move-IsTimed c (socket_closes s) h = h

  run-IsTimed :
      (c : LoopTimers) (ms : List Move)
      → ((j : ℕ) → IsTimed none (c.loops j))
      → (j : ℕ) → IsTimed none ((run hash c ms).loops j)
  unfolding run
  run-IsTimed c [] h = h
  run-IsTimed c (m ∷ ms) h = run-IsTimed (move hash c m) ms (move-IsTimed c m h)

  -- Whatever timers are added, for sockets and for none, from outside or by the callbacks of others,
  -- whichever system calls fail, in whatever order timers expire and whichever sockets are closed in
  -- between, those of the timers included: when the kernel has no armed timer of a loop left, each
  -- callback that `addTimer` took for this loop was called as often as it was added, apart from
  -- those whose time was zero, which are never called. So the close of a socket cleans up none of
  -- its timers: their callbacks are called after it.
  pub timers_called_once :
      (ms : List Move) (i t : ℕ)
      → any_armed ((run hash no_loop_timers ms).loops i).kernel ≡ false
      → count t ((run hash no_loop_timers ms).loops i).called
          + count t ((run hash no_loop_timers ms).loops i).untimed
        ≡ count t ((run hash no_loop_timers ms).loops i).added
  timers_called_once ms i t quiet =
      let s = (run hash no_loop_timers ms).loops i in
      let h : IsTimed none s = run-IsTimed no_loop_timers ms (λ j. no_timers-IsTimed) i in
      let same = never_armed-waiting h.pending (ap any_armed (sym h.opened) ∙ quiet) h.fits in
      omega (arith, h.once t, h.zeros t, ap (count t) same)

  -- At every time the timers that the kernel has open for a loop are those with an entry in the
  -- loop's table: no path of `addTimer` or `handleTimer` leaves one open without its entry, or an
  -- entry without it.
  timers_match :
      (ms : List Move) (i : ℕ)
      → keys ((run hash no_loop_timers ms).loops i).timer_fds
        ≡ keys ((run hash no_loop_timers ms).loops i).kernel
  timers_match ms i =
      let s = (run hash no_loop_timers ms).loops i in
      let h : IsTimed none s = run-IsTimed no_loop_timers ms (λ j. no_timers-IsTimed) i in
      ap keys h.callbacks ∙ keys-pending h.pending ∙ ap keys (sym h.opened)

-- The time that `addTimer` sets is the number of milliseconds, with less than a second in its
-- nanoseconds, and it disarms the timer when that number is zero and not otherwise.
pub it_value_lem :
    (ms : ℕ)
    → ((it_value ms).0 * 1000000000 + (it_value ms).1 ≡ ms * 1000000)
      × ((it_value ms).1 < 1000000000)
      × (arms (it_value ms) ≡ not (ms == 0))
it_value_lem ms = (omega arith, omega arith, ground arith)
