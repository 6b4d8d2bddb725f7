-- ===== src/Queue/Mpsc/Refines.antt =====
-- The `MPSCQueue` of many producers and one consumer is a first-in first-out queue, in the order in
-- which the producers moved its head.
use simple_redis_client.Prelude.{
  ℕ, zero, suc, ◌+◌, ◌%◌, ◌<◌, ◌≡◌, ◌∙◌, refl, sym, ap, subst, true, false, List, [], ◌∷◌, ◌++◌,
  append_assoc, ◌==◌, Bool-cases, inl, inr, arith,
}
use simple_redis_client.Queue.Ring.{item_of_ne, tail_suc, write, contents, mod_next-lt}
use simple_redis_client.Queue.Mpsc.{
  Pusher, out_of_push, pushing, loaded_head, has_room, has_slot, stored, Popper, out_of_pop,
  popping, loaded_tail, awaiting, ready, taken_out, cleared, Mpsc, invalid_index, pop_access,
  weak_failure, start_push, start_pop, move_laps, no_lap, move, run, new_mpsc, Move, call_push,
  pusher_moves, exchange_fails, call_pop, popper_moves,
}
use simple_redis_client.Queue.Mpsc.Invariant.{
  IsIn, PopperKnows, Holds, set_pusher-Holds, set_popper-Holds, offset_next,
}
use simple_redis_client.Queue.Mpsc.Store.{push_access-Holds}

IsIn-next :
    (cap tail n j : ℕ)
    → tail < cap
    → (tail == j) ≡ false
    → IsIn cap tail (suc n) j
    → IsIn cap ((tail + 1) % cap) n j
IsIn-next cap tail n j lt ne (a, b) =
    (a, omega (arith, offset_next cap tail j lt a (λ e. ground arith)))

module _ {A : Type 0} (cap : ℕ) where
  clear-Holds :
      (q : Mpsc A) (n : ℕ) (x : A) (t : ℕ)
      → Holds cap q n
      → PopperKnows cap n q (taken_out x t)
      → Holds cap (record q { seq = write q.seq t (invalid_index cap); popper = cleared x t }) n
  clear-Holds q n x t h (a, b, c, d) = record {
    fits = h.fits;
    tail_in = h.tail_in;
    head_at = h.head_at;
    waiting = h.waiting;
    published = λ j e. h.published j (ground arith);
    owned = λ i j e. ground (arith, h.owned i j e);
    alone = h.alone;
    pushers_know = h.pushers_know;
    popper_knows = (a, b, ground arith, d, λ i. ground (arith, h.owned i t));
  }

  popped-Holds :
      (q : Mpsc A) (n : ℕ) (x : A) (t : ℕ)
      → Holds cap q (suc n)
      → PopperKnows cap (suc n) q (cleared x t)
      → Holds cap
          (record q { tail = (t + 1) % cap; popper = out_of_pop; popped = q.popped ++ (x ∷ []) })
          n
  unfolding contents
  popped-Holds q n x t h (a, b, c, d, e) = record {
    fits = omega (arith, h.fits);
    tail_in = rw a (mod_next-lt cap q.tail h.tail_in);
    head_at = rw a (tail_suc cap q.head q.tail n h.tail_in h.fits h.head_at);
    waiting =
        h.waiting
        ∙ ap (λ y. q.popped ++ (y ∷ contents cap q.promised ((q.tail + 1) % cap) n))
            (ap q.promised (sym a) ∙ d)
        ∙ sym (append_assoc q.popped (x ∷ []) (contents cap q.promised ((q.tail + 1) % cap) n))
        ∙ ap (λ j. (q.popped ++ (x ∷ [])) ++ contents cap q.promised ((j + 1) % cap) n) (sym a);
    published = λ j f.
        let (i, u) = h.published j f in
        (
          subst (λ k. IsIn cap ((k + 1) % cap) n j) (sym a)
              (IsIn-next cap q.tail n j h.tail_in (ground arith) i),
          u,
        );
    owned = λ k j f.
        let (i, u) = h.owned k j f in
        (
          subst (λ l. IsIn cap ((l + 1) % cap) n j) (sym a)
              (IsIn-next cap q.tail n j h.tail_in (ground (arith, e k)) i),
          u,
        );
    alone = h.alone;
    pushers_know = h.pushers_know;
    popper_knows = tt;
  }

  pop_access-Holds :
      (q : Mpsc A) (n : ℕ) (c : Popper A)
      → PopperKnows cap n q c
      → Holds cap q n
      → (n' : ℕ) × Holds cap (pop_access cap q c) n'
  unfolding pop_access
  pop_access-Holds q n out_of_pop k h = (n, h)
  pop_access-Holds q n popping k h = (n, set_popper-Holds cap q n (loaded_tail q.tail) h refl)
  pop_access-Holds q n (loaded_tail t) k h = elim (Bool-cases (t == q.head)) [
    | inl e ↦ (n, rw e (set_popper-Holds cap q n out_of_pop h tt))
    | inr e ↦ (
      n,
      rw e (
          set_popper-Holds cap q n (awaiting t) h (
            k,
            item_of_ne cap q.head q.tail n h.tail_in h.head_at (ap (λ j. j == q.head) (sym k) ∙ e),
          )),
    )
  ]
  pop_access-Holds q n (awaiting t) k h = elim (Bool-cases (q.seq t == invalid_index cap)) [
    | inl e ↦ (n, rw e (set_popper-Holds cap q n (awaiting t) h k))
    | inr e ↦ (n, rw e (set_popper-Holds cap q n (ready t) h (k.0, k.1, e)))
  ]
  pop_access-Holds q n (ready t) (a, b, c) h =
      (n, set_popper-Holds cap q n (taken_out (q.items t) t) h (a, b, c, sym (h.published t c).1))
  pop_access-Holds q n (taken_out x t) k h = (n, clear-Holds q n x t h k)
  pop_access-Holds q zero (cleared x t) k h = absurd (omega (arith, k.1))
  pop_access-Holds q (suc n) (cleared x t) k h = (n, popped-Holds q n x t h k)

  start_push-Holds :
      (q : Mpsc A) (n i : ℕ) (x : A) (p : Pusher A)
      → Holds cap q n
      → Holds cap (start_push cap q i x p) n
  start_push-Holds q n i x out_of_push h = set_pusher-Holds cap q n i (pushing x) h (λ j. refl) tt
  start_push-Holds q n i x (pushing y) h = h
  start_push-Holds q n i x (loaded_head y j) h = h
  start_push-Holds q n i x (has_room y j) h = h
  start_push-Holds q n i x (has_slot y j) h = h
  start_push-Holds q n i x (stored y j) h = h

  weak_failure-Holds :
      (q : Mpsc A) (n i : ℕ) (p : Pusher A) → Holds cap q n → Holds cap (weak_failure cap q i p) n
  weak_failure-Holds q n i out_of_push h = h
  weak_failure-Holds q n i (pushing y) h = h
  weak_failure-Holds q n i (loaded_head y j) h = h
  weak_failure-Holds q n i (has_room x j) h =
      set_pusher-Holds cap q n i (loaded_head x q.head) h (λ j. refl) tt
  weak_failure-Holds q n i (has_slot y j) h = h
  weak_failure-Holds q n i (stored y j) h = h

  start_pop-Holds :
      (q : Mpsc A) (n : ℕ) (c : Popper A) → Holds cap q n → Holds cap (start_pop cap q c) n
  start_pop-Holds q n out_of_pop h = set_popper-Holds cap q n popping h tt
  start_pop-Holds q n popping h = h
  start_pop-Holds q n (loaded_tail t) h = h
  start_pop-Holds q n (awaiting t) h = h
  start_pop-Holds q n (ready t) h = h
  start_pop-Holds q n (taken_out y t) h = h
  start_pop-Holds q n (cleared y t) h = h

  move-Holds :
      (q : Mpsc A) (n : ℕ) (m : Move A)
      → move_laps cap q m ≡ false
      → Holds cap q n
      → (n' : ℕ) × Holds cap (move cap q m) n'
  unfolding move
  move-Holds q n (call_push i x) l h = (n, start_push-Holds q n i x (q.pushers i) h)
  move-Holds q n (pusher_moves i) l h = push_access-Holds cap q n i (q.pushers i) refl l h
  move-Holds q n (exchange_fails i) l h = (n, weak_failure-Holds q n i (q.pushers i) h)
  move-Holds q n call_pop l h = (n, start_pop-Holds q n q.popper h)
  move-Holds q n popper_moves l h = pop_access-Holds q n q.popper h.popper_knows h

  run-Holds :
      (q : Mpsc A) (n : ℕ) (ms : List (Move A))
      → no_lap cap q ms ≡ true
      → Holds cap q n
      → (n' : ℕ) × Holds cap (run cap q ms) n'
  unfolding run no_lap
  run-Holds q n [] l h = (n, h)
  run-Holds q n (m ∷ ms) l h =
      let one : move_laps cap q m ≡ false = ground arith in
      let (n', h') = move-Holds q n m one h in run-Holds (move cap q m) n' ms (ground arith) h'

  new_mpsc-Holds : (items : ℕ → A) → 0 < cap → Holds cap (new_mpsc cap items) 0
  unfolding contents
  new_mpsc-Holds items c = record {
    fits = c;
    tail_in = c;
    head_at = ground arith;
    waiting = refl;
    published = λ j e. absurd (ground arith);
    owned = λ i j e. cc;
    alone = λ i k j e f. cc;
    pushers_know = λ i. tt;
    popper_knows = tt;
  }

  -- However the accesses of any number of pushing threads and one popping thread are interleaved, as
  -- long as no thread moves the head of a full queue because the head has gone round the ring since
  -- it looked: the items popped are the first of those that the threads have moved the head for, in
  -- that order and each once, and the others are fewer than the ring's slots.
  pub mpsc_refines :
      (items : ℕ → A) (ms : List (Move A))
      → 0 < cap
      → no_lap cap (new_mpsc cap items) ms ≡ true
      → (n : ℕ) × (n < cap)
        × ((run cap (new_mpsc cap items) ms).claimed
            ≡ (run cap (new_mpsc cap items) ms).popped
              ++ contents cap
                  (run cap (new_mpsc cap items) ms).promised
                  (run cap (new_mpsc cap items) ms).tail
                  n)
  mpsc_refines items ms c l =
      let (n, h) = run-Holds (new_mpsc cap items) 0 ms l (new_mpsc-Holds items c) in
      (n, h.fits, h.waiting)
