-- ===== src/Queue/Mpsc/Claim.antt =====
-- The accesses of `MPSCQueue::push` keep what holds of the queue.
use simple_redis_client.Prelude.{
  ℕ, suc, ◌+◌, ◌%◌, ◌<◌, ◌≤◌, ◌≡◌, ◌∙◌, sym, ap, true, false, [], ◌∷◌, ◌++◌, append_assoc, ◌==◌,
  Bool-cases, inl, inr, arith,
}
use simple_redis_client.Queue.Ring.{
  room_of_ne, head_suc, write, contents, index, contents-write, contents-snoc,
}
use simple_redis_client.Queue.Mpsc.{
  Pusher, out_of_push, pushing, loaded_head, has_room, has_slot, stored, Popper, out_of_pop,
  popping, loaded_tail, awaiting, ready, taken_out, cleared, Mpsc, invalid_index, claim,
}
use simple_redis_client.Queue.Mpsc.Invariant.{owns, PusherKnows, PopperKnows, Holds, offset-head}

module _ {A : Type 0} (cap : ℕ) where
  -- The slot at the head is free.
  head_free :
      (q : Mpsc A) (n : ℕ)
      → Holds cap q n
      → ((q.seq q.head == invalid_index cap) ≡ true) × ((i : ℕ) → owns (q.pushers i) q.head ≡ false)
  head_free q n h =
      let (lt, at) = offset-head cap q.tail n q.head h.tail_in h.fits h.head_at in
      (ground (arith, h.published q.head), λ i. ground (arith, h.owned i q.head))

  -- What a thread knows of its slot, when an item is promised to another slot.
  knows-promise :
      (items promised : ℕ → A) (head : ℕ) (y : A) (p : Pusher A)
      → owns p head ≡ false
      → PusherKnows items promised p
      → PusherKnows items (write promised head y) p
  knows-promise items promised head y out_of_push o k = k
  knows-promise items promised head y (pushing x) o k = k
  knows-promise items promised head y (loaded_head x j) o k = k
  knows-promise items promised head y (has_room x j) o k = k
  knows-promise items promised head y (has_slot x j) o k = ground arith
  knows-promise items promised head y (stored x j) o k = ground arith

  popper-claim :
      (q : Mpsc A) (n i : ℕ) (x : A) (c : Popper A)
      → Holds cap q n
      → PopperKnows cap n q c
      → PopperKnows cap (suc n) (claim cap q i x q.head) c
  popper-claim q n i x out_of_pop h k = k
  popper-claim q n i x popping h k = k
  popper-claim q n i x (loaded_tail t) h k = k
  popper-claim q n i x (awaiting t) h (a, b) = (a, omega arith)
  popper-claim q n i x (ready t) h (a, b, c) = (a, omega arith, c)
  popper-claim q n i x (taken_out y t) h (a, b, c, d) =
      let (lt, at) = offset-head cap q.tail n q.head h.tail_in h.fits h.head_at in
      (a, omega arith, c, ground arith)
  popper-claim q n i x (cleared y t) h (a, b, c, d, e) =
      let (lt, at) = offset-head cap q.tail n q.head h.tail_in h.fits h.head_at in
      (a, omega arith, c, ground arith, λ l. ground (arith, e l))

  pub claim-Holds :
      (q : Mpsc A) (n i : ℕ) (x : A)
      → Holds cap q n
      → ((q.head + 1) % cap == q.tail) ≡ false
      → Holds cap (claim cap q i x q.head) (suc n)
  claim-Holds q n i x h l =
      let fits : suc n < cap =
        omega (arith, room_of_ne cap q.head q.tail n h.fits h.tail_in h.head_at l) in
      let (lt, at) = offset-head cap q.tail n q.head h.tail_in h.fits h.head_at in
      let (free, unowned) = head_free q n h in
      record {
        fits = fits;
        tail_in = h.tail_in;
        head_at = head_suc cap q.head q.tail n h.tail_in fits h.head_at;
        waiting =
            ap (λ l. l ++ (x ∷ [])) h.waiting
            ∙ append_assoc q.popped (contents cap q.promised q.tail n) (x ∷ [])
            ∙ ap (λ c. q.popped ++ c)
                (ap (λ c. c ++ (x ∷ [])) (sym (kept n (omega arith)))
                  ∙ ap (λ y. contents cap (write q.promised q.head x) q.tail n ++ (y ∷ []))
                      (sym last)
                  ∙ sym (contents-snoc cap (write q.promised q.head x) q.tail n h.tail_in h.fits));
        published = λ j e. ground (arith, h.published j e);
        owned = λ k j e. ground (arith, h.owned k j, free);
        alone = λ k m j e f. ground (arith, h.alone k m j, unowned k, unowned m);
        pushers_know = λ k. elim (Bool-cases (i == k)) [
          | inl e ↦ rw e (ground arith)
          | inr e ↦ rw e (
              knows-promise q.items q.promised q.head x (q.pushers k) (unowned k)
                (h.pushers_know k))
        ];
        popper_knows = popper-claim q n i x q.popper h h.popper_knows;
      }
    where
      kept :
          (m : ℕ)
          → m ≤ n
          → contents cap (write q.promised q.head x) q.tail m ≡ contents cap q.promised q.tail m
      kept m le =
          ap (λ j. contents cap (write q.promised j x) q.tail m) h.head_at
          ∙ contents-write cap q.promised x q.tail m n h.tail_in le h.fits

      last : write q.promised q.head x (index cap q.tail n) ≡ x
      last = ground (arith, h.head_at)
