-- ===== src/Queue/Mpsc/Store.antt =====
-- The accesses of `MPSCQueue::push` to a slot that was claimed, and `push` as a whole.
use simple_redis_client.Prelude.{
  ℕ, suc, ◌+◌, ◌%◌, ◌<◌, ◌≡◌, refl, sym, ap, subst, true, false, ◌==◌, Bool-cases, inl, inr, arith,
}
use simple_redis_client.Queue.Ring.{write}
use simple_redis_client.Queue.Mpsc.{
  Pusher, out_of_push, pushing, loaded_head, has_room, has_slot, stored, Popper, out_of_pop,
  popping, loaded_tail, awaiting, ready, taken_out, cleared, Mpsc, claim, push_access, laps,
}
use simple_redis_client.Queue.Mpsc.Invariant.{
  owns, PusherKnows, PopperKnows, Holds, set_pusher-Holds,
}
use simple_redis_client.Queue.Mpsc.Claim.{claim-Holds}

module _ {A : Type 0} (cap : ℕ) where
  -- What a thread knows, when another writes to its own slot.
  knows-item :
      (items promised : ℕ → A) (head : ℕ) (y : A) (p : Pusher A)
      → owns p head ≡ false
      → PusherKnows items promised p
      → PusherKnows (write items head y) promised p
  knows-item items promised head y out_of_push o k = k
  knows-item items promised head y (pushing x) o k = k
  knows-item items promised head y (loaded_head x j) o k = k
  knows-item items promised head y (has_room x j) o k = k
  knows-item items promised head y (has_slot x j) o k = k
  knows-item items promised head y (stored x j) o k = ground arith

  not_owned :
      (q : Mpsc A) (n i k head : ℕ)
      → Holds cap q n
      → owns (q.pushers i) head ≡ true
      → (i == k) ≡ false
      → owns (q.pushers k) head ≡ false
  not_owned q n i k head h o e = ground (arith, h.alone i k head)

  popper-item :
      (q : Mpsc A) (n i : ℕ) (x : A) (head : ℕ) (c : Popper A)
      → ((j : ℕ) → owns (stored x head) j ≡ owns (q.pushers i) j)
      → PopperKnows cap n q c
      → PopperKnows cap n
          (record q { items = write q.items head x; pushers = write q.pushers i (stored x head) })
          c
  popper-item q n i x head out_of_pop o k = k
  popper-item q n i x head popping o k = k
  popper-item q n i x head (loaded_tail t) o k = k
  popper-item q n i x head (awaiting t) o k = k
  popper-item q n i x head (ready t) o k = k
  popper-item q n i x head (taken_out y t) o k = k
  popper-item q n i x head (cleared y t) o (a, b, c, d, e) =
      (a, b, c, d, λ l. ground (arith, e l, o t))

  item-Holds :
      (q : Mpsc A) (n i : ℕ) (x : A) (head : ℕ)
      → q.pushers i ≡ has_slot x head
      → Holds cap q n
      → Holds cap
          (record q { items = write q.items head x; pushers = write q.pushers i (stored x head) })
          n
  item-Holds q n i x head e h =
      let own : owns (q.pushers i) head ≡ true = ground (arith, ap (λ p. owns p head) e) in
      let knows : q.promised head ≡ x =
        subst (PusherKnows q.items q.promised) e (h.pushers_know i) in
      record {
        fits = h.fits;
        tail_in = h.tail_in;
        head_at = h.head_at;
        waiting = h.waiting;
        published = λ j f. ground (arith, h.published j f, h.owned i head own);
        owned = λ k j f. ground (arith, h.owned k j, h.owned i j, ap (λ p. owns p j) e);
        alone = λ k m j f g.
            h.alone k m j (ground (arith, ap (λ p. owns p j) e))
              (ground (arith, ap (λ p. owns p j) e));
        pushers_know = λ k. elim (Bool-cases (i == k)) [
          | inl f ↦ rw f (knows, ground arith)
          | inr f ↦ rw f (
              knows-item q.items q.promised head x (q.pushers k) (not_owned q n i k head h own f)
                (h.pushers_know k))
        ];
        popper_knows =
            popper-item q n i x head q.popper (λ j. sym (ap (λ p. owns p j) e)) h.popper_knows;
      }

  popper-seq :
      (q : Mpsc A) (n i head : ℕ) (c : Popper A)
      → head < cap
      → owns (q.pushers i) head ≡ true
      → PopperKnows cap n q c
      → PopperKnows cap n
          (record q { seq = write q.seq head head; pushers = write q.pushers i out_of_push })
          c
  popper-seq q n i head out_of_pop lt o k = k
  popper-seq q n i head popping lt o k = k
  popper-seq q n i head (loaded_tail t) lt o k = k
  popper-seq q n i head (awaiting t) lt o k = k
  popper-seq q n i head (ready t) lt o (a, b, c) = (a, b, ground arith)
  popper-seq q n i head (taken_out y t) lt o (a, b, c, d) = (a, b, ground arith, d)
  popper-seq q n i head (cleared y t) lt o (a, b, c, d, e) =
      (a, b, ground (arith, e i), d, λ l. ground (arith, e l))

  seq-Holds :
      (q : Mpsc A) (n i : ℕ) (x : A) (head : ℕ)
      → q.pushers i ≡ stored x head
      → Holds cap q n
      → Holds cap
          (record q { seq = write q.seq head head; pushers = write q.pushers i out_of_push })
          n
  seq-Holds q n i x head e h =
      let own : owns (q.pushers i) head ≡ true = ground (arith, ap (λ p. owns p head) e) in
      let (lt, off) = (h.owned i head own).0 in
      let knows : (q.promised head ≡ x) × (q.items head ≡ x) =
        subst (PusherKnows q.items q.promised) e (h.pushers_know i) in
      record {
        fits = h.fits;
        tail_in = h.tail_in;
        head_at = h.head_at;
        waiting = h.waiting;
        published = λ j f. elim (Bool-cases (head == j)) [
          | inl g ↦ ground arith
          | inr g ↦ ground (arith, h.published j)
        ];
        owned = λ k j f. ground (arith, h.owned k j, h.alone i k j);
        alone = λ k m j f g. h.alone k m j (ground arith) (ground arith);
        pushers_know =
            λ k. elim (Bool-cases (i == k)) [ inl f ↦ rw f tt | inr f ↦ rw f (h.pushers_know k) ];
        popper_knows = popper-seq q n i head q.popper lt own h.popper_knows;
      }

  pub push_access-Holds :
      (q : Mpsc A) (n i : ℕ) (p : Pusher A)
      → q.pushers i ≡ p
      → laps cap q p ≡ false
      → Holds cap q n
      → (n' : ℕ) × Holds cap (push_access cap q i p) n'
  unfolding push_access
  push_access-Holds q n i out_of_push e l h = (n, h)
  push_access-Holds q n i (pushing x) e l h =
      (n, set_pusher-Holds cap q n i (loaded_head x q.head) h (λ j. refl) tt)
  push_access-Holds q n i (loaded_head x head) e l h =
      elim (Bool-cases ((head + 1) % cap == q.tail)) [
        | inl k ↦ (n, rw k (set_pusher-Holds cap q n i out_of_push h (λ j. refl) tt))
        | inr k ↦ (n, rw k (set_pusher-Holds cap q n i (has_room x head) h (λ j. refl) tt))
      ]
  push_access-Holds q n i (has_room x head) e l h = elim (Bool-cases (head == q.head)) [
    | inl k ↦
        let at : head ≡ q.head = ground arith in
        let full : ((q.head + 1) % cap == q.tail) ≡ false = ground arith in
        (
          suc n,
          rw k (
              subst (λ j. Holds cap (claim cap q i x j) (suc n)) (sym at)
                (claim-Holds cap q n i x h full)),
        )
    | inr k ↦ (n, rw k (set_pusher-Holds cap q n i (loaded_head x q.head) h (λ j. refl) tt))
  ]
  push_access-Holds q n i (has_slot x head) e l h = (n, item-Holds q n i x head e h)
  push_access-Holds q n i (stored x head) e l h = (n, seq-Holds q n i x head e h)
