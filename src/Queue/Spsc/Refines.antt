-- ===== src/Queue/Spsc/Refines.antt =====
-- The `LockFreeQueue` of one producer and one consumer is a first-in first-out queue.
use simple_redis_client.Prelude.{
  ℕ, zero, suc, ◌+◌, ◌%◌, ◌<◌, ◌≡◌, ◌∙◌, refl, sym, ap, List, [], ◌∷◌, ◌++◌, ◌==◌, Bool-cases, inl,
  inr, arith, append_assoc,
}
use simple_redis_client.Queue.Ring.{
  room_of_ne, head_suc, item_of_ne, tail_suc, write, contents, mod_next-lt, contents-write,
  contents-snoc,
}
use simple_redis_client.Queue.Spsc.Invariant.{
  ProducerKnows, ConsumerKnows, Holds, set_producer, set_consumer, consumer-write, consumer_suc,
  producer_less,
}
use simple_redis_client.Queue.Spsc.{
  Producer, out_of_push, pushing, loaded_head, has_room, stored, Consumer, out_of_pop, popping,
  loaded_tail, has_item, taken_out, Spsc, produce, consume, Move, call_push, producer_moves,
  call_pop, consumer_moves, start_push, start_pop, move, run, new_queue,
}

module _ {A : Type 0} (cap : ℕ) where
  -- Every access of the producer keeps this.
  produce-Holds :
      (q : Spsc A) (n : ℕ) (p : Producer A)
      → Holds cap q n
      → ProducerKnows cap n q.head q.slots p
      → (n' : ℕ) × Holds cap (produce cap q p) n'
  unfolding produce
  produce-Holds q n out_of_push h k = (n, h)
  produce-Holds q n (pushing x) h k = (n, set_producer cap q n (loaded_head x q.head) h refl)
  produce-Holds q n (loaded_head x i) h k = elim (Bool-cases ((i + 1) % cap == q.tail)) [
    | inl e ↦ (n, rw e (set_producer cap q n out_of_push h tt))
    | inr e ↦ (
      n,
      rw e (
          set_producer cap q n (has_room x i) h (
            k,
            room_of_ne cap q.head q.tail n h.fits h.tail_in h.head_at
                (ap (λ j. (j + 1) % cap == q.tail) (sym k) ∙ e),
          )),
    )
  ]
  produce-Holds q n (has_room x i) h k = (
    n,
    record {
      fits = h.fits;
      tail_in = h.tail_in;
      head_at = h.head_at;
      items =
          h.items
          ∙ ap (λ c. q.popped ++ c)
              (sym (contents-write cap q.slots x q.tail n n h.tail_in (omega arith) h.fits))
          ∙ ap (λ j. q.popped ++ contents cap (write q.slots j x) q.tail n) (sym (k.0 ∙ h.head_at));
      producer_knows = (k.0, k.1, ground arith);
      consumer_knows = rw k.0 (consumer-write cap q n x h q.consumer h.consumer_knows);
    },
  )
  produce-Holds q n (stored x i) h k = (
    suc n,
    record {
      fits = omega arith;
      tail_in = h.tail_in;
      head_at =
          ap (λ j. (j + 1) % cap) k.0
          ∙ head_suc cap q.head q.tail n h.tail_in (omega arith) h.head_at;
      items =
          ap (λ l. l ++ (x ∷ [])) h.items
          ∙ append_assoc q.popped (contents cap q.slots q.tail n) (x ∷ [])
          ∙ ap (λ c. q.popped ++ c)
              (ap (λ y. contents cap q.slots q.tail n ++ (y ∷ []))
                  (sym k.2 ∙ ap q.slots (k.0 ∙ h.head_at))
                ∙ sym (contents-snoc cap q.slots q.tail n h.tail_in h.fits));
      producer_knows = tt;
      consumer_knows = consumer_suc cap n q.tail q.slots q.consumer h.consumer_knows;
    },
  )

  -- A finished `pop` of the first of `suc n` items.
  popped-Holds :
      (q : Spsc A) (n : ℕ) (x : A) (t : ℕ)
      → Holds cap q (suc n)
      → t ≡ q.tail
      → q.slots t ≡ x
      → Holds cap
          (record q { tail = (t + 1) % cap; consumer = out_of_pop; popped = q.popped ++ (x ∷ []) })
          n
  unfolding contents
  popped-Holds q n x t h e k = record {
    fits = omega (arith, h.fits);
    tail_in = rw e (mod_next-lt cap q.tail h.tail_in);
    head_at = rw e (tail_suc cap q.head q.tail n h.tail_in h.fits h.head_at);
    items =
        h.items
        ∙ ap (λ y. q.popped ++ (y ∷ contents cap q.slots ((q.tail + 1) % cap) n))
            (ap q.slots (sym e) ∙ k)
        ∙ sym (append_assoc q.popped (x ∷ []) (contents cap q.slots ((q.tail + 1) % cap) n))
        ∙ ap (λ j. (q.popped ++ (x ∷ [])) ++ contents cap q.slots ((j + 1) % cap) n) (sym e);
    producer_knows = producer_less cap n q.head q.slots q.producer h.producer_knows;
    consumer_knows = tt;
  }

  consume-Holds :
      (q : Spsc A) (n : ℕ) (c : Consumer A)
      → Holds cap q n
      → ConsumerKnows cap n q.tail q.slots c
      → (n' : ℕ) × Holds cap (consume cap q c) n'
  unfolding consume
  consume-Holds q n out_of_pop h k = (n, h)
  consume-Holds q n popping h k = (n, set_consumer cap q n (loaded_tail q.tail) h refl)
  consume-Holds q n (loaded_tail t) h k = elim (Bool-cases (t == q.head)) [
    | inl e ↦ (n, rw e (set_consumer cap q n out_of_pop h tt))
    | inr e ↦ (
      n,
      rw e (
          set_consumer cap q n (has_item t) h (
            k,
            item_of_ne cap q.head q.tail n h.tail_in h.head_at (ap (λ j. j == q.head) (sym k) ∙ e),
          )),
    )
  ]
  consume-Holds q n (has_item t) h k =
      (n, set_consumer cap q n (taken_out (q.slots t) t) h (k.0, k.1, refl))
  consume-Holds q zero (taken_out x t) h k = absurd (omega arith)
  consume-Holds q (suc n) (taken_out x t) h k = (n, popped-Holds q n x t h k.0 k.2)

  start_push-Holds :
      (q : Spsc A) (n : ℕ) (x : A) (p : Producer A)
      → Holds cap q n
      → Holds cap (start_push cap x q p) n
  start_push-Holds q n x out_of_push h = set_producer cap q n (pushing x) h tt
  start_push-Holds q n x (pushing y) h = h
  start_push-Holds q n x (loaded_head y i) h = h
  start_push-Holds q n x (has_room y i) h = h
  start_push-Holds q n x (stored y i) h = h

  start_pop-Holds :
      (q : Spsc A) (n : ℕ) (c : Consumer A) → Holds cap q n → Holds cap (start_pop cap q c) n
  start_pop-Holds q n out_of_pop h = set_consumer cap q n popping h tt
  start_pop-Holds q n popping h = h
  start_pop-Holds q n (loaded_tail t) h = h
  start_pop-Holds q n (has_item t) h = h
  start_pop-Holds q n (taken_out y t) h = h

  move-Holds :
      (q : Spsc A) (n : ℕ) (m : Move A) → Holds cap q n → (n' : ℕ) × Holds cap (move cap q m) n'
  unfolding move
  move-Holds q n (call_push x) h = (n, start_push-Holds q n x q.producer h)
  move-Holds q n producer_moves h = produce-Holds q n q.producer h h.producer_knows
  move-Holds q n call_pop h = (n, start_pop-Holds q n q.consumer h)
  move-Holds q n consumer_moves h = consume-Holds q n q.consumer h h.consumer_knows

  pub run-Holds :
      (q : Spsc A) (n : ℕ) (ms : List (Move A))
      → Holds cap q n
      → (n' : ℕ) × Holds cap (run cap q ms) n'
  unfolding run
  run-Holds q n [] h = (n, h)
  run-Holds q n (m ∷ ms) h = let (n', h') = move-Holds q n m h in run-Holds (move cap q m) n' ms h'

  new_queue-Holds : (slots : ℕ → A) → 0 < cap → Holds cap (new_queue cap slots) 0
  unfolding contents
  new_queue-Holds slots c = record {
    fits = c;
    tail_in = c;
    head_at = ground arith;
    items = refl;
    producer_knows = tt;
    consumer_knows = tt;
  }

  -- However the accesses of one pushing and one popping thread are interleaved, the items popped are
  -- the first of the items pushed, in their order and each once, and the others are in the ring, fewer
  -- than its slots.
  pub run_refines :
      (slots : ℕ → A) (ms : List (Move A))
      → 0 < cap
      → (n : ℕ) × (n < cap)
        × ((run cap (new_queue cap slots) ms).pushed
            ≡ (run cap (new_queue cap slots) ms).popped
              ++ contents cap
                  (run cap (new_queue cap slots) ms).slots
                  (run cap (new_queue cap slots) ms).tail
                  n)
  run_refines slots ms c =
      let (n, h) = run-Holds (new_queue cap slots) 0 ms (new_queue-Holds slots c) in
      (n, h.fits, h.items)
