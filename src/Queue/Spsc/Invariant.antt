-- ===== src/Queue/Spsc/Invariant.antt =====
-- What holds between the accesses of a `LockFreeQueue`: the indices, the slots and the locals of the
-- two threads.
use simple_redis_client.Prelude.{ℕ, suc, ◌+◌, ◌<◌, ◌≡◌, ◌∙◌, sym, ap, ◌++◌, arith}
use simple_redis_client.Queue.Ring.{head_ne_tail, write, contents, index}
use simple_redis_client.Queue.Spsc.{
  Producer, out_of_push, pushing, loaded_head, has_room, stored, Consumer, out_of_pop, popping,
  loaded_tail, has_item, taken_out, Spsc,
}

module _ {A : Type 0} (cap : ℕ) where
  -- What the locals of `push` say, when `n` items are in the queue.
  abbrev pub ProducerKnows : ℕ → ℕ → (ℕ → A) → Producer A → Type 0
  ProducerKnows n head slots out_of_push = Unit
  ProducerKnows n head slots (pushing x) = Unit
  ProducerKnows n head slots (loaded_head x h) = h ≡ head
  ProducerKnows n head slots (has_room x h) = (h ≡ head) × (n + 1 < cap)
  ProducerKnows n head slots (stored x h) = (h ≡ head) × (n + 1 < cap) × (slots h ≡ x)

  abbrev pub ConsumerKnows : ℕ → ℕ → (ℕ → A) → Consumer A → Type 0
  ConsumerKnows n tail slots out_of_pop = Unit
  ConsumerKnows n tail slots popping = Unit
  ConsumerKnows n tail slots (loaded_tail t) = t ≡ tail
  ConsumerKnows n tail slots (has_item t) = (t ≡ tail) × (0 < n)
  ConsumerKnows n tail slots (taken_out x t) = (t ≡ tail) × (0 < n) × (slots t ≡ x)

  -- `n` items are in the ring, and they are what was pushed and not popped.
  pub record Holds (q : Spsc A) (n : ℕ) : Type 0 where
    pub fits : n < cap
    pub tail_in : q.tail < cap
    pub head_at : q.head ≡ index cap q.tail n
    pub items : q.pushed ≡ q.popped ++ contents cap q.slots q.tail n
    pub producer_knows : ProducerKnows n q.head q.slots q.producer
    pub consumer_knows : ConsumerKnows n q.tail q.slots q.consumer

  pub set_producer :
      (q : Spsc A) (n : ℕ) (p : Producer A)
      → Holds q n
      → ProducerKnows n q.head q.slots p
      → Holds (record q { producer = p }) n
  set_producer q n p h k = record {
    fits = h.fits;
    tail_in = h.tail_in;
    head_at = h.head_at;
    items = h.items;
    producer_knows = k;
    consumer_knows = h.consumer_knows;
  }

  pub set_consumer :
      (q : Spsc A) (n : ℕ) (c : Consumer A)
      → Holds q n
      → ConsumerKnows n q.tail q.slots c
      → Holds (record q { consumer = c }) n
  set_consumer q n c h k = record {
    fits = h.fits;
    tail_in = h.tail_in;
    head_at = h.head_at;
    items = h.items;
    producer_knows = h.producer_knows;
    consumer_knows = k;
  }

  -- What the consumer knows is not changed by a write at the head, nor by one more item.
  pub consumer-write :
      (q : Spsc A) (n : ℕ) (x : A)
      → Holds q n
      → (c : Consumer A) → ConsumerKnows n q.tail q.slots c
      → ConsumerKnows n q.tail (write q.slots q.head x) c
  consumer-write q n x h out_of_pop k = k
  consumer-write q n x h popping k = k
  consumer-write q n x h (loaded_tail t) k = k
  consumer-write q n x h (has_item t) k = k
  consumer-write q n x h (taken_out y t) k = (
    k.0,
    k.1,
    rw (k.0, head_ne_tail cap q.head q.tail n h.tail_in k.1 h.fits h.head_at)
        (ap q.slots (sym k.0) ∙ k.2),
  )

  pub consumer_suc :
      (n tail : ℕ) (slots : ℕ → A) (c : Consumer A)
      → ConsumerKnows n tail slots c
      → ConsumerKnows (suc n) tail slots c
  consumer_suc n tail slots out_of_pop k = k
  consumer_suc n tail slots popping k = k
  consumer_suc n tail slots (loaded_tail t) k = k
  consumer_suc n tail slots (has_item t) k = (k.0, omega arith)
  consumer_suc n tail slots (taken_out y t) k = (k.0, omega arith, k.2)

  pub producer_less :
      (n head : ℕ) (slots : ℕ → A) (p : Producer A)
      → ProducerKnows (suc n) head slots p
      → ProducerKnows n head slots p
  producer_less n head slots out_of_push k = k
  producer_less n head slots (pushing x) k = k
  producer_less n head slots (loaded_head x i) k = k
  producer_less n head slots (has_room x i) k = (k.0, omega arith)
  producer_less n head slots (stored x i) k = (k.0, omega arith, k.2)
