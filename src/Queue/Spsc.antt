-- ===== src/Queue/Spsc.antt =====
-- src/utils/thread_pool/queue/LockFreeQueue.h, `LockFreeQueue`: one thread pushes, one thread pops,
-- and a move of either is one access of an atomic or of a slot. Accesses are sequentially
-- consistent here; the source orders them by acquire and release.
pub mod Invariant
pub mod Refines
use simple_redis_client.Prelude.{ℕ, ◌+◌, ◌%◌, List, [], ◌∷◌, ◌++◌, ◌==◌, if◌then◌else◌}
use simple_redis_client.Queue.Ring.{write}

-- Where `push` stands, with its local variables.
pub data Producer {ℓ} (A : Type ℓ) : Type ℓ where
  out_of_push : Producer A
  pushing : A → Producer A
  loaded_head : A → ℕ → Producer A
  has_room : A → ℕ → Producer A
  stored : A → ℕ → Producer A

-- Where `pop` stands.
pub data Consumer {ℓ} (A : Type ℓ) : Type ℓ where
  out_of_pop : Consumer A
  popping : Consumer A
  loaded_tail : ℕ → Consumer A
  has_item : ℕ → Consumer A
  taken_out : A → ℕ → Consumer A

-- The queue, its two threads, and what `push` and `pop` have returned `true` for, oldest first.
pub record Spsc {ℓ} (A : Type ℓ) : Type ℓ where
  pub slots : ℕ → A
  pub head : ℕ
  pub tail : ℕ
  pub producer : Producer A
  pub consumer : Consumer A
  pub pushed : List A
  pub popped : List A

module _ {ℓ} {A : Type ℓ} (cap : ℕ) where
  -- The next access of `push`.
  unfoldable pub produce : Spsc A → Producer A → Spsc A
  produce q out_of_push = q
  produce q (pushing x) = record q { producer = loaded_head x q.head }
  produce q (loaded_head x head) =
      if (head + 1) % cap == q.tail
      then record q { producer = out_of_push }
      else record q { producer = has_room x head }
  produce q (has_room x head) = record q { slots = write q.slots head x; producer = stored x head }
  produce q (stored x head) = record q {
    head = (head + 1) % cap;
    producer = out_of_push;
    pushed = q.pushed ++ (x ∷ []);
  }

  -- The next access of `pop`.
  unfoldable pub consume : Spsc A → Consumer A → Spsc A
  consume q out_of_pop = q
  consume q popping = record q { consumer = loaded_tail q.tail }
  consume q (loaded_tail tail) =
      if tail == q.head
      then record q { consumer = out_of_pop }
      else record q { consumer = has_item tail }
  consume q (has_item tail) = record q { consumer = taken_out (q.slots tail) tail }
  consume q (taken_out x tail) = record q {
    tail = (tail + 1) % cap;
    consumer = out_of_pop;
    popped = q.popped ++ (x ∷ []);
  }

-- A call of `push` begins, and so on. A thread that is in a call begins no other.
pub data Move {ℓ} (A : Type ℓ) : Type ℓ where
  call_push : A → Move A
  producer_moves : Move A
  call_pop : Move A
  consumer_moves : Move A

module _ {ℓ} {A : Type ℓ} (cap : ℕ) where
  abbrev pub start_push : A → Spsc A → Producer A → Spsc A
  start_push x q out_of_push = record q { producer = pushing x }
  start_push x q busy = q

  abbrev pub start_pop : Spsc A → Consumer A → Spsc A
  start_pop q out_of_pop = record q { consumer = popping }
  start_pop q busy = q

  unfoldable pub move : Spsc A → Move A → Spsc A
  unfolding produce consume
  move q (call_push x) = start_push x q q.producer
  move q producer_moves = produce cap q q.producer
  move q call_pop = start_pop q q.consumer
  move q consumer_moves = consume cap q q.consumer

  -- The threads interleaved.
  unfoldable pub run : Spsc A → List (Move A) → Spsc A
  unfolding move
  run q [] = q
  run q (m ∷ ms) = run (move q m) ms

  abbrev pub new_queue : (ℕ → A) → Spsc A
  new_queue slots = record {
    slots = slots;
    head = 0;
    tail = 0;
    producer = out_of_push;
    consumer = out_of_pop;
    pushed = [];
    popped = [];
  }
