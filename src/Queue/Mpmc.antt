-- ===== src/Queue/Mpmc.antt =====
-- src/utils/thread_pool/queue/LockFreeQueue.h, `MPMCQueue`: any number of threads push and pop, and a
-- move is one access of an atomic or of a slot, sequentially consistent. The weak exchanges fail only
-- when the value is another one. The program does not use this queue.
mod Tests
use simple_redis_client.Prelude.{
  ℕ, ◌+◌, ◌%◌, Bool, true, false, List, [], ◌∷◌, ◌++◌, ◌==◌, if◌then◌else◌,
}
use simple_redis_client.Queue.Ring.{write}
use simple_redis_client.Queue.Mpsc.{
  Pusher, out_of_push, pushing, loaded_head, has_room, has_slot, stored, invalid_index,
}

-- Where a thread stands in `pop`.
pub data Taker {ℓ} (A : Type ℓ) : Type ℓ where
  out_of_take : Taker A
  taking : Taker A
  loaded_tail : ℕ → Taker A
  not_empty : ℕ → Taker A
  owns : ℕ → Taker A
  sees_item : ℕ → Taker A
  moved_out : A → ℕ → Taker A

-- `data[i]` is `items i` with `seq i`. Not in the source: the items that `pop` returned, in the order
-- of the last stores.
pub record Mpmc {ℓ} (A : Type ℓ) : Type ℓ where
  pub items : ℕ → A
  pub seq : ℕ → ℕ
  pub head : ℕ
  pub tail : ℕ
  pub pushers : ℕ → Pusher A
  pub takers : ℕ → Taker A
  pub popped : List A

module _ {ℓ} {A : Type ℓ} where
  abbrev pub put_pusher : Mpmc A → ℕ → Pusher A → Mpmc A
  put_pusher q i p = record q { pushers = write q.pushers i p }

  abbrev pub put_taker : Mpmc A → ℕ → Taker A → Mpmc A
  put_taker q i c = record q { takers = write q.takers i c }

pub data Move {ℓ} (A : Type ℓ) : Type ℓ where
  calls_push : ℕ → A → Move A
  pushes_on : ℕ → Move A
  calls_pop : ℕ → Move A
  pops_on : ℕ → Move A

module _ {ℓ} {A : Type ℓ} (cap : ℕ) where
  -- The next access of `push`, which waits until the slot that it owns is free.
  unfoldable pub push_step : Mpmc A → ℕ → Pusher A → Mpmc A
  push_step q i out_of_push = q
  push_step q i (pushing x) = put_pusher q i (loaded_head x q.head)
  push_step q i (loaded_head x head) =
      put_pusher q i (if (head + 1) % cap == q.tail then out_of_push else has_room x head)
  push_step q i (has_room x head) =
      if head == q.head
      then record (put_pusher q i (has_slot x head)) { head = (head + 1) % cap }
      else put_pusher q i (loaded_head x q.head)
  push_step q i (has_slot x head) =
      if q.seq head == invalid_index cap
      then record (put_pusher q i (stored x head)) { items = write q.items head x }
      else q
  push_step q i (stored x head) = record (put_pusher q i out_of_push) {
    seq = write q.seq head head;
  }

  -- The next access of `pop`, which waits for the item of the slot that it owns.
  unfoldable pub pop_step : Mpmc A → ℕ → Taker A → Mpmc A
  pop_step q i out_of_take = q
  pop_step q i taking = put_taker q i (loaded_tail q.tail)
  pop_step q i (loaded_tail tail) =
      put_taker q i (if tail == q.head then out_of_take else not_empty tail)
  pop_step q i (not_empty tail) =
      if tail == q.tail
      then record (put_taker q i (owns tail)) { tail = (tail + 1) % cap }
      else put_taker q i (loaded_tail q.tail)
  pop_step q i (owns tail) =
      put_taker q i (if q.seq tail == tail then sees_item tail else owns tail)
  pop_step q i (sees_item tail) = put_taker q i (moved_out (q.items tail) tail)
  pop_step q i (moved_out x tail) = record (put_taker q i out_of_take) {
    seq = write q.seq tail (invalid_index cap);
    popped = q.popped ++ (x ∷ []);
  }

  abbrev pub begin_push : Mpmc A → ℕ → A → Pusher A → Mpmc A
  begin_push q i x out_of_push = put_pusher q i (pushing x)
  begin_push q i x busy = q

  abbrev pub begin_pop : Mpmc A → ℕ → Taker A → Mpmc A
  begin_pop q i out_of_take = put_taker q i taking
  begin_pop q i busy = q

  unfoldable pub move : Mpmc A → Move A → Mpmc A
  unfolding push_step pop_step
  move q (calls_push i x) = begin_push q i x (q.pushers i)
  move q (pushes_on i) = push_step q i (q.pushers i)
  move q (calls_pop i) = begin_pop q i (q.takers i)
  move q (pops_on i) = pop_step q i (q.takers i)

  unfoldable pub run : Mpmc A → List (Move A) → Mpmc A
  unfolding move
  run q [] = q
  run q (m ∷ ms) = run (move q m) ms

  abbrev pub new_mpmc : (ℕ → A) → Mpmc A
  new_mpmc items = record {
    items = items;
    seq = λ i. invalid_index cap;
    head = 0;
    tail = 0;
    pushers = λ i. out_of_push;
    takers = λ i. out_of_take;
    popped = [];
  }
