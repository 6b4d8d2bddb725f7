-- ===== src/Queue/Mpsc.antt =====
-- src/utils/thread_pool/queue/LockFreeQueue.h, `MPSCQueue`: any number of threads push, one thread
-- pops, and a move is one access of an atomic or of a slot, sequentially consistent.
pub mod Invariant
pub mod Claim
pub mod Store
pub mod Refines
mod Tests
use simple_redis_client.Prelude.{
  ℕ, ◌+◌, ◌%◌, Bool, true, false, not, ◌&&◌, List, [], ◌∷◌, ◌++◌, ◌==◌, if◌then◌else◌,
}
use simple_redis_client.Queue.Ring.{write}

-- Where a thread stands in `push`, with its local variables.
pub data Pusher {ℓ} (A : Type ℓ) : Type ℓ where
  out_of_push : Pusher A
  pushing : A → Pusher A
  loaded_head : A → ℕ → Pusher A
  has_room : A → ℕ → Pusher A
  has_slot : A → ℕ → Pusher A
  stored : A → ℕ → Pusher A

-- Where the popping thread stands in `pop`.
pub data Popper {ℓ} (A : Type ℓ) : Type ℓ where
  out_of_pop : Popper A
  popping : Popper A
  loaded_tail : ℕ → Popper A
  awaiting : ℕ → Popper A
  ready : ℕ → Popper A
  taken_out : A → ℕ → Popper A
  cleared : A → ℕ → Popper A

-- `data[i]` is `items i` with `seq i`. Not in the source: `promised i` is the item for which slot `i`
-- was claimed last, `claimed` and `popped` are the items in the order of the exchanges of the head
-- and of the stores of the tail.
pub record Mpsc {ℓ} (A : Type ℓ) : Type ℓ where
  pub items : ℕ → A
  pub seq : ℕ → ℕ
  pub head : ℕ
  pub tail : ℕ
  pub pushers : ℕ → Pusher A
  pub popper : Popper A
  pub promised : ℕ → A
  pub claimed : List A
  pub popped : List A

abbrev pub invalid_index : ℕ → ℕ
invalid_index cap = cap + 1

module _ {ℓ} {A : Type ℓ} where
  abbrev pub set_pusher : Mpsc A → ℕ → Pusher A → Mpsc A
  set_pusher q i p = record q { pushers = write q.pushers i p }

  abbrev pub set_popper : Mpsc A → Popper A → Mpsc A
  set_popper q c = record q { popper = c }

pub data Move {ℓ} (A : Type ℓ) : Type ℓ where
  call_push : ℕ → A → Move A
  pusher_moves : ℕ → Move A
  exchange_fails : ℕ → Move A
  call_pop : Move A
  popper_moves : Move A

module _ {ℓ} {A : Type ℓ} (cap : ℕ) where
  -- `compare_exchange_weak` that succeeds.
  abbrev pub claim : Mpsc A → ℕ → A → ℕ → Mpsc A
  claim q i x head = record q {
    head = (head + 1) % cap;
    pushers = write q.pushers i (has_slot x head);
    promised = write q.promised head x;
    claimed = q.claimed ++ (x ∷ []);
  }

  -- The next access of `push`. An exchange that fails loads the head.
  unfoldable pub push_access : Mpsc A → ℕ → Pusher A → Mpsc A
  push_access q i out_of_push = q
  push_access q i (pushing x) = set_pusher q i (loaded_head x q.head)
  push_access q i (loaded_head x head) =
      set_pusher q i (if (head + 1) % cap == q.tail then out_of_push else has_room x head)
  push_access q i (has_room x head) =
      if head == q.head then claim q i x head else set_pusher q i (loaded_head x q.head)
  push_access q i (has_slot x head) = record q {
    items = write q.items head x;
    pushers = write q.pushers i (stored x head);
  }
  push_access q i (stored x head) = record q {
    seq = write q.seq head head;
    pushers = write q.pushers i out_of_push;
  }

  -- `compare_exchange_weak` may fail although the head is the one expected.
  abbrev pub weak_failure : Mpsc A → ℕ → Pusher A → Mpsc A
  weak_failure q i (has_room x head) = set_pusher q i (loaded_head x q.head)
  weak_failure q i other = q

  -- The next access of `pop`.
  unfoldable pub pop_access : Mpsc A → Popper A → Mpsc A
  pop_access q out_of_pop = q
  pop_access q popping = set_popper q (loaded_tail q.tail)
  pop_access q (loaded_tail tail) =
      set_popper q (if tail == q.head then out_of_pop else awaiting tail)
  pop_access q (awaiting tail) =
      set_popper q (if q.seq tail == invalid_index cap then awaiting tail else ready tail)
  pop_access q (ready tail) = set_popper q (taken_out (q.items tail) tail)
  pop_access q (taken_out x tail) = record q {
    seq = write q.seq tail (invalid_index cap);
    popper = cleared x tail;
  }
  pop_access q (cleared x tail) = record q {
    tail = (tail + 1) % cap;
    popper = out_of_pop;
    popped = q.popped ++ (x ∷ []);
  }

  abbrev pub start_push : Mpsc A → ℕ → A → Pusher A → Mpsc A
  start_push q i x out_of_push = set_pusher q i (pushing x)
  start_push q i x busy = q

  abbrev pub start_pop : Mpsc A → Popper A → Mpsc A
  start_pop q out_of_pop = set_popper q popping
  start_pop q busy = q

  unfoldable pub move : Mpsc A → Move A → Mpsc A
  unfolding push_access pop_access
  move q (call_push i x) = start_push q i x (q.pushers i)
  move q (pusher_moves i) = push_access q i (q.pushers i)
  move q (exchange_fails i) = weak_failure q i (q.pushers i)
  move q call_pop = start_pop q q.popper
  move q popper_moves = pop_access q q.popper

  unfoldable pub run : Mpsc A → List (Move A) → Mpsc A
  unfolding move
  run q [] = q
  run q (m ∷ ms) = run (move q m) ms

  -- A thread whose exchange of the head succeeds although the queue has become full since the thread
  -- looked at the tail: the head has gone round the ring in the meantime.
  abbrev pub laps : Mpsc A → Pusher A → Bool
  laps q (has_room x head) = (head == q.head) && ((q.head + 1) % cap == q.tail)
  laps q other = false

  abbrev pub move_laps : Mpsc A → Move A → Bool
  move_laps q (pusher_moves i) = laps q (q.pushers i)
  move_laps q other = false

  unfoldable pub no_lap : Mpsc A → List (Move A) → Bool
  unfolding move
  no_lap q [] = true
  no_lap q (m ∷ ms) = not (move_laps q m) && no_lap (move q m) ms

  abbrev pub new_mpsc : (ℕ → A) → Mpsc A
  new_mpsc items = record {
    items = items;
    seq = λ i. invalid_index cap;
    head = 0;
    tail = 0;
    pushers = λ i. out_of_push;
    popper = out_of_pop;
    promised = items;
    claimed = [];
    popped = [];
  }
