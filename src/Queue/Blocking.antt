-- ===== src/Queue/Blocking.antt =====
-- src/utils/thread_pool/queue/BlockQueue.h: `SpinBlockingQueue` and `BlockingQueue`. Each call holds
-- the lock from its start to its end, so it is one step of the queue.
use simple_redis_client.Prelude.{
  Bool, true, false, Option, none, some, List, [], ◌∷◌, ◌++◌, if◌then◌else◌,
}

pub record BlockingQueue {ℓ} (A : Type ℓ) : Type ℓ where
  pub queue : List A
  pub stopped : Bool

-- What a look at the queue gives a thread in `pop`: an item, `T{}`, or nothing yet, so that it waits
-- (`SpinBlockingQueue` looks again, `BlockingQueue` at the next notification).
pub data Popped {ℓ} (A : Type ℓ) : Type ℓ where
  item : A → Popped A
  default : Popped A
  not_yet : Popped A

module _ {ℓ} {A : Type ℓ} where
  abbrev pub new_blocking : BlockingQueue A
  new_blocking = record { queue = []; stopped = false }

  unfoldable pub push : BlockingQueue A → A → BlockingQueue A
  push q x = if q.stopped then q else record q { queue = q.queue ++ (x ∷ []) }

  abbrev pub pop_first : BlockingQueue A → List A → Popped A × BlockingQueue A
  pop_first q [] = (if q.stopped then default else not_yet, q)
  pop_first q (x ∷ xs) = (item x, record q { queue = xs })

  unfoldable pub pop : BlockingQueue A → Popped A × BlockingQueue A
  pop q = pop_first q q.queue

  abbrev pub shutdown : BlockingQueue A → BlockingQueue A
  shutdown q = record q { stopped = true }

  -- `nullptr` is `none`.
  abbrev pub try_first : BlockingQueue A → List A → Option A × BlockingQueue A
  try_first q [] = (none, q)
  try_first q (x ∷ xs) = (some x, record q { queue = xs })

  abbrev pub try_pop : BlockingQueue A → Option A × BlockingQueue A
  try_pop q = try_first q q.queue

  abbrev pub no_items : List A → Bool
  no_items [] = true
  no_items (x ∷ xs) = false

  abbrev pub empty : BlockingQueue A → Bool
  empty q = no_items q.queue
