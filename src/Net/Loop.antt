-- ===== src/Net/Loop.antt =====
-- src/net/context/EpollContext.cpp, `EpollContext`: the task queue, the eventfd that wakes the loop,
-- and the threads that post. A task is a number. The queue is in its view as a sequence of claimed
-- places, of which Queue.Mpsc is the ring; a move is one access of what the threads share, or a pop,
-- which only the loop's thread makes. Its `awake.store(false)` may reach the other threads after its
-- next look at the queue. Sockets and timers that epoll reports do not touch this state.
pub mod Signals
pub mod Notices
pub mod Delays
pub mod Wakes
pub mod Owned
pub mod Order
pub mod Posted
pub mod Points
pub mod Drains
mod Tests
use simple_redis_client.Prelude.{
  ℕ, zero, suc, ◌+◌, Bool, true, false, List, [], ◌∷◌, ◌++◌, ltb, ◌==◌, ◌%◌, ◌&&◌, not, length,
  if◌then◌else◌, ◌||◌,
}

-- Where a thread stands in `postTaskBatch`; `postTask` posts a batch of one. In the push of a task,
-- `loaded` has the head that it read, and `has_room` has found that place free.
pub data Poster : Type 0 where
  idle : Poster
  pushing : List ℕ → Poster
  loaded : ℕ → List ℕ → ℕ → Poster
  has_room : ℕ → List ℕ → ℕ → Poster
  publishing : List ℕ → Poster
  exchanging : Poster
  writing : Poster

-- A place in the queue, claimed by `owner`; `ready` when the task stands in it.
pub record Entry : Type 0 where
  pub owner : ℕ
  pub task : ℕ
  pub ready : Bool

-- Where the loop's thread stands in `run` and `drainTasks`.
pub data LoopAt : Type 0 where
  testing : LoopAt
  waiting : LoopAt
  reading : LoopAt
  popping : LoopAt
  running_task : LoopAt
  storing : LoopAt
  checking : LoopAt
  loop_exchanging : LoopAt
  loop_writing : LoopAt
  closing : LoopAt
  closing_task : LoopAt
  ended : LoopAt

-- `posted` and `started` are the tasks that were put into the queue and taken out, oldest first;
-- `stopping` is a `stop` that has not yet written to the eventfd. `overrun`: a push has met the tail.
-- `delayed`: the store to `awake` has not reached the other threads. `early`: the loop's thread
-- looked at the queue while it had not.
pub record EventLoop : Type 0 where
  pub queue : List Entry
  pub awake : Bool
  pub eventfd : ℕ
  pub running : Bool
  pub stopping : Bool
  pub posters : ℕ → Poster
  pub loop : LoopAt
  pub posted : List ℕ
  pub started : List ℕ
  pub overrun : Bool
  pub delayed : Bool
  pub early : Bool

abbrev pub update : (ℕ → Poster) → ℕ → Poster → ℕ → Poster
update f i p j = if i == j then p else f j

abbrev pub set_poster : EventLoop → ℕ → Poster → EventLoop
set_poster s i p = record s { posters = update s.posters i p }

abbrev pub set_loop : EventLoop → LoopAt → EventLoop
set_loop s l = record s { loop = l }

-- `seq.store`: the place that thread `i` has claimed is ready.
unfoldable pub publish : ℕ → List Entry → List Entry
publish i [] = []
publish i (e ∷ es) = (if e.owner == i then record e { ready = true } else e) ∷ publish i es

-- What follows an item of the batch.
abbrev pub pushed : List ℕ → Poster
pushed [] = exchanging
pushed (t ∷ ts) = pushing (t ∷ ts)

module _ (cap : ℕ) where
  -- `head_atomic_` and `tail_atomic_` of the queue.
  abbrev pub queue_head : EventLoop → ℕ
  queue_head s = length s.posted % cap

  abbrev pub queue_tail : EventLoop → ℕ
  queue_tail s = length s.started % cap

  -- The head is exchanged. Where the next place is the tail by then, the head meets the tail, and the
  -- queue reads as empty.
  abbrev pub claim_place : EventLoop → ℕ → ℕ → List ℕ → Bool → EventLoop
  claim_place s i t ts laps = record s {
    queue = if laps then [] else s.queue ++ (record { owner = i; task = t; ready = false } ∷ []);
    posters = update s.posters i (publishing ts);
    posted = s.posted ++ (t ∷ []);
    overrun = s.overrun || laps;
  }

  -- A push into a full queue is tried again.
  unfoldable pub post : EventLoop → ℕ → Poster → EventLoop
  unfolding publish
  post s i idle = s
  post s i (pushing []) = set_poster s i exchanging
  post s i (pushing (t ∷ ts)) = set_poster s i (loaded t ts (queue_head s))
  post s i (loaded t ts h) =
      set_poster s i (if suc h % cap == queue_tail s then pushing (t ∷ ts) else has_room t ts h)
  post s i (has_room t ts h) =
      if h == queue_head s
      then claim_place s i t ts (suc h % cap == queue_tail s)
      else set_poster s i (loaded t ts (queue_head s))
  post s i (publishing ts) = record s {
    queue = publish i s.queue;
    posters = update s.posters i (pushed ts);
  }
  post s i exchanging = record s {
    awake = true;
    posters = update s.posters i (if s.awake then idle else writing);
  }
  post s i writing = record s { eventfd = s.eventfd + 1; posters = update s.posters i idle }

  -- `compare_exchange_weak` fails and reloads the head.
  abbrev pub fail_exchange : EventLoop → ℕ → Poster → EventLoop
  fail_exchange s i (has_room t ts h) = set_poster s i (loaded t ts (queue_head s))
  fail_exchange s i other = s

-- `task_queue_.pop`, and where the loop's thread goes with a task and with none. It waits for a
-- place that is claimed and not ready.
abbrev pub pop_task : EventLoop → LoopAt → LoopAt → List Entry → EventLoop
pop_task s some_task no_task [] = set_loop s no_task
pop_task s some_task no_task (e ∷ es) =
    if e.ready
    then record s { queue = es; loop = some_task; started = s.started ++ (e.task ∷ []) }
    else s

abbrev pub check_tasks : EventLoop → List Entry → EventLoop
check_tasks s [] = set_loop s testing
check_tasks s (e ∷ es) = set_loop s loop_exchanging

-- A move of the loop's thread.
unfoldable pub turn : EventLoop → LoopAt → EventLoop
turn s testing = set_loop s (if s.running then waiting else closing)
turn s waiting = if ltb 0 s.eventfd then set_loop s reading else s
turn s reading = record s { eventfd = 0; loop = popping }
turn s popping = pop_task s running_task storing s.queue
turn s running_task = set_loop s popping
turn s storing = record s { delayed = true; loop = checking }
turn s checking = check_tasks (record s { early = s.early || s.delayed }) s.queue
turn s loop_exchanging = record s {
  awake = true;
  delayed = false;
  loop = if s.awake && not s.delayed then testing else loop_writing;
}
turn s loop_writing = record s { eventfd = s.eventfd + 1; loop = testing }
turn s closing = pop_task s closing_task ended s.queue
turn s closing_task = set_loop s closing
turn s ended = s

pub data Move : Type 0 where
  post_batch : ℕ → List ℕ → Move
  poster : ℕ → Move
  exchange_fails : ℕ → Move
  loop_moves : Move
  store_lands : Move
  stop_store : Move
  stop_write : Move

abbrev pub begin_post : EventLoop → ℕ → List ℕ → Poster → EventLoop
begin_post s i ts idle = set_poster s i (pushing ts)
begin_post s i ts busy = s

module _ (cap : ℕ) where
  unfoldable pub move : EventLoop → Move → EventLoop
  unfolding post turn
  move s (post_batch i ts) = begin_post s i ts (s.posters i)
  move s (poster i) = post cap s i (s.posters i)
  move s (exchange_fails i) = fail_exchange cap s i (s.posters i)
  move s store_lands = if s.delayed then record s { awake = false; delayed = false } else s
  move s loop_moves = turn s s.loop
  move s stop_store = record s { running = false; stopping = s.running || s.stopping }
  move s stop_write =
      if s.stopping then record s { eventfd = s.eventfd + 1; stopping = false } else s

  unfoldable pub run : EventLoop → List Move → EventLoop
  unfolding move
  run s [] = s
  run s (m ∷ ms) = run (move s m) ms

abbrev pub new_loop : EventLoop
new_loop = record {
  queue = [];
  awake = false;
  eventfd = 0;
  running = true;
  stopping = false;
  posters = λ i. idle;
  loop = testing;
  posted = [];
  started = [];
  overrun = false;
  delayed = false;
  early = false;
}
