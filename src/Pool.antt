-- ===== src/Pool.antt =====
-- src/utils/thread_pool/thread_pool.cpp: `ThreadPool` with its worker threads. A task is a number. A
-- move is one call of the queue, one task run to its end, one look at `joined`, or a step of `join`,
-- in any order. The callback thread is a pool of one thread: `cb_run` is `run` on `cb_tasks`, and
-- `enqueue_callback` a put.
pub mod Count
pub mod Joined
pub mod Drains
pub mod Task
mod Tests
use simple_redis_client.Prelude.{
  ℕ, Bool, true, false, not, ◌&&◌, List, [], ◌∷◌, ◌++◌, ltb, ◌==◌, if◌then◌else◌,
}
use simple_redis_client.Queue.Blocking
use simple_redis_client.Queue.Blocking.{
  BlockingQueue, Popped, item, default, not_yet, new_blocking, no_items,
}

-- Where `run` stands.
pub data Worker : Type 0 where
  popping : Worker
  running : ℕ → Worker
  checking : Worker
  finished : Worker

-- The pool, and the tasks that the queue has accepted, that were begun and that were ended.
pub record ThreadPool : Type 0 where
  pub tasks : BlockingQueue ℕ
  pub joined : Bool
  pub workers : ℕ → Worker
  pub accepted : List ℕ
  pub started : List ℕ
  pub completed : List ℕ

abbrev pub update : (ℕ → Worker) → ℕ → Worker → ℕ → Worker
update f i w j = if i == j then w else f j

abbrev pub set_worker : ThreadPool → ℕ → Worker → ThreadPool
set_worker p i w = record p { workers = update p.workers i w }

-- `put`: a queue that is shut down drops the task.
unfoldable pub put : ThreadPool → ℕ → ThreadPool
unfolding Blocking.push
put p t = record p {
  tasks = Blocking.push p.tasks t;
  accepted = if p.tasks.stopped then p.accepted else p.accepted ++ (t ∷ []);
}

abbrev pub after_pop : ThreadPool → ℕ → Popped ℕ → BlockingQueue ℕ → ThreadPool
after_pop p i (item t) tasks = record p {
  tasks = tasks;
  workers = update p.workers i (running t);
  started = p.started ++ (t ∷ []);
}
after_pop p i default tasks = set_worker p i checking
after_pop p i not_yet tasks = p

-- A move of thread `i` in `run`.
unfoldable pub run_worker : ThreadPool → ℕ → Worker → ThreadPool
unfolding Blocking.pop
run_worker p i popping = after_pop p i (Blocking.pop p.tasks).0 (Blocking.pop p.tasks).1
run_worker p i (running t) = record p {
  workers = update p.workers i popping;
  completed = p.completed ++ (t ∷ []);
}
run_worker p i checking =
    if p.joined && Blocking.empty p.tasks then set_worker p i finished else set_worker p i popping
run_worker p i finished = p

pub data Move : Type 0 where
  put_task : ℕ → Move
  worker : ℕ → Move
  join_shutdown : Move
  join_store : Move

-- `join` stores `joined` after the shutdown of `tasks` and before that of `cb_tasks`.
module _ (thread_count : ℕ) where
  unfoldable pub move : ThreadPool → Move → ThreadPool
  unfolding put run_worker
  move p (put_task t) = put p t
  move p (worker i) = if ltb i thread_count then run_worker p i (p.workers i) else p
  move p join_shutdown = record p { tasks = Blocking.shutdown p.tasks }
  move p join_store = record p { joined = true }

  unfoldable pub run : ThreadPool → List Move → ThreadPool
  unfolding move
  run p [] = p
  run p (m ∷ ms) = run (move p m) ms

abbrev pub new_pool : ThreadPool
new_pool = record {
  tasks = new_blocking;
  joined = false;
  workers = λ i. popping;
  accepted = [];
  started = [];
  completed = [];
}
