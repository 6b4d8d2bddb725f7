-- ===== src/Net/Loop/Posted.antt =====
-- The moves of an `EpollContext`'s own thread post nothing and meet no tail.
use simple_redis_client.Prelude.{◌||◌, ◌≡◌, refl, List, [], ◌∷◌, ltb, Bool-cases, inl, inr}
use simple_redis_client.Net.Loop.{
  Entry, LoopAt, testing, waiting, reading, popping, running_task, storing, checking,
  loop_exchanging, loop_writing, closing, closing_task, ended, EventLoop, pop_task, check_tasks,
  turn,
}

pop_task-posted :
    (s : EventLoop) (l l' : LoopAt) (es : List Entry) → (pop_task s l l' es).posted ≡ s.posted
pop_task-posted s l l' [] = refl
pop_task-posted s l l' (e ∷ es) = elim (Bool-cases e.ready) [
  | inl k ↦ rw k refl
  | inr k ↦ rw k refl
]

check_tasks-posted : (s : EventLoop) (es : List Entry) → (check_tasks s es).posted ≡ s.posted
check_tasks-posted s [] = refl
check_tasks-posted s (e ∷ es) = refl

pub turn-posted : (s : EventLoop) (l : LoopAt) → (turn s l).posted ≡ s.posted
unfolding turn
turn-posted s testing = refl
turn-posted s waiting = elim (Bool-cases (ltb 0 s.eventfd)) [
  | inl k ↦ rw k refl
  | inr k ↦ rw k refl
]
turn-posted s reading = refl
turn-posted s popping = pop_task-posted s running_task storing s.queue
turn-posted s running_task = refl
turn-posted s storing = refl
turn-posted s checking = check_tasks-posted (record s { early = s.early || s.delayed }) s.queue
turn-posted s loop_exchanging = refl
turn-posted s loop_writing = refl
turn-posted s closing = pop_task-posted s closing_task ended s.queue
turn-posted s closing_task = refl
turn-posted s ended = refl

pop_task-overrun :
    (s : EventLoop) (l l' : LoopAt) (es : List Entry) → (pop_task s l l' es).overrun ≡ s.overrun
pop_task-overrun s l l' [] = refl
pop_task-overrun s l l' (e ∷ es) = elim (Bool-cases e.ready) [
  | inl k ↦ rw k refl
  | inr k ↦ rw k refl
]

check_tasks-overrun : (s : EventLoop) (es : List Entry) → (check_tasks s es).overrun ≡ s.overrun
check_tasks-overrun s [] = refl
check_tasks-overrun s (e ∷ es) = refl

pub turn-overrun : (s : EventLoop) (l : LoopAt) → (turn s l).overrun ≡ s.overrun
unfolding turn
turn-overrun s testing = refl
turn-overrun s waiting = elim (Bool-cases (ltb 0 s.eventfd)) [
  | inl k ↦ rw k refl
  | inr k ↦ rw k refl
]
turn-overrun s reading = refl
turn-overrun s popping = pop_task-overrun s running_task storing s.queue
turn-overrun s running_task = refl
turn-overrun s storing = refl
turn-overrun s checking = check_tasks-overrun (record s { early = s.early || s.delayed }) s.queue
turn-overrun s loop_exchanging = refl
turn-overrun s loop_writing = refl
turn-overrun s closing = pop_task-overrun s closing_task ended s.queue
turn-overrun s closing_task = refl
turn-overrun s ended = refl
