-- ===== src/Net/Loop/Signals.antt =====
-- Where `awake` is set, the loop of an `EpollContext` is up or will be woken.
use simple_redis_client.Prelude.{
  ◌==◌, ◌||◌, ◌&&◌, not, ℕ, ◌<◌, ◌≡◌, ◌∙◌, refl, sym, Bool, true, false, List, [], ◌∷◌, ltb, arith,
  Bool-cases, inl, inr,
}
use simple_redis_client.Net.Loop.{
  Poster, loaded, has_room, queue_head, fail_exchange, exchange_fails, store_lands, idle, pushing,
  publishing, exchanging, writing, Entry, LoopAt, testing, waiting, reading, popping, running_task,
  storing, checking, loop_exchanging, loop_writing, closing, closing_task, ended, EventLoop,
  set_poster, set_loop, pushed, post, pop_task, check_tasks, turn, Move, post_batch, poster,
  loop_moves, stop_store, stop_write, begin_post, move,
}

abbrev pub is_writing : Poster → Bool
is_writing writing = true
is_writing other = false

-- The loop's thread has yet to clear `awake`, to write to the eventfd, or waits no more.
abbrev pub is_up : LoopAt → Bool
is_up testing = false
is_up waiting = false
is_up checking = false
is_up loop_exchanging = false
is_up other = true

-- Where `awake` is set, the loop is up or will be woken, or `awake` is about to be cleared.
pub data IsSignalled (s : EventLoop) : Type 0 where
  asleep : s.awake ≡ false → IsSignalled s
  by_event : 0 < s.eventfd → IsSignalled s
  by_poster : (i : ℕ) → is_writing (s.posters i) ≡ true → IsSignalled s
  by_loop : is_up s.loop ≡ true → IsSignalled s
  store_waits : s.delayed ≡ true → IsSignalled s

IsSignalled-poster :
    (s : EventLoop) (i : ℕ) (p : Poster)
    → IsSignalled s
    → is_writing (s.posters i) ≡ false
    → IsSignalled (set_poster s i p)
IsSignalled-poster s i p (asleep e) w = asleep e
IsSignalled-poster s i p (by_event e) w = by_event e
IsSignalled-poster s i p (by_poster j e) w = by_poster j (ground arith)
IsSignalled-poster s i p (by_loop e) w = by_loop e
IsSignalled-poster s i p (store_waits e) w = store_waits e

IsSignalled-loop :
    (s : EventLoop) (l : LoopAt) → IsSignalled s → is_up s.loop ≡ false → IsSignalled (set_loop s l)
IsSignalled-loop s l (asleep e) w = asleep e
IsSignalled-loop s l (by_event e) w = by_event e
IsSignalled-loop s l (by_poster j e) w = by_poster j e
IsSignalled-loop s l (by_loop e) w = absurd (ground arith)
IsSignalled-loop s l (store_waits e) w = store_waits e

-- The fields that the predicate does not read.
IsSignalled-fields :
    (s s' : EventLoop)
    → s'.awake ≡ s.awake
    → s'.eventfd ≡ s.eventfd
    → s'.posters ≡ s.posters
    → s'.loop ≡ s.loop
    → s'.delayed ≡ s.delayed
    → IsSignalled s
    → IsSignalled s'
IsSignalled-fields s s' a b c d f (asleep e) = asleep (a ∙ e)
IsSignalled-fields s s' a b c d f (by_event e) = by_event (ground arith)
IsSignalled-fields s s' a b c d f (by_poster j e) = by_poster j (rw c e)
IsSignalled-fields s s' a b c d f (by_loop e) = by_loop (rw d e)
IsSignalled-fields s s' a b c d f (store_waits e) = store_waits (f ∙ e)

post-IsSignalled :
    (cap : ℕ) (s : EventLoop) (i : ℕ) (p : Poster)
    → s.posters i ≡ p
    → IsSignalled s
    → IsSignalled (post cap s i p)
unfolding post
post-IsSignalled cap s i idle e h = h
post-IsSignalled cap s i (pushing []) e h = IsSignalled-poster s i exchanging h (rw e refl)
post-IsSignalled cap s i (pushing (t ∷ ts)) e h = IsSignalled-poster s i _ h (rw e refl)
post-IsSignalled cap s i (loaded t ts k) e h = IsSignalled-poster s i _ h (rw e refl)
post-IsSignalled cap s i (has_room t ts k) e h = elim (Bool-cases (k == queue_head cap s)) [
  | inl f ↦ simp f (
      IsSignalled-fields (set_poster s i (publishing ts)) _ refl refl refl refl refl
        (IsSignalled-poster s i (publishing ts) h (rw e refl)))
  | inr f ↦ simp f (IsSignalled-poster s i _ h (rw e refl))
]
post-IsSignalled cap s i (publishing ts) e h =
    IsSignalled-fields (set_poster s i (pushed ts)) _ refl refl refl refl refl
      (IsSignalled-poster s i (pushed ts) h (rw e refl))
post-IsSignalled cap s i exchanging e h = elim (Bool-cases s.awake) [
  | inl k ↦ simp k (
      IsSignalled-fields (set_poster s i idle) _ (sym k) refl refl refl refl
        (IsSignalled-poster s i idle h (rw e refl)))
  | inr k ↦ simp k (by_poster i (ground arith))
]
post-IsSignalled cap s i writing e h = by_event (omega arith)

pop_task-IsSignalled :
    (s : EventLoop) (l l' : LoopAt) (es : List Entry)
    → is_up l ≡ true
    → is_up l' ≡ true
    → IsSignalled s
    → IsSignalled (pop_task s l l' es)
pop_task-IsSignalled s l l' [] u u' h = by_loop u'
pop_task-IsSignalled s l l' (e ∷ es) u u' h = elim (Bool-cases e.ready) [
  | inl k ↦ simp k (by_loop u)
  | inr k ↦ simp k h
]

check_tasks-IsSignalled :
    (s : EventLoop) (es : List Entry)
    → s.loop ≡ checking
    → IsSignalled s
    → IsSignalled (check_tasks s es)
check_tasks-IsSignalled s [] e h = IsSignalled-loop s testing h (rw e refl)
check_tasks-IsSignalled s (x ∷ es) e h = IsSignalled-loop s loop_exchanging h (rw e refl)

pub turn-IsSignalled :
    (s : EventLoop) (l : LoopAt) → s.loop ≡ l → IsSignalled s → IsSignalled (turn s l)
unfolding turn
turn-IsSignalled s testing e h = IsSignalled-loop s _ h (rw e refl)
turn-IsSignalled s waiting e h = elim (Bool-cases (ltb 0 s.eventfd)) [
  | inl k ↦ simp k (by_loop refl)
  | inr k ↦ simp k h
]
turn-IsSignalled s reading e h = by_loop refl
turn-IsSignalled s popping e h = pop_task-IsSignalled s running_task storing s.queue refl refl h
turn-IsSignalled s running_task e h = by_loop refl
turn-IsSignalled s storing e h = store_waits refl
turn-IsSignalled s checking e h =
    check_tasks-IsSignalled (record s { early = s.early || s.delayed }) s.queue e
      (IsSignalled-fields s _ refl refl refl refl refl h)
turn-IsSignalled s loop_exchanging e h = elim (Bool-cases (s.awake && not s.delayed)) [
  | inl k ↦ simp k (
      IsSignalled-fields (set_loop s testing) _ (ground arith) refl refl refl (ground arith)
        (IsSignalled-loop s testing h (rw e refl)))
  | inr k ↦ simp k (by_loop refl)
]
turn-IsSignalled s loop_writing e h = by_event (omega arith)
turn-IsSignalled s closing e h = pop_task-IsSignalled s closing_task ended s.queue refl refl h
turn-IsSignalled s closing_task e h = by_loop refl
turn-IsSignalled s ended e h = h

begin_post-IsSignalled :
    (s : EventLoop) (i : ℕ) (ts : List ℕ) (p : Poster)
    → s.posters i ≡ p
    → IsSignalled s
    → IsSignalled (begin_post s i ts p)
begin_post-IsSignalled s i ts idle e h = IsSignalled-poster s i (pushing ts) h (rw e refl)
begin_post-IsSignalled s i ts (pushing us) e h = h
begin_post-IsSignalled s i ts (loaded t us k) e h = h
begin_post-IsSignalled s i ts (has_room t us k) e h = h
begin_post-IsSignalled s i ts (publishing us) e h = h
begin_post-IsSignalled s i ts exchanging e h = h
begin_post-IsSignalled s i ts writing e h = h

fail_exchange-IsSignalled :
    (cap : ℕ) (s : EventLoop) (i : ℕ) (p : Poster)
    → s.posters i ≡ p
    → IsSignalled s
    → IsSignalled (fail_exchange cap s i p)
fail_exchange-IsSignalled cap s i (has_room t ts k) e h = IsSignalled-poster s i _ h (rw e refl)
fail_exchange-IsSignalled cap s i idle e h = h
fail_exchange-IsSignalled cap s i (pushing ts) e h = h
fail_exchange-IsSignalled cap s i (loaded t ts k) e h = h
fail_exchange-IsSignalled cap s i (publishing ts) e h = h
fail_exchange-IsSignalled cap s i exchanging e h = h
fail_exchange-IsSignalled cap s i writing e h = h

pub move-IsSignalled :
    (cap : ℕ) (s : EventLoop) (m : Move) → IsSignalled s → IsSignalled (move cap s m)
unfolding move
move-IsSignalled cap s (post_batch i ts) h = begin_post-IsSignalled s i ts (s.posters i) refl h
move-IsSignalled cap s (poster i) h = post-IsSignalled cap s i (s.posters i) refl h
move-IsSignalled cap s (exchange_fails i) h = fail_exchange-IsSignalled cap s i (s.posters i) refl h
move-IsSignalled cap s store_lands h = elim (Bool-cases s.delayed) [
  | inl k ↦ simp k (asleep refl)
  | inr k ↦ simp k h
]
move-IsSignalled cap s loop_moves h = turn-IsSignalled s s.loop refl h
move-IsSignalled cap s stop_store h = IsSignalled-fields s _ refl refl refl refl refl h
move-IsSignalled cap s stop_write h = elim (Bool-cases s.stopping) [
  | inl k ↦ simp k (by_event (omega arith))
  | inr k ↦ simp k h
]
