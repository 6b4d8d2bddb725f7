-- ===== src/Net/Loop/Notices.antt =====
-- Where a task waits, `awake` is set or will be, or the loop looks at the queue.
use simple_redis_client.Prelude.{
  ◌==◌, ◌||◌, ◌%◌, suc, ℕ, ◌≡◌, ◌∙◌, refl, Bool, true, false, List, [], ◌∷◌, ltb, arith, Bool-cases,
  inl, inr,
}
use simple_redis_client.Net.Loop.{
  Poster, loaded, has_room, queue_head, queue_tail, fail_exchange, exchange_fails, store_lands,
  idle, pushing, publishing, exchanging, writing, Entry, LoopAt, testing, waiting, reading, popping,
  running_task, storing, checking, loop_exchanging, loop_writing, closing, closing_task, ended,
  EventLoop, set_poster, set_loop, post, pop_task, check_tasks, turn, Move, post_batch, poster,
  loop_moves, stop_store, stop_write, begin_post, move,
}
use simple_redis_client.Net.Loop.Delays.{is_checking, IsOnTime, too_early, landed, about_to_look}

-- A thread that has yet to exchange `awake`.
abbrev pub is_coming : Poster → Bool
is_coming idle = false
is_coming writing = false
is_coming busy = true

-- The loop's thread has yet to look at the queue, or waits no more.
abbrev pub will_look : LoopAt → Bool
will_look testing = false
will_look waiting = false
will_look loop_writing = false
will_look other = true

-- Where a task is in the queue, `awake` is set or will be, the loop looks at the queue, or it has
-- looked before its store to `awake` reached the other threads.
pub data IsNoticed (s : EventLoop) : Type 0 where
  no_task : s.queue ≡ [] → IsNoticed s
  awake_set : s.awake ≡ true → IsNoticed s
  poster_comes : (i : ℕ) → is_coming (s.posters i) ≡ true → IsNoticed s
  loop_looks : will_look s.loop ≡ true → IsNoticed s
  looked_early : s.early ≡ true → IsNoticed s

IsNoticed-poster :
    (s : EventLoop) (i : ℕ) (p : Poster)
    → IsNoticed s
    → is_coming (s.posters i) ≡ false
    → IsNoticed (set_poster s i p)
IsNoticed-poster s i p (no_task e) w = no_task e
IsNoticed-poster s i p (awake_set e) w = awake_set e
IsNoticed-poster s i p (poster_comes j e) w = poster_comes j (ground arith)
IsNoticed-poster s i p (loop_looks e) w = loop_looks e
IsNoticed-poster s i p (looked_early e) w = looked_early e

IsNoticed-loop :
    (s : EventLoop) (l : LoopAt) → IsNoticed s → will_look s.loop ≡ false → IsNoticed (set_loop s l)
IsNoticed-loop s l (no_task e) w = no_task e
IsNoticed-loop s l (awake_set e) w = awake_set e
IsNoticed-loop s l (poster_comes j e) w = poster_comes j e
IsNoticed-loop s l (loop_looks e) w = absurd (ground arith)
IsNoticed-loop s l (looked_early e) w = looked_early e

IsNoticed-fields :
    (s s' : EventLoop)
    → s'.queue ≡ s.queue
    → s'.awake ≡ s.awake
    → s'.posters ≡ s.posters
    → s'.loop ≡ s.loop
    → s'.early ≡ s.early
    → IsNoticed s
    → IsNoticed s'
IsNoticed-fields s s' a b c d f (no_task e) = no_task (a ∙ e)
IsNoticed-fields s s' a b c d f (awake_set e) = awake_set (b ∙ e)
IsNoticed-fields s s' a b c d f (poster_comes j e) = poster_comes j (rw c e)
IsNoticed-fields s s' a b c d f (loop_looks e) = loop_looks (rw d e)
IsNoticed-fields s s' a b c d f (looked_early e) = looked_early (f ∙ e)

post-IsNoticed :
    (cap : ℕ) (s : EventLoop) (i : ℕ) (p : Poster)
    → s.posters i ≡ p
    → IsNoticed s
    → IsNoticed (post cap s i p)
unfolding post
post-IsNoticed cap s i idle e h = h
post-IsNoticed cap s i (pushing []) e h = poster_comes i (ground arith)
post-IsNoticed cap s i (pushing (t ∷ ts)) e h = poster_comes i (ground arith)
post-IsNoticed cap s i (loaded t ts k) e h = elim (Bool-cases (suc k % cap == queue_tail cap s)) [
  | inl f ↦ simp f (poster_comes i (ground arith))
  | inr f ↦ simp f (poster_comes i (ground arith))
]
post-IsNoticed cap s i (has_room t ts k) e h = elim (Bool-cases (k == queue_head cap s)) [
  | inl f ↦ simp f (poster_comes i (ground arith))
  | inr f ↦ simp f (poster_comes i (ground arith))
]
post-IsNoticed cap s i (publishing []) e h = poster_comes i (ground arith)
post-IsNoticed cap s i (publishing (t ∷ ts)) e h = poster_comes i (ground arith)
post-IsNoticed cap s i exchanging e h = awake_set refl
post-IsNoticed cap s i writing e h =
    IsNoticed-fields (set_poster s i idle) _ refl refl refl refl refl
      (IsNoticed-poster s i idle h (rw e refl))

pop_task-IsNoticed :
    (s : EventLoop) (l l' : LoopAt) (es : List Entry)
    → will_look l ≡ true
    → will_look l' ≡ true
    → IsNoticed s
    → IsNoticed (pop_task s l l' es)
pop_task-IsNoticed s l l' [] u u' h = loop_looks u'
pop_task-IsNoticed s l l' (e ∷ es) u u' h = elim (Bool-cases e.ready) [
  | inl k ↦ simp k (loop_looks u)
  | inr k ↦ simp k h
]

check_tasks-IsNoticed :
    (s : EventLoop) (es : List Entry) → s.queue ≡ es → IsNoticed (check_tasks s es)
check_tasks-IsNoticed s [] e = no_task e
check_tasks-IsNoticed s (x ∷ es) e = loop_looks refl

pub turn-IsNoticed : (s : EventLoop) (l : LoopAt) → s.loop ≡ l → IsNoticed s → IsNoticed (turn s l)
unfolding turn
turn-IsNoticed s testing e h = IsNoticed-loop s _ h (rw e refl)
turn-IsNoticed s waiting e h = elim (Bool-cases (ltb 0 s.eventfd)) [
  | inl k ↦ simp k (loop_looks refl)
  | inr k ↦ simp k h
]
turn-IsNoticed s reading e h = loop_looks refl
turn-IsNoticed s popping e h = pop_task-IsNoticed s running_task storing s.queue refl refl h
turn-IsNoticed s running_task e h = loop_looks refl
turn-IsNoticed s storing e h = loop_looks refl
turn-IsNoticed s checking e h =
    check_tasks-IsNoticed (record s { early = s.early || s.delayed }) s.queue refl
turn-IsNoticed s loop_exchanging e h = awake_set refl
turn-IsNoticed s loop_writing e h =
    IsNoticed-fields (set_loop s testing) _ refl refl refl refl refl
      (IsNoticed-loop s testing h (rw e refl))
turn-IsNoticed s closing e h = pop_task-IsNoticed s closing_task ended s.queue refl refl h
turn-IsNoticed s closing_task e h = loop_looks refl
turn-IsNoticed s ended e h = h

begin_post-IsNoticed :
    (s : EventLoop) (i : ℕ) (ts : List ℕ) (p : Poster)
    → s.posters i ≡ p
    → IsNoticed s
    → IsNoticed (begin_post s i ts p)
begin_post-IsNoticed s i ts idle e h = IsNoticed-poster s i (pushing ts) h (rw e refl)
begin_post-IsNoticed s i ts (pushing us) e h = h
begin_post-IsNoticed s i ts (loaded t us k) e h = h
begin_post-IsNoticed s i ts (has_room t us k) e h = h
begin_post-IsNoticed s i ts (publishing us) e h = h
begin_post-IsNoticed s i ts exchanging e h = h
begin_post-IsNoticed s i ts writing e h = h

fail_exchange-IsNoticed :
    (cap : ℕ) (s : EventLoop) (i : ℕ) (p : Poster)
    → IsNoticed s
    → IsNoticed (fail_exchange cap s i p)
fail_exchange-IsNoticed cap s i (has_room t ts k) h = poster_comes i (ground arith)
fail_exchange-IsNoticed cap s i idle h = h
fail_exchange-IsNoticed cap s i (pushing ts) h = h
fail_exchange-IsNoticed cap s i (loaded t ts k) h = h
fail_exchange-IsNoticed cap s i (publishing ts) h = h
fail_exchange-IsNoticed cap s i exchanging h = h
fail_exchange-IsNoticed cap s i writing h = h

checking_looks : (l : LoopAt) → is_checking l ≡ true → will_look l ≡ true
checking_looks checking h = refl
checking_looks testing h = cc
checking_looks waiting h = cc
checking_looks loop_writing h = cc
checking_looks reading h = refl
checking_looks popping h = refl
checking_looks running_task h = refl
checking_looks storing h = refl
checking_looks loop_exchanging h = refl
checking_looks closing h = refl
checking_looks closing_task h = refl
checking_looks ended h = refl

-- The store to `awake` reaches the other threads.
store-IsNoticed :
    (s : EventLoop)
    → s.delayed ≡ true
    → IsOnTime s
    → IsNoticed (record s { awake = false; delayed = false })
store-IsNoticed s k (too_early e) = looked_early e
store-IsNoticed s k (landed e) = absurd (ground arith)
store-IsNoticed s k (about_to_look e) = loop_looks (checking_looks s.loop e)

pub move-IsNoticed :
    (cap : ℕ) (s : EventLoop) (m : Move) → IsOnTime s → IsNoticed s → IsNoticed (move cap s m)
unfolding move
move-IsNoticed cap s (post_batch i ts) o h = begin_post-IsNoticed s i ts (s.posters i) refl h
move-IsNoticed cap s (poster i) o h = post-IsNoticed cap s i (s.posters i) refl h
move-IsNoticed cap s (exchange_fails i) o h = fail_exchange-IsNoticed cap s i (s.posters i) h
move-IsNoticed cap s store_lands o h = elim (Bool-cases s.delayed) [
  | inl k ↦ simp k (store-IsNoticed s k o)
  | inr k ↦ simp k h
]
move-IsNoticed cap s loop_moves o h = turn-IsNoticed s s.loop refl h
move-IsNoticed cap s stop_store o h = IsNoticed-fields s _ refl refl refl refl refl h
move-IsNoticed cap s stop_write o h = elim (Bool-cases s.stopping) [
  | inl k ↦ simp k (IsNoticed-fields s _ refl refl refl refl refl h)
  | inr k ↦ simp k h
]
