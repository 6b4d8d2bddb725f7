-- ===== src/Net/Loop/Delays.antt =====
-- The store to `awake` of an `EpollContext`'s loop waits only while the loop is about to look at its
-- queue, or the loop has looked too early.
use simple_redis_client.Prelude.{
  ℕ, ◌≡◌, refl, ap, ◌∙◌, Bool, true, false, ◌||◌, not, List, [], ◌∷◌, ltb, ◌==◌, arith, Bool-cases,
  inl, inr,
}
use simple_redis_client.Net.Loop.{
  Poster, loaded, has_room, queue_head, fail_exchange, exchange_fails, store_lands, idle, pushing,
  publishing, exchanging, writing, Entry, LoopAt, testing, waiting, reading, popping, running_task,
  storing, checking, loop_exchanging, loop_writing, closing, closing_task, ended, EventLoop, post,
  pop_task, check_tasks, turn, Move, post_batch, poster, loop_moves, stop_store, stop_write,
  begin_post, move,
}

abbrev pub is_checking : LoopAt → Bool
is_checking checking = true
is_checking other = false

pub data IsOnTime (s : EventLoop) : Type 0 where
  too_early : s.early ≡ true → IsOnTime s
  landed : s.delayed ≡ false → IsOnTime s
  about_to_look : is_checking s.loop ≡ true → IsOnTime s

IsOnTime-fields :
    (s s' : EventLoop)
    → s'.early ≡ s.early
    → s'.delayed ≡ s.delayed
    → s'.loop ≡ s.loop
    → IsOnTime s
    → IsOnTime s'
IsOnTime-fields s s' a b c (too_early e) = too_early (a ∙ e)
IsOnTime-fields s s' a b c (landed e) = landed (b ∙ e)
IsOnTime-fields s s' a b c (about_to_look e) = about_to_look (ap is_checking c ∙ e)

IsOnTime-loop :
    (s s' : EventLoop)
    → s'.early ≡ s.early
    → s'.delayed ≡ s.delayed
    → is_checking s.loop ≡ false
    → IsOnTime s
    → IsOnTime s'
IsOnTime-loop s s' a b c (too_early e) = too_early (a ∙ e)
IsOnTime-loop s s' a b c (landed e) = landed (b ∙ e)
IsOnTime-loop s s' a b c (about_to_look e) = absurd (ground arith)

post-IsOnTime :
    (cap : ℕ) (s : EventLoop) (i : ℕ) (p : Poster) → IsOnTime s → IsOnTime (post cap s i p)
unfolding post
post-IsOnTime cap s i idle h = h
post-IsOnTime cap s i (pushing []) h = IsOnTime-fields s _ refl refl refl h
post-IsOnTime cap s i (pushing (t ∷ ts)) h = IsOnTime-fields s _ refl refl refl h
post-IsOnTime cap s i (loaded t ts k) h = IsOnTime-fields s _ refl refl refl h
post-IsOnTime cap s i (has_room t ts k) h = elim (Bool-cases (k == queue_head cap s)) [
  | inl f ↦ simp f (IsOnTime-fields s _ refl refl refl h)
  | inr f ↦ simp f (IsOnTime-fields s _ refl refl refl h)
]
post-IsOnTime cap s i (publishing ts) h = IsOnTime-fields s _ refl refl refl h
post-IsOnTime cap s i exchanging h = IsOnTime-fields s _ refl refl refl h
post-IsOnTime cap s i writing h = IsOnTime-fields s _ refl refl refl h

fail_exchange-IsOnTime :
    (cap : ℕ) (s : EventLoop) (i : ℕ) (p : Poster) → IsOnTime s → IsOnTime (fail_exchange cap s i p)
fail_exchange-IsOnTime cap s i (has_room t ts k) h = IsOnTime-fields s _ refl refl refl h
fail_exchange-IsOnTime cap s i idle h = h
fail_exchange-IsOnTime cap s i (pushing ts) h = h
fail_exchange-IsOnTime cap s i (loaded t ts k) h = h
fail_exchange-IsOnTime cap s i (publishing ts) h = h
fail_exchange-IsOnTime cap s i exchanging h = h
fail_exchange-IsOnTime cap s i writing h = h

begin_post-IsOnTime :
    (s : EventLoop) (i : ℕ) (ts : List ℕ) (p : Poster) → IsOnTime s → IsOnTime (begin_post s i ts p)
begin_post-IsOnTime s i ts idle h = IsOnTime-fields s _ refl refl refl h
begin_post-IsOnTime s i ts (pushing us) h = h
begin_post-IsOnTime s i ts (loaded t us k) h = h
begin_post-IsOnTime s i ts (has_room t us k) h = h
begin_post-IsOnTime s i ts (publishing us) h = h
begin_post-IsOnTime s i ts exchanging h = h
begin_post-IsOnTime s i ts writing h = h

pop_task-IsOnTime :
    (s : EventLoop) (l l' : LoopAt) (es : List Entry)
    → is_checking s.loop ≡ false
    → IsOnTime s
    → IsOnTime (pop_task s l l' es)
pop_task-IsOnTime s l l' [] c h = IsOnTime-loop s _ refl refl c h
pop_task-IsOnTime s l l' (e ∷ es) c h = elim (Bool-cases e.ready) [
  | inl k ↦ simp k (IsOnTime-loop s _ refl refl c h)
  | inr k ↦ simp k h
]

check_tasks-IsOnTime :
    (s : EventLoop) (es : List Entry)
    → (s.early || not s.delayed) ≡ true
    → IsOnTime (check_tasks s es)
check_tasks-IsOnTime s es h = elim (Bool-cases s.early) [
  | inl k ↦ by_early es k
  | inr k ↦ by_store es (ground arith)
]
  where
    by_early : (es : List Entry) → s.early ≡ true → IsOnTime (check_tasks s es)
    by_early [] k = too_early k
    by_early (e ∷ es) k = too_early k

    by_store : (es : List Entry) → s.delayed ≡ false → IsOnTime (check_tasks s es)
    by_store [] k = landed k
    by_store (e ∷ es) k = landed k

turn-IsOnTime : (s : EventLoop) (l : LoopAt) → s.loop ≡ l → IsOnTime s → IsOnTime (turn s l)
unfolding turn
turn-IsOnTime s testing e h = IsOnTime-loop s _ refl refl (ap is_checking e) h
turn-IsOnTime s waiting e h = elim (Bool-cases (ltb 0 s.eventfd)) [
  | inl k ↦ simp k (IsOnTime-loop s _ refl refl (ap is_checking e) h)
  | inr k ↦ simp k h
]
turn-IsOnTime s reading e h = IsOnTime-loop s _ refl refl (ap is_checking e) h
turn-IsOnTime s popping e h = pop_task-IsOnTime s running_task storing s.queue (ap is_checking e) h
turn-IsOnTime s running_task e h = IsOnTime-loop s _ refl refl (ap is_checking e) h
turn-IsOnTime s storing e h = about_to_look refl
turn-IsOnTime s checking e h =
    check_tasks-IsOnTime (record s { early = s.early || s.delayed }) s.queue (ground arith)
turn-IsOnTime s loop_exchanging e h = landed refl
turn-IsOnTime s loop_writing e h = IsOnTime-loop s _ refl refl (ap is_checking e) h
turn-IsOnTime s closing e h = pop_task-IsOnTime s closing_task ended s.queue (ap is_checking e) h
turn-IsOnTime s closing_task e h = IsOnTime-loop s _ refl refl (ap is_checking e) h
turn-IsOnTime s ended e h = h

pub move-IsOnTime : (cap : ℕ) (s : EventLoop) (m : Move) → IsOnTime s → IsOnTime (move cap s m)
unfolding move
move-IsOnTime cap s (post_batch i ts) h = begin_post-IsOnTime s i ts (s.posters i) h
move-IsOnTime cap s (poster i) h = post-IsOnTime cap s i (s.posters i) h
move-IsOnTime cap s (exchange_fails i) h = fail_exchange-IsOnTime cap s i (s.posters i) h
move-IsOnTime cap s store_lands h = elim (Bool-cases s.delayed) [
  | inl k ↦ simp k (landed refl)
  | inr k ↦ simp k h
]
move-IsOnTime cap s loop_moves h = turn-IsOnTime s s.loop refl h
move-IsOnTime cap s stop_store h = IsOnTime-fields s _ refl refl refl h
move-IsOnTime cap s stop_write h = elim (Bool-cases s.stopping) [
  | inl k ↦ simp k (IsOnTime-fields s _ refl refl refl h)
  | inr k ↦ simp k h
]
