-- ===== src/Net/Loop/Wakes.antt =====
-- A task that is posted to an `EpollContext` wakes its loop.
use simple_redis_client.Prelude.{
  ℕ, ◌<◌, ◌≡◌, ◌≢◌, refl, ◌&&◌, not, true, false, List, [], ◌∷◌, arith,
}
use simple_redis_client.Net.Loop.{idle, waiting, EventLoop, Move, move, run, new_loop}
use simple_redis_client.Net.Loop.Signals.{
  is_up, IsSignalled, asleep, by_event, by_poster, by_loop, store_waits, move-IsSignalled,
}
use simple_redis_client.Net.Loop.Notices.{
  will_look, IsNoticed, no_task, awake_set, poster_comes, loop_looks, looked_early, move-IsNoticed,
}
use simple_redis_client.Net.Loop.Delays.{
  is_checking, IsOnTime, too_early, landed, about_to_look, move-IsOnTime,
}

pub run_wakes :
    (cap : ℕ) (s : EventLoop) (ms : List Move)
    → IsSignalled s
    → IsNoticed s
    → IsOnTime s
    → IsSignalled (run cap s ms) × IsNoticed (run cap s ms) × IsOnTime (run cap s ms)
unfolding run
run_wakes cap s [] h k o = (h, k, o)
run_wakes cap s (m ∷ ms) h k o =
    run_wakes cap (move cap s m) ms (move-IsSignalled cap s m h) (move-IsNoticed cap s m o k)
      (move-IsOnTime cap s m o)

-- A loop that has not looked too early, and is not about to look.
pub store_landed :
    (s : EventLoop) → IsOnTime s → s.early ≡ false → is_checking s.loop ≡ false → s.delayed ≡ false
store_landed s (too_early e) f c = absurd (ground arith)
store_landed s (landed e) f c = e
store_landed s (about_to_look e) f c = absurd (ground arith)

-- A loop that does not look at the queue, with a task in it and no thread in a post.
pub awake_waits :
    (s : EventLoop)
    → IsNoticed s
    → will_look s.loop ≡ false
    → ((i : ℕ) → s.posters i ≡ idle)
    → s.queue ≢ []
    → s.early ≡ false
    → s.awake ≡ true
awake_waits s (no_task e) w idles n f = absurd (n e)
awake_waits s (awake_set e) w idles n f = e
awake_waits s (poster_comes i e) w idles n f = absurd (ground (arith, idles i))
awake_waits s (loop_looks e) w idles n f = absurd (ground arith)
awake_waits s (looked_early e) w idles n f = absurd (ground arith)

pub event_waits :
    (s : EventLoop)
    → IsSignalled s
    → is_up s.loop ≡ false
    → ((i : ℕ) → s.posters i ≡ idle)
    → (s.awake && not s.delayed) ≡ true
    → 0 < s.eventfd
event_waits s (asleep e) w idles a = absurd (ground arith)
event_waits s (by_event e) w idles a = e
event_waits s (by_poster i e) w idles a = absurd (ground (arith, idles i))
event_waits s (by_loop e) w idles a = absurd (ground arith)
event_waits s (store_waits e) w idles a = absurd (ground arith)

-- `awake` is set and no store is about to clear it.
pub signal_lem :
    (s : EventLoop) → s.awake ≡ true → s.delayed ≡ false → (s.awake && not s.delayed) ≡ true
signal_lem s a d = ground arith

-- However posting threads, the loop's thread and `stop` are interleaved: when no thread is in a post
-- and the loop waits with a task in its queue, the eventfd is set, so `epoll_wait` returns. In the
-- run so far no push has met the tail of the queue, and the loop has not looked at the queue
-- before its store to `awake` reached the other threads.
pub no_task_forgotten :
    (cap : ℕ) (ms : List Move)
    → (run cap new_loop ms).loop ≡ waiting
    → ((i : ℕ) → (run cap new_loop ms).posters i ≡ idle)
    → (run cap new_loop ms).queue ≢ []
    → (run cap new_loop ms).overrun ≡ false
    → (run cap new_loop ms).early ≡ false
    → 0 < (run cap new_loop ms).eventfd
no_task_forgotten cap ms e idles n fits on_time =
    let s = run cap new_loop ms in
    let (h, k, o) = run_wakes cap new_loop ms (asleep refl) (no_task refl) (landed refl) in
    event_waits s h (rw e refl) idles (
      signal_lem s (awake_waits s k (rw e refl) idles n on_time)
        (store_landed s o on_time (rw e refl)))
