-- ===== src/Net/Loop/Drains.antt =====
-- The loop of an `EpollContext` runs the tasks that were posted, in their order.
use simple_redis_client.Prelude.{
  inl, inr, false, ℕ, zero, suc, ◌+◌, ◌*◌, ◌≤◌, ◌≡◌, ◌≢◌, ◌∙◌, refl, sym, ap, List, [], ◌∷◌, ◌++◌,
  append-nil, length, replicate, arith,
}
use simple_redis_client.Net.Loop.{
  LoopAt, testing, waiting, reading, popping, running_task, storing, checking, loop_exchanging,
  loop_writing, closing, closing_task, idle, Entry, ended, EventLoop, turn, Move, loop_moves, move,
  run, new_loop,
}
use simple_redis_client.Net.Loop.Signals.{IsSignalled, asleep}
use simple_redis_client.Net.Loop.Notices.{IsNoticed, no_task, will_look}
use simple_redis_client.Net.Loop.Wakes.{
  run_wakes, awake_waits, event_waits, store_landed, signal_lem,
}
use simple_redis_client.Net.Loop.Delays.{is_checking, IsOnTime, landed}
use simple_redis_client.Net.Loop.Order.{IsOrdered, run-IsOrdered, new_loop-IsOrdered}
use simple_redis_client.Net.Loop.Owned.{ready_lem, tasks}
use simple_redis_client.Net.Loop.Posted.{turn-posted, turn-overrun}
use simple_redis_client.Net.Loop.Points.{Drains, drains}

looks_elsewhere : (l : LoopAt) → will_look l ≡ false → is_checking l ≡ false
looks_elsewhere checking h = cc
looks_elsewhere testing h = refl
looks_elsewhere waiting h = refl
looks_elsewhere loop_writing h = refl
looks_elsewhere reading h = refl
looks_elsewhere popping h = refl
looks_elsewhere running_task h = refl
looks_elsewhere storing h = refl
looks_elsewhere loop_exchanging h = refl
looks_elsewhere closing h = refl
looks_elsewhere closing_task h = refl
looks_elsewhere ended h = refl

module _ (cap : ℕ) where
  drains_queue :
      (s : EventLoop) (es : List Entry)
      → s.queue ≡ es
      → s.loop ≢ ended
      → ((i : ℕ) → s.posters i ≡ idle)
      → IsOrdered s
      → IsSignalled s
      → IsNoticed s
      → IsOnTime s
      → s.early ≡ false
      → Drains cap s (2 * length s.queue + 7)
  unfolding run
  drains_queue s [] q n idles o h k t f = (0, omega arith, q)
  drains_queue s (x ∷ es) q n idles o h k t f =
      drains cap s s.loop refl n (ready_lem s.posters s.queue o.owned idles)
        (λ u. event_waits s h u idles)
        (λ u.
          signal_lem s (awake_waits s k u idles (λ e. cc) f)
            (store_landed s t f (looks_elsewhere s.loop u)))

  -- The moves of the loop's thread push nothing.
  turns-overrun : (k : ℕ) (s : EventLoop) → (run cap s (replicate k loop_moves)).overrun ≡ s.overrun
  unfolding run move
  turns-overrun zero s = refl
  turns-overrun (suc k) s = turns-overrun k (turn s s.loop) ∙ turn-overrun s s.loop

  all_started :
      (s : EventLoop) → IsOrdered s → s.overrun ≡ false → s.queue ≡ [] → s.started ≡ s.posted
  all_started s o f d = elim o.order [
    | inl e ↦ absurd (ground arith)
    | inr e ↦ sym (append-nil s.started) ∙ ap (λ l. s.started ++ tasks l) (sym d) ∙ sym e
  ]

  -- The moves of the loop's thread post nothing.
  turns-posted : (k : ℕ) (s : EventLoop) → (run cap s (replicate k loop_moves)).posted ≡ s.posted
  unfolding run move
  turns-posted zero s = refl
  turns-posted (suc k) s = turns-posted k (turn s s.loop) ∙ turn-posted s s.loop

  -- However threads, the loop and `stop` were interleaved: when no thread is in a post and the loop's
  -- thread has not ended, that thread alone, with two moves for each task in the queue and seven
  -- besides, has started all tasks that were posted, in their order. In the run so far no push has
  -- met the tail of the queue, and the loop has not looked at the queue before its store to `awake`
  -- reached the other threads.
  pub loop_drains :
      (ms : List Move)
      → ((i : ℕ) → (run cap new_loop ms).posters i ≡ idle)
      → (run cap new_loop ms).loop ≢ ended
      → (run cap new_loop ms).overrun ≡ false
      → (run cap new_loop ms).early ≡ false
      → (k : ℕ) × (k ≤ 2 * length (run cap new_loop ms).queue + 7)
        × ((run cap (run cap new_loop ms) (replicate k loop_moves)).queue ≡ [])
        × ((run cap (run cap new_loop ms) (replicate k loop_moves)).started
            ≡ (run cap new_loop ms).posted)
  loop_drains ms idles n fits on_time =
      let s = run cap new_loop ms in
      let o : IsOrdered s = run-IsOrdered cap new_loop ms new_loop-IsOrdered in
      let (h, k, t) = run_wakes cap new_loop ms (asleep refl) (no_task refl) (landed refl) in
      let (m, b, d) = drains_queue s s.queue refl n idles o h k t on_time in
      let last = run cap s (replicate m loop_moves) in
      (
        m,
        b,
        d,
        all_started last (run-IsOrdered cap s (replicate m loop_moves) o) (turns-overrun m s ∙ fits)
              d
            ∙ turns-posted m s,
      )
