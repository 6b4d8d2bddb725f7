-- ===== src/Net/Loop/Points.antt =====
-- The loop's thread of an `EpollContext` alone empties the queue, from each point of `run`.
use simple_redis_client.Prelude.{
  ◌&&◌, ◌||◌, not, ℕ, suc, ◌+◌, ◌*◌, ◌≤◌, ◌<◌, ◌≡◌, ◌≢◌, ◌∙◌, refl, sym, ap, subst, true, false,
  List, [], ◌∷◌, ltb, length, replicate, if◌then◌else◌, arith, Bool-cases, inl, inr,
}
use simple_redis_client.Net.Loop.{
  Entry, LoopAt, testing, waiting, reading, popping, running_task, storing, checking,
  loop_exchanging, loop_writing, closing, closing_task, ended, EventLoop, set_loop, check_tasks,
  turn, loop_moves, move, run,
}
use simple_redis_client.Net.Loop.Signals.{is_up}
use simple_redis_client.Net.Loop.Notices.{will_look}
use simple_redis_client.Net.Loop.Owned.{IsReady}

module _ (cap : ℕ) where
  -- The loop's thread alone takes all tasks out of the queue within `n` moves.
  abbrev pub Drains : EventLoop → ℕ → Type 0
  Drains s n = (k : ℕ) × (k ≤ n) × ((run cap s (replicate k loop_moves)).queue ≡ [])

  step : (s : EventLoop) (l : LoopAt) (n : ℕ) → s.loop ≡ l → Drains (turn s l) n → Drains s (suc n)
  unfolding run move
  step s l n e (k, b, d) =
      (suc k, omega arith, ap (λ l. (run cap (turn s l) (replicate k loop_moves)).queue) e ∙ d)

  more : (s : EventLoop) (n m : ℕ) → n ≤ m → Drains s n → Drains s m
  more s n m h (k, b, d) = (k, omega arith, d)

  popping-Drains :
      (s : EventLoop) (es : List Entry)
      → s.loop ≡ popping
      → s.queue ≡ es
      → IsReady es
      → Drains s (2 * length es)
  unfolding run turn
  popping-Drains s [] e q r = (0, omega arith, q)
  popping-Drains s (x ∷ es) e q (r, rs) =
      more s (suc (suc (2 * length es))) (2 * suc (length es)) (omega arith) (
        step s popping (suc (2 * length es)) e (
          simp (q, r)
            (step _ running_task (2 * length es) refl (popping-Drains _ es refl refl rs))))

  closing-Drains :
      (s : EventLoop) (es : List Entry)
      → s.loop ≡ closing
      → s.queue ≡ es
      → IsReady es
      → Drains s (2 * length es)
  unfolding run turn
  closing-Drains s [] e q r = (0, omega arith, q)
  closing-Drains s (x ∷ es) e q (r, rs) =
      more s (suc (suc (2 * length es))) (2 * suc (length es)) (omega arith) (
        step s closing (suc (2 * length es)) e (
          simp (q, r)
            (step _ closing_task (2 * length es) refl (closing-Drains _ es refl refl rs))))

  reading-Drains :
      (s : EventLoop) → s.loop ≡ reading → IsReady s.queue → Drains s (2 * length s.queue + 1)
  unfolding turn
  reading-Drains s e r =
      more s (suc (2 * length s.queue)) _ (omega arith)
        (step s reading (2 * length s.queue) e (popping-Drains _ s.queue refl refl r))

  waiting-Drains :
      (s : EventLoop)
      → s.loop ≡ waiting
      → IsReady s.queue
      → 0 < s.eventfd
      → Drains s (2 * length s.queue + 2)
  unfolding turn
  waiting-Drains s e r p =
      let k : ltb 0 s.eventfd ≡ true = ground arith in
      more s (suc (2 * length s.queue + 1)) _ (omega arith)
        (step s waiting _ e (simp k (reading-Drains (set_loop s reading) refl r)))

  testing-Drains :
      (s : EventLoop)
      → s.loop ≡ testing
      → IsReady s.queue
      → 0 < s.eventfd
      → Drains s (2 * length s.queue + 3)
  unfolding turn
  testing-Drains s e r p = more s (suc (2 * length s.queue + 2)) _ (omega arith) (
      step s testing _ e (elim (Bool-cases s.running) [
        | inl k ↦
            subst
              (λ b. Drains (set_loop s (if b then waiting else closing)) (2 * length s.queue + 2))
              (sym k) (waiting-Drains (set_loop s waiting) refl r p)
        | inr k ↦
            subst
              (λ b. Drains (set_loop s (if b then waiting else closing)) (2 * length s.queue + 2))
              (sym k)
              (more _ _ _ (omega arith) (closing-Drains (set_loop s closing) s.queue refl refl r))
      ]))

  loop_writing-Drains :
      (s : EventLoop) → s.loop ≡ loop_writing → IsReady s.queue → Drains s (2 * length s.queue + 4)
  unfolding turn
  loop_writing-Drains s e r =
      more s (suc (2 * length s.queue + 3)) _ (omega arith)
        (step s loop_writing _ e (testing-Drains _ refl r (omega arith)))

  exchanging-Drains :
      (s : EventLoop)
      → s.loop ≡ loop_exchanging
      → IsReady s.queue
      → ((s.awake && not s.delayed) ≡ true → 0 < s.eventfd)
      → Drains s (2 * length s.queue + 5)
  unfolding turn
  exchanging-Drains s e r p = more s (suc (2 * length s.queue + 4)) _ (omega arith) (
      step s loop_exchanging _ e (elim (Bool-cases (s.awake && not s.delayed)) [
        | inl k ↦
            subst
              (λ b.
                Drains
                  (record s {
                    awake = true;
                    delayed = false;
                    loop = if b then testing else loop_writing;
                  })
                  (2 * length s.queue + 4))
              (sym k)
              (more _ _ _ (omega arith) (
                testing-Drains (record s { awake = true; delayed = false; loop = testing }) refl r
                  (p k)))
        | inr k ↦
            subst
              (λ b.
                Drains
                  (record s {
                    awake = true;
                    delayed = false;
                    loop = if b then testing else loop_writing;
                  })
                  (2 * length s.queue + 4))
              (sym k)
              (loop_writing-Drains (record s { awake = true; delayed = false; loop = loop_writing })
                refl r)
      ]))

  checking-Drains :
      (s : EventLoop) (es : List Entry)
      → s.loop ≡ checking
      → s.queue ≡ es
      → IsReady s.queue
      → ((s.awake && not s.delayed) ≡ true → 0 < s.eventfd)
      → Drains s (2 * length s.queue + 6)
  unfolding turn run
  checking-Drains s [] e q r p = (0, omega arith, q)
  checking-Drains s (x ∷ es) e q r p = more s (suc (2 * length s.queue + 5)) _ (omega arith) (
      step s checking _ e (
        subst
          (λ l.
            Drains (check_tasks (record s { early = s.early || s.delayed }) l)
              (2 * length s.queue + 5))
          (sym q)
          (exchanging-Drains (record s { early = s.early || s.delayed; loop = loop_exchanging })
            refl r p)))

  storing-Drains :
      (s : EventLoop) → s.loop ≡ storing → IsReady s.queue → Drains s (2 * length s.queue + 7)
  unfolding turn
  storing-Drains s e r =
      more s (suc (2 * length s.queue + 6)) _ (omega arith)
        (step s storing _ e (checking-Drains _ s.queue refl refl r (λ f. absurd (ground arith))))

  task-Drains :
      (s : EventLoop) → s.loop ≡ running_task → IsReady s.queue → Drains s (2 * length s.queue + 1)
  unfolding turn
  task-Drains s e r =
      more s (suc (2 * length s.queue)) _ (omega arith)
        (step s running_task _ e (popping-Drains _ s.queue refl refl r))

  closing_task-Drains :
      (s : EventLoop) → s.loop ≡ closing_task → IsReady s.queue → Drains s (2 * length s.queue + 1)
  unfolding turn
  closing_task-Drains s e r =
      more s (suc (2 * length s.queue)) _ (omega arith)
        (step s closing_task _ e (closing-Drains _ s.queue refl refl r))

  -- From every point of `run`, with a task in the queue.
  pub drains :
      (s : EventLoop) (l : LoopAt)
      → s.loop ≡ l
      → l ≢ ended
      → IsReady s.queue
      → (is_up l ≡ false → (s.awake && not s.delayed) ≡ true → 0 < s.eventfd)
      → (will_look l ≡ false → (s.awake && not s.delayed) ≡ true)
      → Drains s (2 * length s.queue + 7)
  drains s testing e n r p a = more s _ _ (omega arith) (testing-Drains s e r (p refl (a refl)))
  drains s waiting e n r p a = more s _ _ (omega arith) (waiting-Drains s e r (p refl (a refl)))
  drains s reading e n r p a = more s _ _ (omega arith) (reading-Drains s e r)
  drains s popping e n r p a = more s _ _ (omega arith) (popping-Drains s s.queue e refl r)
  drains s running_task e n r p a = more s _ _ (omega arith) (task-Drains s e r)
  drains s storing e n r p a = storing-Drains s e r
  drains s checking e n r p a =
      more s _ _ (omega arith) (checking-Drains s s.queue e refl r (p refl))
  drains s loop_exchanging e n r p a = more s _ _ (omega arith) (exchanging-Drains s e r (p refl))
  drains s loop_writing e n r p a = more s _ _ (omega arith) (loop_writing-Drains s e r)
  drains s closing e n r p a = more s _ _ (omega arith) (closing-Drains s s.queue e refl r)
  drains s closing_task e n r p a = more s _ _ (omega arith) (closing_task-Drains s e r)
  drains s ended e n r p a = absurd (n refl)
