-- ===== src/Client/Pipeline/InOrder.antt =====
-- The replies of a connection of src/app/redis/SimpleRedisClient.cpp settle the promises of the
-- commands in the order in which these were sent.
use simple_redis_client.Prelude.{
  ℕ, ◌≡◌, ◌∙◌, refl, sym, ap, subst, Bool, false, List, Bytes, [], ◌∷◌, ◌++◌, append_assoc,
  append-nil, if◌then◌else◌, Bool-cases, inl, inr,
}
use simple_redis_client.Client.{Read, returned, overflowed, read}
use simple_redis_client.Client.Pipeline.{
  Out, once, batch_item, Pipeline, flush, flush_or_wait, add_command, batch_written, after_callback,
  write_ends, after_reply, refuse, Move, execute, execute1, timer, write_end, reply, move, run,
  new_pipeline,
}
use simple_redis_client.Client.Pipeline.Answers.{
  answered, write_errors, answered-append, write_errors-append, IsFromFront, read_loop-IsFromFront,
}
use simple_redis_client.Client.Pipeline.Kept.{
  batch_ids, batch_ids-append, IsInOrder, flush-IsInOrder, set_flush_time-IsInOrder,
  add_command-IsInOrder, flush_or_wait-IsInOrder, refuse-IsInOrder, written_once-IsInOrder,
  batch_written-IsInOrder,
}

write_ends-IsInOrder :
    (s : Pipeline) (success : Bool) (out : List Out)
    → s.in_flight ≡ out
    → IsInOrder s
    → IsInOrder (write_ends s success out)
unfolding write_ends
write_ends-IsInOrder s success [] q h = h
write_ends-IsInOrder s success (once p cmd ∷ out) q h =
    written_once-IsInOrder s success p cmd out q h
write_ends-IsInOrder s success (batch_item p cmd ∷ out) q h =
    let e : s.conn.writing_promises ≡ p ∷ (batch_ids out ++ s.writing_ids) =
      h.batched ∙ ap (λ l. batch_ids l ++ s.writing_ids) q in
    subst (λ l. IsInOrder (after_callback s out success p (batch_written success s.conn l))) (sym e)
      (batch_written-IsInOrder s success p out h e)

after_reply-IsInOrder :
    (s : Pipeline) (r : Read)
    → IsInOrder s
    → IsFromFront s.conn.promises r
    → IsInOrder (after_reply s r)
after_reply-IsInOrder s (returned pos waiting settled) h (a, b) = record {
  answers =
      ap (λ l. l ++ waiting) (answered-append s.settled settled)
      ∙ append_assoc (answered s.settled) (answered settled) waiting
      ∙ ap (λ l. answered s.settled ++ l) a
      ∙ h.answers;
  errors =
      write_errors-append s.settled settled
      ∙ ap (λ l. write_errors s.settled ++ l) b
      ∙ append-nil (write_errors s.settled)
      ∙ h.errors;
  batched = h.batched;
  paired = h.paired;
}
after_reply-IsInOrder s overflowed h k = h

execute-IsInOrder :
    (s : Pipeline) (p : ℕ) (cmd : Bytes)
    → IsInOrder s
    → IsInOrder (record s { in_flight = s.in_flight ++ (once p cmd ∷ []) })
execute-IsInOrder s p cmd h = record {
  answers = h.answers;
  errors = h.errors;
  batched =
      h.batched
      ∙ ap (λ l. l ++ s.writing_ids)
          (sym
            (batch_ids-append s.in_flight (once p cmd ∷ []) ∙ append-nil (batch_ids s.in_flight)));
  paired = h.paired;
}

module _ (fuel m : ℕ) where
  move-IsInOrder : (s : Pipeline) (x : Move) → IsInOrder s → IsInOrder (move fuel m s x)
  unfolding move read
  move-IsInOrder s (execute p cmd) h = elim (Bool-cases s.conn.high_level) [
    | inl e ↦ simp e (refuse-IsInOrder s p h)
    | inr e ↦ simp e (execute-IsInOrder s p cmd h)
  ]
  move-IsInOrder s (execute1 p cmd timer_set) h = elim (Bool-cases s.conn.high_level) [
    | inl e ↦ simp e (refuse-IsInOrder s p h)
    | inr e ↦
        subst
          (λ b. IsInOrder (if b then refuse s p else flush_or_wait timer_set (add_command s p cmd)))
          (sym e)
          (flush_or_wait-IsInOrder timer_set (add_command s p cmd)
            (add_command-IsInOrder s p cmd h))
  ]
  move-IsInOrder s timer h = set_flush_time-IsInOrder (flush s) false (flush-IsInOrder s h)
  move-IsInOrder s (write_end success) h = write_ends-IsInOrder s success s.in_flight refl h
  move-IsInOrder s (reply buf size) h =
      after_reply-IsInOrder s _ h (read_loop-IsFromFront fuel m buf size s.conn.promises 0)

  run-IsInOrder : (s : Pipeline) (xs : List Move) → IsInOrder s → IsInOrder (run fuel m s xs)
  unfolding run
  run-IsInOrder s [] h = h
  run-IsInOrder s (x ∷ xs) h = run-IsInOrder (move fuel m s x) xs (move-IsInOrder s x h)

  -- Whatever commands are executed, one by one or in batches, and whatever timers, ends of writes and
  -- texts of replies come in between: the promises that got a value, and then those that wait for a
  -- reply, are those of the commands that were sent, in the order sent; and the promises that got a
  -- write error are those of the commands whose writes failed.
  pub replies_in_order :
      (xs : List Move)
      → (answered (run fuel m new_pipeline xs).settled ++ (run fuel m new_pipeline xs).conn.promises
          ≡ (run fuel m new_pipeline xs).sent_ids)
        × (write_errors (run fuel m new_pipeline xs).settled
            ≡ (run fuel m new_pipeline xs).failed_ids)
  replies_in_order xs =
      let h =
        run-IsInOrder new_pipeline xs
          (record { answers = refl; errors = refl; batched = refl; paired = refl }) in
      (h.answers, h.errors)
