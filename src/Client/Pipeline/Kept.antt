-- ===== src/Client/Pipeline/Kept.antt =====
-- The order of the promises of a connection, kept by the commands, the batches and the callbacks of
-- the writes.
use simple_redis_client.Prelude.{
  ℕ, ◌≡◌, ◌∙◌, refl, sym, ap, Bool, true, false, List, Bytes, [], ◌∷◌, ◌++◌, append_assoc,
  append-nil, leb, length, length-append, arith, Bool-cases, inl, inr,
}
use simple_redis_client.Client.{to_many_bytes, write_error, written}
use simple_redis_client.Client.Pipeline.{
  Out, once, batch_item, Pipeline, batch_items, flush, set_flush_time, write_batch_size,
  flush_or_wait, add_command, batch_written, after_callback, refuse,
}
use simple_redis_client.Client.Pipeline.Answers.{
  answered, write_errors, answered-append, write_errors-append,
}

-- The promises of the batches among the writes.
abbrev pub batch_ids : List Out → List ℕ
batch_ids [] = []
batch_ids (once p cmd ∷ out) = batch_ids out
batch_ids (batch_item p cmd ∷ out) = p ∷ batch_ids out

pub batch_ids-append : (xs ys : List Out) → batch_ids (xs ++ ys) ≡ batch_ids xs ++ batch_ids ys
batch_ids-append [] ys = refl
batch_ids-append (once p cmd ∷ xs) ys = batch_ids-append xs ys
batch_ids-append (batch_item p cmd ∷ xs) ys = ap (◌∷◌ p) (batch_ids-append xs ys)

batch_ids-batch_items :
    (ps : List ℕ) (cmds : List Bytes)
    → length ps ≡ length cmds
    → batch_ids (batch_items ps cmds) ≡ ps
batch_ids-batch_items [] cmds e = refl
batch_ids-batch_items (p ∷ ps) [] e = absurd (omega arith)
batch_ids-batch_items (p ∷ ps) (cmd ∷ cmds) e =
    ap (◌∷◌ p) (batch_ids-batch_items ps cmds (omega arith))

pub record IsInOrder (s : Pipeline) : Type 0 where
  pub answers : answered s.settled ++ s.conn.promises ≡ s.sent_ids
  pub errors : write_errors s.settled ≡ s.failed_ids
  -- The promises of the batches that are written, and then of the next batch.
  pub batched : s.conn.writing_promises ≡ batch_ids s.in_flight ++ s.writing_ids
  pub paired : length s.writing_ids ≡ length s.conn.writing_cmds

pub flush-IsInOrder : (s : Pipeline) → IsInOrder s → IsInOrder (flush s)
unfolding flush
flush-IsInOrder s h = record {
  answers = h.answers;
  errors = h.errors;
  batched =
      h.batched
      ∙ ap (λ l. batch_ids s.in_flight ++ l)
          (sym (batch_ids-batch_items s.writing_ids s.conn.writing_cmds h.paired))
      ∙ sym (batch_ids-append s.in_flight (batch_items s.writing_ids s.conn.writing_cmds))
      ∙ sym (append-nil (batch_ids (s.in_flight ++ batch_items s.writing_ids s.conn.writing_cmds)));
  paired = refl;
}

pub set_flush_time-IsInOrder :
    (s : Pipeline) (b : Bool) → IsInOrder s → IsInOrder (set_flush_time s b)
set_flush_time-IsInOrder s b h = record {
  answers = h.answers;
  errors = h.errors;
  batched = h.batched;
  paired = h.paired;
}

pub add_command-IsInOrder :
    (s : Pipeline) (p : ℕ) (cmd : Bytes) → IsInOrder s → IsInOrder (add_command s p cmd)
add_command-IsInOrder s p cmd h = record {
  answers = h.answers;
  errors = h.errors;
  batched =
      ap (λ l. l ++ (p ∷ [])) h.batched
      ∙ append_assoc (batch_ids s.in_flight) s.writing_ids (p ∷ []);
  paired = omega (
    arith,
    h.paired,
    length-append s.writing_ids (p ∷ []),
    length-append s.conn.writing_cmds (cmd ∷ []),
  );
}

pub flush_or_wait-IsInOrder :
    (timer_set : Bool) (s : Pipeline) → IsInOrder s → IsInOrder (flush_or_wait timer_set s)
flush_or_wait-IsInOrder timer_set s h =
    elim (Bool-cases (leb write_batch_size (length s.conn.writing_cmds))) [
      | inl e ↦ simp e (flush-IsInOrder s h)
      | inr e ↦ elim (Bool-cases s.conn.flush_time) [
        | inl f ↦ simp (e, f) h
        | inr f ↦ elim (Bool-cases timer_set) [
          | inl g ↦
              simp (e, f, g)
                (flush-IsInOrder (set_flush_time s true) (set_flush_time-IsInOrder s true h))
          | inr g ↦ simp (e, f, g) h
        ]
      ]
    ]

pub refuse-IsInOrder : (s : Pipeline) (p : ℕ) → IsInOrder s → IsInOrder (refuse s p)
refuse-IsInOrder s p h = record {
  answers =
      ap (λ l. l ++ s.conn.promises)
        (answered-append s.settled (to_many_bytes p ∷ []) ∙ append-nil (answered s.settled))
      ∙ h.answers;
  errors =
      write_errors-append s.settled (to_many_bytes p ∷ [])
      ∙ append-nil (write_errors s.settled)
      ∙ h.errors;
  batched = h.batched;
  paired = h.paired;
}

pub written_once-IsInOrder :
    (s : Pipeline) (success : Bool) (p : ℕ) (cmd : Bytes) (out : List Out)
    → s.in_flight ≡ once p cmd ∷ out
    → IsInOrder s
    → IsInOrder (after_callback s out success p (written s.conn p success))
unfolding written
written_once-IsInOrder s true p cmd out q h = record {
  answers =
      ap (λ l. answered l ++ (s.conn.promises ++ (p ∷ []))) (append-nil s.settled)
      ∙ sym (append_assoc (answered s.settled) s.conn.promises (p ∷ []))
      ∙ ap (λ l. l ++ (p ∷ [])) h.answers;
  errors = ap write_errors (append-nil s.settled) ∙ h.errors;
  batched = h.batched ∙ ap (λ l. batch_ids l ++ s.writing_ids) q;
  paired = h.paired;
}
written_once-IsInOrder s false p cmd out q h = record {
  answers =
      ap (λ l. l ++ s.conn.promises)
        (answered-append s.settled (write_error p ∷ []) ∙ append-nil (answered s.settled))
      ∙ h.answers;
  errors = write_errors-append s.settled (write_error p ∷ []) ∙ ap (λ l. l ++ (p ∷ [])) h.errors;
  batched = h.batched ∙ ap (λ l. batch_ids l ++ s.writing_ids) q;
  paired = h.paired;
}

-- The callback of a batch finds the promise made with its command.
pub batch_written-IsInOrder :
    (s : Pipeline) (success : Bool) (p : ℕ) (out : List Out)
    → IsInOrder s
    → s.conn.writing_promises ≡ p ∷ (batch_ids out ++ s.writing_ids)
    → IsInOrder (
        after_callback s out success p
          (batch_written success s.conn (p ∷ (batch_ids out ++ s.writing_ids))))
batch_written-IsInOrder s true p out h e = record {
  answers =
      ap (λ l. answered l ++ (s.conn.promises ++ (p ∷ []))) (append-nil s.settled)
      ∙ sym (append_assoc (answered s.settled) s.conn.promises (p ∷ []))
      ∙ ap (λ l. l ++ (p ∷ [])) h.answers;
  errors = ap write_errors (append-nil s.settled) ∙ h.errors;
  batched = refl;
  paired = h.paired;
}
batch_written-IsInOrder s false p out h e = record {
  answers =
      ap (λ l. l ++ s.conn.promises)
        (answered-append s.settled (write_error p ∷ []) ∙ append-nil (answered s.settled))
      ∙ h.answers;
  errors = write_errors-append s.settled (write_error p ∷ []) ∙ ap (λ l. l ++ (p ∷ [])) h.errors;
  batched = refl;
  paired = h.paired;
}
