-- ===== src/Net/Write/Pending.antt =====
-- What waits in a write queue of src/net/context/EpollContext.cpp: the bytes and the callbacks, and
-- what the loop over the bytes sent does to them.
use simple_redis_client.Prelude.{
  ◌⊎◌, ◌≢◌, ◌+◌, ℕ, zero, suc, ◌-◌, ◌≡◌, ◌∙◌, refl, sym, ap, Bool, true, Option, none, some, List,
  Bytes, [], ◌∷◌, ◌++◌, length, drop, leb, ◌==◌, arith, length-drop, drop-append_le, drop-append_ge,
  Bool-cases, inl, inr,
}
use simple_redis_client.Net.Connection.{WriteMetaInfo, Connection, Event, write_callback}
use simple_redis_client.Net.Write.{unsent, advance, call_back}
use simple_redis_client.Resp.Reply.Lines.{drop-drop}

-- The bytes that wait in a queue.
abbrev pub pending : List WriteMetaInfo → Bytes
pending [] = []
pending (meta ∷ queue) = drop meta.offset meta.buffer ++ pending queue

abbrev pub put : Option ℕ → List ℕ → List ℕ
put none fs = fs
put (some f) fs = f ∷ fs

-- The callbacks that wait in a queue.
abbrev pub waiting : List WriteMetaInfo → List ℕ
waiting [] = []
waiting (meta ∷ queue) = put meta.callback (waiting queue)

-- The write callbacks among the events, with one result.
abbrev pub reports : Bool → List ℕ → List Event
reports success [] = []
reports success (f ∷ fs) = write_callback f success ∷ reports success fs

unsent_lem : (meta : WriteMetaInfo) → unsent meta ≡ length (drop meta.offset meta.buffer)
unsent_lem meta = sym (length-drop meta.offset meta.buffer)

pub call_back-reports :
    (o : Option ℕ) (success : Bool) (fs : List ℕ)
    → call_back o success (reports success fs) ≡ reports success (put o fs)
call_back-reports none success fs = refl
call_back-reports (some f) success fs = refl

pub put-append : (o : Option ℕ) (xs ys : List ℕ) → put o (xs ++ ys) ≡ put o xs ++ ys
put-append none xs ys = refl
put-append (some f) xs ys = refl

pub advance-pending :
    (queue : List WriteMetaInfo) (n : ℕ) → pending (advance queue n).0 ≡ drop n (pending queue)
unfolding advance
advance-pending [] zero = refl
advance-pending [] (suc n) = refl
advance-pending (meta ∷ queue) n = elim (Bool-cases (n == 0)) [
  | inl e ↦ rw e (sym (ap (λ k. drop k (pending (meta ∷ queue))) (zero_of e)))
  | inr e ↦ elim (Bool-cases (leb (unsent meta) n)) [
    | inl k ↦
        rw (e, k)
          (advance-pending queue (n - unsent meta)
            ∙ ap (λ u. drop (n - u) (pending queue)) (unsent_lem meta)
            ∙ sym (
                drop-append_ge n (drop meta.offset meta.buffer) (pending queue)
                  (ground (arith, unsent_lem meta))))
    | inr k ↦
        rw (e, k)
          (ap (λ b. b ++ pending queue) (drop-drop meta.offset n meta.buffer)
            ∙ sym (
                drop-append_le n (drop meta.offset meta.buffer) (pending queue)
                  (ground (arith, unsent_lem meta))))
  ]
]
  where
    zero_of : (n == 0) ≡ true → n ≡ 0
    zero_of e = ground arith

pub advance-waiting :
    (queue : List WriteMetaInfo) (n : ℕ)
    → (done : List ℕ) × ((advance queue n).1 ≡ reports true done)
      × (waiting queue ≡ done ++ waiting (advance queue n).0)
unfolding advance
advance-waiting [] n = ([], refl, refl)
advance-waiting (meta ∷ queue) n = elim (Bool-cases (n == 0)) [
  | inl e ↦ rw e ([], refl, refl)
  | inr e ↦ elim (Bool-cases (leb (unsent meta) n)) [
    | inl k ↦
        let (done, events, order) = advance-waiting queue (n - unsent meta) in
        (
          put meta.callback done,
          rw (e, k)
              (ap (call_back meta.callback true) events
                ∙ call_back-reports meta.callback true done),
          rw (e, k)
              (ap (put meta.callback) order
                ∙ put-append meta.callback done (waiting (advance queue (n - unsent meta)).0)),
        )
    | inr k ↦ ([], rw (e, k) refl, rw (e, k) refl)
  ]
]

-- Every write has a byte to send, or is a write of no bytes.
abbrev pub AreUnsent : List WriteMetaInfo → Type 0
AreUnsent [] = Unit
AreUnsent (meta ∷ queue) =
    ((drop meta.offset meta.buffer ≢ []) ⊎ (meta.buffer ≡ [])) × AreUnsent queue

pub advance-AreUnsent :
    (queue : List WriteMetaInfo) (n : ℕ) → AreUnsent queue → AreUnsent (advance queue n).0
unfolding advance
advance-AreUnsent [] n h = tt
advance-AreUnsent (meta ∷ queue) n (h, hs) = elim (Bool-cases (n == 0)) [
  | inl e ↦ rw e (h, hs)
  | inr e ↦ elim (Bool-cases (leb (unsent meta) n)) [
    | inl k ↦ rw (e, k) (advance-AreUnsent queue (n - unsent meta) hs)
    | inr k ↦
        rw (e, k)
          (
            inl (λ f.
                absurd (ground (arith, length-drop (meta.offset + n) meta.buffer, ap length f))),
            hs,
          )
  ]
]

-- The count of bytes in the queue is right.
abbrev pub IsSized : Connection → Type 0
IsSized conn = conn.in_queue_write_buffer_byte_size ≡ length (pending conn.write_queue)

-- Two connections with the same queue and count.
abbrev pub SameQueue : Connection → Connection → Type 0
SameQueue conn conn' =
    (conn.write_queue ≡ conn'.write_queue)
    × (conn.in_queue_write_buffer_byte_size ≡ conn'.in_queue_write_buffer_byte_size)
