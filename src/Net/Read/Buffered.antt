-- ===== src/Net/Read/Buffered.antt =====
-- The bytes that a connection receives reach its read callback in order and without a gap
-- (src/net/context/EpollContext.cpp).
use native.Mathlib.Nat.{sub_self}
use simple_redis_client.Prelude.{
  ℕ, zero, suc, ◌+◌, ◌-◌, ◌≤◌, ◌≡◌, ◌∙◌, refl, sym, ap, true, inl, inr, Bytes, [], ◌∷◌, ◌++◌,
  length, take, drop, replicate, ltb, leb, arith, length-append, length-drop, length-take,
  length-replicate, drop-append_le, drop-append_ge, take-append_ge, drop_all, append-nil,
  append_assoc, Bool-cases,
}
use simple_redis_client.Net.Connection.{SimpleBuffer, Connection, Interest}
use simple_redis_client.Net.Read.{
  read_buffered, received, ReadHandled, read_kept, fill, clamp, handle_read,
}
use simple_redis_client.Resp.Reply.Lines.{drop-drop}

-- The data of a buffer: what was received and not consumed.
abbrev pub content : SimpleBuffer → Bytes
content b = take b.data_size b.buffer

-- The data fits, and zero bytes are behind it.
abbrev pub IsBuffer : SimpleBuffer → Type 0
IsBuffer b =
    (b.data_size ≤ length b.buffer)
    × (drop b.data_size b.buffer ≡ replicate (length b.buffer - b.data_size) 0)

pub take_front : (n : ℕ) (xs ys : Bytes) → n ≡ length xs → take n (xs ++ ys) ≡ xs
take_front n xs ys e =
    rw (e, take-append_ge (length xs) xs ys (omega arith), sub_self (length xs)) (append-nil xs)

pub drop_front : (n : ℕ) (xs ys : Bytes) → n ≡ length xs → drop n (xs ++ ys) ≡ ys
drop_front n xs ys e =
    rw (e, drop-append_ge (length xs) xs ys (omega arith), sub_self (length xs)) refl

drop-replicate : (n k : ℕ) → drop n (replicate {A = ℕ} k 0) ≡ replicate (k - n) 0
drop-replicate zero k = ap (λ j. replicate j 0) (omega arith)
drop-replicate (suc n) zero =
    let none_left : ◌≡◌ {A = ℕ} 0 (0 - suc n) = omega arith in
    ap (λ j. replicate {A = ℕ} j 0) none_left
drop-replicate (suc n) (suc k) = drop-replicate n k ∙ ap (λ j. replicate j 0) (omega arith)

buffer_eq :
    (bytes bytes' : Bytes) (size size' : ℕ)
    → bytes ≡ bytes'
    → size ≡ size'
    → ◌≡◌ {A = SimpleBuffer}
        (record { buffer = bytes; data_size = size })
        (record { buffer = bytes'; data_size = size' })
buffer_eq bytes bytes' size size' e f = rw (e, f) refl

-- A buffer made of its data and zero bytes.
abbrev padded : Bytes → ℕ → SimpleBuffer
padded xs k = record { buffer = xs ++ replicate k 0; data_size = length xs }

padded_length : (xs : Bytes) (k : ℕ) → length (xs ++ replicate k 0) ≡ length xs + k
padded_length xs k = omega (arith, length-append xs (replicate k 0), length-replicate {A = ℕ} k 0)

padded-IsBuffer : (xs : Bytes) (k : ℕ) → IsBuffer (padded xs k)
padded-IsBuffer xs k = (
  omega (arith, length-append xs (replicate k 0)),
  drop_front (length xs) xs (replicate k 0) refl
      ∙ ap (λ j. replicate j 0)
          (omega (arith, length-append xs (replicate k 0), length-replicate {A = ℕ} k 0)),
)

fill-padded :
    (b : SimpleBuffer) (got : Bytes)
    → IsBuffer b
    → b.data_size + length got ≤ length b.buffer
    → fill b got ≡ padded (content b ++ got) (length b.buffer - (b.data_size + length got))
fill-padded b got (fits, zeros) room =
    buffer_eq _ _ _ _
      (ap (λ z. content b ++ (got ++ z))
          (drop-drop b.data_size (length got) b.buffer
            ∙ ap (drop (length got)) zeros
            ∙ drop-replicate (length got) (length b.buffer - b.data_size)
            ∙ ap (λ j. replicate {A = ℕ} j 0) (omega arith))
        ∙ sym (
            append_assoc (content b) got
              (replicate (length b.buffer - (b.data_size + length got)) 0)))
      (omega (arith, length-append (content b) got, length-take b.data_size b.buffer))

read_buffered-padded :
    (xs : Bytes) (k n : ℕ)
    → (j : ℕ) × (read_buffered (padded xs k) n ≡ padded (drop n xs) j)
      × (length (drop n xs) + j ≡ length xs + k)
unfolding read_buffered
read_buffered-padded xs k n = elim (Bool-cases (leb (length xs) n)) [
  | inl e ↦ (
    length xs + k,
    rw (e, drop_all n xs (ground arith))
        (buffer_eq _ _ _ _ (ap (λ j. replicate {A = ℕ} j 0) (omega (arith, padded_length xs k)))
          refl),
    rw (drop_all n xs (ground arith)) (omega arith),
  )
  | inr e ↦ (
    (length xs + k) - (length xs - n),
    rw e (
        buffer_eq _ _ _ _
          (ap
              (λ z.
                take (length xs - n) z
                ++ replicate (length (xs ++ replicate k 0) - (length xs - n)) 0)
              (drop-append_le n xs (replicate k 0) (ground arith))
            ∙ ap (λ z. z ++ replicate (length (xs ++ replicate k 0) - (length xs - n)) 0)
                (take_front (length xs - n) (drop n xs) (replicate k 0) (sym (length-drop n xs)))
            ∙ ap (λ j. drop n xs ++ replicate (j - (length xs - n)) 0) (padded_length xs k))
          (sym (length-drop n xs))),
    ground (arith, length-drop n xs),
  )
]

drop-clamp : (xs : Bytes) (c : ℕ) → drop (clamp (length xs) c) xs ≡ drop c xs
drop-clamp xs c = elim (Bool-cases (ltb (length xs) c)) [
  | inl e ↦ rw e (drop_all (length xs) xs (omega arith) ∙ sym (drop_all c xs (ground arith)))
  | inr e ↦ rw e refl
]

-- What a connection receives, if it fits behind the data, reaches the callback behind what it has
-- not consumed, with zero bytes to the end of the buffer; what the callback does not consume stays
-- in the buffer, in order, for the next call, and the buffer keeps its form and its length.
pub handle_read-received :
    (read_cb : Bytes → ℕ → ℕ) (conn : Connection) (watched : Interest) (got : Bytes)
    → conn.read_cb ≡ true
    → IsBuffer conn.read_buffer
    → conn.read_buffer.data_size + length got ≤ length conn.read_buffer.buffer
    → (conn' : Connection) × (zeros : ℕ) × (shown : Bytes) × (shown
        ≡ (content conn.read_buffer ++ got) ++ replicate zeros 0)
      × (handle_read read_cb conn watched (received got)
          ≡ read_kept conn' watched ((shown, length (content conn.read_buffer ++ got)) ∷ []))
      × (content conn'.read_buffer
          ≡ drop
              (read_cb shown (length (content conn.read_buffer ++ got)))
              (content conn.read_buffer ++ got))
      × IsBuffer conn'.read_buffer
      × (length conn'.read_buffer.buffer ≡ length conn.read_buffer.buffer)
unfolding handle_read
handle_read-received read_cb conn watched got set valid room = (
  record conn { read_buffer = padded (drop taken xs) j },
  k,
  xs ++ replicate k 0,
  refl,
  rw set refl
      ∙ ap served (fill-padded conn.read_buffer got valid room)
      ∙ ap
          (λ b.
            read_kept (record conn { read_buffer = b }) watched
              ((xs ++ replicate k 0, length xs) ∷ []))
          left,
  take_front (length (drop taken xs)) (drop taken xs) (replicate j 0) refl ∙ drop-clamp xs consumed,
  padded-IsBuffer (drop taken xs) j,
  padded_length (drop taken xs) j
      ∙ sum
      ∙ omega (
        arith,
        room,
        length-append (content conn.read_buffer) got,
        length-take conn.read_buffer.data_size conn.read_buffer.buffer,
      ),
)
  where
    xs : Bytes
    xs = content conn.read_buffer ++ got

    k : ℕ
    k = length conn.read_buffer.buffer - (conn.read_buffer.data_size + length got)

    consumed : ℕ
    consumed = read_cb (xs ++ replicate k 0) (length xs)

    taken : ℕ
    taken = clamp (length xs) consumed

    served : SimpleBuffer → ReadHandled
    served b =
        read_kept
          (record conn {
            read_buffer = read_buffered b (clamp b.data_size (read_cb b.buffer b.data_size));
          })
          watched ((b.buffer, b.data_size) ∷ [])

    j : ℕ
    j = (read_buffered-padded xs k taken).0

    left : read_buffered (padded xs k) taken ≡ padded (drop taken xs) j
    left = (read_buffered-padded xs k taken).1

    sum : length (drop taken xs) + j ≡ length xs + k
    sum = (read_buffered-padded xs k taken).2
