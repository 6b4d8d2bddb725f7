-- ===== src/Client/Replies.antt =====
-- The replies that src/app/redis/SimpleRedisClient.cpp reads go to the promises in their order.
use native.Mathlib.Nat.{zero-add}
use simple_redis_client.Prelude.{
  ℕ, ◌+◌, ◌<◌, ◌≤◌, ◌^◌, ◌≡◌, ◌∙◌, refl, ap, Bytes, List, [], ◌∷◌, ◌++◌, length, length-append,
  append_assoc, arith, drop, lt→ltb,
}
use simple_redis_client.Resp.Types.{RespValue, Items, nil, cons}
use simple_redis_client.Resp.Parser.{ok, parse}
use simple_redis_client.Resp.Reply.{
  encode, encode_items, count, IsReply, AreReplies, depth_items, replies, simple_reply, error_reply,
  integer_reply, bulk_reply, array_reply, null_reply,
}
use simple_redis_client.Resp.Reply.Lines.{drop_past}
use simple_redis_client.Resp.Reply.ReadBack.{value-Reads, depth_items_le}
use simple_redis_client.Client.{
  RedisConnection, Settled, value, Read, returned, settle_first, read_loop, read,
}

-- The promises paired with the replies.
abbrev pub answers : List ℕ → Items → List Settled
answers (p ∷ ps) (cons v vs) = value p v ∷ answers ps vs
answers _ _ = []

abbrev pub after_answers : List Settled → Read → Read
after_answers [] r = r
after_answers (value p v ∷ rest) r = settle_first p v (after_answers rest r)
after_answers (_ ∷ rest) r = after_answers rest r

encode_positive : {m : ℕ} {v : RespValue} → IsReply m v → 0 < length (encode v)
unfolding encode
encode_positive (simple_reply _) = omega arith
encode_positive (error_reply _) = omega arith
encode_positive (integer_reply _) = omega arith
encode_positive (bulk_reply _) = omega arith
encode_positive (array_reply _ _) = omega arith
encode_positive null_reply = omega arith

answers_nil : (ps : List ℕ) → answers ps nil ≡ []
answers_nil [] = refl
answers_nil (p ∷ ps) = refl

pub read_loop_step :
    (fuel m : ℕ) (buf : Bytes) (size : ℕ) (v : RespValue) (p : ℕ) (ps : List ℕ) (pos after : ℕ)
    → pos < size
    → parse fuel m buf pos ≡ ok v after
    → read_loop fuel m buf size (p ∷ ps) pos ≡ settle_first p v (read_loop fuel m buf size ps after)
unfolding read_loop
read_loop_step fuel m buf size v p ps pos after h e = rw (lt→ltb pos size h, e) refl

-- The loop over whole replies that stand at `pos`, whatever is behind them.
pub read_loop-replies :
    (fuel m : ℕ) (buf : Bytes) (size : ℕ) (vs : Items) (ps : List ℕ) (pos : ℕ) (rest : Bytes)
    → length buf < 2 ^ 63
    → m < 2 ^ 63
    → AreReplies m vs
    → depth_items vs ≤ fuel
    → count vs ≤ length ps
    → pos + length (encode_items vs) ≤ size
    → drop pos buf ≡ encode_items vs ++ rest
    → read_loop fuel m buf size ps pos
      ≡ after_answers
          (answers ps vs)
          (read_loop fuel m buf size (drop (count vs) ps) (pos + length (encode_items vs)))
unfolding encode
read_loop-replies fuel m buf size nil ps pos rest small fits h d n room e =
    rw (answers_nil ps) (ap (read_loop fuel m buf size ps) (omega arith))
read_loop-replies fuel m buf size (cons v vs) [] pos rest small fits h d n room e =
    absurd (omega arith)
read_loop-replies fuel m buf size (cons v vs) (p ∷ ps) pos rest small fits (replies h hs) d n room
      e =
    read_loop_step fuel m buf size v p ps pos (pos + length (encode v))
      (omega (arith, encode_positive h, length-append (encode v) (encode_items vs)))
      (value-Reads fuel m buf small fits v pos (encode_items vs ++ rest) h
        (depth_items_le fuel v vs d).0 here)
    ∙ ap (settle_first p v) (
        read_loop-replies fuel m buf size vs ps (pos + length (encode v)) rest small fits hs
          (depth_items_le fuel v vs d).1 (omega arith)
          (omega (arith, length-append (encode v) (encode_items vs)))
          (drop_past pos buf (encode v) (encode_items vs ++ rest) here)
        ∙ ap (λ k. after_answers (answers ps vs) (read_loop fuel m buf size (drop (count vs) ps) k))
            (omega (arith, length-append (encode v) (encode_items vs))))
  where
    here : drop pos buf ≡ encode v ++ (encode_items vs ++ rest)
    here = e ∙ append_assoc (encode v) (encode_items vs) rest

after_answers_returned :
    (ps : List ℕ) (vs : Items) (pos : ℕ) (waiting : List ℕ)
    → after_answers (answers ps vs) (returned pos waiting []) ≡ returned pos waiting (answers ps vs)
after_answers_returned [] nil pos waiting = refl
after_answers_returned [] (cons v vs) pos waiting = refl
after_answers_returned (p ∷ ps) nil pos waiting = refl
after_answers_returned (p ∷ ps) (cons v vs) pos waiting =
    ap (settle_first p v) (after_answers_returned ps vs pos waiting)

read_loop_end :
    (fuel m : ℕ) (buf : Bytes) (size : ℕ) (ps : List ℕ)
    → read_loop fuel m buf size ps size ≡ returned size ps []
unfolding read_loop
read_loop_end fuel m buf size [] = ground arith
read_loop_end fuel m buf size (p ∷ ps) = ground arith

-- When the bytes received are whole replies, whatever else is in the buffer behind them, and at
-- least as many promises wait, the callback consumes all the bytes, settles the oldest promises
-- with the replies in their order and leaves the other promises waiting. The nesting of the replies
-- is within the fuel, and sizes are below 2 ^ 63.
pub read-encode_items :
    (fuel m : ℕ) (conn : RedisConnection) (vs : Items) (rest : Bytes)
    → m < 2 ^ 63
    → AreReplies m vs
    → depth_items vs ≤ fuel
    → count vs ≤ length conn.promises
    → length (encode_items vs ++ rest) < 2 ^ 63
    → read fuel m conn (encode_items vs ++ rest) (length (encode_items vs))
      ≡ returned
          (length (encode_items vs))
          (drop (count vs) conn.promises)
          (answers conn.promises vs)
unfolding read
read-encode_items fuel m conn vs rest fits h d n small =
    read_loop-replies fuel m (encode_items vs ++ rest) (length (encode_items vs)) vs conn.promises 0
      rest small fits h d n (omega arith) refl
    ∙ ap
        (λ k. after_answers (answers conn.promises vs) (
          read_loop fuel m (encode_items vs ++ rest) (length (encode_items vs))
            (drop (count vs) conn.promises) k))
        (zero-add (length (encode_items vs)))
    ∙ rw
        (read_loop_end fuel m (encode_items vs ++ rest) (length (encode_items vs))
          (drop (count vs) conn.promises))
        (after_answers_returned conn.promises vs (length (encode_items vs))
          (drop (count vs) conn.promises))
