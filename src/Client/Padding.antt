-- ===== src/Client/Padding.antt =====
-- src/app/redis/SimpleRedisClient.cpp, `read`: the parser is given the whole read buffer, and meets
-- the zero bytes behind the bytes received.
use simple_redis_client.Prelude.{
  ℕ, zero, suc, ◌+◌, ◌<◌, ◌≤◌, ◌^◌, ◌≡◌, ◌∙◌, refl, Bytes, List, [], ◌∷◌, ◌++◌, length,
  append_assoc, arith, drop, lt→ltb,
}
use simple_redis_client.Prelude.Int.{pos}
use simple_redis_client.Resp.Types.{RespValue, Items, nil, cons}
use simple_redis_client.Resp.Number.{to_string}
use simple_redis_client.Resp.Parser.{Parsed, failed, parse_elements, array_body, parse_value, parse}
use simple_redis_client.Resp.Command.{crlf}
use simple_redis_client.Resp.Reply.{encode, encode_items, count, AreReplies, depth_items, replies}
use simple_redis_client.Resp.Reply.Lines.{drop_past, get_elem?-drop}
use simple_redis_client.Resp.Reply.ReadBack.{Reads, value-Reads, depth_items_le}
use simple_redis_client.Resp.Reply.Parts.{read_size, past_line}
use simple_redis_client.Client.{RedisConnection, returned, read_loop, read}

value_fails :
    (fuel m : ℕ) (src : Bytes) (at : ℕ) (pad : Bytes)
    → drop at src ≡ 0 ∷ pad
    → parse_value (suc fuel) m src at ≡ failed
unfolding parse_value
value_fails fuel m src at pad e = rw (get_elem?-drop at src pad 0 e) refl

elements_fail :
    (fuel m : ℕ) (src : Bytes) (value : ℕ → Parsed RespValue)
    → Reads fuel m src value
    → (pad : Bytes) → ((at : ℕ) → drop at src ≡ 0 ∷ pad → value at ≡ failed)
    → (n : ℕ) (vs : Items) (at : ℕ) → AreReplies m vs
    → depth_items vs ≤ fuel
    → count vs < n
    → drop at src ≡ encode_items vs ++ (0 ∷ pad)
    → parse_elements value n at ≡ failed
unfolding parse_elements encode
elements_fail fuel m src value reads pad fails zero vs at h d k e = absurd (omega arith)
elements_fail fuel m src value reads pad fails (suc n) nil at h d k e = rw (fails at e) refl
elements_fail fuel m src value reads pad fails (suc n) (cons v vs) at (replies h hs) d k e =
    rw
      (
        reads v at (encode_items vs ++ (0 ∷ pad)) h (depth_items_le fuel v vs d).0 here,
        elements_fail fuel m src value reads pad fails n vs (at + length (encode v)) hs
            (depth_items_le fuel v vs d).1 (omega arith)
            (drop_past at src (encode v) (encode_items vs ++ (0 ∷ pad)) here),
      )
      refl
  where
    here : drop at src ≡ encode v ++ (encode_items vs ++ (0 ∷ pad))
    here = e ∙ append_assoc (encode v) (encode_items vs) (0 ∷ pad)

array_body_fails :
    (m : ℕ) (value : ℕ → Parsed RespValue) (n at : ℕ)
    → parse_elements value n at ≡ failed
    → array_body m value (pos n) at ≡ failed
unfolding array_body
array_body_fails m value n at e = rw e (ground arith)

-- The beginning of an array of `n` elements of which `vs` have arrived, each whole.
abbrev pub array_front : ℕ → Items → Bytes
array_front n vs = b'*' ∷ (to_string n ++ (crlf ++ encode_items vs))

array_fails :
    (fuel m n : ℕ) (vs : Items) (pad : Bytes)
    → m < 2 ^ 63
    → n < 2 ^ 63
    → AreReplies m vs
    → depth_items vs ≤ suc fuel
    → count vs < n
    → length (array_front n vs ++ (0 ∷ pad)) < 2 ^ 63
    → parse (suc (suc fuel)) m (array_front n vs ++ (0 ∷ pad)) 0 ≡ failed
unfolding parse_value
array_fails fuel m n vs pad fits size h d k small =
    rw (read_size n src 1 (encode_items vs ++ (0 ∷ pad)) size here) (
      array_body_fails m (parse_value (suc fuel) m src) n (1 + length (to_string n) + 2) (
        elements_fail (suc fuel) m src (parse_value (suc fuel) m src)
          (value-Reads (suc fuel) m src small fits) pad (λ at e. value_fails fuel m src at pad e) n
          vs (1 + length (to_string n) + 2) h d k
          (past_line src 1 (to_string n) (encode_items vs ++ (0 ∷ pad)) here)))
  where
    src : Bytes
    src = array_front n vs ++ (0 ∷ pad)

    here : drop 1 src ≡ to_string n ++ (crlf ++ (encode_items vs ++ (0 ∷ pad)))
    here = append_assoc (to_string n) (crlf ++ encode_items vs) (0 ∷ pad)

read_loop_fails :
    (fuel m : ℕ) (buf : Bytes) (size : ℕ) (ps : List ℕ) (at : ℕ)
    → at < size
    → parse fuel m buf at ≡ failed
    → read_loop fuel m buf size ps at ≡ returned (at + 1) ps []
unfolding read_loop
read_loop_fails fuel m buf size [] at h e = rw (lt→ltb at size h, e) refl
read_loop_fails fuel m buf size (p ∷ ps) at h e = rw (lt→ltb at size h, e) refl

-- An array of which only the first elements have arrived, each of them whole, with a zero byte
-- behind the bytes received, is not waited for: the callback takes it for a malformed reply, drops
-- its type byte and settles no promise. Sizes are below 2 ^ 63, and the fuel exceeds the nesting.
pub read-array_front :
    (fuel m n : ℕ) (conn : RedisConnection) (vs : Items) (pad : Bytes)
    → m < 2 ^ 63
    → n < 2 ^ 63
    → AreReplies m vs
    → depth_items vs ≤ suc fuel
    → count vs < n
    → length (array_front n vs ++ (0 ∷ pad)) < 2 ^ 63
    → read (suc (suc fuel)) m conn (array_front n vs ++ (0 ∷ pad)) (length (array_front n vs))
      ≡ returned 1 conn.promises []
unfolding read
read-array_front fuel m n conn vs pad fits size h d k small =
    read_loop_fails (suc (suc fuel)) m (array_front n vs ++ (0 ∷ pad)) (length (array_front n vs))
      conn.promises 0 (omega arith) (array_fails fuel m n vs pad fits size h d k small)
