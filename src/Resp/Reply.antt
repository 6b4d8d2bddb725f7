-- ===== src/Resp/Reply.antt =====
-- The RESP protocol, described without src/app/redis/redis.h: the bytes of a reply.
pub mod Lines
pub mod Parts
pub mod ReadBack
pub mod CutParts
pub mod Cut
use simple_redis_client.Prelude.Int.{ℤ}
use simple_redis_client.Prelude.{
  ℕ, zero, suc, ◌+◌, ◌<◌, ◌≤◌, ◌≢◌, max, Bytes, [], ◌∷◌, ◌++◌, All, length,
}
use simple_redis_client.Resp.Types.{
  simple_string, error, integer, bulk_string, array, null, RespValue, resp, str, int, arr, Items,
  nil, cons,
}
use simple_redis_client.Resp.Number.{to_string}
use simple_redis_client.Resp.Number.RoundTrip.{print, IsLongLong}
use simple_redis_client.Resp.Command.{crlf}

abbrev pub count : Items → ℕ
count nil = 0
count (cons v vs) = suc (count vs)

unfoldable mutual
  pub encode : RespValue → Bytes
  encode (resp simple_string (str s)) = b'+' ∷ (s ++ crlf)
  encode (resp error (str s)) = b'-' ∷ (s ++ crlf)
  encode (resp integer (int n)) = b':' ∷ (print n ++ crlf)
  encode (resp bulk_string (str s)) = b'$' ∷ (to_string (length s) ++ (crlf ++ (s ++ crlf)))
  encode (resp array (arr vs)) = b'*' ∷ (to_string (count vs) ++ (crlf ++ encode_items vs))
  encode (resp null (str [])) = b'$' ∷ (b'-' ∷ (b'1' ∷ crlf))
  encode _ = []

  pub encode_items : Items → Bytes
  encode_items nil = []
  encode_items (cons v vs) = encode v ++ encode_items vs

-- A line of a reply has no carriage return in it.
abbrev pub IsLine : Bytes → Type 0
IsLine s = All (λ c. c ≢ b'\r') s

-- The values that RESP has a text for: an array has at most `m` elements, and a bulk string may
-- hold any bytes.
mutual
  pub data IsReply (m : ℕ) : RespValue → Type 0 where
    simple_reply : {s : Bytes} → IsLine s → IsReply m (resp simple_string (str s))
    error_reply : {s : Bytes} → IsLine s → IsReply m (resp error (str s))
    integer_reply : {n : ℤ} → IsLongLong n → IsReply m (resp integer (int n))
    bulk_reply : (s : Bytes) → IsReply m (resp bulk_string (str s))
    array_reply : {vs : Items} → count vs ≤ m → AreReplies m vs → IsReply m (resp array (arr vs))
    null_reply : IsReply m (resp null (str []))

  pub data AreReplies (m : ℕ) : Items → Type 0 where
    no_replies : AreReplies m nil
    replies :
        {v : RespValue} {vs : Items} → IsReply m v → AreReplies m vs → AreReplies m (cons v vs)

-- How deep the arrays of a value are nested.
unfoldable mutual
  pub depth : RespValue → ℕ
  depth (resp array (arr vs)) = suc (depth_items vs)
  depth _ = 1

  pub depth_items : Items → ℕ
  depth_items nil = 0
  depth_items (cons v vs) = max (depth v) (depth_items vs)
