-- ===== src/Client/Negative.antt =====
-- src/app/redis/redis.h, `parse_bulk_string`, on a negative length: added to the unsigned position
-- it takes the parser back, and `read` of src/app/redis/SimpleRedisClient.cpp reads on from there.
use simple_redis_client.Prelude.{
  ℕ, suc, ◌-◌, ◌^◌, ◌<◌, ◌≡◌, ◌∙◌, refl, Bytes, List, [], ◌∷◌, ◌++◌, length, arith, codes, lt→ltb,
  map, take_all,
}
use simple_redis_client.Prelude.Int.{negsuc}
use simple_redis_client.Resp.Types.{simple_string, bulk_string, RespValue, resp, str}
use simple_redis_client.Resp.Number.{stoll}
use simple_redis_client.Resp.Parser.{ok, bulk_body, parse_value, parse}
use simple_redis_client.Client.{RedisConnection, value, returned, read_loop, read}
use simple_redis_client.Client.Replies.{read_loop_step}

-- A reply, and a bulk string whose length is -7: seven bytes before its end stands the line end of
-- the reply.
abbrev pub backwards : Bytes → Bytes
backwards rest = codes "+OK\r\n$-7\r\n" ++ rest

abbrev bulk : Bytes → RespValue
bulk rest = resp bulk_string (str rest)

bulk_body-backwards :
    (rest : Bytes)
    → length rest < 2 ^ 63
    → bulk_body (backwards rest) (negsuc 6) 10 ≡ ok (bulk rest) 5
unfolding bulk_body
bulk_body-backwards rest h = rw (take_all (2 ^ 64 - 7) rest (omega arith)) (ground arith)

parse-backwards :
    (fuel m : ℕ) (rest : Bytes)
    → length rest < 2 ^ 63
    → parse (suc fuel) m (backwards rest) 5 ≡ ok (bulk rest) 5
unfolding parse_value stoll
parse-backwards fuel m rest h = bulk_body-backwards rest h

parse_front :
    (fuel m : ℕ) (rest : Bytes)
    → parse (suc fuel) m (backwards rest) 0 ≡ ok (resp simple_string (str (codes "OK"))) 5
unfolding parse_value
parse_front fuel m rest = refl

-- A reply at which the parser comes back to where it started settles every promise.
read_loop_again :
    (fuel m : ℕ) (buf : Bytes) (size : ℕ) (v : RespValue) (ps : List ℕ) (at : ℕ)
    → at < size
    → parse fuel m buf at ≡ ok v at
    → read_loop fuel m buf size ps at ≡ returned at [] (map (λ p. value p v) ps)
unfolding read_loop
read_loop_again fuel m buf size v [] at h e = rw (lt→ltb at size h, e) refl
read_loop_again fuel m buf size v (p ∷ ps) at h e =
    rw (lt→ltb at size h, e, read_loop_again fuel m buf size v ps at h e) refl

-- When the read buffer is full to its last byte with a reply, a bulk string's header of length -7 and
-- fewer than 2 ^ 63 bytes, that header is not refused: the parser goes back to its type byte. So this
-- one call of the callback settles every waiting promise, the first with the reply and all the
-- others with the bytes behind the header, and it consumes the reply only.
pub read-backwards :
    (fuel m : ℕ) (conn : RedisConnection) (p : ℕ) (ps : List ℕ) (rest : Bytes)
    → length rest < 2 ^ 63
    → read
        (suc fuel)
        m
        (record conn { promises = p ∷ ps })
        (backwards rest)
        (length (backwards rest))
      ≡ returned 5 [] (
          value p (resp simple_string (str (codes "OK")))
          ∷ map (λ q. value q (resp bulk_string (str rest))) ps)
unfolding read
read-backwards fuel m conn p ps rest h =
    read_loop_step (suc fuel) m (backwards rest) (length (backwards rest))
      (resp simple_string (str (codes "OK"))) p ps 0 5 (omega arith) (parse_front fuel m rest)
    ∙ rw
        (read_loop_again (suc fuel) m (backwards rest) (length (backwards rest)) (bulk rest) ps 5
          (omega arith) (parse-backwards fuel m rest h))
        refl
