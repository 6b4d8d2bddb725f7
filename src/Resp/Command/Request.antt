-- ===== src/Resp/Command/Request.antt =====
-- The commands of `buildRESPCommand` (src/app/redis/redis.h) are requests of the protocol: arrays of
-- bulk strings.
use simple_redis_client.Prelude.{
  ℕ, suc, ◌<◌, ◌≤◌, ◌^◌, ◌≡◌, ◌∙◌, refl, sym, ap, Bytes, List, [], ◌∷◌, ◌++◌, length, length-append,
  append-nil, append_assoc, arith,
}
use simple_redis_client.Resp.Types.{array, bulk_string, RespValue, resp, str, arr, Items, nil, cons}
use simple_redis_client.Resp.Number.{to_string}
use simple_redis_client.Resp.Parser.{ok, parse}
use simple_redis_client.Resp.Command.{crlf, append_args, build_resp_command}
use simple_redis_client.Resp.Reply.{
  encode, encode_items, count, AreReplies, depth, depth_items, no_replies, replies, bulk_reply,
  array_reply,
}
use simple_redis_client.Resp.Reply.ReadBack.{parse-encode}

abbrev pub bulks : List Bytes → Items
bulks [] = nil
bulks (arg ∷ args) = cons (resp bulk_string (str arg)) (bulks args)

abbrev pub args_reply : List Bytes → RespValue
args_reply args = resp array (arr (bulks args))

count-bulks : (args : List Bytes) → count (bulks args) ≡ length args
count-bulks [] = refl
count-bulks (arg ∷ args) = ap suc (count-bulks args)

append_args_lem :
    (cmd : Bytes) (args : List Bytes) → append_args cmd args ≡ cmd ++ encode_items (bulks args)
unfolding append_args encode
append_args_lem cmd [] = sym (append-nil cmd)
append_args_lem cmd (arg ∷ args) =
    append_args_lem ((cmd ++ (b'$' ∷ (to_string (length arg) ++ crlf))) ++ (arg ++ crlf)) args
    ∙ simp append_assoc

build_resp_command_lem : (args : List Bytes) → build_resp_command args ≡ encode (args_reply args)
unfolding build_resp_command encode
build_resp_command_lem args =
    append_args_lem (b'*' ∷ (to_string (length args) ++ crlf)) args
    ∙ rw (count-bulks args)
        (ap (◌∷◌ b'*') (append_assoc (to_string (length args)) crlf (encode_items (bulks args))))

bulks-AreReplies : (m : ℕ) (args : List Bytes) → AreReplies m (bulks args)
bulks-AreReplies m [] = no_replies
bulks-AreReplies m (arg ∷ args) = replies (bulk_reply arg) (bulks-AreReplies m args)

depth_items-bulks : (args : List Bytes) → depth_items (bulks args) ≤ 1
unfolding depth
depth_items-bulks [] = omega arith
depth_items-bulks (arg ∷ args) = omega (arith, depth_items-bulks args)

-- The text of a command is the protocol's text of the array of its arguments, and is parsed back
-- into it, every argument whole whatever bytes it holds, when there are no more arguments than a
-- vector may have and sizes are below 2 ^ 63.
pub parse-build_resp_command :
    (fuel m : ℕ) (args : List Bytes)
    → 2 ≤ fuel
    → length args ≤ m
    → m < 2 ^ 63
    → length (build_resp_command args) < 2 ^ 63
    → parse fuel m (build_resp_command args) 0
      ≡ ok (args_reply args) (length (build_resp_command args))
parse-build_resp_command fuel m args f n fits small = rw (build_resp_command_lem args) (
    ap (λ s. parse fuel m s 0) (sym (append-nil (encode (args_reply args))))
    ∙ parse-encode fuel m (args_reply args) [] []
        (array_reply (omega (arith, count-bulks args)) (bulks-AreReplies m args))
        (unfold depth in omega (arith, depth_items-bulks args)) fits
        (omega (
          arith,
          ap length (build_resp_command_lem args),
          length-append (encode (args_reply args)) [],
        ))
    ∙ ap (ok (args_reply args)) (omega arith))
