-- ===== src/Resp/Tests.antt =====
-- Runs of the RESP parser and the request builder.
use simple_redis_client.Prelude.{some, ◌+◌, ◌≡◌, refl, Bytes, [], ◌∷◌, ◌++◌, length, arith, codes}
use simple_redis_client.Prelude.Int.{negsuc, pos}
use simple_redis_client.Resp.Types.{
  integer, bulk_string, array, null, RespValue, resp, str, int, arr, nil, cons,
}
use simple_redis_client.Resp.Parser.{ok, incomplete, failed, parse, parse_value}
use simple_redis_client.Resp.Format.{format_response}
use simple_redis_client.Resp.Format.Prints.{parse-Prints}
use simple_redis_client.Resp.Number.{stoll, to_string}
use simple_redis_client.Resp.Command.{build_resp_command}
use simple_redis_client.Resp.Command.Request.{parse-build_resp_command, args_reply}
use simple_redis_client.Resp.Reply.{
  encode, IsReply, depth, no_replies, replies, integer_reply, bulk_reply, array_reply, null_reply,
}
use simple_redis_client.Resp.Reply.ReadBack.{parse-encode}
use simple_redis_client.Resp.Reply.Cut.{parse-encode_cut}

abbrev foo : Bytes
foo = codes "foo"

abbrev reply : RespValue
reply = resp array (
    arr (
      cons (resp bulk_string (str foo))
        (cons (resp integer (int (negsuc 11))) (cons (resp null (str [])) nil))))

reply-IsReply : IsReply 100 reply
reply-IsReply = array_reply (omega arith) (
    replies (bulk_reply foo)
      (replies (integer_reply (omega arith)) (replies null_reply no_replies)))

encode-reply : encode reply ≡ codes "*3\r\n$3\r\nfoo\r\n:-12\r\n$-1\r\n"
unfolding encode to_string
encode-reply = refl

parse-encode_example :
    parse 3 100 (codes "+OK\r\n" ++ (encode reply ++ codes ":7")) 5
    ≡ ok reply (5 + length (encode reply))
parse-encode_example =
    parse-encode 3 100 reply (codes "+OK\r\n") (codes ":7") reply-IsReply
      (unfold depth in omega arith) (omega arith) (unfold encode to_string in omega arith)

parse-encode_cut_example : parse 3 100 (codes "+OK\r\n*3\r\n$3\r\nfoo\r\n") 5 ≡ incomplete
unfolding encode to_string depth
parse-encode_cut_example =
    parse-encode_cut 3 100 reply (codes "+OK\r\n") (codes "*3\r\n$3\r\nfoo\r\n")
      (codes ":-12\r\n$-1\r\n") reply-IsReply (omega arith) (omega arith) (omega arith) encode-reply
      (omega arith)

parse-build_resp_command_example :
    parse 2 100 (build_resp_command (codes "SET" ∷ (foo ∷ ([] ∷ [])))) 0
    ≡ ok
        (args_reply (codes "SET" ∷ (foo ∷ ([] ∷ []))))
        (length (build_resp_command (codes "SET" ∷ (foo ∷ ([] ∷ [])))))
parse-build_resp_command_example =
    parse-build_resp_command 2 100 (codes "SET" ∷ (foo ∷ ([] ∷ []))) (omega arith) (omega arith)
      (omega arith) (unfold build_resp_command to_string in omega arith)

parse-unknown : parse 3 100 (codes "!x") 0 ≡ failed
unfolding parse_value
parse-unknown = refl

-- An array of a number and of an empty bulk string.
abbrev mixed_array : Bytes
mixed_array = codes "*2\r\n:1\r\n$0\r\n\r\n"

parse-mixed_array :
    parse 2 100 mixed_array 0
    ≡ ok
        (resp array
          (arr (cons (resp integer (int (pos 1))) (cons (resp bulk_string (str [])) nil))))
        14
unfolding parse_value stoll
parse-mixed_array = refl

format-mixed_array :
    format_response
      (resp array (arr (cons (resp integer (int (pos 1))) (cons (resp bulk_string (str [])) nil))))
      0
    ≡ some (codes "(array) size=2\n  0)   (integer) 1\n  1)   (nil)\n")
unfolding format_response to_string
format-mixed_array = refl

parse-Prints_example :
    (t : Bytes) × (format_response
        (resp array
          (arr (cons (resp integer (int (pos 1))) (cons (resp bulk_string (str [])) nil))))
        0
      ≡ some t)
parse-Prints_example = parse-Prints 2 100 mixed_array 0 _ 14 0 parse-mixed_array
