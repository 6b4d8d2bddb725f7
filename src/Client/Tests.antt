-- ===== src/Client/Tests.antt =====
-- Runs of the client's handlers.
use simple_redis_client.Prelude.{◌≡◌, [], ◌∷◌, ◌++◌, length, arith, codes, false}
use simple_redis_client.Prelude.Int.{pos}
use simple_redis_client.Resp.Types.{
  simple_string, integer, bulk_string, RespValue, resp, str, int, Items, nil, cons,
}
use simple_redis_client.Resp.Number.{to_string}
use simple_redis_client.Resp.Reply.{
  encode, encode_items, depth, AreReplies, no_replies, replies, simple_reply, integer_reply,
}
use simple_redis_client.Client.{RedisConnection, returned, value, read}
use simple_redis_client.Client.Replies.{read-encode_items}
use simple_redis_client.Client.Padding.{read-array_front, array_front}
use simple_redis_client.Client.Negative.{read-backwards, backwards}

abbrev connection : RedisConnection
connection = record {
  promises = 1 ∷ (2 ∷ (3 ∷ []));
  writing_promises = [];
  writing_cmds = [];
  flush_time = false;
  high_level = false;
}

abbrev one : RespValue
one = resp integer (int (pos 1))

abbrev two_items : Items
two_items = cons (resp simple_string (str (codes "OK"))) (cons one nil)

two_items-AreReplies : AreReplies 100 two_items
two_items-AreReplies =
    replies (simple_reply (ground arith, (ground arith, tt)))
      (replies (integer_reply (omega arith)) no_replies)

read-encode_items_example :
    read 2 100 connection
      (encode_items two_items ++ (0 ∷ (0 ∷ [])))
      (length (encode_items two_items))
    ≡ returned
        (length (encode_items two_items))
        (3 ∷ [])
        (value 1 (resp simple_string (str (codes "OK"))) ∷ (value 2 one ∷ []))
read-encode_items_example =
    read-encode_items 2 100 connection two_items (0 ∷ (0 ∷ [])) (omega arith) two_items-AreReplies
      (unfold depth in omega arith) (omega arith) (unfold encode to_string in omega arith)

read-array_front_example :
    read 3 100 connection
      (array_front 2 (cons one nil) ++ (0 ∷ []))
      (length (array_front 2 (cons one nil)))
    ≡ returned 1 (1 ∷ (2 ∷ (3 ∷ []))) []
read-array_front_example =
    read-array_front 1 100 2 connection (cons one nil) [] (omega arith) (omega arith)
      (replies (integer_reply (omega arith)) no_replies) (unfold depth in omega arith) (omega arith)
      (unfold encode to_string in omega arith)

read-backwards_example :
    read 1 100 connection (backwards (codes ":5\r\n")) (length (backwards (codes ":5\r\n")))
    ≡ returned 5 [] (
        value 1 (resp simple_string (str (codes "OK")))
        ∷ (value 2 (resp bulk_string (str (codes ":5\r\n")))
            ∷ (value 3 (resp bulk_string (str (codes ":5\r\n"))) ∷ [])))
read-backwards_example =
    read-backwards 0 100 connection 1 (2 ∷ (3 ∷ [])) (codes ":5\r\n") (omega arith)
