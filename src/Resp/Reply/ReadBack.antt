-- ===== src/Resp/Reply/ReadBack.antt =====
-- src/app/redis/redis.h parses the text of a reply into that reply.
use native.Mathlib.Nat.{sub_self}
use simple_redis_client.Prelude.{
  ℕ, zero, suc, ◌+◌, ◌<◌, ◌≤◌, ◌^◌, ◌≡◌, ◌∙◌, refl, sym, ap, Bytes, [], ◌∷◌, ◌++◌, length, drop,
  drop-append_ge, arith, length-append, append_assoc,
}
use simple_redis_client.Prelude.Int.{pos, negsuc}
use simple_redis_client.Resp.Types.{
  simple_string, error, integer, bulk_string, array, null, RespValue, resp, str, int, arr, Items,
  nil, cons,
}
use simple_redis_client.Resp.Number.{to_string}
use simple_redis_client.Resp.Number.RoundTrip.{print}
use simple_redis_client.Resp.Parser.{Parsed, ok, array_body, parse_elements, parse_value, parse}
use simple_redis_client.Resp.Command.{crlf}
use simple_redis_client.Resp.Reply.{
  encode, encode_items, IsReply, AreReplies, depth, depth_items, count, simple_reply, error_reply,
  integer_reply, bulk_reply, array_reply, null_reply, replies,
}
use simple_redis_client.Resp.Reply.Lines.{drop_past, get_elem?-drop, read_line_lem}
use simple_redis_client.Resp.Reply.Parts.{
  read_number-print, bulk_body_lem, read_size, line_reads, sized, kind_reads, body_reads, body_le,
  sized_length, minus_one, bulk_body_null,
}

-- How `value` reads the texts of the replies nested at most `fuel` deep.
abbrev pub Reads : ℕ → ℕ → Bytes → (ℕ → Parsed RespValue) → Type 0
Reads fuel m src value =
    (v : RespValue) (at : ℕ) (rest : Bytes)
    → IsReply m v
    → depth v ≤ fuel
    → drop at src ≡ encode v ++ rest
    → value at ≡ ok v (at + length (encode v))

pub depth_items_le :
    (fuel : ℕ) (v : RespValue) (vs : Items)
    → depth_items (cons v vs) ≤ fuel
    → (depth v ≤ fuel) × (depth_items vs ≤ fuel)
unfolding depth
depth_items_le fuel v vs h = (omega arith, omega arith)

pub elements_read :
    (fuel m : ℕ) (src : Bytes) (value : ℕ → Parsed RespValue)
    → Reads fuel m src value
    → (vs : Items) (at : ℕ) (rest : Bytes) → AreReplies m vs
    → depth_items vs ≤ fuel
    → drop at src ≡ encode_items vs ++ rest
    → parse_elements value (count vs) at ≡ ok vs (at + length (encode_items vs))
unfolding parse_elements encode
elements_read fuel m src value reads nil at rest h d e = ap (ok nil) (omega arith)
elements_read fuel m src value reads (cons v vs) at rest (replies h hs) d e =
    rw
      (
        reads v at (encode_items vs ++ rest) h (depth_items_le fuel v vs d).0 here,
        elements_read fuel m src value reads vs (at + length (encode v)) rest hs
            (depth_items_le fuel v vs d).1
            (drop_past at src (encode v) (encode_items vs ++ rest) here),
      )
      (ap (ok (cons v vs)) (omega (arith, length-append (encode v) (encode_items vs))))
  where
    here : drop at src ≡ encode v ++ (encode_items vs ++ rest)
    here = e ∙ append_assoc (encode v) (encode_items vs) rest

pub depth_positive : {m : ℕ} {v : RespValue} → IsReply m v → 0 < depth v
unfolding depth
depth_positive (simple_reply _) = omega arith
depth_positive (error_reply _) = omega arith
depth_positive (integer_reply _) = omega arith
depth_positive (bulk_reply _) = omega arith
depth_positive (array_reply _ _) = omega arith
depth_positive null_reply = omega arith

pub array_body_lem :
    (m : ℕ) (value : ℕ → Parsed RespValue) (vs : Items) (at last : ℕ)
    → count vs ≤ m
    → parse_elements value (count vs) at ≡ ok vs last
    → array_body m value (pos (count vs)) at ≡ ok (resp array (arr vs)) last
unfolding array_body
array_body_lem m value vs at last n e = rw e (ground arith)

-- All six kinds of reply.
pub value-Reads :
    (fuel m : ℕ) (src : Bytes)
    → length src < 2 ^ 63
    → m < 2 ^ 63
    → Reads fuel m src (parse_value fuel m src)
unfolding parse_value encode
value-Reads zero m src small fits v at rest h d e = absurd (omega (arith, depth_positive h))
value-Reads (suc fuel) m src small fits _ at rest (simple_reply {s = s} h) d e =
    rw
      (
        (line_reads src at b'+' s rest e).0,
        read_line_lem src (at + 1) s rest h (line_reads src at b'+' s rest e).1,
      )
      (ap (ok (resp simple_string (str s))) (omega (arith, length-append s crlf)))
value-Reads (suc fuel) m src small fits _ at rest (error_reply {s = s} h) d e =
    rw
      (
        (line_reads src at b'-' s rest e).0,
        read_line_lem src (at + 1) s rest h (line_reads src at b'-' s rest e).1,
      )
      (ap (ok (resp error (str s))) (omega (arith, length-append s crlf)))
value-Reads (suc fuel) m src small fits _ at rest (integer_reply {n = n} h) d e =
    rw
      (
        (line_reads src at b':' (print n) rest e).0,
        read_number-print n src (at + 1) rest h (line_reads src at b':' (print n) rest e).1,
      )
      (ap (ok (resp integer (int n))) (omega (arith, length-append (print n) crlf)))
value-Reads (suc fuel) m src small fits _ at rest (bulk_reply s) d e =
    rw
      (
        kind_reads src at b'$' (length s) (s ++ crlf) rest e,
        read_size (length s) src (at + 1) ((s ++ crlf) ++ rest)
            (omega (arith, body_le src at b'$' (length s) (s ++ crlf) rest e, length-append s crlf))
            (sized src at b'$' (length s) (s ++ crlf) rest e),
        bulk_body_lem s src (at + 1 + length (to_string (length s)) + 2) rest small
            (body_reads src at b'$' (length s) (s ++ crlf) rest e ∙ append_assoc s crlf rest),
      )
      (ap (ok (resp bulk_string (str s))) (
        omega
          (arith, sized_length src at b'$' (length s) (s ++ crlf) rest e, length-append s crlf)))
value-Reads (suc fuel) m src small fits _ at rest (array_reply {vs = vs} n h) d e =
    rw
      (
        kind_reads src at b'*' (count vs) (encode_items vs) rest e,
        read_size (count vs) src (at + 1) (encode_items vs ++ rest) (omega arith)
            (sized src at b'*' (count vs) (encode_items vs) rest e),
        array_body_lem m (λ p. parse_value fuel m src p) vs
            (at + 1 + length (to_string (count vs)) + 2)
            (at + 1 + length (to_string (count vs)) + 2 + length (encode_items vs)) n
            (elements_read fuel m src (parse_value fuel m src) (value-Reads fuel m src small fits)
              vs (at + 1 + length (to_string (count vs)) + 2) rest h (unfold depth in omega arith)
              (body_reads src at b'*' (count vs) (encode_items vs) rest e)),
      )
      (ap (ok (resp array (arr vs))) (sized_length src at b'*' (count vs) (encode_items vs) rest e))
value-Reads (suc fuel) m src small fits _ at rest null_reply d e =
    rw
      (
        get_elem?-drop at src (b'-' ∷ (b'1' ∷ (crlf ++ rest))) b'$' e,
        read_number-print (negsuc 0) src (at + 1) rest (omega arith) (
            drop_past at src (b'$' ∷ []) (b'-' ∷ (b'1' ∷ (crlf ++ rest))) e
            ∙ ap (λ s. s ++ (crlf ++ rest)) (sym minus_one)),
        bulk_body_null src (at + 1 + length (print (negsuc 0)) + 2),
      )
      (ap (ok (resp null (str []))) (omega (arith, ap length minus_one)))

-- The text of a reply, anywhere in a buffer and whatever is behind it, is parsed into that reply,
-- and the position ends right behind the text, for all six kinds and every nesting of arrays within
-- the fuel. The arrays are no longer than a vector may be, and sizes are below 2 ^ 63.
pub parse-encode :
    (fuel m : ℕ) (v : RespValue) (front post : Bytes)
    → IsReply m v
    → depth v ≤ fuel
    → m < 2 ^ 63
    → length (front ++ (encode v ++ post)) < 2 ^ 63
    → parse fuel m (front ++ (encode v ++ post)) (length front)
      ≡ ok v (length front + length (encode v))
parse-encode fuel m v front post h d fits small =
    value-Reads fuel m (front ++ (encode v ++ post)) small fits v (length front) post h d (
      rw
        (
          drop-append_ge (length front) front (encode v ++ post) (omega arith),
          sub_self (length front),
        )
        refl)
