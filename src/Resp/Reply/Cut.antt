-- ===== src/Resp/Reply/Cut.antt =====
-- src/app/redis/redis.h on the text of a reply that has not arrived to its end.
use native.Mathlib.Nat.{sub_self}
use simple_redis_client.Prelude.{
  ℕ, zero, suc, ◌+◌, ◌<◌, ◌≤◌, ◌^◌, ◌≡◌, ◌∙◌, inl, inr, refl, ap, Bytes, [], ◌∷◌, ◌++◌, length,
  drop, drop-append_ge, arith, length-append,
}
use simple_redis_client.Prelude.Int.{pos, negsuc}
use simple_redis_client.Resp.Types.{RespValue, Items, nil, cons}
use simple_redis_client.Resp.Number.{to_string}
use simple_redis_client.Resp.Number.RoundTrip.{print}
use simple_redis_client.Resp.Parser.{
  Parsed, incomplete, and_then, read_number, bulk_body, array_body, parse_elements, parse_value,
  parse,
}
use simple_redis_client.Resp.Command.{crlf}
use simple_redis_client.Resp.Reply.{
  encode, encode_items, IsReply, AreReplies, depth, depth_items, count, simple_reply, error_reply,
  integer_reply, bulk_reply, array_reply, null_reply, replies,
}
use simple_redis_client.Resp.Reply.Lines.{drop_past}
use simple_redis_client.Resp.Reply.ReadBack.{depth_positive, Reads, value-Reads, depth_items_le}
use simple_redis_client.Resp.Reply.Parts.{print-IsLine, minus_one}
use simple_redis_client.Resp.Reply.CutParts.{
  split, get_elem?-none, read_line_cut, bulk_body_cut, size_cut, typed_cut,
}

-- How `value` takes the texts of such replies when they are cut.
abbrev Waits : ℕ → ℕ → Bytes → (ℕ → Parsed RespValue) → Type 0
Waits fuel m src value =
    (v : RespValue) (at : ℕ) (cut mid : Bytes)
    → IsReply m v
    → depth v ≤ fuel
    → at + length (encode v) < 2 ^ 63
    → encode v ≡ cut ++ mid
    → 0 < length mid
    → drop at src ≡ cut
    → value at ≡ incomplete

elements_wait :
    (fuel m : ℕ) (src : Bytes) (value : ℕ → Parsed RespValue)
    → Reads fuel m src value
    → Waits fuel m src value
    → (vs : Items) (at : ℕ) (cut mid : Bytes) → AreReplies m vs
    → depth_items vs ≤ fuel
    → at + length (encode_items vs) < 2 ^ 63
    → encode_items vs ≡ cut ++ mid
    → 0 < length mid
    → drop at src ≡ cut
    → parse_elements value (count vs) at ≡ incomplete
unfolding parse_elements encode
elements_wait fuel m src value reads waits nil at cut mid h d small e k c =
    absurd (omega (arith, ap length e, length-append cut mid))
elements_wait fuel m src value reads waits (cons v vs) at cut mid (replies h hs) d small e k c =
    elim (split (encode v) (encode_items vs) cut mid e) [
      | inl (mid', k', e') ↦
          rw (waits v at cut mid' h (depth_items_le fuel v vs d).0 room e' k' c) refl
      | inr (cut', c', e') ↦
          rw
            (
              reads v at cut' h (depth_items_le fuel v vs d).0 (c ∙ c'),
              elements_wait fuel m src value reads waits vs (at + length (encode v)) cut' mid hs
                  (depth_items_le fuel v vs d).1
                  (omega (arith, length-append (encode v) (encode_items vs))) e' k
                  (drop_past at src (encode v) cut' (c ∙ c')),
            )
            refl
    ]
  where
    room : at + length (encode v) < 2 ^ 63
    room = omega (arith, length-append (encode v) (encode_items vs))

bulk_waits :
    (src : Bytes) (at : ℕ) (s cut mid : Bytes)
    → at + length (to_string (length s)) + length s + 4 < 2 ^ 63
    → to_string (length s) ++ (crlf ++ (s ++ crlf)) ≡ cut ++ mid
    → 0 < length mid
    → drop at src ≡ cut
    → and_then (read_number src at) (bulk_body src) ≡ incomplete
bulk_waits src at s cut mid small e k c =
    elim (size_cut (length s) src at (s ++ crlf) cut mid (omega arith) e c) [
      | inl r ↦ rw r refl
      | inr (cut', r, e', c', le) ↦ rw r (
          bulk_body_cut s src (at + length (to_string (length s)) + 2) cut' mid (omega arith) le e'
            k c')
    ]

array_body_waits :
    (m : ℕ) (value : ℕ → Parsed RespValue) (vs : Items) (at : ℕ)
    → count vs ≤ m
    → parse_elements value (count vs) at ≡ incomplete
    → array_body m value (pos (count vs)) at ≡ incomplete
unfolding array_body
array_body_waits m value vs at n e = rw e (ground arith)

array-Waits :
    (fuel m : ℕ) (src : Bytes) (value : ℕ → Parsed RespValue)
    → Reads fuel m src value
    → Waits fuel m src value
    → (vs : Items) (at : ℕ) (cut mid : Bytes) → AreReplies m vs
    → count vs ≤ m
    → m < 2 ^ 63
    → depth_items vs ≤ fuel
    → at + length (to_string (count vs)) + 2 + length (encode_items vs) < 2 ^ 63
    → to_string (count vs) ++ (crlf ++ encode_items vs) ≡ cut ++ mid
    → 0 < length mid
    → drop at src ≡ cut
    → and_then (read_number src at) (array_body m value) ≡ incomplete
array-Waits fuel m src value reads waits vs at cut mid h n fits d small e k c =
    elim (size_cut (count vs) src at (encode_items vs) cut mid (omega arith) e c) [
      | inl r ↦ rw r refl
      | inr (cut', r, e', c', le) ↦ rw r (
          array_body_waits m value vs (at + length (to_string (count vs)) + 2) n (
            elements_wait fuel m src value reads waits vs (at + length (to_string (count vs)) + 2)
              cut' mid h d small e' k c'))
    ]

value-Waits :
    (fuel m : ℕ) (src : Bytes)
    → length src < 2 ^ 63
    → m < 2 ^ 63
    → Waits fuel m src (parse_value fuel m src)
unfolding parse_value encode
value-Waits zero m src room fits v at cut mid h d small e k c =
    absurd (omega (arith, depth_positive h))
value-Waits (suc fuel) m src room fits v at [] mid h d small e k c =
    rw (get_elem?-none at src c) refl
value-Waits (suc fuel) m src room fits _ at (x ∷ cut) mid (simple_reply {s = s} h) d small e k c =
    rw
      (
        (typed_cut src at b'+' x (s ++ crlf) cut mid e c).0,
        read_line_cut src (at + 1) s cut mid h (typed_cut src at b'+' x (s ++ crlf) cut mid e c).1 k
            (typed_cut src at b'+' x (s ++ crlf) cut mid e c).2,
      )
      refl
value-Waits (suc fuel) m src room fits _ at (x ∷ cut) mid (error_reply {s = s} h) d small e k c =
    rw
      (
        (typed_cut src at b'-' x (s ++ crlf) cut mid e c).0,
        read_line_cut src (at + 1) s cut mid h (typed_cut src at b'-' x (s ++ crlf) cut mid e c).1 k
            (typed_cut src at b'-' x (s ++ crlf) cut mid e c).2,
      )
      refl
value-Waits (suc fuel) m src room fits _ at (x ∷ cut) mid (integer_reply {n = n} h) d small e k c =
    rw
      (
        (typed_cut src at b':' x (print n ++ crlf) cut mid e c).0,
        read_line_cut src (at + 1) (print n) cut mid (print-IsLine n)
            (typed_cut src at b':' x (print n ++ crlf) cut mid e c).1 k
            (typed_cut src at b':' x (print n ++ crlf) cut mid e c).2,
      )
      refl
value-Waits (suc fuel) m src room fits _ at (x ∷ cut) mid (bulk_reply s) d small e k c =
    rw ((typed_cut src at b'$' x (to_string (length s) ++ (crlf ++ (s ++ crlf))) cut mid e c).0) (
      bulk_waits src (at + 1) s cut mid
        (omega
          (arith, length-append (to_string (length s)) (crlf ++ (s ++ crlf)), length-append s crlf))
        (typed_cut src at b'$' x (to_string (length s) ++ (crlf ++ (s ++ crlf))) cut mid e c).1 k
        (typed_cut src at b'$' x (to_string (length s) ++ (crlf ++ (s ++ crlf))) cut mid e c).2)
value-Waits (suc fuel) m src room fits _ at (x ∷ cut) mid (array_reply {vs = vs} n h) d small e k
      c =
    rw ((typed_cut src at b'*' x (to_string (count vs) ++ (crlf ++ encode_items vs)) cut mid e c).0)
      (array-Waits fuel m src (parse_value fuel m src) (value-Reads fuel m src room fits)
        (value-Waits fuel m src room fits) vs (at + 1) cut mid h n fits
        (unfold depth in omega arith)
        (omega (arith, length-append (to_string (count vs)) (crlf ++ encode_items vs)))
        (typed_cut src at b'*' x (to_string (count vs) ++ (crlf ++ encode_items vs)) cut mid e c).1
        k
        (typed_cut src at b'*' x (to_string (count vs) ++ (crlf ++ encode_items vs)) cut mid e c).2)
value-Waits (suc fuel) m src room fits _ at (x ∷ cut) mid null_reply d small e k c =
    rw
      (
        (typed_cut src at b'$' x (b'-' ∷ (b'1' ∷ crlf)) cut mid e c).0,
        read_line_cut src (at + 1) (print (negsuc 0)) cut mid (print-IsLine (negsuc 0))
            (ap (λ t. t ++ crlf) minus_one
              ∙ (typed_cut src at b'$' x (b'-' ∷ (b'1' ∷ crlf)) cut mid e c).1)
            k (typed_cut src at b'$' x (b'-' ∷ (b'1' ∷ crlf)) cut mid e c).2,
      )
      refl

-- A reply of which only a proper beginning has arrived, at the end of the text, is reported as
-- incomplete, wherever it is cut: it is never refused and never taken for a shorter reply. The
-- nesting is within the fuel, and sizes are below 2 ^ 63.
pub parse-encode_cut :
    (fuel m : ℕ) (v : RespValue) (front cut mid : Bytes)
    → IsReply m v
    → depth v ≤ fuel
    → m < 2 ^ 63
    → length front + length (encode v) < 2 ^ 63
    → encode v ≡ cut ++ mid
    → 0 < length mid
    → parse fuel m (front ++ cut) (length front) ≡ incomplete
parse-encode_cut fuel m v front cut mid h d fits small e k =
    value-Waits fuel m (front ++ cut)
      (omega (arith, length-append front cut, ap length e, length-append cut mid)) fits v
      (length front) cut mid h d small e k
      (rw (drop-append_ge (length front) front cut (omega arith), sub_self (length front)) refl)
