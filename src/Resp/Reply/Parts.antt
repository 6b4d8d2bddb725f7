-- ===== src/Resp/Reply/Parts.antt =====
-- The parts of a reply, as src/app/redis/redis.h reads them: numbers, lines, sizes and bodies.
use native.Mathlib.Nat.{sub_self}
use simple_redis_client.Prelude.{
  ℕ, suc, ◌+◌, ◌<◌, ◌≤◌, ◌^◌, ◌≡◌, ◌∙◌, refl, ap, Bytes, some, [], ◌∷◌, ◌++◌, All, length, take,
  drop, get_elem?, take-append_ge, arith, length-append, length-drop, true, append_assoc,
  append-nil,
}
use simple_redis_client.Prelude.Int.{ℤ, pos, negsuc}
use simple_redis_client.Resp.Types.{bulk_string, null, resp, str}
use simple_redis_client.Resp.Number.{to_string}
use simple_redis_client.Resp.Number.RoundTrip.{
  print, IsLongLong, stoll-print, IsDigit, decimal-IsDigit,
}
use simple_redis_client.Resp.Parser.{ok, read_number, bulk_body, add_size, crlf_at}
use simple_redis_client.Resp.Command.{crlf}
use simple_redis_client.Resp.Reply.{IsLine}
use simple_redis_client.Resp.Reply.Lines.{drop_past, get_elem?-drop, read_line_lem}

pub digits-IsLine : (s : Bytes) → All IsDigit s → IsLine s
digits-IsLine [] h = tt
digits-IsLine (c ∷ s) h = (ground arith, digits-IsLine s h.1)

pub print-IsLine : (n : ℤ) → IsLine (print n)
unfolding to_string
print-IsLine (pos n) = digits-IsLine _ (decimal-IsDigit 20 n)
print-IsLine (negsuc n) = (ground arith, digits-IsLine _ (decimal-IsDigit 20 (suc n)))

pub read_number-print :
    (n : ℤ) (src : Bytes) (at : ℕ) (rest : Bytes)
    → IsLongLong n
    → drop at src ≡ print n ++ (crlf ++ rest)
    → read_number src at ≡ ok n (at + length (print n) + 2)
read_number-print n src at rest h e =
    rw (read_line_lem src at (print n) rest (print-IsLine n) e, stoll-print n h) refl

-- A part and the line end behind it.
module _ (src : Bytes) (at : ℕ) (part rest : Bytes) (e : drop at src ≡ part ++ (crlf ++ rest)) where
  pub take_part : take (length part) (drop at src) ≡ part
  take_part =
      rw (e, take-append_ge (length part) part (crlf ++ rest) (omega arith), sub_self (length part))
        (rw append-nil refl)

  pub part_bound : at + length part + 2 ≤ length src
  part_bound = omega (arith, length-drop at src, ap length e, length-append part (crlf ++ rest))

  pub crlf_after : crlf_at src (at + length part) ≡ true
  crlf_after =
      rw
        (
          get_elem?-drop (at + length part) src (b'\n' ∷ rest) b'\r' past,
          get_elem?-drop (at + length part + 1) src rest b'\n'
              (drop_past (at + length part) src (b'\r' ∷ []) (b'\n' ∷ rest) past),
        )
        refl
    where
      past : drop (at + length part) src ≡ b'\r' ∷ (b'\n' ∷ rest)
      past = drop_past at src part (crlf ++ rest) e

pub add_size_small : (a b : ℕ) → a + b < 2 ^ 64 → add_size a b ≡ a + b
add_size_small a b h = omega arith

pub bulk_body_lem :
    (s src : Bytes) (at : ℕ) (rest : Bytes)
    → length src < 2 ^ 63
    → drop at src ≡ s ++ (crlf ++ rest)
    → bulk_body src (pos (length s)) at ≡ ok (resp bulk_string (str s)) (at + length s + 2)
unfolding bulk_body
bulk_body_lem s src at rest h e =
    rw
      (
        take_part src at s rest e,
        add_size_small at (length s) (omega (arith, part_bound src at s rest e)),
        add_size_small (at + length s) 2 (omega (arith, part_bound src at s rest e)),
        crlf_after src at s rest e,
      )
      (ground (arith, part_bound src at s rest e))

-- A digit is no sign, so a length is read as `long long` and taken back unchanged.
pub read_size :
    (n : ℕ) (src : Bytes) (at : ℕ) (rest : Bytes)
    → n < 2 ^ 63
    → drop at src ≡ to_string n ++ (crlf ++ rest)
    → read_number src at ≡ ok (pos n) (at + length (to_string n) + 2)
read_size n src at rest h e = read_number-print (pos n) src at rest h e

pub past_line :
    (src : Bytes) (at : ℕ) (part rest : Bytes)
    → drop at src ≡ part ++ (crlf ++ rest)
    → drop (at + length part + 2) src ≡ rest
past_line src at part rest e =
    drop_past (at + length part) src crlf rest (drop_past at src part (crlf ++ rest) e)

-- The type byte, and what is behind it.
pub typed_reads :
    (src : Bytes) (at c : ℕ) (s rest : Bytes)
    → drop at src ≡ c ∷ (s ++ rest)
    → (get_elem? src at ≡ some c) × (drop (at + 1) src ≡ s ++ rest)
typed_reads src at c s rest e =
    (get_elem?-drop at src (s ++ rest) c e, drop_past at src (c ∷ []) (s ++ rest) e)

pub line_reads :
    (src : Bytes) (at c : ℕ) (s rest : Bytes)
    → drop at src ≡ c ∷ ((s ++ crlf) ++ rest)
    → (get_elem? src at ≡ some c) × (drop (at + 1) src ≡ s ++ (crlf ++ rest))
line_reads src at c s rest e =
    typed_reads src at c s (crlf ++ rest) (e ∙ ap (◌∷◌ c) (append_assoc s crlf rest))

-- A size, a line end and a body: how long the body is, and where it stands.
module _ (src : Bytes) (at c n : ℕ) (body rest : Bytes)
    (e : drop at src ≡ c ∷ ((to_string n ++ (crlf ++ body)) ++ rest)) where
  pub sized : drop (at + 1) src ≡ to_string n ++ (crlf ++ (body ++ rest))
  sized =
      (typed_reads src at c (to_string n ++ (crlf ++ body)) rest e).1
      ∙ append_assoc (to_string n) (crlf ++ body) rest

  pub kind_reads : get_elem? src at ≡ some c
  kind_reads = (typed_reads src at c (to_string n ++ (crlf ++ body)) rest e).0

  pub body_reads : drop (at + 1 + length (to_string n) + 2) src ≡ body ++ rest
  body_reads = past_line src (at + 1) (to_string n) (body ++ rest) sized

  pub body_le : length body ≤ length src
  body_le = omega (
    arith,
    length-drop (at + 1 + length (to_string n) + 2) src,
    ap length body_reads,
    length-append body rest,
  )

  pub sized_length :
      at + 1 + length (to_string n) + 2 + length body
      ≡ at + suc (length (to_string n ++ (crlf ++ body)))
  sized_length = omega (arith, length-append (to_string n) (crlf ++ body))

pub minus_one : print (negsuc 0) ≡ b'-' ∷ (b'1' ∷ [])
unfolding to_string
minus_one = refl

pub bulk_body_null :
    (src : Bytes) (at : ℕ) → bulk_body src (negsuc 0) at ≡ ok (resp null (str [])) at
unfolding bulk_body
bulk_body_null src at = refl
