-- ===== src/Resp/Number/RoundTrip.antt =====
-- `std::stoll` reads what `std::to_string` prints (src/app/redis/redis.h).
use native.Mathlib.Nat.{pow-suc}
use simple_redis_client.Prelude.{
  ℕ, zero, suc, ◌+◌, ◌-◌, ◌*◌, ◌/◌, ◌%◌, ◌^◌, ◌≤◌, ◌<◌, ◌≡◌, ◌∙◌, ap, inl, inr, true, some, Bytes,
  [], ◌∷◌, ◌++◌, All, All-append, length, length-append, Bool-cases, ltb, arith,
}
use simple_redis_client.Prelude.Int.{ℤ, pos, negsuc}
use simple_redis_client.Resp.Number.{
  decimal, to_string, is_digit, skip_space, digits, negate, signed_value, stoll,
}

abbrev pub IsDigit : ℕ → Type 0
IsDigit c = is_digit c ≡ true

pub decimal-IsDigit : (f n : ℕ) → All IsDigit (decimal f n)
unfolding decimal
decimal-IsDigit zero n = tt
decimal-IsDigit (suc f) n = elim (Bool-cases (ltb n 10)) [
  | inl h ↦ rw h (ground arith, tt)
  | inr h ↦
      rw h
        (All-append IsDigit (decimal f (n / 10)) _ (decimal-IsDigit f (n / 10)) (ground arith, tt))
]

digits_snoc :
    (acc d : ℕ) (s : Bytes)
    → All IsDigit s
    → IsDigit d
    → digits acc (s ++ (d ∷ [])) ≡ 10 * digits acc s + (d - b'0')
unfolding digits
digits_snoc acc d [] h k = rw k
digits_snoc acc d (c ∷ s) h k = rw h.0 (digits_snoc (10 * acc + (c - b'0')) d s h.1 k)

digits-decimal : (f n : ℕ) → n < 10 ^ f → digits 0 (decimal f n) ≡ n
unfolding decimal
digits-decimal zero n h = unfold digits in omega arith
digits-decimal (suc f) n h = elim (Bool-cases (ltb n 10)) [
  | inl k ↦ rw k (unfold digits in ground arith)
  | inr k ↦ rw k (
      digits_snoc 0 (b'0' + n % 10) (decimal f (n / 10)) (decimal-IsDigit f (n / 10)) (ground arith)
      ∙ omega (arith, digits-decimal f (n / 10) (ground (arith, pow-suc 10 f))))
]

decimal-length : (f n : ℕ) → n < 10 ^ f → 0 < f → 0 < length (decimal f n)
unfolding decimal
decimal-length zero n h k = absurd (omega arith)
decimal-length (suc f) n h k = elim (Bool-cases (ltb n 10)) [
  | inl e ↦ rw e (omega arith)
  | inr e ↦ rw e (omega (arith, length-append (decimal f (n / 10)) ((b'0' + n % 10) ∷ [])))
]

pub skip_space_shut : (c : ℕ) (s : Bytes) → 32 < c → skip_space (c ∷ s) ≡ c ∷ s
unfolding skip_space
skip_space_shut c s h = ground arith

stoll-digits :
    (s : Bytes)
    → All IsDigit s
    → 0 < length s
    → digits 0 s < 2 ^ 63
    → stoll s ≡ some (pos (digits 0 s))
unfolding stoll
stoll-digits [] h k f = absurd (omega arith)
stoll-digits (c ∷ s) h k f = rw (skip_space_shut c s (ground arith)) (ground arith)

signed_digits :
    (s : Bytes)
    → All IsDigit s
    → 0 < length s
    → digits 0 s ≤ 2 ^ 63
    → signed_value true s ≡ some (negate (digits 0 s))
signed_digits [] h k f = absurd (omega arith)
signed_digits (c ∷ s) h k f = ground arith

stoll_minus :
    (s : Bytes)
    → All IsDigit s
    → 0 < length s
    → digits 0 s ≤ 2 ^ 63
    → stoll (b'-' ∷ s) ≡ some (negate (digits 0 s))
unfolding stoll
stoll_minus s h k f = signed_digits s h k f

-- The text of a `long long`.
abbrev pub print : ℤ → Bytes
print (pos n) = to_string n
print (negsuc n) = b'-' ∷ to_string (suc n)

abbrev pub IsLongLong : ℤ → Type 0
IsLongLong (pos n) = n < 2 ^ 63
IsLongLong (negsuc n) = n < 2 ^ 63

pub stoll-print : (n : ℤ) → IsLongLong n → stoll (print n) ≡ some n
unfolding to_string
stoll-print (pos n) h =
    stoll-digits (decimal 20 n) (decimal-IsDigit 20 n)
      (decimal-length 20 n (omega arith) (omega arith))
      (omega (arith, digits-decimal 20 n (omega arith)))
    ∙ ap (λ m. some (pos m)) (digits-decimal 20 n (omega arith))
stoll-print (negsuc n) h =
    stoll_minus (decimal 20 (suc n)) (decimal-IsDigit 20 (suc n))
      (decimal-length 20 (suc n) (omega arith) (omega arith))
      (omega (arith, digits-decimal 20 (suc n) (omega arith)))
    ∙ ap (λ m. some (negate m)) (digits-decimal 20 (suc n) (omega arith))
