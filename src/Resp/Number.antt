-- ===== src/Resp/Number.antt =====
-- Decimal numbers of src/app/redis/redis.h: `std::to_string` of a size and `std::stoll`, as the
-- C++ standard defines them.
pub mod RoundTrip
use simple_redis_client.Prelude.{
  ℕ, zero, suc, ◌+◌, ◌-◌, ◌*◌, ◌/◌, ◌%◌, ◌^◌, Bool, true, false, ◌&&◌, ◌||◌, Option, none, some,
  Bytes, [], ◌∷◌, ◌++◌, ltb, leb, ◌==◌, if◌then◌else◌,
}
use simple_redis_client.Prelude.Int.{ℤ, pos, negsuc}

-- The digits of a number below 10 ^ fuel.
unfoldable pub decimal : ℕ → ℕ → Bytes
decimal zero n = []
decimal (suc fuel) n =
    let front = decimal fuel (n / 10) in
    if ltb n 10 then (b'0' + n) ∷ [] else front ++ ((b'0' + n % 10) ∷ [])

-- A `std::size_t` has at most twenty digits.
unfoldable pub to_string : ℕ → Bytes
unfolding decimal
to_string n = decimal 20 n

abbrev pub is_digit : ℕ → Bool
is_digit c = leb b'0' c && leb c b'9'

-- `std::isspace` in the C locale: the blank, and 9 to 13.
abbrev pub is_space : ℕ → Bool
is_space c = c == b' ' || (leb 9 c && leb c 13)

unfoldable pub skip_space : Bytes → Bytes
skip_space [] = []
skip_space (c ∷ s) = let rest = skip_space s in if is_space c then rest else c ∷ s

-- The value of the digits at the front, and whether there are any.
unfoldable pub digits : ℕ → Bytes → ℕ
digits n [] = n
digits n (c ∷ s) = let rest = digits (10 * n + (c - b'0')) s in if is_digit c then rest else n

abbrev pub starts_with_digit : Bytes → Bool
starts_with_digit [] = false
starts_with_digit (c ∷ s) = is_digit c

-- `-n` as a `long long`.
abbrev pub negate : ℕ → ℤ
negate zero = pos 0
negate (suc n) = negsuc n

-- `std::stoll` behind the sign; `none` is an `invalid_argument` or an `out_of_range`.
abbrev pub signed_value : Bool → Bytes → Option ℤ
signed_value minus s =
    let n = digits 0 s in
    if starts_with_digit s
    then (if minus
        then (if leb n (2 ^ 63) then some (negate n) else none)
        else (if ltb n (2 ^ 63) then some (pos n) else none))
    else none

abbrev pub after_sign : Bytes → Option ℤ
after_sign [] = none
after_sign (c ∷ s) =
    if c == b'-'
    then signed_value true s
    else if c == b'+'
    then signed_value false s
    else signed_value false (c ∷ s)

unfoldable pub stoll : Bytes → Option ℤ
unfolding skip_space digits
stoll line = after_sign (skip_space line)
