-- ===== src/Resp/Parser.antt =====
-- src/app/redis/redis.h: `RESP_Parser`, on the text `src` and a position in it.
use simple_redis_client.Prelude.{
  ℕ, zero, suc, ◌+◌, ◌-◌, ◌%◌, ◌^◌, Bool, false, not, ◌&&◌, ◌||◌, Option, none, some, Bytes, [],
  ◌∷◌, length, take, drop, get_elem?, ltb, ◌==◌, if◌then◌else◌,
}
use simple_redis_client.Prelude.Int.{ℤ, pos, negsuc}
use simple_redis_client.Resp.Types.{
  simple_string, error, integer, bulk_string, array, null, RespValue, resp, str, int, arr, Items,
  nil, cons,
}
use simple_redis_client.Resp.Number.{stoll}

-- How a call ends: with a value and the new position, with `IncompleteRESPException`, with another
-- `std::exception`, or not within the fuel. On an exception the caller sets the position itself.
pub data Parsed {ℓ} (A : Type ℓ) : Type ℓ where
  ok : A → ℕ → Parsed A
  incomplete : Parsed A
  failed : Parsed A
  stuck : Parsed A

abbrev pub and_then {ℓ κ} : {A : Type ℓ} {B : Type κ} → Parsed A → (A → ℕ → Parsed B) → Parsed B
and_then (ok a at) f = f a at
and_then incomplete f = incomplete
and_then failed f = failed
and_then stuck f = stuck

-- A signed length as a `std::size_t`, and sums of sizes.
abbrev pub to_size : ℤ → ℕ
to_size (pos n) = n
to_size (negsuc n) = 2 ^ 64 - suc n

abbrev pub add_size : ℕ → ℕ → ℕ
add_size a b = (a + b) % 2 ^ 64

abbrev pub starts_lf : Bytes → Bool
starts_lf [] = false
starts_lf (d ∷ t) = d == b'\n'

-- `data.find("\r\n", pos)`, on the bytes from `at` on.
unfoldable pub find_crlf : ℕ → Bytes → Option ℕ
find_crlf at [] = none
find_crlf at (c ∷ s) =
    let later = find_crlf (suc at) s in if c == b'\r' && starts_lf s then some at else later

abbrev pub line_to : Bytes → ℕ → Option ℕ → Parsed Bytes
line_to src at none = incomplete
line_to src at (some end) = ok (take (end - at) (drop at src)) (end + 2)

unfoldable pub read_line : Bytes → ℕ → Parsed Bytes
unfolding find_crlf
read_line src at = line_to src at (find_crlf at (drop at src))

-- `std::stoll` on a line, its exceptions included.
abbrev pub number : Option ℤ → ℕ → Parsed ℤ
number none at = failed
number (some n) at = ok n at

abbrev pub read_number : Bytes → ℕ → Parsed ℤ
read_number src at = and_then (read_line src at) (λ line after. number (stoll line) after)

abbrev pub parse_simple_string : Bytes → ℕ → Parsed RespValue
parse_simple_string src at =
    and_then (read_line src at) (λ line after. ok (resp simple_string (str line)) after)

abbrev pub parse_error : Bytes → ℕ → Parsed RespValue
parse_error src at = and_then (read_line src at) (λ line after. ok (resp error (str line)) after)

abbrev pub parse_integer : Bytes → ℕ → Parsed RespValue
parse_integer src at = and_then (read_number src at) (λ n after. ok (resp integer (int n)) after)

abbrev pub is_minus_one : ℤ → Bool
is_minus_one (pos n) = false
is_minus_one (negsuc n) = n == 0

abbrev pub is_byte : Option ℕ → ℕ → Bool
is_byte none c = false
is_byte (some d) c = d == c

-- `data[pos] == '\r' && data[pos+1] == '\n'`, which the source negates.
abbrev pub crlf_at : Bytes → ℕ → Bool
crlf_at src at = is_byte (get_elem? src at) b'\r' && is_byte (get_elem? src (at + 1)) b'\n'

-- The length is signed and is added to the unsigned position with a wrap.
unfoldable pub bulk_body : Bytes → ℤ → ℕ → Parsed RespValue
bulk_body src len at =
    let end = add_size at (to_size len) in
    let content = take (to_size len) (drop at src) in
    if is_minus_one len
    then ok (resp null (str [])) at
    else if ltb (length src) end
    then incomplete
    else if ltb (length src) (add_size end 2) || not (crlf_at src end)
    then incomplete
    else ok (resp bulk_string (str content)) (add_size end 2)

abbrev pub parse_bulk_string : Bytes → ℕ → Parsed RespValue
parse_bulk_string src at = and_then (read_number src at) (bulk_body src)

-- `for (long long i = 0; i < len; ++i)`, with `parse_value` as an argument.
unfoldable pub parse_elements : (ℕ → Parsed RespValue) → ℕ → ℕ → Parsed Items
parse_elements value zero at = ok nil at
parse_elements value (suc n) at =
    and_then (value at)
      (λ v after. and_then (parse_elements value n after) (λ vs last. ok (cons v vs) last))

abbrev pub rounds : ℤ → ℕ
rounds (pos n) = n
rounds (negsuc n) = 0

-- `max_elements` is how many elements `elements.reserve` accepts; above that it throws.
unfoldable pub array_body : ℕ → (ℕ → Parsed RespValue) → ℤ → ℕ → Parsed RespValue
unfolding parse_elements
array_body max_elements value len at =
    if is_minus_one len
    then ok (resp array (arr nil)) at
    else if ltb max_elements (to_size len)
    then failed
    else and_then (parse_elements value (rounds len) at) (λ vs last. ok (resp array (arr vs)) last)

abbrev pub parse_array : ℕ → (ℕ → Parsed RespValue) → Bytes → ℕ → Parsed RespValue
parse_array max_elements value src at =
    and_then (read_number src at) (array_body max_elements value)

-- The switch on the type byte.
abbrev pub parse_typed : ℕ → (ℕ → Parsed RespValue) → ℕ → Bytes → ℕ → Parsed RespValue
parse_typed max_elements value kind src at =
    if kind == b'+'
    then parse_simple_string src at
    else if kind == b'-'
    then parse_error src at
    else if kind == b':'
    then parse_integer src at
    else if kind == b'$'
    then parse_bulk_string src at
    else if kind == b'*'
    then parse_array max_elements value src at
    else failed

abbrev pub typed_at : ℕ → (ℕ → Parsed RespValue) → Option ℕ → Bytes → ℕ → Parsed RespValue
typed_at max_elements value none src at = incomplete
typed_at max_elements value (some kind) src at = parse_typed max_elements value kind src (at + 1)

-- The fuel bounds the nesting of arrays, which the source leaves to the call stack.
unfoldable pub parse_value : ℕ → ℕ → Bytes → ℕ → Parsed RespValue
unfolding read_line bulk_body array_body
parse_value zero max_elements src at = stuck
parse_value (suc fuel) max_elements src at =
    typed_at max_elements (λ p. parse_value fuel max_elements src p) (get_elem? src at) src at

-- `RESP_Parser::parse(data, pos)`.
abbrev pub parse : ℕ → ℕ → Bytes → ℕ → Parsed RespValue
parse = parse_value
