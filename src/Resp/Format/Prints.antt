-- ===== src/Resp/Format/Prints.antt =====
-- Every value that `RESP_Parser` of src/app/redis/redis.h returns has the payload of its type, so
-- `formatResponse` prints it.
use simple_redis_client.Prelude.{
  ℕ, zero, suc, ◌+◌, ◌≡◌, ◌∙◌, refl, ap, subst, Bool, true, false, not, ◌||◌, Option, none, some,
  Bytes, [], length, ltb, ◌==◌, get_elem?, if◌then◌else◌,
}
use simple_redis_client.Prelude.Int.{ℤ}
use simple_redis_client.Resp.Types.{
  simple_string, error, array, RespValue, resp, str, arr, Items, nil, cons,
}
use simple_redis_client.Resp.Parser.{
  Parsed, ok, incomplete, failed, stuck, and_then, read_line, read_number, bulk_body, is_minus_one,
  add_size, to_size, crlf_at, parse_elements, rounds, array_body, parse_typed, typed_at,
  parse_value, parse,
}
use simple_redis_client.Resp.Format.{array_text, element_text, format_response, format_elements}

abbrev Prints : RespValue → Type 0
Prints v = (indent : ℕ) → (t : Bytes) × (format_response v indent ≡ some t)

abbrev AllPrint : Items → Type 0
AllPrint vs = (i indent : ℕ) → (t : Bytes) × (format_elements vs i indent ≡ some t)

-- What holds of the result, where there is one.
abbrev Gives {ℓ} : {A : Type ℓ} → (A → Type 0) → Parsed A → Type 0
Gives p (ok a after) = p a
Gives p incomplete = Unit
Gives p failed = Unit
Gives p stuck = Unit

Gives-and_then {ℓ κ} :
    {A : Type ℓ} {B : Type κ} (p : B → Type 0) (r : Parsed A) (f : A → ℕ → Parsed B)
    → ((a : A) (after : ℕ) → Gives p (f a after))
    → Gives p (and_then r f)
Gives-and_then p (ok a after) f h = h a after
Gives-and_then p incomplete f h = tt
Gives-and_then p failed f h = tt
Gives-and_then p stuck f h = tt

nil-AllPrint : AllPrint nil
unfolding format_response
nil-AllPrint i indent = ([], refl)

cons-AllPrint : (v : RespValue) (vs : Items) → Prints v → AllPrint vs → AllPrint (cons v vs)
unfolding format_response
cons-AllPrint v vs h hs i indent =
    let (t, e) = h (indent + 2) in
    let (u, f) = hs (suc i) indent in
    (
      _,
      ap (λ o. element_text i indent o (format_elements vs (suc i) indent)) e
          ∙ ap (element_text i indent (some t)) f,
    )

array-Prints : (vs : Items) → AllPrint vs → Prints (resp array (arr vs))
unfolding format_response
array-Prints nil h indent = (_, refl)
array-Prints (cons v vs) h indent =
    let (t, e) = h 0 indent in (_, ap (array_text indent (cons v vs)) e)

elements-Gives :
    (value : ℕ → Parsed RespValue) (n at : ℕ)
    → ((p : ℕ) → Gives Prints (value p))
    → Gives AllPrint (parse_elements value n at)
unfolding parse_elements
elements-Gives value zero at h = nil-AllPrint
elements-Gives value (suc n) at h =
    first (value at) (h at) (λ after. elements-Gives value n after h)
  where
    rest :
        (v : RespValue)
        → Prints v
        → (r : Parsed Items) → Gives AllPrint r
        → Gives AllPrint (and_then r (λ vs last. ok (cons v vs) last))
    rest v p (ok vs last) ps = cons-AllPrint v vs p ps
    rest v p incomplete ps = tt
    rest v p failed ps = tt
    rest v p stuck ps = tt

    first :
        (r : Parsed RespValue)
        → Gives Prints r
        → ((after : ℕ) → Gives AllPrint (parse_elements value n after))
        → Gives AllPrint (
            and_then r
              (λ v after. and_then (parse_elements value n after) (λ vs last. ok (cons v vs) last)))
    first (ok v after) p ps = rest v p (parse_elements value n after) (ps after)
    first incomplete p ps = tt
    first failed p ps = tt
    first stuck p ps = tt

line-Gives :
    (src : Bytes) (at : ℕ) (f : Bytes → RespValue)
    → ((s : Bytes) → Prints (f s))
    → Gives Prints (and_then (read_line src at) (λ s after. ok (f s) after))
line-Gives src at f h = Gives-and_then Prints (read_line src at) _ (λ s after. h s)

if-Gives :
    (b : Bool) (x y : Parsed RespValue)
    → Gives Prints x
    → Gives Prints y
    → Gives Prints (if b then x else y)
if-Gives true x y h k = h
if-Gives false x y h k = k

bulk-Gives : (src : Bytes) (len : ℤ) (at : ℕ) → Gives Prints (bulk_body src len at)
unfolding bulk_body format_response
bulk-Gives src len at =
    if-Gives (is_minus_one len) _ _ (λ indent. (_, refl))
      (if-Gives (ltb (length src) (add_size at (to_size len))) _ _ tt (
        if-Gives
          (ltb (length src) (add_size (add_size at (to_size len)) 2)
            || not (crlf_at src (add_size at (to_size len))))
          _ _ tt (λ indent. (_, refl))))

array-Gives :
    (m : ℕ) (value : ℕ → Parsed RespValue) (len : ℤ) (at : ℕ)
    → ((p : ℕ) → Gives Prints (value p))
    → Gives Prints (array_body m value len at)
unfolding array_body
array-Gives m value len at h = if-Gives (is_minus_one len) _ _ (array-Prints nil nil-AllPrint) (
    if-Gives (ltb m (to_size len)) _ _ tt
      (whole (parse_elements value (rounds len) at) (elements-Gives value (rounds len) at h)))
  where
    whole :
        (r : Parsed Items)
        → Gives AllPrint r
        → Gives Prints (and_then r (λ vs last. ok (resp array (arr vs)) last))
    whole (ok vs last) p = array-Prints vs p
    whole incomplete p = tt
    whole failed p = tt
    whole stuck p = tt

typed-Gives :
    (m : ℕ) (value : ℕ → Parsed RespValue) (kind : ℕ) (src : Bytes) (at : ℕ)
    → ((p : ℕ) → Gives Prints (value p))
    → Gives Prints (parse_typed m value kind src at)
unfolding format_response
typed-Gives m value kind src at h =
    if-Gives (kind == b'+') _ _
      (line-Gives src at (λ s. resp simple_string (str s)) (λ s indent. (_, refl)))
      (if-Gives (kind == b'-') _ _
        (line-Gives src at (λ s. resp error (str s)) (λ s indent. (_, refl)))
        (if-Gives (kind == b':') _ _
          (Gives-and_then Prints (read_number src at) _ (λ n after indent. (_, refl)))
          (if-Gives (kind == b'$') _ _
            (Gives-and_then Prints (read_number src at) _ (λ n after. bulk-Gives src n after))
            (if-Gives (kind == b'*') _ _
              (Gives-and_then Prints (read_number src at) _
                (λ n after. array-Gives m value n after h))
              tt))))

value-Gives : (fuel m : ℕ) (src : Bytes) (at : ℕ) → Gives Prints (parse_value fuel m src at)
unfolding parse_value
value-Gives zero m src at = tt
value-Gives (suc fuel) m src at = found (get_elem? src at) (λ p. value-Gives fuel m src p)
  where
    found :
        (kind : Option ℕ)
        → ((p : ℕ) → Gives Prints (parse_value fuel m src p))
        → Gives Prints (typed_at m (λ p. parse_value fuel m src p) kind src at)
    found none h = tt
    found (some kind) h = typed-Gives m (λ p. parse_value fuel m src p) kind src (at + 1) h

-- Whatever the text, a value that the parser returns has the payload of its type throughout, its
-- elements included: printing it gives a text at every indentation and does not throw.
pub parse-Prints :
    (fuel m : ℕ) (src : Bytes) (at : ℕ) (v : RespValue) (after indent : ℕ)
    → parse fuel m src at ≡ ok v after
    → (t : Bytes) × (format_response v indent ≡ some t)
parse-Prints fuel m src at v after indent e =
    subst (Gives Prints) e (value-Gives fuel m src at) indent
