-- ===== src/Resp/Format.antt =====
-- src/app/redis/redis.h: `formatResponse`, which the client calls on every reply for its log.
pub mod Prints
use simple_redis_client.Prelude.{
  ℕ, zero, suc, ◌+◌, Option, none, some, Bytes, [], ◌∷◌, ◌++◌, replicate, codes,
}
use simple_redis_client.Prelude.Int.{ℤ}
use simple_redis_client.Resp.Types.{
  simple_string, error, integer, bulk_string, array, null, RespValue, resp, str, int, arr, Items,
  nil, cons,
}
use simple_redis_client.Resp.Number.{to_string}
use simple_redis_client.Resp.Number.RoundTrip.{print}

abbrev pub size : Items → ℕ
size nil = 0
size (cons v vs) = suc (size vs)

-- `oss << prefix << ... << "\n"`.
abbrev pub line : ℕ → Bytes → Bytes
line indent text = replicate indent b' ' ++ (text ++ (b'\n' ∷ []))

abbrev pub bulk_text : Bytes → Bytes
bulk_text [] = codes "(nil)"
bulk_text (c ∷ s) = codes "(bulk) " ++ (c ∷ s)

abbrev pub array_text : ℕ → Items → Option Bytes → Option Bytes
array_text indent nil elements = some (line indent (codes "(empty array)"))
array_text indent (cons v vs) none = none
array_text indent (cons v vs) (some text) =
    some (line indent (codes "(array) size=" ++ to_string (size (cons v vs))) ++ text)

abbrev pub element_text : ℕ → ℕ → Option Bytes → Option Bytes → Option Bytes
element_text i indent none rest = none
element_text i indent (some text) none = none
element_text i indent (some text) (some rest) =
    some (replicate indent b' ' ++ (codes "  " ++ (to_string i ++ (codes ") " ++ (text ++ rest)))))

-- A payload that is not of the type throws `std::bad_variant_access`, which is `none`.
unfoldable mutual
  pub format_response : RespValue → ℕ → Option Bytes
  format_response (resp simple_string (str s)) indent = some (line indent (codes "(string) " ++ s))
  format_response (resp error (str s)) indent = some (line indent (codes "(error) " ++ s))
  format_response (resp integer (int n)) indent = some (line indent (codes "(integer) " ++ print n))
  format_response (resp bulk_string (str s)) indent = some (line indent (bulk_text s))
  format_response (resp array (arr vs)) indent = array_text indent vs (format_elements vs 0 indent)
  format_response (resp null d) indent = some (line indent (codes "(null)"))
  format_response _ indent = none

  -- The loop over the elements, from index `i` on.
  pub format_elements : Items → ℕ → ℕ → Option Bytes
  format_elements nil i indent = some []
  format_elements (cons v vs) i indent =
      element_text i indent (format_response v (indent + 2)) (format_elements vs (suc i) indent)
