-- ===== src/Resp/Reply/Lines.antt =====
-- What `read_line` of src/app/redis/redis.h gives at the start of a line, and how a position moves
-- over a part of the text.
use native.Mathlib.Nat.{sub_self, zero-add, suc-add, add-sub_cancel_left}
use native.Mathlib.Numerals.{unary_clauses}
use simple_redis_client.Prelude.{
  append-nil, ℕ, zero, suc, ◌+◌, ◌≡◌, ◌∙◌, refl, ap, Bytes, List, some, [], ◌∷◌, ◌++◌, length, drop,
  get_elem?, drop-append_ge, take-append_ge, arith,
}
use simple_redis_client.Resp.Parser.{ok, find_crlf, read_line}
use simple_redis_client.Resp.Command.{crlf}
use simple_redis_client.Resp.Reply.{IsLine}

module _ {ℓ} {A : Type ℓ} where
  pub drop-drop : (n m : ℕ) (xs : List A) → drop (n + m) xs ≡ drop m (drop n xs)
  drop-drop zero m xs = ap (λ k. drop k xs) (zero-add m)
  drop-drop (suc n) zero [] = simp unary_clauses refl
  drop-drop (suc n) (suc m) [] = simp unary_clauses refl
  drop-drop (suc n) m (x ∷ xs) = ap (λ k. drop k (x ∷ xs)) (suc-add n m) ∙ drop-drop n m xs

  -- The position after a part that was read.
  pub drop_past :
      (n : ℕ) (xs part rest : List A) → drop n xs ≡ part ++ rest → drop (n + length part) xs ≡ rest
  drop_past n xs part rest h =
      rw
        (
          drop-drop n (length part) xs,
          h,
          drop-append_ge (length part) part rest (omega arith),
          sub_self (length part),
        )
        refl

  pub get_elem?-drop :
      (n : ℕ) (xs rest : List A) (c : A) → drop n xs ≡ c ∷ rest → get_elem? xs n ≡ some c
  get_elem?-drop zero [] rest c h = ground arith
  get_elem?-drop zero (x ∷ xs) rest c h = ground arith
  get_elem?-drop (suc n) [] rest c h = ground arith
  get_elem?-drop (suc n) (x ∷ xs) rest c h = get_elem?-drop n xs rest c h

pub find_crlf_line :
    (at : ℕ) (line rest : Bytes)
    → IsLine line
    → find_crlf at (line ++ (crlf ++ rest)) ≡ some (at + length line)
unfolding find_crlf
find_crlf_line at [] rest h = ground arith
find_crlf_line at (c ∷ line) rest h = ground (arith, find_crlf_line (suc at) line rest h.1)

pub read_line_lem :
    (src : Bytes) (at : ℕ) (line rest : Bytes)
    → IsLine line
    → drop at src ≡ line ++ (crlf ++ rest)
    → read_line src at ≡ ok line (at + length line + 2)
unfolding read_line
read_line_lem src at line rest h e =
    rw
      (
        e,
        find_crlf_line at line rest h,
        add-sub_cancel_left at (length line),
        e,
        take-append_ge (length line) line (crlf ++ rest) (omega arith),
        sub_self (length line),
      )
      (rw append-nil refl)
