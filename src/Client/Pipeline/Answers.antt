-- ===== src/Client/Pipeline/Answers.antt =====
-- The promises that the client settles, and that a call of `read` takes them from the front.
use simple_redis_client.Prelude.{
  ℕ, ◌+◌, ◌≡◌, refl, ap, List, Bytes, [], ◌∷◌, ◌++◌, ltb, Bool-cases, inl, inr,
}
use simple_redis_client.Resp.Types.{RespValue}
use simple_redis_client.Resp.Parser.{Parsed, ok, incomplete, failed, stuck, parse}
use simple_redis_client.Client.{
  Settled, value, to_many_bytes, write_error, Read, returned, overflowed, settle_first, read_loop,
}

-- The promises that were given a value.
abbrev pub answered : List Settled → List ℕ
answered [] = []
answered (value p v ∷ ss) = p ∷ answered ss
answered (other ∷ ss) = answered ss

-- The promises of failed writes.
abbrev pub write_errors : List Settled → List ℕ
write_errors [] = []
write_errors (write_error p ∷ ss) = p ∷ write_errors ss
write_errors (other ∷ ss) = write_errors ss

pub answered-append : (xs ys : List Settled) → answered (xs ++ ys) ≡ answered xs ++ answered ys
answered-append [] ys = refl
answered-append (value p v ∷ xs) ys = ap (◌∷◌ p) (answered-append xs ys)
answered-append (to_many_bytes p ∷ xs) ys = answered-append xs ys
answered-append (write_error p ∷ xs) ys = answered-append xs ys

pub write_errors-append :
    (xs ys : List Settled) → write_errors (xs ++ ys) ≡ write_errors xs ++ write_errors ys
write_errors-append [] ys = refl
write_errors-append (value p v ∷ xs) ys = write_errors-append xs ys
write_errors-append (to_many_bytes p ∷ xs) ys = write_errors-append xs ys
write_errors-append (write_error p ∷ xs) ys = ap (◌∷◌ p) (write_errors-append xs ys)

-- A call of `read` takes the promises that it settles from the front.
abbrev pub IsFromFront : List ℕ → Read → Type 0
IsFromFront ps (returned pos waiting settled) =
    (answered settled ++ waiting ≡ ps) × (write_errors settled ≡ [])
IsFromFront ps overflowed = Unit

settle_first-IsFromFront :
    (p : ℕ) (ps : List ℕ) (r : Read) (v : RespValue)
    → IsFromFront ps r
    → IsFromFront (p ∷ ps) (settle_first p v r)
settle_first-IsFromFront p ps (returned pos waiting settled) v (a, b) = (ap (◌∷◌ p) a, b)
settle_first-IsFromFront p ps overflowed v h = tt

pub read_loop-IsFromFront :
    (fuel m : ℕ) (buf : Bytes) (size : ℕ) (ps : List ℕ) (pos : ℕ)
    → IsFromFront ps (read_loop fuel m buf size ps pos)
unfolding read_loop
read_loop-IsFromFront fuel m buf size [] pos = elim (Bool-cases (ltb pos size)) [
  | inl e ↦ rw e (parsed (parse fuel m buf pos))
  | inr e ↦ rw e (refl, refl)
]
  where
    parsed :
        (r : Parsed RespValue)
        → IsFromFront [] (elim r [
          | ok v after ↦ returned after [] []
          | incomplete ↦ returned pos [] []
          | failed ↦ returned (pos + 1) [] []
          | stuck ↦ overflowed
        ])
    parsed (ok v after) = (refl, refl)
    parsed incomplete = (refl, refl)
    parsed failed = (refl, refl)
    parsed stuck = tt
read_loop-IsFromFront fuel m buf size (p ∷ ps) pos = elim (Bool-cases (ltb pos size)) [
  | inl e ↦ rw e (parsed (read_loop-IsFromFront fuel m buf size ps) (parse fuel m buf pos))
  | inr e ↦ rw e (refl, refl)
]
  where
    parsed :
        ((after : ℕ) → IsFromFront ps (read_loop fuel m buf size ps after))
        → (r : Parsed RespValue)
        → IsFromFront (p ∷ ps) (elim r [
          | ok v after ↦ settle_first p v (read_loop fuel m buf size ps after)
          | incomplete ↦ returned pos (p ∷ ps) []
          | failed ↦ returned (pos + 1) (p ∷ ps) []
          | stuck ↦ overflowed
        ])
    parsed h (ok v after) = settle_first-IsFromFront p ps _ v (h after)
    parsed h incomplete = (refl, refl)
    parsed h failed = (refl, refl)
    parsed h stuck = tt
