-- ===== src/Rpc/Parser/Split.antt =====
-- src/app/rpc/RpcServer.cpp: `parse` does not depend on how the stream is cut into reads.
use simple_redis_client.Prelude.{
  ℕ, ◌+◌, ◌-◌, ◌≤◌, ◌<◌, ◌≡◌, refl, ◌⊎◌, inl, inr, none, some, Bytes, [], ◌∷◌, ◌++◌, length,
  length-append, append-nil, append_assoc, take-append_le, take-append_ge, drop-append_le,
  drop-append_ge, arith,
}
use simple_redis_client.Rpc.Types.{
  ParserStatus, soa, sob, type, request_id, error_code, service_len, service_name, func_len,
  func_name, param_len, param_string, eob, eoc, ParserResult, waiting, RpcContext, magic0,
}
use simple_redis_client.Rpc.Wire.{push_back, read_u32_be}
use simple_redis_client.Rpc.Parser.{
  Round, next, stop, memchr, read_fixed, VarRead, oversized, partial, full, read_var, first, switch,
}
use simple_redis_client.Rpc.Parser.Rounds.{
  read_fixed_short, read_var-oversized, read_var-partial, read_var-full,
}

memchr-append :
    (b : ℕ) (xs ys : Bytes)
    → memchr b (xs ++ ys) ≡ elim (memchr b xs) [ none ↦ memchr b ys | some p ↦ some (p ++ ys) ]
unfolding memchr
memchr-append b [] ys = refl
memchr-append b (x ∷ xs) ys = ground (arith, memchr-append b xs ys)

memchr-ne-nil : (b : ℕ) (xs : Bytes) → memchr b xs ≡ some [] → ⊥
unfolding memchr
memchr-ne-nil b [] e = cc
memchr-ne-nil b (x ∷ xs) e = ground (arith, memchr-ne-nil b xs)

read_fixed-append_short :
    (need : ℕ) (buffer xs ys : Bytes)
    → length (read_fixed need buffer xs).0 < need
    → read_fixed need buffer (xs ++ ys) ≡ read_fixed need (buffer ++ xs) ys
unfolding read_fixed
read_fixed-append_short need buffer [] ys h = rw append-nil
read_fixed-append_short need buffer (x ∷ xs) ys h = ground (
  arith,
  read_fixed-append_short need (push_back buffer x) xs ys,
  append_assoc buffer (x ∷ []) xs,
)

read_fixed-append_full :
    (need : ℕ) (buffer xs ys : Bytes)
    → need ≤ length (read_fixed need buffer xs).0
    → read_fixed need buffer (xs ++ ys)
      ≡ ((read_fixed need buffer xs).0, (read_fixed need buffer xs).1 ++ ys)
unfolding read_fixed
read_fixed-append_full need buffer [] [] h = refl
read_fixed-append_full need buffer [] (y ∷ ys) h = ground arith
read_fixed-append_full need buffer (x ∷ xs) ys h =
    ground (arith, read_fixed-append_full need (push_back buffer x) xs ys)

-- A read of `xs ++ ys`, from the read of `xs`.
abbrev resume_var : ℕ → VarRead → Bytes → VarRead
resume_var len oversized ys = oversized
resume_var len (partial out rest) ys = read_var len out ys
resume_var len (full out rest) ys = full out (rest ++ ys)

-- The three ranges of the length.
var_cases : (len l x : ℕ) → (len < l) ⊎ ((l + x < len) ⊎ ((l ≤ len) × (len ≤ l + x)))
var_cases len l x = omega arith

read_var-append :
    (len : ℕ) (out xs ys : Bytes)
    → read_var len out (xs ++ ys) ≡ resume_var len (read_var len out xs) ys
read_var-append len out xs ys = elim (var_cases len (length out) (length xs)) [
  | inl h ↦ rw (read_var-oversized len out xs h, read_var-oversized len out (xs ++ ys) h)
  | inr (inl h) ↦ rw (read_var-partial len out xs h) (later h)
  | inr (inr (h, k)) ↦ rw (
    read_var-full len out xs h k,
    read_var-full len out (xs ++ ys) h (omega (arith, length-append xs ys)),
    take-append_le (len - length out) xs ys (omega arith),
    drop-append_le (len - length out) xs ys (omega arith),
  )
]
  where
    later : length out + length xs < len → read_var len out (xs ++ ys) ≡ read_var len (out ++ xs) ys
    later h = elim (var_cases len (length out + length xs) (length ys)) [
      | inl k ↦ absurd (omega arith)
      | inr (inl k) ↦ rw (
        read_var-partial len out (xs ++ ys) (omega (arith, length-append xs ys)),
        read_var-partial len (out ++ xs) ys (omega (arith, length-append out xs)),
        append_assoc,
      )
      | inr (inr (k, m)) ↦
          rw
            (
              read_var-full len out (xs ++ ys) (omega arith) (omega (arith, length-append xs ys)),
              read_var-full len (out ++ xs) ys (omega (arith, length-append out xs))
                  (omega (arith, length-append out xs)),
              take-append_ge (len - length out) xs ys (omega arith),
              drop-append_ge (len - length out) xs ys (omega arith),
              append_assoc,
            )
            (ground (arith, length-append out xs))
    ]

-- More input neither causes nor mends an oversized field.
oversized-append :
    (len : ℕ) (out xs ys : Bytes)
    → read_var len out (xs ++ ys) ≡ oversized
    → read_var len out xs ≡ oversized
unfolding read_var
oversized-append len out xs ys e = ground arith

-- A round on `xs ++ ys`, from the round on `xs`: a wait is taken up where it was left.
abbrev pub resume_stop : ParserResult → RpcContext → Bytes → Bytes → Round
resume_stop waiting c rest ys = switch c.status c ys
resume_stop _ c rest ys = stop c (rest ++ ys)

abbrev pub resume : Round → Bytes → Round
resume (next c rest) ys = next c (rest ++ ys)
resume (stop c rest) ys = resume_stop c.result c rest ys

pub switch-append :
    (s : ParserStatus) (c : RpcContext) (xs ys : Bytes)
    → c.status ≡ s
    → c.result ≡ waiting
    → switch s c (xs ++ ys) ≡ resume (switch s c xs) ys
unfolding switch
switch-append soa c xs ys e w = ground (arith, memchr-append magic0 xs ys, memchr-ne-nil magic0 xs)
switch-append sob c [] ys e w = ground arith
switch-append sob c (x ∷ xs) ys e w = ground arith
switch-append type c [] ys e w = ground arith
switch-append type c (x ∷ xs) ys e w = ground arith
switch-append request_id c xs ys e w = ground (
  arith,
  read_fixed_short 8 c.buffer xs,
  read_fixed-append_short 8 c.buffer xs ys,
  read_fixed-append_full 8 c.buffer xs ys,
)
switch-append error_code c [] ys e w = ground arith
switch-append error_code c (x ∷ xs) ys e w = ground arith
switch-append service_len c [] ys e w = ground arith
switch-append service_len c (x ∷ xs) ys e w = ground arith
switch-append service_name c xs ys e w = ground (
  arith,
  read_var-append (first c.buffer) c.service_name xs ys,
  oversized-append (first c.buffer) c.service_name xs ys,
)
switch-append func_len c [] ys e w = ground arith
switch-append func_len c (x ∷ xs) ys e w = ground arith
switch-append func_name c xs ys e w = ground (
  arith,
  read_var-append (first c.buffer) c.func_name xs ys,
  oversized-append (first c.buffer) c.func_name xs ys,
)
switch-append param_len c xs ys e w = ground (
  arith,
  read_fixed_short 4 c.buffer xs,
  read_fixed-append_short 4 c.buffer xs ys,
  read_fixed-append_full 4 c.buffer xs ys,
)
switch-append param_string c xs ys e w = ground (
  arith,
  read_var-append (read_u32_be c.buffer) c.params xs ys,
  oversized-append (read_u32_be c.buffer) c.params xs ys,
)
switch-append eob c [] ys e w = ground arith
switch-append eob c (x ∷ xs) ys e w = ground arith
switch-append eoc c [] ys e w = ground arith
switch-append eoc c (x ∷ xs) ys e w = ground arith
