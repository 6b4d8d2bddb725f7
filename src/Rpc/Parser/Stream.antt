-- ===== src/Rpc/Parser/Stream.antt =====
-- src/app/rpc/RpcServer.cpp: `parse` on a stream that arrives in pieces.
use simple_redis_client.Prelude.{
  ℕ, zero, suc, ◌-◌, ◌≤◌, ◌<◌, ◌≡◌, ◌∙◌, refl, sym, ap, inl, inr, some, Bytes, [], ◌∷◌, ◌++◌,
  length, append-nil, length-drop, min, Option-cases, arith,
}
use simple_redis_client.Rpc.Types.{
  ParserStatus, soa, request_id, service_name, func_name, param_len, param_string, ParserResult,
  complete, waiting, error, RpcContext, magic0,
}
use simple_redis_client.Rpc.Wire.{push_back, read_u32_be}
use simple_redis_client.Rpc.Parser.{
  Round, next, stop, memchr, read_fixed, VarRead, oversized, partial, full, read_var, first, switch,
  parse_loop, max_rounds, round_rest,
}
use simple_redis_client.Rpc.Parser.Rounds.{rank, Advances, switch-Advances, Round-cases}
use simple_redis_client.Rpc.Parser.Split.{switch-append}

pub memchr-le :
    (b : ℕ) (xs p : Bytes) → memchr b xs ≡ some p → (1 ≤ length p) × (length p ≤ length xs)
unfolding memchr
memchr-le b [] p e = cc
memchr-le b (x ∷ xs) p e = ground (arith, memchr-le b xs p)

read_fixed-le : (need : ℕ) (buffer src : Bytes) → length (read_fixed need buffer src).1 ≤ length src
unfolding read_fixed
read_fixed-le need buffer [] = omega arith
read_fixed-le need buffer (b ∷ src) = ground (arith, read_fixed-le need (push_back buffer b) src)

abbrev var_rest : VarRead → Bytes
var_rest oversized = []
var_rest (partial out rest) = rest
var_rest (full out rest) = rest

read_var-le : (len : ℕ) (out src : Bytes) → length (var_rest (read_var len out src)) ≤ length src
unfolding read_var
read_var-le len out src = ground (arith, length-drop (min (len - length out) (length src)) src)

-- No round gives bytes back, one that goes on keeps `result`, and one from `soa` takes a byte.
abbrev pub Takes : RpcContext → Bytes → Round → Type 0
Takes c src (next c' rest) = (length rest ≤ length src) × (c'.result ≡ c.result)
Takes c src (stop c' rest) = length rest ≤ length src

pub switch-Takes : (s : ParserStatus) (c : RpcContext) (src : Bytes) → Takes c src (switch s c src)
unfolding switch
switch-Takes soa c src = elim (Option-cases (memchr magic0 src)) [
  | inl e ↦ rw (e, switch) (omega arith)
  | inr (p, e) ↦ rw (e, switch) (ground (arith, memchr-le magic0 src p, length-drop 1 p))
]
switch-Takes request_id c src = ground (arith, read_fixed-le 8 c.buffer src)
switch-Takes param_len c src = ground (arith, read_fixed-le 4 c.buffer src)
switch-Takes service_name c src = ground (arith, read_var-le (first c.buffer) c.service_name src)
switch-Takes func_name c src = ground (arith, read_var-le (first c.buffer) c.func_name src)
switch-Takes param_string c src = ground (arith, read_var-le (read_u32_be c.buffer) c.params src)
switch-Takes s c [] = ground arith
switch-Takes s c (b ∷ src) = ground arith

pub parse_loop-le :
    (fuel : ℕ) (c : RpcContext) (src : Bytes)
    → length (round_rest (parse_loop fuel c src)) ≤ length src
unfolding parse_loop
parse_loop-le zero c src = omega arith
parse_loop-le (suc fuel) c [] = omega arith
parse_loop-le (suc fuel) c (b ∷ src) = elim (Round-cases (switch c.status c (b ∷ src))) [
  | inl (c', rest, e) ↦
      let t : Takes c (b ∷ src) (next c' rest) = rw e at (switch-Takes c.status c (b ∷ src)) in
      rw (e, parse_loop) (omega (arith, parse_loop-le fuel c' rest))
  | inr (c', rest, e) ↦
      let t : Takes c (b ∷ src) (stop c' rest) = rw e at (switch-Takes c.status c (b ∷ src)) in
      rw (e, parse_loop) t
]

-- More fuel than rounds changes nothing.
parse_loop-fuel :
    (f g : ℕ) (c : RpcContext) (src : Bytes)
    → rank c.status < f
    → rank c.status < g
    → parse_loop f c src ≡ parse_loop g c src
unfolding parse_loop
parse_loop-fuel zero g c src hf hg = absurd (omega arith)
parse_loop-fuel (suc f) zero c src hf hg = absurd (omega arith)
parse_loop-fuel (suc f) (suc g) c [] hf hg = refl
parse_loop-fuel (suc f) (suc g) c (b ∷ src) hf hg =
    elim (Round-cases (switch c.status c (b ∷ src))) [
      | inl (c', rest, e) ↦
          let a : Advances c.status (next c' rest) =
            rw e at (switch-Advances c.status c (b ∷ src) refl) in
          rw (e, parse_loop) (parse_loop-fuel f g c' rest (omega arith) (omega arith))
      | inr (c', rest, e) ↦ rw (e, parse_loop)
    ]

abbrev pub resume_loop_stop : ParserResult → RpcContext → Bytes → Bytes → Round
resume_loop_stop waiting c rest ys = parse_loop max_rounds c ys
resume_loop_stop _ c rest ys = stop c (rest ++ ys)

abbrev pub resume_loop : Round → Bytes → Round
resume_loop (next c rest) ys = next c (rest ++ ys)
resume_loop (stop c rest) ys = resume_loop_stop c.result c rest ys

pub rank-lt : (s : ParserStatus) → rank s < max_rounds
rank-lt s = ground arith

pub with_waiting : (c : RpcContext) → c.result ≡ waiting → record c { result = waiting } ≡ c
with_waiting c w = ground arith

module _ (fuel : ℕ) (c c' : RpcContext) (x : ℕ) (xs : Bytes) where
  loop_next :
      {rest : Bytes}
      → switch c.status c (x ∷ xs) ≡ next c' rest
      → parse_loop (suc fuel) c (x ∷ xs) ≡ parse_loop fuel c' rest
  unfolding parse_loop
  loop_next e = rw (e, parse_loop)

  loop_stop :
      {rest : Bytes}
      → switch c.status c (x ∷ xs) ≡ stop c' rest
      → parse_loop (suc fuel) c (x ∷ xs) ≡ stop c' rest
  unfolding parse_loop
  loop_stop e = rw (e, parse_loop)

  loop_same :
      (y : ℕ) (ys : Bytes)
      → switch c.status c (x ∷ xs) ≡ switch c'.status c' (y ∷ ys)
      → parse_loop (suc fuel) c (x ∷ xs) ≡ parse_loop (suc fuel) c' (y ∷ ys)
  unfolding parse_loop
  loop_same y ys e = rw (e, parse_loop)

-- A round that stops, on more input.
stop-append :
    (fuel : ℕ) (c c' : RpcContext) (x : ℕ) (xs rest ys : Bytes)
    → rank c.status < suc fuel
    → c.result ≡ waiting
    → switch c.status c (x ∷ xs) ≡ stop c' rest
    → Advances c.status (stop c' rest)
    → (res : ParserResult) → c'.result ≡ res
    → parse_loop (suc fuel) c (x ∷ (xs ++ ys)) ≡ resume_loop_stop res c' rest ys
stop-append fuel c c' x xs rest [] h w e a waiting r =
    rw append-nil (loop_stop fuel c c' x xs e ∙ unfold parse_loop in ground (arith, a r))
stop-append fuel c c' x xs rest (y ∷ ys) h w e a waiting r =
    let more = switch-append c.status c (x ∷ xs) (y ∷ ys) refl w in
    let same : switch c.status c (x ∷ (xs ++ y ∷ ys)) ≡ switch c'.status c' (y ∷ ys) =
      rw e at more ∙ rw r in
    loop_same fuel c c' x (xs ++ y ∷ ys) y ys same
    ∙ parse_loop-fuel (suc fuel) max_rounds c' (y ∷ ys) (rw (a r).0 h) (rank-lt c'.status)
stop-append fuel c c' x xs rest ys h w e a complete r =
    let more = switch-append c.status c (x ∷ xs) ys refl w in
    loop_stop fuel c c' x (xs ++ ys) (rw e at more ∙ rw r)
stop-append fuel c c' x xs rest ys h w e a error r =
    let more = switch-append c.status c (x ∷ xs) ys refl w in
    loop_stop fuel c c' x (xs ++ ys) (rw e at more ∙ rw r)

pub parse_loop-append :
    (fuel : ℕ) (c : RpcContext) (xs ys : Bytes)
    → rank c.status < fuel
    → c.result ≡ waiting
    → parse_loop fuel c (xs ++ ys) ≡ resume_loop (parse_loop fuel c xs) ys
parse_loop-append zero c xs ys h w = absurd (omega arith)
parse_loop-append (suc fuel) c [] ys h w =
    parse_loop-fuel (suc fuel) max_rounds c ys h (rank-lt c.status)
    ∙ unfold parse_loop in ap (λ k. parse_loop max_rounds k ys) (sym (with_waiting c w))
parse_loop-append (suc fuel) c (x ∷ xs) ys h w = elim (Round-cases (switch c.status c (x ∷ xs))) [
  | inl (c', rest, e) ↦
      let a : Advances c.status (next c' rest) =
        rw e at (switch-Advances c.status c (x ∷ xs) refl) in
      let t : Takes c (x ∷ xs) (next c' rest) = rw e at (switch-Takes c.status c (x ∷ xs)) in
      let more = switch-append c.status c (x ∷ xs) ys refl w in
      rw (loop_next fuel c c' x xs e) (
        loop_next fuel c c' x (xs ++ ys) (rw e at more)
        ∙ parse_loop-append fuel c' rest ys (omega arith) (t.1 ∙ w))
  | inr (c', rest, e) ↦
      let a : Advances c.status (stop c' rest) =
        rw e at (switch-Advances c.status c (x ∷ xs) refl) in
      rw (loop_stop fuel c c' x xs e) (stop-append fuel c c' x xs rest ys h w e a c'.result refl)
]
