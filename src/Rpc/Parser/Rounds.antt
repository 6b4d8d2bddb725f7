-- ===== src/Rpc/Parser/Rounds.antt =====
-- src/app/rpc/RpcServer.cpp: the rounds of the loop of `parse`: it ends, and where it stops to
-- wait it has taken every byte.
use simple_redis_client.Prelude.{
  ℕ, zero, suc, ◌-◌, ◌≤◌, ◌<◌, min, ◌≡◌, refl, Bytes, [], ◌∷◌, ◌++◌, length, length-append, take,
  drop, append-nil, append_assoc, take, drop, take_all, drop_all, length-take, ◌+◌, ◌⊎◌, inl, inr,
  arith,
}
use simple_redis_client.Rpc.Types.{
  ParserStatus, soa, sob, type, request_id, error_code, service_len, service_name, func_len,
  func_name, param_len, param_string, eob, eoc, waiting, RpcContext,
}
use simple_redis_client.Rpc.Wire.{push_back, read_u32_be}
use simple_redis_client.Rpc.Parser.{
  Round, next, stop, read_fixed, oversized, partial, full, read_var, first, switch, parse_loop,
}

-- The rounds that may still follow.
abbrev pub rank : ParserStatus → ℕ
rank soa = 12
rank sob = 11
rank type = 10
rank request_id = 9
rank error_code = 8
rank service_len = 7
rank service_name = 6
rank func_len = 5
rank func_name = 4
rank param_len = 3
rank param_string = 2
rank eob = 1
rank eoc = 0

-- Too few bytes: all of them go to the buffer.
pub read_fixed_short :
    (need : ℕ) (buffer src : Bytes)
    → length (read_fixed need buffer src).0 < need
    → read_fixed need buffer src ≡ (buffer ++ src, [])
unfolding read_fixed
read_fixed_short need buffer [] h = rw append-nil
read_fixed_short need buffer (b ∷ src) h =
    ground (arith, read_fixed_short need (push_back buffer b) src, append_assoc buffer (b ∷ []) src)

-- The three outcomes of `read_var`, each by its condition.
module _ (len : ℕ) (out src : Bytes) where
  pub read_var-oversized : len < length out → read_var len out src ≡ oversized
  unfolding read_var
  read_var-oversized h = ground arith

  pub read_var-partial :
      length out + length src < len → read_var len out src ≡ partial (out ++ src) []
  unfolding read_var
  read_var-partial h =
      let e : min (len - length out) (length src) ≡ length src = omega arith in
      rw (e, take_all (length src) src (omega arith), drop_all (length src) src (omega arith))
        (ground (arith, length-append out src))

  pub read_var-full :
      length out ≤ len
      → len ≤ length out + length src
      → read_var len out src
        ≡ full (out ++ take (len - length out) src) (drop (len - length out) src)
  unfolding read_var
  read_var-full h k =
      let e : min (len - length out) (length src) ≡ len - length out = omega arith in
      rw e (
        ground (
          arith,
          length-append out (take (len - length out) src),
          length-take (len - length out) src,
        ))

-- What holds after each round: a round that goes on has advanced the status, and one that stops
-- to wait has kept it and has read all the input.
abbrev pub Advances : ParserStatus → Round → Type 0
Advances s (next c rest) = rank c.status < rank s
Advances s (stop c rest) = c.result ≡ waiting → (c.status ≡ s) × (rest ≡ [])

pub switch-Advances :
    (s : ParserStatus) (c : RpcContext) (src : Bytes) → c.status ≡ s → Advances s (switch s c src)
unfolding switch read_var
switch-Advances soa c src e = ground arith
switch-Advances request_id c src e = ground (arith, read_fixed_short 8 c.buffer src)
switch-Advances param_len c src e = ground (arith, read_fixed_short 4 c.buffer src)
switch-Advances service_name c src e = ground (
  arith,
  read_var-oversized (first c.buffer) c.service_name src,
  read_var-partial (first c.buffer) c.service_name src,
  read_var-full (first c.buffer) c.service_name src,
)
switch-Advances func_name c src e = ground (
  arith,
  read_var-oversized (first c.buffer) c.func_name src,
  read_var-partial (first c.buffer) c.func_name src,
  read_var-full (first c.buffer) c.func_name src,
)
switch-Advances param_string c src e =
    let len = read_u32_be c.buffer in
    ground (
      arith,
      read_var-oversized len c.params src,
      read_var-partial len c.params src,
      read_var-full len c.params src,
    )
switch-Advances s c src e = ground arith

pub Round-cases :
    (r : Round)
    → ((c : RpcContext) × (rest : Bytes) × (r ≡ next c rest))
      ⊎ ((c : RpcContext) × (rest : Bytes) × (r ≡ stop c rest))
Round-cases (next c rest) = inl (c, rest, refl)
Round-cases (stop c rest) = inr (c, rest, refl)

-- With more rounds than there are states behind the parser's status, the loop stops, by `return`
-- or because the input is used up.
pub parse_loop-stops :
    (fuel : ℕ) (c : RpcContext) (src : Bytes)
    → rank c.status < fuel
    → (c' : RpcContext) × (rest : Bytes) × (parse_loop fuel c src ≡ stop c' rest)
unfolding parse_loop
parse_loop-stops zero c src h = absurd (omega arith)
parse_loop-stops (suc fuel) c [] h = (_, _, refl)
parse_loop-stops (suc fuel) c (b ∷ src) h = elim (Round-cases (switch c.status c (b ∷ src))) [
  | inl (c', rest, e) ↦
      let a : Advances c.status (next c' rest) =
        rw e at (switch-Advances c.status c (b ∷ src) refl) in
      let (d, r, p) = parse_loop-stops fuel c' rest (omega arith) in (d, r, rw (e, parse_loop) p)
  | inr (c', rest, e) ↦ (c', rest, rw (e, parse_loop))
]
