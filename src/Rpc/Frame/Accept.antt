-- ===== src/Rpc/Frame/Accept.antt =====
-- src/app/rpc/RpcServer.cpp: `parse` reads every well-formed request frame.
use simple_redis_client.Prelude.{
  ℕ, suc, ◌+◌, ◌^◌, ◌≤◌, ◌<◌, ◌≡◌, ◌≢◌, ◌∙◌, refl, ap, some, Bytes, [], ◌∷◌, ◌++◌, length,
  length-append, append_assoc, append-nil, take-append_ge, drop-append_ge, arith,
}
use native.Mathlib.Nat.{sub-zero, sub_self}
use simple_redis_client.Rpc.Types.{
  soa, sob, type, request_id, error_code, service_len, service_name, func_len, func_name, param_len,
  param_string, eob, eoc, complete, RpcContext, fresh, magic0, magic1, magic2, request,
}
use simple_redis_client.Rpc.Wire.BigEndian.{
  big_endian, read_u32_be-big_endian, read_u64_be-big_endian,
}
use simple_redis_client.Rpc.Parser.{
  next, stop, memchr, read_fixed, full, read_var, switch, parse_loop, run_parser, parse,
}
use simple_redis_client.Rpc.Parser.Rounds.{read_var-full}
use simple_redis_client.Rpc.Parser.Feed.{parse_run}
use simple_redis_client.Rpc.Frame.{
  Request, IsRequest, named, frame_body, frame_onto, frame, completed, IsNoise,
}

memchr_skip :
    (junk src : Bytes) → IsNoise junk → memchr magic0 (junk ++ magic0 ∷ src) ≡ some (magic0 ∷ src)
unfolding memchr
memchr_skip [] src h = refl
memchr_skip (b ∷ junk) src h = ground (arith, memchr_skip junk src h.1)

read_fixed_done :
    (need : ℕ) (buffer src : Bytes)
    → need ≤ length buffer
    → read_fixed need buffer src ≡ (buffer, src)
unfolding read_fixed
read_fixed_done need buffer [] h = refl
read_fixed_done need buffer (b ∷ src) h = ground arith

read_eight : (v : ℕ) (src : Bytes) → read_fixed 8 [] (big_endian 8 v ++ src) ≡ (big_endian 8 v, src)
unfolding read_fixed
read_eight v src = read_fixed_done 8 (big_endian 8 v) src (omega arith)

read_four : (v : ℕ) (src : Bytes) → read_fixed 4 [] (big_endian 4 v ++ src) ≡ (big_endian 4 v, src)
unfolding read_fixed
read_four v src = read_fixed_done 4 (big_endian 4 v) src (omega arith)

read_exact : (s src : Bytes) → read_var (length s) [] (s ++ src) ≡ full s src
read_exact s src =
    read_var-full (length s) [] (s ++ src) (omega arith) (omega (arith, length-append s src))
    ∙ rw
        (
          sub-zero,
          take-append_ge (length s) s src (omega arith),
          drop-append_ge (length s) s src (omega arith),
          sub_self,
        )
        (rw append-nil)

ne-nil : (xs : Bytes) (b : ℕ) (ys : Bytes) → xs ++ b ∷ ys ≢ []
ne-nil [] b ys e = cc
ne-nil (x ∷ xs) b ys e = cc

-- One round of the loop that goes on.
loop_round :
    (fuel : ℕ) (c c' : RpcContext) (src rest : Bytes)
    → src ≢ []
    → switch c.status c src ≡ next c' rest
    → parse_loop (suc fuel) c src ≡ parse_loop fuel c' rest
unfolding parse_loop
loop_round fuel c c' [] rest n e = absurd (n refl)
loop_round fuel c c' (b ∷ src) rest n e = rw (e, parse_loop)

-- From the first magic byte to the error code, which is 0.
head_rounds :
    (junk src : Bytes) (id : ℕ)
    → IsNoise junk
    → id ≢ 0
    → id < 2 ^ 64
    → run_parser fresh (junk ++ (magic0 ∷ magic1 ∷ request ∷ (big_endian 8 id ++ (0 ∷ src))))
      ≡ parse_loop 8 (record fresh { status = service_len; request_id = id }) src
head_rounds junk src id h n f =
    loop_round 12 fresh (record fresh { status = sob })
      (junk ++ (magic0 ∷ magic1 ∷ request ∷ (big_endian 8 id ++ (0 ∷ src))))
      (magic1 ∷ request ∷ (big_endian 8 id ++ (0 ∷ src))) (ne-nil junk _ _)
      (unfold switch in rw (memchr_skip junk _ h))
    ∙ loop_round 11 (record fresh { status = sob }) (record fresh { status = type })
        (magic1 ∷ request ∷ (big_endian 8 id ++ (0 ∷ src)))
        (request ∷ (big_endian 8 id ++ (0 ∷ src))) (λ e. cc) (unfold switch in refl)
    ∙ loop_round 10 (record fresh { status = type }) (record fresh { status = request_id })
        (request ∷ (big_endian 8 id ++ (0 ∷ src))) (big_endian 8 id ++ (0 ∷ src)) (λ e. cc)
        (unfold switch in refl)
    ∙ loop_round 9 (record fresh { status = request_id })
        (record fresh { status = error_code; request_id = id }) (big_endian 8 id ++ (0 ∷ src))
        (0 ∷ src) (λ e. cc)
        (unfold switch in ground (arith, read_eight id (0 ∷ src), read_u64_be-big_endian id []))
    ∙ loop_round 8 (record fresh { status = error_code; request_id = id })
        (record fresh { status = service_len; request_id = id }) (0 ∷ src) src (λ e. cc)
        (unfold switch in refl)

pub frame_onto-append : (r : Request) (more : Bytes) → frame_onto r more ≡ frame r ++ more
frame_onto-append r more = simp append_assoc

-- The two names.
service_rounds :
    (c : RpcContext) (s : Bytes) (b : ℕ) (src : Bytes)
    → c.status ≡ service_len
    → parse_loop 8 c (named s (b ∷ src))
      ≡ parse_loop 6 (record c { status = func_len; service_name = s; buffer = [] }) (b ∷ src)
service_rounds c s b src e =
    loop_round 7 c (record c { status = service_name; service_name = []; buffer = length s ∷ [] }) _
      _ (λ e. cc) (rw e (unfold switch in refl))
    ∙ loop_round 6 (record c { status = service_name; service_name = []; buffer = length s ∷ [] })
        (record c { status = func_len; service_name = s; buffer = [] }) (s ++ b ∷ src) (b ∷ src)
        (ne-nil s b src) (unfold switch in rw read_exact)

func_rounds :
    (c : RpcContext) (s : Bytes) (b : ℕ) (src : Bytes)
    → c.status ≡ func_len
    → parse_loop 6 c (named s (b ∷ src))
      ≡ parse_loop 4 (record c { status = param_len; func_name = s; buffer = [] }) (b ∷ src)
func_rounds c s b src e =
    loop_round 5 c (record c { status = func_name; func_name = []; buffer = length s ∷ [] }) _ _
      (λ e. cc) (rw e (unfold switch in refl))
    ∙ loop_round 4 (record c { status = func_name; func_name = []; buffer = length s ∷ [] })
        (record c { status = param_len; func_name = s; buffer = [] }) (s ++ b ∷ src) (b ∷ src)
        (ne-nil s b src) (unfold switch in rw read_exact)

-- The parameters and the two closing bytes.
body_rounds :
    (c : RpcContext) (r : Request) (more : Bytes)
    → c.status ≡ param_len
    → c.buffer ≡ []
    → length r.params < 2 ^ 32
    → parse_loop 4 c (frame_body r more)
      ≡ stop (record c { status = soa; result = complete; params = r.params; buffer = [] }) more
body_rounds c r more e n f =
    loop_round 3 c sized _ _ (λ e. cc)
      (rw e (unfold switch in rw (n, read_four (length r.params) tail) refl))
    ∙ loop_round 2 sized (record c { status = eob; params = r.params; buffer = [] }) tail
        (magic1 ∷ magic2 ∷ more) (ne-nil r.params _ _)
        (unfold switch in
          ground (
            arith,
            read_u32_be-big_endian (length r.params) [],
            read_exact r.params (magic1 ∷ magic2 ∷ more),
          ))
    ∙ loop_round 1 (record c { status = eob; params = r.params; buffer = [] })
        (record c { status = eoc; params = r.params; buffer = [] }) (magic1 ∷ magic2 ∷ more)
        (magic2 ∷ more) (λ e. cc) (unfold switch in refl)
    ∙ unfold parse_loop switch in refl
  where
    sized : RpcContext
    sized = record c { status = param_string; params = []; buffer = big_endian 4 (length r.params) }

    tail : Bytes
    tail = r.params ++ (magic1 ∷ magic2 ∷ more)

-- A well-formed request frame, after any bytes that are not the first magic byte and with any
-- bytes behind it, is read whole: the call reports its end, and the context holds its fields.
pub parse-frame :
    (junk more : Bytes) (r : Request)
    → IsNoise junk
    → IsRequest r
    → parse (junk ++ frame_onto r more) fresh ≡ (length junk + length (frame r), completed r)
parse-frame junk more r h v =
    parse_run (junk ++ frame_onto r more) fresh whole
    ∙ ground (arith, length-append junk (frame_onto r more), lengths)
  where
    whole : run_parser fresh (junk ++ frame_onto r more) ≡ stop (completed r) more
    whole =
        head_rounds junk _ r.id h v.id_ne_zero v.id_fits
        ∙ service_rounds (record fresh { status = service_len; request_id = r.id }) r.service
            (length r.func) (r.func ++ frame_body r more) refl
        ∙ func_rounds
            (record fresh { status = func_len; request_id = r.id; service_name = r.service }) r.func
            _ _ refl
        ∙ body_rounds
            (record fresh {
              status = param_len;
              request_id = r.id;
              service_name = r.service;
              func_name = r.func;
            })
            r more refl refl v.params_fits

    lengths : length (frame_onto r more) ≡ length (frame r) + length more
    lengths = ap length (frame_onto-append r more) ∙ length-append (frame r) more
