-- ===== src/Rpc/Server/Dispatch.antt =====
-- src/app/rpc/RpcServer.cpp: the response frames, and which of them `dispatch` writes.
use simple_redis_client.Prelude.{
  ℕ, zero, suc, ◌+◌, ◌%◌, ◌^◌, ◌<◌, ◌≡◌, ◌≢◌, ◌∙◌, refl, inl, inr, ◌&&◌, Option, none, some, Bytes,
  [], ◌∷◌, ◌++◌, length, length-append, append_assoc, take, drop, take-append_le, take_all,
  bytes_eq, bytes_eq_iff, if◌then◌else◌, arith,
}
use simple_redis_client.Rpc.Types.{
  ParserStatus, ParserResult, complete, waiting, error, RpcContext, magic0, magic1, magic2,
  response, req_error, err_bad_request,
}
use simple_redis_client.Rpc.Wire.{build_response, build_error_response, read_u64_be, read_u32_be}
use simple_redis_client.Rpc.Wire.BigEndian.{
  big_endian, append_u64_be-big_endian, append_u32_be-big_endian, read_u32_be-big_endian,
  read_u64_be-big_endian,
}
use simple_redis_client.Rpc.Parser.{Round, next, stop, switch, parse_loop, parse, max_rounds}
use simple_redis_client.Rpc.Parser.Rounds.{Round-cases}
use simple_redis_client.Rpc.Parser.Stream.{Takes, switch-Takes}
use simple_redis_client.Rpc.Parser.Feed.{final, parse_run}
use simple_redis_client.Rpc.Server.{
  Outcome, returned, bad_param, bad_response, other_exception, RpcHandler, Handlers, find_handler,
  add_handler, answer, answer_call, response_to, dispatch,
}

-- The layout of a response: type, request id, error code, length and body between the magic bytes.
abbrev pub response_frame : ℕ → ℕ → ℕ → Bytes → Bytes
response_frame kind id code body =
    magic0
    ∷ magic1
    ∷ kind
    ∷ (big_endian 8 id
        ++ (code ∷ (big_endian 4 (length body % 2 ^ 32) ++ (body ++ (magic1 ∷ magic2 ∷ [])))))

build_response-frame :
    (body : Bytes) (id : ℕ) → build_response body id ≡ response_frame response id 0 body
unfolding build_response
build_response-frame body id =
    simp (append_u64_be-big_endian, append_u32_be-big_endian, append_assoc)

build_error_response-frame :
    (id code : ℕ) → build_error_response id code ≡ response_frame req_error id code []
unfolding build_error_response
build_error_response-frame id code =
    simp (append_u64_be-big_endian, append_u32_be-big_endian, append_assoc)

-- A client that reads a response at the offsets of the protocol finds the request's id, the length
-- of the body and the body, when the id fits 64 bits and the length fits 32 bits.
pub response_reads_back :
    (body : Bytes) (id : ℕ)
    → id < 2 ^ 64
    → length body < 2 ^ 32
    → (length (build_response body id) ≡ 18 + length body)
      × (read_u64_be (drop 3 (build_response body id)) ≡ id)
      × (read_u32_be (drop 12 (build_response body id)) ≡ length body)
      × (take (length body) (drop 16 (build_response body id)) ≡ body)
response_reads_back body id h k = rw build_response-frame (
  omega (arith, length-append body (magic1 ∷ magic2 ∷ [])),
  read_u64_be-big_endian id _ h,
  read_u32_be-big_endian (length body % 2 ^ 32) _ (omega arith) ∙ omega arith,
  take-append_le (length body) body (magic1 ∷ magic2 ∷ []) (omega arith)
      ∙ take_all (length body) body (omega arith),
)

-- `parse` reports an error only on a context that `reset_message` has emptied.
abbrev Blank : Round → Type 0
Blank (next c rest) = Unit
Blank (stop c rest) = c.result ≡ error → c.request_id ≡ 0

switch-Blank :
    (s : ParserStatus) (c : RpcContext) (src : Bytes) → c.result ≡ waiting → Blank (switch s c src)
unfolding switch
switch-Blank s c [] w = ground arith
switch-Blank s c (b ∷ src) w = ground arith

next_waits :
    (c c' : RpcContext) (src rest : Bytes)
    → switch c.status c src ≡ next c' rest
    → c.result ≡ waiting
    → c'.result ≡ waiting
next_waits c c' src rest e w =
    let t : Takes c src (next c' rest) = rw e at (switch-Takes c.status c src) in t.1 ∙ w

-- Likewise of the loop, and of `parse`.
parse_loop-Blank :
    (fuel : ℕ) (c : RpcContext) (src : Bytes) → c.result ≡ waiting → Blank (parse_loop fuel c src)
unfolding parse_loop
parse_loop-Blank zero c src w = tt
parse_loop-Blank (suc fuel) c [] w = λ e. cc
parse_loop-Blank (suc fuel) c (b ∷ src) w = elim (Round-cases (switch c.status c (b ∷ src))) [
  | inl (c', rest, e) ↦
      rw (e, parse_loop) (parse_loop-Blank fuel c' rest (next_waits c c' (b ∷ src) rest e w))
  | inr (c', rest, e) ↦ rw (e, parse_loop) (rw e at (switch-Blank c.status c (b ∷ src) w))
]

parse-blank :
    (src : Bytes) (c : RpcContext) → (parse src c).1.result ≡ error → (parse src c).1.request_id ≡ 0
parse-blank src c h =
    let f = final src c in
    let e = parse_run src c f.ran in
    let b : Blank (stop f.last f.rest) =
      rw f.ran at (parse_loop-Blank max_rounds (record c { result = waiting }) src refl) in
    rw e (b (rw e at h))

-- What `dispatch` finds out of a context.
pub data Verdict : Type 0 where
  unparsed unknown : Verdict
  called : Outcome Bytes → Verdict

abbrev pub verdict_of_call : Option RpcHandler → Bytes → Verdict
verdict_of_call none params = unknown
verdict_of_call (some h) params = called (h params)

abbrev pub verdict : ParserResult → Handlers → RpcContext → Verdict
verdict complete hs c = verdict_of_call (find_handler c.service_name c.func_name hs) c.params
verdict _ hs c = unparsed

-- The table of error codes in the README.
abbrev pub code_of : Verdict → ℕ
code_of unparsed = 1
code_of unknown = 100
code_of (called (returned b)) = 0
code_of (called bad_param) = 101
code_of (called bad_response) = 102
code_of (called other_exception) = 3

abbrev pub kind_of : Verdict → ℕ
kind_of (called (returned b)) = 2
kind_of _ = 3

abbrev pub body_of : Verdict → Bytes
body_of (called (returned b)) = b
body_of _ = []

answer-frame :
    (id : ℕ) (o : Outcome Bytes)
    → answer id o ≡ response_frame (kind_of (called o)) id (code_of (called o)) (body_of (called o))
answer-frame id (returned b) = build_response-frame b id
answer-frame id bad_param = build_error_response-frame id 101
answer-frame id bad_response = build_error_response-frame id 102
answer-frame id other_exception = build_error_response-frame id 3

answer_call-frame :
    (id : ℕ) (params : Bytes) (o : Option RpcHandler)
    → let v = verdict_of_call o params in
      answer_call id params o ≡ response_frame (kind_of v) id (code_of v) (body_of v)
answer_call-frame id params none = build_error_response-frame id 100
answer_call-frame id params (some h) = answer-frame id (h params)

response_to-frame :
    (r : ParserResult) (hs : Handlers) (c : RpcContext)
    → r ≢ waiting
    → let v = verdict r hs c in
      response_to r hs c ≡ response_frame (kind_of v) c.request_id (code_of v) (body_of v)
response_to-frame waiting hs c h = absurd (h refl)
response_to-frame complete hs c h =
    answer_call-frame c.request_id c.params (find_handler c.service_name c.func_name hs)
response_to-frame error hs c h = build_error_response-frame c.request_id 1

-- Every finished context, one that was refused included, is answered by one frame: it carries the
-- request id that stands in the context, the code and the type that the protocol assigns to the
-- outcome, and the handler's bytes where it returned.
pub dispatch-frame :
    (hs : Handlers) (c : RpcContext)
    → c.result ≢ waiting
    → dispatch hs c
      ≡ response_frame
          (kind_of (verdict c.result hs c))
          c.request_id
          (code_of (verdict c.result hs c))
          (body_of (verdict c.result hs c))
unfolding dispatch
dispatch-frame hs c h = response_to-frame c.result hs c h

-- A request that `parse` refuses is answered with request id 0, whatever id its bytes carried.
dispatch_refused :
    (hs : Handlers) (src : Bytes) (c : RpcContext)
    → (parse src c).1.result ≡ error
    → dispatch hs (parse src c).1 ≡ response_frame req_error 0 err_bad_request []
unfolding dispatch
dispatch_refused hs src c h = rw (h, build_error_response-frame, parse-blank src c h)

-- The table of handlers is a map: what was added last under a pair of names is found under it,
-- and every other pair is found as before.
find_handler-add_handler :
    (g n g' n' : Bytes) (h : RpcHandler) (hs : Handlers)
    → find_handler g n (add_handler g' n' h hs)
      ≡ (if bytes_eq g' g && bytes_eq n' n then some h else find_handler g n hs)
unfolding find_handler add_handler
find_handler-add_handler g n g' n' h [] = refl
find_handler-add_handler g n g' n' h ((a, b, k) ∷ hs) = ground (
  arith,
  bytes_eq_iff g' g,
  bytes_eq_iff n' n,
  bytes_eq_iff a g,
  bytes_eq_iff b n,
  bytes_eq_iff a g',
  bytes_eq_iff b n',
  find_handler-add_handler g n g' n' h hs,
)
