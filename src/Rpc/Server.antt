-- ===== src/Rpc/Server.antt =====
-- src/app/rpc/RpcServer.cpp: `RpcServerImpl`, the read callback of a connection, the table of
-- handlers and `dispatch`. src/app/rpc/RpcServer.h: the wrappers that `registerFunction` makes.
pub mod Stream
pub mod Cut
pub mod Dispatch
use simple_redis_client.Prelude.{
  ℕ, zero, suc, ◌+◌, Bool, true, false, ◌&&◌, Option, none, some, List, Bytes, [], ◌∷◌, length,
  drop, ◌==◌, if◌then◌else◌, bytes_eq,
}
use simple_redis_client.Rpc.Types.{
  ParserResult, complete, waiting, error, RpcContext, fresh, err_bad_request, err_bad_internal,
  err_unknown_function, err_unknown_param, err_unknown_response,
}
use simple_redis_client.Rpc.Wire.{build_error_response, build_response}
use simple_redis_client.Rpc.Parser.{parse}

-- What the read callback of `acceptClient` does: the bytes it reports as consumed, the parser's
-- context afterwards, the contexts given to the thread pool in order, and whether it closed.
pub record Served : Type 0 where
  pub consumed : ℕ
  pub context : RpcContext
  pub tasks : List RpcContext
  pub closed : Bool

-- One finished context, in front of what the rest of the loop does.
abbrev pub put_task : ℕ → RpcContext → Option Served → Option Served
put_task parsed local none = none
put_task parsed local (some s) =
    some (record s { consumed = parsed + s.consumed; tasks = local ∷ s.tasks })

-- `while (offset < size)`. A finished context is moved out and a new one put in its place.
-- `none` is a loop that has not ended within the fuel.
unfoldable pub serve_loop : ℕ → Bytes → RpcContext → Option Served
serve_loop zero src c = none
serve_loop (suc fuel) [] c = some (record { consumed = 0; context = c; tasks = []; closed = false })
serve_loop (suc fuel) (b ∷ src) c =
    let (parsed, local) = parse (b ∷ src) c in
    let rest = serve_loop fuel (drop parsed (b ∷ src)) fresh in
    elim local.result [
      | waiting ↦ some (record { consumed = parsed; context = local; tasks = []; closed = false })
      | complete ↦ put_task parsed local rest
      | error ↦ put_task parsed local rest
    ]

-- Every round but the first takes a byte.
abbrev pub serve_fuel : Bytes → ℕ
serve_fuel src = suc (suc (length src))

-- The callback; a read of no bytes means that the peer has closed.
unfoldable pub on_read : Bytes → RpcContext → Option Served
on_read [] c = some (record { consumed = 0; context = c; tasks = []; closed = true })
on_read (b ∷ src) c = serve_loop (serve_fuel (b ∷ src)) (b ∷ src) c

-- How a call ends: with a value, or with an exception of one of three classes.
pub data Outcome (A : Type 0) : Type 0 where
  returned : A → Outcome A
  bad_param : Outcome A
  bad_response : Outcome A
  other_exception : Outcome A

abbrev pub RpcHandler : Type 0
RpcHandler = Bytes → Outcome Bytes

-- `handlers_`: a map from pairs of names.
abbrev pub Handlers : Type 0
Handlers = List (Bytes × Bytes × RpcHandler)

unfoldable pub find_handler : Bytes → Bytes → Handlers → Option RpcHandler
find_handler group name [] = none
find_handler group name ((g, n, h) ∷ rest) =
    if bytes_eq g group && bytes_eq n name then some h else find_handler group name rest

-- `handlers_[std::pair{group, name}] = handler`.
unfoldable pub add_handler : Bytes → Bytes → RpcHandler → Handlers → Handlers
add_handler group name handler [] = (group, name, handler) ∷ []
add_handler group name handler ((g, n, h) ∷ rest) =
    if bytes_eq g group && bytes_eq n name
    then (g, n, handler) ∷ rest
    else (g, n, h) ∷ add_handler group name handler rest

-- The `try` block of `dispatch` and its handlers of exceptions.
abbrev pub answer : ℕ → Outcome Bytes → Bytes
answer id (returned res) = build_response res id
answer id bad_param = build_error_response id err_unknown_param
answer id bad_response = build_error_response id err_unknown_response
answer id other_exception = build_error_response id err_bad_internal

abbrev pub answer_call : ℕ → Bytes → Option RpcHandler → Bytes
answer_call id params none = build_error_response id err_unknown_function
answer_call id params (some handler) = answer id (handler params)

-- The bytes that `dispatch` hands to `asyncWriteOnce`. It is never given a waiting context: there
-- the source's assertion fails, and a build without assertions writes an empty response.
abbrev pub response_to : ParserResult → Handlers → RpcContext → Bytes
response_to error hs c = build_error_response c.request_id err_bad_request
response_to complete hs c =
    answer_call c.request_id c.params (find_handler c.service_name c.func_name hs)
response_to waiting hs c = []

unfoldable pub dispatch : Handlers → RpcContext → Bytes
dispatch hs c = response_to c.result hs c

-- The wrappers of `registerFunction`, one for each shape of a service's method. Protobuf's
-- `ParseFromString` and `SerializeToString` are parameters.
abbrev pub serialized : {Ret : Type 0} → (Ret → Option Bytes) → Outcome Ret → Outcome Bytes
serialized serialize (returned ret) = elim (serialize ret) [
  | none ↦ bad_response
  | some out ↦ returned out
]
serialized serialize bad_param = bad_param
serialized serialize bad_response = bad_response
serialized serialize other_exception = other_exception

abbrev pub with_request : {Arg : Type 0} → Option Arg → (Arg → Outcome Bytes) → Outcome Bytes
with_request none func = bad_param
with_request (some req) func = func req

abbrev pub no_bytes : Outcome (Unit {0}) → Outcome Bytes
no_bytes (returned _) = returned []
no_bytes bad_param = bad_param
no_bytes bad_response = bad_response
no_bytes other_exception = other_exception

module _ {Arg Ret : Type 0} (parse_from : Bytes → Option Arg) (serialize : Ret → Option Bytes) where
  abbrev pub wrap_arg_ret : (Arg → Outcome Ret) → RpcHandler
  wrap_arg_ret func buffer =
      with_request (parse_from buffer) (λ req. serialized serialize (func req))

abbrev pub wrap_ret : {Ret : Type 0} → (Ret → Option Bytes) → Outcome Ret → RpcHandler
wrap_ret serialize func buffer = serialized serialize func

abbrev pub wrap_arg :
    {Arg : Type 0} → (Bytes → Option Arg) → (Arg → Outcome (Unit {0})) → RpcHandler
wrap_arg parse_from func buffer = with_request (parse_from buffer) (λ req. no_bytes (func req))

abbrev pub wrap_none : Outcome (Unit {0}) → RpcHandler
wrap_none func buffer = no_bytes func
