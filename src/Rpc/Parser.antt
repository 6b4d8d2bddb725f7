-- ===== src/Rpc/Parser.antt =====
-- src/app/rpc/RpcServer.cpp: `parse`, the incremental parser of request frames. The byte range
-- [i, end) that is still to be read is the list `src`; `start` is where the first list begins.
pub mod Rounds
pub mod Split
pub mod Stream
pub mod Feed
use simple_redis_client.Prelude.{
  ℕ, zero, suc, ◌-◌, min, Option, none, some, Bytes, [], ◌∷◌, ◌++◌, length, take, drop, ltb, ◌==◌,
  if◌then◌else◌,
}
use simple_redis_client.Rpc.Types.{
  ParserStatus, soa, sob, type, request_id, error_code, service_len, service_name, func_len,
  func_name, param_len, param_string, eob, eoc, complete, waiting, error, request, magic0, magic1,
  magic2, RpcContext, reset_message,
}
use simple_redis_client.Rpc.Wire.{push_back, read_u64_be, read_u32_be}

-- How a round of the loop ends: with the loop's test (`break`) or with a `return`.
pub data Round : Type 0 where
  next : RpcContext → Bytes → Round
  stop : RpcContext → Bytes → Round

abbrev pub round_context : Round → RpcContext
round_context (next c src) = c
round_context (stop c src) = c

abbrev pub round_rest : Round → Bytes
round_rest (next c src) = src
round_rest (stop c src) = src

abbrev pub set_waiting : RpcContext → Bytes → Round
set_waiting c src = stop (record c { result = waiting }) src

abbrev pub set_error : RpcContext → Bytes → Round
set_error c src = let r = reset_message c in stop (record r { result = error; status = soa }) src

-- `std::memchr`: the range from the first such byte on.
unfoldable pub memchr : ℕ → Bytes → Option Bytes
memchr b [] = none
memchr b (x ∷ xs) = if x == b then some (x ∷ xs) else memchr b xs

-- The loop of `read_fixed`: the buffer and what is left of the input.
unfoldable pub read_fixed : ℕ → Bytes → Bytes → Bytes × Bytes
read_fixed need buffer [] = (buffer, [])
read_fixed need buffer (b ∷ src) =
    let rest = read_fixed need (push_back buffer b) src in
    if ltb (length buffer) need then rest else (buffer, b ∷ src)

-- `read_var`: false by `set_error`, false by `set_waiting`, or true.
pub data VarRead : Type 0 where
  oversized : VarRead
  partial : Bytes → Bytes → VarRead
  full : Bytes → Bytes → VarRead

unfoldable pub read_var : ℕ → Bytes → Bytes → VarRead
read_var len out src =
    let took = min (len - length out) (length src) in
    let out' = out ++ take took src in
    if ltb len (length out)
    then oversized
    else if ltb (length out') len
    then partial out' (drop took src)
    else full out' (drop took src)

pub step_soa : RpcContext → Option Bytes → Round
step_soa c none = set_waiting c []
step_soa c (some p) = next (record c { status = sob }) (drop 1 p)

pub step_request_id : RpcContext → Bytes × Bytes → Round
step_request_id c (buffer, src) =
    let filled = record c { buffer = buffer } in
    let id = read_u64_be buffer in
    if ltb (length buffer) 8
    then set_waiting filled src
    else if id == 0
    then set_error filled src
    else next (record c { request_id = id; buffer = []; status = error_code }) src

pub step_service_name : RpcContext → VarRead → Bytes → Round
step_service_name c oversized src = set_error c src
step_service_name c (partial name rest) src = set_waiting (record c { service_name = name }) rest
step_service_name c (full name rest) src =
    next (record c { service_name = name; buffer = []; status = func_len }) rest

pub step_func_name : RpcContext → VarRead → Bytes → Round
step_func_name c oversized src = set_error c src
step_func_name c (partial name rest) src = set_waiting (record c { func_name = name }) rest
step_func_name c (full name rest) src =
    next (record c { func_name = name; buffer = []; status = param_len }) rest

pub step_param_len : RpcContext → Bytes × Bytes → Round
step_param_len c (buffer, src) =
    let filled = record c { buffer = buffer } in
    if ltb (length buffer) 4
    then set_waiting filled src
    else next (record filled { params = []; status = param_string }) src

pub step_param_string : RpcContext → VarRead → Bytes → Round
step_param_string c oversized src = set_error c src
step_param_string c (partial params rest) src = set_waiting (record c { params = params }) rest
step_param_string c (full params rest) src =
    next (record c { params = params; buffer = []; status = eob }) rest

-- `buffer[0]`, on the states that test `buffer.empty()` first.
abbrev pub first : Bytes → ℕ
first [] = 0
first (b ∷ bs) = b

-- The switch, on `context.status`. The loop never enters it with no byte left.
unfoldable pub switch : ParserStatus → RpcContext → Bytes → Round
unfolding step_soa step_request_id step_service_name step_func_name step_param_len step_param_string
switch soa c src = step_soa c (memchr magic0 src)
switch sob c [] = set_waiting c []
switch sob c (b ∷ src) =
    let r = reset_message c in
    if b == magic1 then next (record r { status = type }) src else set_error c (b ∷ src)
switch type c [] = set_waiting c []
switch type c (b ∷ src) =
    if b == request then next (record c { status = request_id }) src else set_error c src
switch request_id c src = step_request_id c (read_fixed 8 c.buffer src)
switch error_code c [] = set_waiting c []
switch error_code c (b ∷ src) =
    if b == 0 then next (record c { status = service_len }) src else set_error c src
switch service_len c [] = set_waiting c []
switch service_len c (b ∷ src) =
    next (record c { service_name = []; buffer = b ∷ []; status = service_name }) src
switch service_name c src =
    if length c.buffer == 0
    then set_error c src
    else step_service_name c (read_var (first c.buffer) c.service_name src) src
switch func_len c [] = set_waiting c []
switch func_len c (b ∷ src) =
    next (record c { func_name = []; buffer = b ∷ []; status = func_name }) src
switch func_name c src =
    if length c.buffer == 0
    then set_error c src
    else step_func_name c (read_var (first c.buffer) c.func_name src) src
switch param_len c src = step_param_len c (read_fixed 4 c.buffer src)
switch param_string c src =
    if ltb (length c.buffer) 4
    then set_error c src
    else step_param_string c (read_var (read_u32_be c.buffer) c.params src) src
switch eob c [] = set_waiting c []
switch eob c (b ∷ src) =
    if b == magic1 then next (record c { status = eoc }) src else set_error c (b ∷ src)
switch eoc c [] = set_waiting c []
switch eoc c (b ∷ src) =
    if b == magic2
    then stop (record c { status = soa; result = complete }) src
    else set_error c (b ∷ src)

-- `while (i < end) switch ...`, and `set_waiting` behind the loop.
unfoldable pub parse_loop : ℕ → RpcContext → Bytes → Round
parse_loop zero c src = next c src
parse_loop (suc fuel) c [] = set_waiting c []
parse_loop (suc fuel) c (b ∷ src) = elim (switch c.status c (b ∷ src)) [
  | next c' rest ↦ parse_loop fuel c' rest
  | stop c' rest ↦ stop c' rest
]

-- A round that does not return advances the status, so the loop has one round for each.
abbrev pub max_rounds : ℕ
max_rounds = 13

abbrev pub run_parser : RpcContext → Bytes → Round
run_parser c src = parse_loop max_rounds (record c { result = waiting }) src

-- `parse(buffer, start, end, parsed, context)` on the bytes [start, end): `parsed` and the context.
unfoldable pub parse : Bytes → RpcContext → ℕ × RpcContext
parse [] c = (0, record c { result = waiting })
parse (b ∷ src) c =
    let r = run_parser c (b ∷ src) in (length (b ∷ src) - length (round_rest r), round_context r)
