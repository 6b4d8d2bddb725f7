-- ===== src/Rpc/Types.antt =====
-- src/app/rpc/RpcServer.cpp: the enumerations, the constants and `RpcContext`.
use simple_redis_client.Prelude.{ℕ, Bytes, []}

pub data ParserStatus : Type 0 where
  soa sob type request_id error_code service_len service_name : ParserStatus
  func_len func_name param_len param_string eob eoc : ParserStatus

pub data ParserResult : Type 0 where
  complete waiting error : ParserResult

-- `enum ErrorCode : char`
abbrev pub err_bad_request : ℕ
err_bad_request = 1

abbrev pub err_bad_internal : ℕ
err_bad_internal = 3

abbrev pub err_unknown_function : ℕ
err_unknown_function = 100

abbrev pub err_unknown_param : ℕ
err_unknown_param = 101

abbrev pub err_unknown_response : ℕ
err_unknown_response = 102

-- `enum RequestType : char`
abbrev pub request : ℕ
request = 1

abbrev pub response : ℕ
response = 2

abbrev pub req_error : ℕ
req_error = 3

abbrev pub magic0 : ℕ
magic0 = 0x0a

abbrev pub magic1 : ℕ
magic1 = 0x0b

abbrev pub magic2 : ℕ
magic2 = 0x0c

pub record RpcContext : Type 0 where
  pub status : ParserStatus
  pub result : ParserResult
  pub request_id : ℕ
  pub service_name : Bytes
  pub func_name : Bytes
  pub params : Bytes
  pub buffer : Bytes

-- The constructor `RpcContext()`.
abbrev pub fresh : RpcContext
fresh = record {
  status = soa;
  result = waiting;
  request_id = 0;
  service_name = [];
  func_name = [];
  params = [];
  buffer = [];
}

-- `reset_message` leaves `status` and `result` alone.
abbrev pub reset_message : RpcContext → RpcContext
reset_message c = record c {
  request_id = 0;
  service_name = [];
  func_name = [];
  params = [];
  buffer = [];
}
