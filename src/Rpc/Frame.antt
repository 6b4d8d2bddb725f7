-- ===== src/Rpc/Frame.antt =====
-- src/app/rpc/RpcServer.cpp, the comment at its head: the layout of a request frame.
pub mod Accept
use simple_redis_client.Prelude.{ℕ, ◌^◌, ◌<◌, ◌≢◌, Bytes, All, IsByte, [], ◌∷◌, ◌++◌, length}
use simple_redis_client.Rpc.Types.{soa, complete, request, magic0, magic1, magic2, RpcContext}
use simple_redis_client.Rpc.Wire.BigEndian.{big_endian}

-- What a client asks for.
pub record Request : Type 0 where
  pub id : ℕ
  pub service : Bytes
  pub func : Bytes
  pub params : Bytes

-- The widths of the fields, and the request id that "cannot be 0".
pub record IsRequest (r : Request) : Type 0 where
  pub id_ne_zero : r.id ≢ 0
  pub id_fits : r.id < 2 ^ 64
  pub service_fits : length r.service < 256
  pub func_fits : length r.func < 256
  pub params_fits : length r.params < 2 ^ 32

-- A length byte, and that many bytes.
abbrev pub named : Bytes → Bytes → Bytes
named s more = length s ∷ (s ++ more)

abbrev pub frame_body : Request → Bytes → Bytes
frame_body r more = big_endian 4 (length r.params) ++ (r.params ++ (magic1 ∷ magic2 ∷ more))

abbrev pub frame_onto : Request → Bytes → Bytes
frame_onto r more =
    magic0
    ∷ magic1
    ∷ request
    ∷ (big_endian 8 r.id ++ (0 ∷ named r.service (named r.func (frame_body r more))))

abbrev pub frame : Request → Bytes
frame r = frame_onto r []

-- The context that holds a whole request.
abbrev pub completed : Request → RpcContext
completed r = record {
  status = soa;
  result = complete;
  request_id = r.id;
  service_name = r.service;
  func_name = r.func;
  params = r.params;
  buffer = [];
}

-- Bytes that a search for the first magic byte passes over.
abbrev pub IsNoise : Bytes → Type 0
IsNoise = All (λ b. b ≢ magic0)
