-- ===== src/Rpc/Tests.antt =====
-- src/app/rpc/RpcServer.cpp: concrete runs of the server's parser and of `dispatch`, and the
-- theorems at concrete inputs.
use simple_redis_client.Prelude.{
  ◌+◌, ◌≡◌, refl, some, false, Bytes, [], ◌∷◌, take, drop, codes, arith,
}
use simple_redis_client.Rpc.Types.{service_name, waiting, RpcContext, fresh}
use simple_redis_client.Rpc.Wire.{read_u64_be, read_u32_be, build_response}
use simple_redis_client.Rpc.Parser.{parse, parse_loop, switch, memchr, read_fixed, read_var}
use simple_redis_client.Rpc.Frame.{Request, IsRequest, frame_onto, completed}
use simple_redis_client.Rpc.Frame.Accept.{parse-frame}
use simple_redis_client.Rpc.Server.{
  returned, RpcHandler, Handlers, Served, on_read, serve_loop, find_handler, dispatch,
}
use simple_redis_client.Rpc.Server.Stream.{on_read_total}
use simple_redis_client.Rpc.Server.Cut.{on_read-append, after}
use simple_redis_client.Rpc.Server.Dispatch.{response_frame, response_reads_back, dispatch-frame}

abbrev hello : Request
hello = record {
  id = 258;
  service = codes "HelloService";
  func = codes "hello";
  params = codes "hi";
}

hello-IsRequest : IsRequest hello
hello-IsRequest = record {
  id_ne_zero = omega arith;
  id_fits = omega arith;
  service_fits = omega arith;
  func_fits = omega arith;
  params_fits = omega arith;
}

-- A byte before the frame, and one behind it.
abbrev noisy : Bytes
noisy = 7 ∷ frame_onto hello (9 ∷ [])

parse-noisy : parse noisy fresh ≡ (40, completed hello)
unfolding parse parse_loop switch memchr read_fixed read_var read_u64_be read_u32_be
parse-noisy = refl

parse-frame_example : parse noisy fresh ≡ (1 + 39, completed hello)
parse-frame_example = parse-frame (7 ∷ []) (9 ∷ []) hello (omega arith) hello-IsRequest

-- The first 20 bytes end inside the service's name.
abbrev front : Bytes
front = take 20 noisy

abbrev inside : RpcContext
inside = record fresh {
  status = service_name;
  request_id = 258;
  service_name = codes "HelloS";
  buffer = 12 ∷ [];
}

parse-front : parse front fresh ≡ (20, inside)
unfolding parse parse_loop switch memchr read_fixed read_var read_u64_be read_u32_be
parse-front = refl

on_read_total_example :
    (s : Served) × (on_read front inside ≡ some s) × (s.consumed ≡ 20) × (s.closed ≡ false)
on_read_total_example = on_read_total 7 (take 19 (frame_onto hello (9 ∷ []))) inside

abbrev served_front : Served
served_front = record { consumed = 20; context = inside; tasks = []; closed = false }

abbrev served_back : Served
served_back = record {
  consumed = 21;
  context = record fresh { result = waiting };
  tasks = completed hello ∷ [];
  closed = false;
}

on_read-front : on_read front fresh ≡ some served_front
unfolding on_read serve_loop parse parse_loop switch memchr read_fixed read_var read_u64_be
    read_u32_be
on_read-front = refl

on_read-back : on_read (drop 20 noisy) inside ≡ some served_back
unfolding on_read serve_loop parse parse_loop switch memchr read_fixed read_var read_u64_be
    read_u32_be
on_read-back = refl

on_read-append_example : on_read noisy fresh ≡ some (after served_front served_back)
on_read-append_example =
    on_read-append 7 b'e' (take 19 (frame_onto hello (9 ∷ []))) (drop 21 noisy) fresh served_front
      served_back on_read-front on_read-back

response_reads_back_example : read_u64_be (drop 3 (build_response (codes "world") 258)) ≡ 258
response_reads_back_example =
    (response_reads_back (codes "world") 258 (omega arith) (omega arith)).1

abbrev echo : RpcHandler
echo params = returned params

abbrev handlers : Handlers
handlers = (codes "HelloService", codes "hello", echo) ∷ []

dispatch-frame_example : dispatch handlers (completed hello) ≡ response_frame 2 258 0 (codes "hi")
unfolding find_handler
dispatch-frame_example = dispatch-frame handlers (completed hello) (λ e. cc)
