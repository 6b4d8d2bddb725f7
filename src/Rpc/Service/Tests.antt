-- ===== src/Rpc/Service/Tests.antt =====
-- A run of the server with two clients.
use simple_redis_client.Prelude.{
  ◌⊎◌, false, ℕ, zero, suc, ◌+◌, ◌<◌, ◌^◌, ◌≢◌, ◌≡◌, refl, List, [], ◌∷◌, length, ltb,
  if◌then◌else◌, codes, take, drop, arith,
}
use simple_redis_client.Rpc.Wire.{read_u64_be, read_u32_be}
use simple_redis_client.Rpc.Parser.{parse, parse_loop, switch, memchr, read_fixed, read_var}
use simple_redis_client.Rpc.Frame.{Request, IsRequest, frame_onto, completed}
use simple_redis_client.Rpc.Server.{Handlers, returned, serve_loop}
use simple_redis_client.Rpc.Service.{
  pool_size, Move, accepts, reads, worker_moves, pool_shuts_down, pool_joins, move, run,
  new_service,
}
use simple_redis_client.Rpc.Service.Known.{answers}
use simple_redis_client.Rpc.Service.Answered.{requests_answered, has_ended}
use simple_redis_client.Rpc.Types.{magic0}
use simple_redis_client.Rpc.Service.Clients.{requests_of}
use simple_redis_client.Rpc.Service.Streams.{client_requests}
use simple_redis_client.Pool
use simple_redis_client.Pool.{finished}
use simple_redis_client.Pool.Count.{count, running_count}

abbrev question : ℕ → Request
question id = record { id = id; service = codes "S"; func = codes "f"; params = codes "p" }

abbrev echo : Handlers
echo = (codes "S", codes "f", λ params. returned params) ∷ []

-- Client 4 sends a request in two pieces, client 6 another one, and a third comes too late.
abbrev after_accept : List Move
after_accept =
    accepts 6
    ∷ reads 4 (take 9 (frame_onto (question 1) []))
    ∷ reads 6 (frame_onto (question 2) [])
    ∷ worker_moves 0
    ∷ reads 4 (drop 9 (frame_onto (question 1) []))
    ∷ worker_moves 1
    ∷ worker_moves 1
    ∷ worker_moves 0
    ∷ pool_shuts_down
    ∷ reads 6 (frame_onto (question 3) [])
    ∷ pool_joins
    ∷ worker_moves 0
    ∷ worker_moves 0
    ∷ worker_moves 1
    ∷ worker_moves 1
    ∷ []

abbrev two_clients : List Move
two_clients = accepts 4 ∷ after_accept

run-two_clients :
    ((run echo new_service two_clients).pool.completed ≡ 1 ∷ (0 ∷ []))
    × ((run echo new_service two_clients).dropped ≡ 2 ∷ [])
unfolding run serve_loop parse parse_loop switch memchr read_fixed read_var read_u64_be read_u32_be
    Pool.move
run-two_clients = (refl, refl)

two_clients-finished :
    (i : ℕ) → i < pool_size → (run echo new_service two_clients).pool.workers i ≡ finished
unfolding run serve_loop parse parse_loop switch memchr read_fixed read_var read_u64_be read_u32_be
    Pool.move
two_clients-finished zero h = refl
two_clients-finished (suc zero) h = refl
two_clients-finished (suc (suc i)) h = absurd (omega arith)

requests_answered_example :
    ((run echo new_service two_clients).responses
      ≡ answers echo
          (run echo new_service two_clients).requests
          (run echo new_service two_clients).pool.completed)
    × (count 0 (run echo new_service two_clients).pool.tasks.queue
          + running_count 0 pool_size (run echo new_service two_clients).pool.workers
          + count 0 (run echo new_service two_clients).pool.completed
          + count 0 (run echo new_service two_clients).dropped
        ≡ (if ltb 0 (length (run echo new_service two_clients).requests) then 1 else 0))
    × (((i : ℕ) × (i < pool_size)
          × (has_ended ((run echo new_service two_clients).pool.workers i) ≡ false))
        ⊎ (count 0 (run echo new_service two_clients).pool.completed
              + count 0 (run echo new_service two_clients).dropped
            ≡ (if ltb 0 (length (run echo new_service two_clients).requests) then 1 else 0)))
requests_answered_example = requests_answered echo two_clients 0

question-IsRequest : (id : ℕ) → id ≢ 0 → id < 2 ^ 64 → IsRequest (question id)
question-IsRequest id h k = record {
  id_ne_zero = h;
  id_fits = k;
  service_fits = omega arith;
  func_fits = omega arith;
  params_fits = omega arith;
}

client_requests_example :
    requests_of 4 (run echo (move echo new_service (accepts 4)) after_accept).requests
    ≡ completed (question 1) ∷ []
client_requests_example =
    client_requests echo new_service 4 after_accept (question 1) [] magic0
      (take 8 (drop 1 (frame_onto (question 1) [])))
      ((0, drop 10 (frame_onto (question 1) [])) ∷ []) (refl, tt) refl refl
      (question-IsRequest 1 (omega arith) (omega arith), tt)
