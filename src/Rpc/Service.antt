-- ===== src/Rpc/Service.antt =====
-- src/app/rpc/RpcServer.cpp: `RpcServerImpl` as a whole, with its clients, its thread pool and the
-- responses. A request that is put into the pool has its place in the list of requests for a number.
pub mod Known
pub mod Kept
pub mod Workers
pub mod Answered
pub mod Clients
pub mod Streams
mod Tests
use simple_redis_client.Prelude.{
  ℕ, suc, ◌+◌, Bool, true, false, Option, none, some, List, Bytes, [], ◌∷◌, ◌++◌, length, get_elem?,
  ltb, ◌==◌, if◌then◌else◌,
}
use simple_redis_client.Rpc.Types.{RpcContext, fresh}
use simple_redis_client.Rpc.Server.{Served, Handlers, on_read, dispatch}
use simple_redis_client.Pool
use simple_redis_client.Pool.{ThreadPool, Worker, running, new_pool}

-- The parser's context of each client, the requests given to the pool with their clients, the pool,
-- and what was handed to `asyncWriteOnce` of which client. Not in the source: `dropped`, the requests
-- that came when the pool was shut down.
pub record Service : Type 0 where
  pub contexts : ℕ → RpcContext
  pub requests : List (ℕ × RpcContext)
  pub pool : ThreadPool
  pub responses : List (ℕ × Bytes)
  pub dropped : List ℕ

-- `threadPool_(2)`
abbrev pub pool_size : ℕ
pool_size = 2

-- `threadPool_.put` with the client and its context.
unfoldable pub put_request : Service → ℕ → RpcContext → Service
unfolding Pool.put
put_request s client c = record s {
  requests = s.requests ++ ((client, c) ∷ []);
  pool = Pool.put s.pool (length s.requests);
  dropped = if s.pool.tasks.stopped then s.dropped ++ (length s.requests ∷ []) else s.dropped;
}

unfoldable pub put_requests : Service → ℕ → List RpcContext → Service
unfolding put_request
put_requests s client [] = s
put_requests s client (c ∷ cs) = put_requests (put_request s client c) client cs

abbrev pub set_context : Service → ℕ → RpcContext → Service
set_context s client c = record s { contexts = λ i. if client == i then c else s.contexts i }

-- The read callback of a client.
abbrev pub after_serving : Service → ℕ → Option Served → Service
after_serving s client none = s
after_serving s client (some served) =
    put_requests (set_context s client served.context) client served.tasks

-- The response of one request, to the client that sent it.
abbrev pub respond_to : Handlers → Option (ℕ × RpcContext) → List (ℕ × Bytes)
respond_to hs none = []
respond_to hs (some (client, c)) = (client, dispatch hs c) ∷ []

unfoldable pub respond : Handlers → List (ℕ × RpcContext) → ℕ → List (ℕ × Bytes)
unfolding dispatch
respond hs requests t = respond_to hs (get_elem? requests t)

-- What a thread of the pool writes when it ends its task.
abbrev pub responses_of : Handlers → List (ℕ × RpcContext) → Worker → List (ℕ × Bytes)
responses_of hs requests (running t) = respond hs requests t
responses_of hs requests other = []

pub data Move : Type 0 where
  accepts : ℕ → Move
  reads : ℕ → Bytes → Move
  worker_moves : ℕ → Move
  pool_shuts_down : Move
  pool_joins : Move

module _ (hs : Handlers) where
  abbrev pub move_worker : Service → ℕ → Service
  move_worker s i = record s {
    pool = Pool.run_worker s.pool i (s.pool.workers i);
    responses = s.responses ++ responses_of hs s.requests (s.pool.workers i);
  }

  unfoldable pub move : Service → Move → Service
  unfolding on_read put_requests respond Pool.run_worker
  move s (accepts client) = set_context s client fresh
  move s (reads client src) = after_serving s client (on_read src (s.contexts client))
  move s (worker_moves i) = if ltb i pool_size then move_worker s i else s
  move s pool_shuts_down = record s { pool = Pool.move pool_size s.pool Pool.join_shutdown }
  move s pool_joins = record s { pool = Pool.move pool_size s.pool Pool.join_store }

  unfoldable pub run : Service → List Move → Service
  unfolding move
  run s [] = s
  run s (m ∷ ms) = run (move s m) ms

abbrev pub new_service : Service
new_service = record {
  contexts = λ i. fresh;
  requests = [];
  pool = new_pool;
  responses = [];
  dropped = [];
}
