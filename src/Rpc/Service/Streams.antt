-- ===== src/Rpc/Service/Streams.antt =====
-- The requests that a client of src/app/rpc/RpcServer.cpp sends, among other clients and the threads of
-- the pool.
use simple_redis_client.Prelude.{
  ℕ, ◌≡◌, ◌∙◌, refl, sym, ap, some, List, map, Bytes, [], ◌∷◌, ◌++◌, append-nil, ◌==◌,
  if◌then◌else◌, arith, Bool-cases, inl, inr,
}
use simple_redis_client.Rpc.Types.{RpcContext, fresh}
use simple_redis_client.Rpc.Frame.{Request, completed}
use simple_redis_client.Rpc.Server.{Served, Handlers, on_read}
use simple_redis_client.Rpc.Server.Stream.{on_read_total}
use simple_redis_client.Rpc.Server.Cut.{after, on_read-append}
use simple_redis_client.Rpc.Session.Chunks.{Chunks, bytes_of}
use simple_redis_client.Rpc.Session.Requests.{frames, AreRequests, on_read-frames, same_served}
use simple_redis_client.Rpc.Service.{Service, Move, accepts, move, run}
use simple_redis_client.Rpc.Service.Clients.{
  requests_of, reads_from, KeepsNumber, serve_reads, run-requests_of,
}

-- One text for each read.
abbrev pub texts : Chunks → List Bytes
texts [] = []
texts ((b, bs) ∷ cs) = (b ∷ bs) ∷ texts cs

-- Reads one after another are the read of the whole.
serve_reads-texts :
    (c : RpcContext) (b : ℕ) (bs : Bytes) (cs : Chunks)
    → (t : Served) × (on_read ((b ∷ bs) ++ bytes_of cs) c ≡ some t)
      × (serve_reads c ((b ∷ bs) ∷ texts cs) ≡ t.tasks)
unfolding serve_reads
serve_reads-texts c b bs [] =
    let (t, e, all, open_still) = on_read_total b bs c in
    (t, ap (λ l. on_read (b ∷ l) c) (append-nil bs) ∙ e, rw e (append-nil t.tasks))
serve_reads-texts c b bs ((d, ds) ∷ cs) =
    let (s, e, all, open_still) = on_read_total b bs c in
    let (t, k, tasks) = serve_reads-texts s.context d ds cs in
    (
      after s t,
      on_read-append b d bs (ds ++ bytes_of cs) c s t e k,
      rw e (ap (λ l. s.tasks ++ l) tasks),
    )

module _ (hs : Handlers) where
  -- A client is accepted, in any state of the server, and sends well-formed requests one behind the
  -- other: however its bytes are cut into reads, and whatever other clients, the threads of the pool
  -- and the pool's shutdown do in between, the pool was given these requests for it, each once, whole
  -- and in their order, behind those that it had for the same number before.
  pub client_requests :
      (s : Service) (client : ℕ) (ms : List Move) (r : Request) (rs : List Request) (b : ℕ)
      (bs : Bytes) (cs : Chunks)
      → KeepsNumber client ms
      → reads_from client ms ≡ texts ((b, bs) ∷ cs)
      → bytes_of ((b, bs) ∷ cs) ≡ frames (r ∷ rs)
      → AreRequests (r ∷ rs)
      → requests_of client (run hs (move hs s (accepts client)) ms).requests
        ≡ requests_of client s.requests ++ map completed (r ∷ rs)
  unfolding move
  client_requests s client ms r rs b bs cs alone sent framed valid =
      let start : (if client == client then fresh else s.contexts client) ≡ fresh =
        elim (Bool-cases (client == client)) [
          | inl e ↦ rw e refl
          | inr e ↦ absurd (ground arith)
        ] in
      let (t, e, tasks) = serve_reads-texts fresh b bs cs in
      let same =
        same_served (sym e ∙ ap (λ l. on_read l fresh) framed ∙ on_read-frames r rs valid) in
      run-requests_of hs (move hs s (accepts client)) client ms alone
      ∙ ap (λ c. requests_of client s.requests ++ serve_reads c (reads_from client ms)) start
      ∙ ap (λ l. requests_of client s.requests ++ serve_reads fresh l) sent
      ∙ ap (λ l. requests_of client s.requests ++ l) (tasks ∙ ap (λ v. v.tasks) same)
