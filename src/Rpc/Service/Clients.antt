-- ===== src/Rpc/Service/Clients.antt =====
-- What src/app/rpc/RpcServer.cpp gives its thread pool for one client, among others.
use simple_redis_client.Prelude.{
  ℕ, ◌≡◌, ◌∙◌, refl, sym, ap, true, false, Option, none, some, List, Bytes, [], ◌∷◌, ◌++◌,
  append_assoc, append-nil, ltb, ◌==◌, if◌then◌else◌, arith, Bool-cases, inl, inr,
}
use simple_redis_client.Rpc.Types.{RpcContext, fresh}
use simple_redis_client.Rpc.Server.{Served, Handlers, on_read}
use simple_redis_client.Rpc.Service.{
  Service, pool_size, put_request, put_requests, set_context, after_serving, Move, accepts, reads,
  worker_moves, pool_shuts_down, pool_joins, move, run,
}

-- The requests of one client, in their order.
abbrev pub requests_of : ℕ → List (ℕ × RpcContext) → List RpcContext
requests_of client [] = []
requests_of client ((k, c) ∷ l) =
    let rest = requests_of client l in if k == client then c ∷ rest else rest

-- What a client sends in a run, one text for each read.
abbrev pub reads_from : ℕ → List Move → List Bytes
reads_from client [] = []
reads_from client (reads k src ∷ ms) =
    let rest = reads_from client ms in if k == client then src ∷ rest else rest
reads_from client (accepts k ∷ ms) = reads_from client ms
reads_from client (worker_moves i ∷ ms) = reads_from client ms
reads_from client (pool_shuts_down ∷ ms) = reads_from client ms
reads_from client (pool_joins ∷ ms) = reads_from client ms

-- No other client is accepted under this number.
abbrev pub KeepsNumber : ℕ → List Move → Type 0
KeepsNumber client [] = Unit
KeepsNumber client (accepts k ∷ ms) = ((k == client) ≡ false) × KeepsNumber client ms
KeepsNumber client (reads k src ∷ ms) = KeepsNumber client ms
KeepsNumber client (worker_moves i ∷ ms) = KeepsNumber client ms
KeepsNumber client (pool_shuts_down ∷ ms) = KeepsNumber client ms
KeepsNumber client (pool_joins ∷ ms) = KeepsNumber client ms

abbrev pub context_after : RpcContext → Option Served → RpcContext
context_after c none = c
context_after c (some served) = served.context

abbrev pub tasks_after : Option Served → List RpcContext
tasks_after none = []
tasks_after (some served) = served.tasks

-- The callback alone, on one read after another.
unfoldable pub serve_reads : RpcContext → List Bytes → List RpcContext
serve_reads c [] = []
serve_reads c (src ∷ srcs) =
    tasks_after (on_read src c) ++ serve_reads (context_after c (on_read src c)) srcs

abbrev from_client : ℕ → List RpcContext → List (ℕ × RpcContext)
from_client k [] = []
from_client k (c ∷ cs) = (k, c) ∷ from_client k cs

requests_of-append :
    (client : ℕ) (l m : List (ℕ × RpcContext))
    → requests_of client (l ++ m) ≡ requests_of client l ++ requests_of client m
requests_of-append client [] m = refl
requests_of-append client ((k, c) ∷ l) m = elim (Bool-cases (k == client)) [
  | inl e ↦ simp e (ap (λ r. c ∷ r) (requests_of-append client l m))
  | inr e ↦ simp e (requests_of-append client l m)
]

requests_of-from_client :
    (client k : ℕ) (cs : List RpcContext)
    → requests_of client (from_client k cs) ≡ (if k == client then cs else [])
requests_of-from_client client k [] = ground arith
requests_of-from_client client k (c ∷ cs) = elim (Bool-cases (k == client)) [
  | inl e ↦
      simp e
        (ap (λ r. c ∷ r) (requests_of-from_client client k cs ∙ ap (λ b. if b then cs else []) e))
  | inr e ↦ simp e (requests_of-from_client client k cs ∙ ap (λ b. if b then cs else []) e)
]

put_requests_lem :
    (s : Service) (k : ℕ) (cs : List RpcContext)
    → ((put_requests s k cs).requests ≡ s.requests ++ from_client k cs)
      × ((put_requests s k cs).contexts ≡ s.contexts)
unfolding put_requests put_request
put_requests_lem s k [] = (sym (append-nil s.requests), refl)
put_requests_lem s k (c ∷ cs) =
    let (a, b) = put_requests_lem (put_request s k c) k cs in
    (a ∙ append_assoc s.requests ((k, c) ∷ []) (from_client k cs), b)

-- What a read does to the requests and the context of `client`.
after_serving_lem :
    (s : Service) (client k : ℕ) (r : Option Served)
    → (requests_of client (after_serving s k r).requests
        ≡ requests_of client s.requests ++ (if k == client then tasks_after r else []))
      × ((after_serving s k r).contexts client
          ≡ (if k == client then context_after (s.contexts k) r else s.contexts client))
after_serving_lem s client k none = elim (Bool-cases (k == client)) [
  | inl e ↦
      let same : k ≡ client = ground arith in
      simp e (sym (append-nil (requests_of client s.requests)), ap s.contexts (sym same))
  | inr e ↦ simp e (sym (append-nil (requests_of client s.requests)), refl)
]
after_serving_lem s client k (some served) =
    let (a, b) = put_requests_lem (set_context s k served.context) k served.tasks in
    (
      ap (requests_of client) a
          ∙ requests_of-append client s.requests (from_client k served.tasks)
          ∙ ap (λ l. requests_of client s.requests ++ l)
              (requests_of-from_client client k served.tasks),
      ap (λ f. f client) b,
    )

module _ (hs : Handlers) where
  -- A move that is no read leaves the requests and the contexts, of this client at least.
  move_other :
      (s : Service) (i : ℕ)
      → ((move hs s (worker_moves i)).requests ≡ s.requests)
        × ((move hs s (worker_moves i)).contexts ≡ s.contexts)
  unfolding move
  move_other s i = elim (Bool-cases (ltb i pool_size)) [
    | inl e ↦ simp e (refl, refl)
    | inr e ↦ simp e (refl, refl)
  ]

  pub run-requests_of :
      (s : Service) (client : ℕ) (ms : List Move)
      → KeepsNumber client ms
      → requests_of client (run hs s ms).requests
        ≡ requests_of client s.requests ++ serve_reads (s.contexts client) (reads_from client ms)
  unfolding run serve_reads move
  run-requests_of s client [] h = sym (append-nil (requests_of client s.requests))
  run-requests_of s client (accepts k ∷ ms) (n, h) =
      run-requests_of (set_context s k fresh) client ms h
      ∙ ap
          (λ b.
            requests_of client s.requests
            ++ serve_reads (if b then fresh else s.contexts client) (reads_from client ms))
          n
  run-requests_of s client (worker_moves i ∷ ms) h =
      let (a, b) = move_other s i in
      run-requests_of (move hs s (worker_moves i)) client ms h
      ∙ ap
          (λ l.
            requests_of client l
            ++ serve_reads ((move hs s (worker_moves i)).contexts client) (reads_from client ms))
          a
      ∙ ap (λ f. requests_of client s.requests ++ serve_reads (f client) (reads_from client ms)) b
  run-requests_of s client (pool_shuts_down ∷ ms) h =
      run-requests_of (move hs s pool_shuts_down) client ms h
  run-requests_of s client (pool_joins ∷ ms) h = run-requests_of (move hs s pool_joins) client ms h
  run-requests_of s client (reads k src ∷ ms) h =
      let r = on_read src (s.contexts k) in
      let (a, b) = after_serving_lem s client k r in
      let later : requests_of client (run hs (after_serving s k r) ms).requests
          ≡ (requests_of client s.requests ++ (if k == client then tasks_after r else []))
            ++ serve_reads
                (if k == client then context_after (s.contexts k) r else s.contexts client)
                (reads_from client ms) =
        run-requests_of (after_serving s k r) client ms h
        ∙ ap (λ l. l ++ serve_reads ((after_serving s k r).contexts client) (reads_from client ms))
            a
        ∙ ap
            (λ c.
              (requests_of client s.requests ++ (if k == client then tasks_after r else []))
              ++ serve_reads c (reads_from client ms))
            b in
      let rs = reads_from client ms in
      let old = requests_of client s.requests in
      let split : (k == client) ≡ true
          → requests_of client (run hs (after_serving s k r) ms).requests
            ≡ old ++ serve_reads (s.contexts client) (src ∷ rs) =
        λ e.
          let same : k ≡ client = ground arith in
          later
          ∙ ap
              (λ b.
                (old ++ (if b then tasks_after r else []))
                ++ serve_reads (if b then context_after (s.contexts k) r else s.contexts client) rs)
              e
          ∙ append_assoc old (tasks_after r) (serve_reads (context_after (s.contexts k) r) rs)
          ∙ ap
              (λ j.
                old
                ++ (tasks_after (on_read src (s.contexts j))
                    ++ serve_reads (context_after (s.contexts j) (on_read src (s.contexts j))) rs))
              same in
      elim (Bool-cases (k == client)) [
        | inl e ↦
            split e
            ∙ ap (λ b. old ++ serve_reads (s.contexts client) (if b then src ∷ rs else rs)) (sym e)
        | inr e ↦
            later
            ∙ ap
                (λ b.
                  (old ++ (if b then tasks_after r else []))
                  ++ serve_reads (if b then context_after (s.contexts k) r else s.contexts client)
                      rs)
                e
            ∙ ap (λ l. l ++ serve_reads (s.contexts client) rs) (append-nil old)
            ∙ ap (λ b. old ++ serve_reads (s.contexts client) (if b then src ∷ rs else rs)) (sym e)
      ]
