-- ===== src/Rpc/Session/Requests.antt =====
-- The requests of a client of src/app/rpc/RpcServer.cpp, from its bytes to the thread pool.
use simple_redis_client.Prelude.{
  ℕ, zero, suc, ◌+◌, ◌≤◌, ◌<◌, ◌≡◌, ◌∙◌, refl, sym, ap, false, some, List, map, Bytes, [], ◌∷◌,
  ◌++◌, length, length-append, drop, arith,
}
use simple_redis_client.Rpc.Types.{fresh, complete, waiting, error}
use simple_redis_client.Rpc.Parser.{parse}
use simple_redis_client.Rpc.Frame.{Request, IsRequest, frame, frame_onto, completed}
use simple_redis_client.Rpc.Frame.Accept.{frame_onto-append, parse-frame}
use simple_redis_client.Rpc.Server.{Served, put_task, serve_loop, serve_fuel, on_read}
use simple_redis_client.Net.Read.Buffered.{drop_front}
use simple_redis_client.Rpc.Session.{Session, receive_all}
use simple_redis_client.Rpc.Session.Chunks.{
  IsReady, Chunks, bytes_of, reads_of, AreSized, receive_all-Receives,
}

abbrev pub frames : List Request → Bytes
frames [] = []
frames (r ∷ rs) = frame_onto r (frames rs)

abbrev pub AreRequests : List Request → Type 0
AreRequests [] = Unit
AreRequests (r ∷ rs) = IsRequest r × AreRequests rs

-- What the callback makes of them.
abbrev pub served_requests : List Request → Served
served_requests rs = record {
  consumed = length (frames rs);
  context = fresh;
  tasks = map completed rs;
  closed = false;
}

parse-first :
    (r : Request) (more : Bytes)
    → IsRequest r
    → parse (frame_onto r more) fresh ≡ (length (frame r), completed r)
parse-first r more v = parse-frame [] more r tt v ∙ ap (λ n. (n, completed r)) (omega arith)

drop-first : (r : Request) (more : Bytes) → drop (length (frame r)) (frame_onto r more) ≡ more
drop-first r more =
    ap (drop (length (frame r))) (frame_onto-append r more) ∙ drop_front _ (frame r) more refl

serve_first :
    (fuel b : ℕ) (src : Bytes) (n : ℕ) (r : Request) (rest : Served)
    → parse (b ∷ src) fresh ≡ (n, completed r)
    → serve_loop fuel (drop n (b ∷ src)) fresh ≡ some rest
    → serve_loop (suc fuel) (b ∷ src) fresh
      ≡ some (record rest { consumed = n + rest.consumed; tasks = completed r ∷ rest.tasks })
unfolding serve_loop
serve_first fuel b src n r rest e k =
    ap
      (λ p. elim p.1.result [
        | waiting ↦ some (record { consumed = p.0; context = p.1; tasks = []; closed = false })
        | complete ↦ put_task p.0 p.1 (serve_loop fuel (drop p.0 (b ∷ src)) fresh)
        | error ↦ put_task p.0 p.1 (serve_loop fuel (drop p.0 (b ∷ src)) fresh)
      ])
      e
    ∙ ap (put_task n (completed r)) k

serve_loop-frames :
    (fuel : ℕ) (rs : List Request)
    → length rs < fuel
    → AreRequests rs
    → serve_loop fuel (frames rs) fresh ≡ some (served_requests rs)
serve_loop-frames zero rs h v = absurd (omega arith)
serve_loop-frames (suc fuel) [] h v = unfold serve_loop in refl
serve_loop-frames (suc fuel) (r ∷ rs) h (v, vs) =
    let rest = serve_loop-frames fuel rs (omega arith) vs in
    serve_first fuel _ _ (length (frame r)) r (served_requests rs) (parse-first r (frames rs) v)
      (ap (λ l. serve_loop fuel l fresh) (drop-first r (frames rs)) ∙ rest)
    ∙ ap (λ n. some (record (served_requests (r ∷ rs)) { consumed = n }))
        (sym (ap length (frame_onto-append r (frames rs)) ∙ length-append (frame r) (frames rs)))

length-frames : (rs : List Request) → length rs ≤ length (frames rs)
length-frames [] = omega arith
length-frames (r ∷ rs) = omega (
  arith,
  length-frames rs,
  ap length (frame_onto-append r (frames rs)) ∙ length-append (frame r) (frames rs),
)

pub on_read-frames :
    (r : Request) (rs : List Request)
    → AreRequests (r ∷ rs)
    → on_read (frames (r ∷ rs)) fresh ≡ some (served_requests (r ∷ rs))
unfolding on_read
on_read-frames r rs v =
    serve_loop-frames (serve_fuel (frames (r ∷ rs))) (r ∷ rs)
      (omega (arith, length-frames (r ∷ rs))) v

pub same_served : {s t : Served} → some s ≡ some t → s ≡ t
same_served e = cc

-- A client that sends well-formed requests one behind the other, from the start of a connection or
-- behind a finished request: however the socket cuts the bytes into reads that fit the buffer, the
-- thread pool is given these requests, each once, whole and in their order, and nothing is left in
-- the buffer or in the parser.
pub session_requests :
    (room : ℕ) (s : Session) (r : Request) (rs : List Request) (b : ℕ) (bs : Bytes) (cs : Chunks)
    → IsReady room s
    → s.context ≡ fresh
    → AreRequests (r ∷ rs)
    → AreSized room ((b, bs) ∷ cs)
    → bytes_of ((b, bs) ∷ cs) ≡ frames (r ∷ rs)
    → (s' : Session) × (receive_all s (reads_of ((b, bs) ∷ cs)) ≡ some s')
      × (s'.tasks ≡ s.tasks ++ map completed (r ∷ rs))
      × (s'.context ≡ fresh)
      × IsReady room s'
session_requests room s r rs b bs cs ready start valid sized e =
    let q = receive_all-Receives room s b bs cs sized ready in
    let served : q.served ≡ served_requests (r ∷ rs) = same_served (
      sym q.served_as
      ∙ ap (on_read (bytes_of ((b, bs) ∷ cs))) start
      ∙ ap (λ l. on_read l fresh) e
      ∙ on_read-frames r rs valid) in
    (
      q.session,
      q.ran,
      q.tasks_are ∙ ap (λ t. s.tasks ++ t.tasks) served,
      q.context_is ∙ ap (λ t. t.context) served,
      q.ready,
    )
