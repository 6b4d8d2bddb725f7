-- ===== src/Rpc/Session/Chunks.antt =====
-- The read callback of src/app/rpc/RpcServer.cpp behind the read buffer of a connection: it sees what
-- the client sent, however the socket cuts it.
use simple_redis_client.Prelude.{
  ℕ, ◌≤◌, ◌≡◌, ◌∙◌, refl, sym, ap, Bool, true, Option, some, List, Bytes, [], ◌∷◌, ◌++◌,
  append_assoc, append-nil, length, length-take, take, drop, drop_all, replicate, arith,
}
use simple_redis_client.Rpc.Server.{Served, on_read}
use simple_redis_client.Rpc.Server.Stream.{on_read_total}
use simple_redis_client.Rpc.Server.Cut.{after, on_read-append}
use simple_redis_client.Net.Connection.{SimpleBuffer, Connection, Interest}
use simple_redis_client.Net.Read.{
  SocketRead, received, ReadHandled, read_kept, read_closed, handle_read,
}
use simple_redis_client.Net.Read.Buffered.{content, IsBuffer, take_front, handle_read-received}
use simple_redis_client.Rpc.Session.{
  Session, consumed_by, read_callback, after_served, after_handle_read, receive, receive_all,
}

-- A connection with the server's callback that waits for bytes, with a buffer of `room` bytes.
pub record IsReady (room : ℕ) (s : Session) : Type 0 where
  pub callback_set : s.connection.read_cb ≡ true
  pub sound : IsBuffer s.connection.read_buffer
  pub empty : content s.connection.read_buffer ≡ []
  pub sized : length s.connection.read_buffer.buffer ≡ room

-- What a read that is not empty does to a session.
pub record Receives (room : ℕ) (s : Session) (result : Option Session) (bytes : Bytes)
    : Type 0 where
  pub session : Session
  pub served : Served
  pub ran : result ≡ some session
  pub served_as : on_read bytes s.context ≡ some served
  pub context_is : session.context ≡ served.context
  pub tasks_are : session.tasks ≡ s.tasks ++ served.tasks
  pub ready : IsReady room session

abbrev callback_of : ReadHandled → Bool
callback_of (read_kept conn watched calls) = conn.read_cb
callback_of (read_closed events) = true

handle_read-read_cb :
    (cb : Bytes → ℕ → ℕ) (conn : Connection) (watched : Interest) (got : Bytes)
    → conn.read_cb ≡ true
    → callback_of (handle_read cb conn watched (received got)) ≡ true
unfolding handle_read
handle_read-read_cb cb conn watched got set = rw set refl

data_size-empty : (b : SimpleBuffer) → IsBuffer b → content b ≡ [] → b.data_size ≡ 0
data_size-empty b (fits, zeros) e =
    ground (arith, length-take b.data_size b.buffer, ap (length {A = ℕ}) e, fits)

pub receive-Receives :
    (room : ℕ) (s : Session) (b : ℕ) (bs : Bytes)
    → length (b ∷ bs) ≤ room
    → IsReady room s
    → Receives room s (receive s (received (b ∷ bs))) (b ∷ bs)
unfolding receive read_callback
receive-Receives room s b bs fits h =
    let (served, ran, all, open_still) = on_read_total b bs s.context in
    let none_yet = data_size-empty s.connection.read_buffer h.sound h.empty in
    let sized = h.sized in
    let (conn, zeros, shown, is, handled, left, sound, kept) =
      handle_read-received (read_callback s.context) s.connection s.watched (b ∷ bs) h.callback_set
        h.sound (omega (arith, none_yet, sized)) in
    let got : content s.connection.read_buffer ++ (b ∷ bs) ≡ b ∷ bs =
      ap (λ l. l ++ (b ∷ bs)) h.empty in
    let seen : take (length (content s.connection.read_buffer ++ (b ∷ bs))) shown ≡ b ∷ bs =
      ap (take (length (content s.connection.read_buffer ++ (b ∷ bs)))) is
      ∙ take_front _ (content s.connection.read_buffer ++ (b ∷ bs)) (replicate zeros 0) refl
      ∙ got in
    let called = ap (λ l. on_read l s.context) seen ∙ ran in
    record {
      session = record s {
        connection = conn;
        context = served.context;
        tasks = s.tasks ++ served.tasks;
      };
      served = served;
      ran =
          ap (after_handle_read s) handled
          ∙ ap (λ o. some (after_served (record s { connection = conn }) o)) called;
      served_as = ran;
      context_is = refl;
      tasks_are = refl;
      ready = record {
        callback_set =
            sym (ap callback_of handled)
            ∙ handle_read-read_cb (read_callback s.context) s.connection s.watched (b ∷ bs)
                h.callback_set;
        sound = sound;
        empty =
            left
            ∙ ap (λ o. drop (consumed_by o) (content s.connection.read_buffer ++ (b ∷ bs))) called
            ∙ ap (drop served.consumed) got
            ∙ drop_all served.consumed (b ∷ bs) (omega (arith, all));
        sized = kept ∙ h.sized;
      };
    }

-- What a socket reports in several reads that are not empty, the first bytes and the others.
abbrev pub Chunks : Type 0
Chunks = List (ℕ × Bytes)

abbrev pub bytes_of : Chunks → Bytes
bytes_of [] = []
bytes_of ((b, bs) ∷ cs) = (b ∷ bs) ++ bytes_of cs

abbrev pub reads_of : Chunks → List SocketRead
reads_of [] = []
reads_of ((b, bs) ∷ cs) = received (b ∷ bs) ∷ reads_of cs

-- Each fits into the buffer, which is how much a read asks for.
abbrev pub AreSized : ℕ → Chunks → Type 0
AreSized room [] = Unit
AreSized room ((b, bs) ∷ cs) = (length (b ∷ bs) ≤ room) × AreSized room cs

receive_all_after :
    (s s' : Session) (result : SocketRead) (results : List SocketRead)
    → receive s result ≡ some s'
    → receive_all s (result ∷ results) ≡ receive_all s' results
unfolding receive_all
receive_all_after s s' result results e = rw (e, receive_all) refl

pub receive_all-Receives :
    (room : ℕ) (s : Session) (b : ℕ) (bs : Bytes) (cs : Chunks)
    → AreSized room ((b, bs) ∷ cs)
    → IsReady room s
    → Receives room s (receive_all s (received (b ∷ bs) ∷ reads_of cs)) ((b ∷ bs) ++ bytes_of cs)
unfolding receive_all
receive_all-Receives room s b bs [] (fits, more) h =
    let r = receive-Receives room s b bs fits h in
    record {
      session = r.session;
      served = r.served;
      ran = receive_all_after s r.session (received (b ∷ bs)) [] r.ran;
      served_as = ap (λ l. on_read (b ∷ l) s.context) (append-nil bs) ∙ r.served_as;
      context_is = r.context_is;
      tasks_are = r.tasks_are;
      ready = r.ready;
    }
receive_all-Receives room s b bs ((d, ds) ∷ cs) (fits, more) h =
    let r = receive-Receives room s b bs fits h in
    let q = receive_all-Receives room r.session d ds cs more r.ready in
    let then_on = ap (λ c. on_read (d ∷ (ds ++ bytes_of cs)) c) (sym r.context_is) ∙ q.served_as in
    record {
      session = q.session;
      served = after r.served q.served;
      ran =
          receive_all_after s r.session (received (b ∷ bs)) (received (d ∷ ds) ∷ reads_of cs) r.ran
          ∙ q.ran;
      served_as =
          on_read-append b d bs (ds ++ bytes_of cs) s.context r.served q.served r.served_as then_on;
      context_is = q.context_is;
      tasks_are =
          q.tasks_are
          ∙ ap (λ l. l ++ q.served.tasks) r.tasks_are
          ∙ append_assoc s.tasks r.served.tasks q.served.tasks;
      ready = q.ready;
    }
