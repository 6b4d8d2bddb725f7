-- ===== src/Rpc/Session/Tests.antt =====
-- Two requests of one client, cut in the middle of their numbers.
use simple_redis_client.Prelude.{
  ℕ, ◌^◌, ◌<◌, ◌≢◌, ◌≡◌, refl, true, false, some, map, Bytes, [], ◌∷◌, take, drop, replicate, codes,
  arith,
}
use simple_redis_client.Rpc.Types.{fresh, magic0}
use simple_redis_client.Rpc.Frame.{Request, IsRequest, completed}
use simple_redis_client.Net.Connection.{watching}
use simple_redis_client.Rpc.Session.{Session, receive_all}
use simple_redis_client.Rpc.Session.Chunks.{IsReady, Chunks, reads_of}
use simple_redis_client.Rpc.Session.Requests.{frames, session_requests}

abbrev question : ℕ → Request
question id = record { id = id; service = codes "S"; func = codes "f"; params = codes "p" }

question-IsRequest : (id : ℕ) → id ≢ 0 → id < 2 ^ 64 → IsRequest (question id)
question-IsRequest id h k = record {
  id_ne_zero = h;
  id_fits = k;
  service_fits = omega arith;
  func_fits = omega arith;
  params_fits = omega arith;
}

abbrev both : Bytes
both = frames (question 1 ∷ question 2 ∷ [])

abbrev small_session : Session
small_session = record {
  connection = record {
    read_cb = true;
    read_buffer = record { buffer = replicate 32 0; data_size = 0 };
    write_queue = [];
    in_queue_write_buffer_byte_size = 0;
    high_level_callback = false;
    low_level_callback = false;
    closing_callback = false;
    high_level_callback_set = false;
    read_registered = true;
    write_registered = false;
    peer_closed = false;
  };
  watched = watching true false;
  context = fresh;
  tasks = [];
}

-- The number of the first request ends in the second read, that of the second in the third.
abbrev three_reads : Chunks
three_reads = (magic0, take 9 (drop 1 both)) ∷ (1, take 22 (drop 11 both)) ∷ (2, drop 34 both) ∷ []

session_requests_example :
    (s' : Session) × (receive_all small_session (reads_of three_reads) ≡ some s')
    × (s'.tasks ≡ map completed (question 1 ∷ question 2 ∷ []))
    × (s'.context ≡ fresh)
    × IsReady 32 s'
session_requests_example =
    session_requests 32 small_session (question 1) (question 2 ∷ []) magic0 (take 9 (drop 1 both))
      ((1, take 22 (drop 11 both)) ∷ (2, drop 34 both) ∷ [])
      (record { callback_set = refl; sound = (omega arith, refl); empty = refl; sized = refl }) refl
      (
        question-IsRequest 1 (omega arith) (omega arith),
        (question-IsRequest 2 (omega arith) (omega arith), tt),
      )
      (omega arith, (omega arith, (omega arith, tt))) refl
