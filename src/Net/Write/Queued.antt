-- ===== src/Net/Write/Queued.antt =====
-- The end of a write in src/net/context/EpollContext.cpp: the high water mark and the registration
-- of EPOLLOUT, behind what was added to the queue.
use simple_redis_client.Prelude.{
  ◌||◌, Bool, subst, ℕ, ◌≡◌, ◌∙◌, refl, sym, ap, true, false, not, ◌&&◌, List, [], ◌∷◌, ◌++◌, drop,
  ltb, if◌then◌else◌, Bool-cases, inl, inr, append_assoc,
}
use simple_redis_client.Net.Connection.{
  WriteMetaInfo, Connection, Interest, Event, kept, Handled, watching, absent, high_level,
}
use simple_redis_client.Net.Write.{
  finish_write, high_water, register_write, default_high_level_size,
}
use simple_redis_client.Net.Write.Pending.{pending, waiting, put, put-append, SameQueue}

pub pending-append : (xs ys : List WriteMetaInfo) → pending (xs ++ ys) ≡ pending xs ++ pending ys
pending-append [] ys = refl
pending-append (x ∷ xs) ys =
    ap (λ b. drop x.offset x.buffer ++ b) (pending-append xs ys)
    ∙ sym (append_assoc (drop x.offset x.buffer) (pending xs) (pending ys))

pub waiting-append : (xs ys : List WriteMetaInfo) → waiting (xs ++ ys) ≡ waiting xs ++ waiting ys
waiting-append [] ys = refl
waiting-append (x ∷ xs) ys =
    ap (put x.callback) (waiting-append xs ys) ∙ put-append x.callback (waiting xs) (waiting ys)

pub high_water-SameQueue : (conn : Connection) → SameQueue (high_water conn).0 conn
high_water-SameQueue conn =
    elim (Bool-cases (
      ltb default_high_level_size conn.in_queue_write_buffer_byte_size
      && conn.high_level_callback
      && not conn.high_level_callback_set)) [
        | inl e ↦ rw e (refl, refl)
        | inr e ↦ rw e (refl, refl)
      ]

-- What epoll watches of a connection that has something to write.
abbrev pub for_writing : Connection → Interest → Interest
for_writing conn absent = absent
for_writing conn (watching input output) =
    if conn.write_registered then watching input output else watching conn.read_registered true

-- What the high water mark reads of a connection, with a count of waiting bytes.
abbrev pub is_high : Connection → ℕ → Bool
is_high conn size = ltb 524288 size && conn.high_level_callback && not conn.high_level_callback_set

-- A handler keeps a connection behind which a write was added: the events are the high water mark,
-- once, or none, and EPOLLOUT is asked for.
abbrev pub Queues : Connection → Interest → Connection → ℕ → Handled → Type 0
Queues conn watched conn' size handled =
    (handled
      ≡ kept conn' (for_writing conn watched) (if is_high conn size then high_level ∷ [] else []))
    × (conn'.write_registered ≡ true)
    × (conn'.high_level_callback_set ≡ (conn.high_level_callback_set || is_high conn size))

high_water_lem :
    (conn : Connection) (b : Bool)
    → is_high conn conn.in_queue_write_buffer_byte_size ≡ b
    → high_water conn ≡ (
      record conn { high_level_callback_set = conn.high_level_callback_set || b },
      if b then high_level ∷ [] else [],
    )
high_water_lem conn true e = rw e (
    ap (λ m. (record conn { high_level_callback_set = m }, high_level ∷ []))
      (marked conn.high_level_callback_set))
  where
    marked : (m : Bool) → true ≡ (m || true)
    marked true = refl
    marked false = refl
high_water_lem conn false e = rw e (
    ap (λ m. (record conn { high_level_callback_set = m }, []))
      (unmarked conn.high_level_callback_set))
  where
    unmarked : (m : Bool) → m ≡ (m || false)
    unmarked true = refl
    unmarked false = refl

register_write_lem :
    (conn : Connection) (watched : Interest) (events : List Event)
    → register_write conn watched events
      ≡ kept (record conn { write_registered = true }) (for_writing conn watched) events
register_write_lem conn absent events = elim (Bool-cases conn.write_registered) [
  | inl e ↦ rw e refl
  | inr e ↦ rw e refl
]
register_write_lem conn (watching i o) events = elim (Bool-cases conn.write_registered) [
  | inl e ↦ rw e refl
  | inr e ↦ rw e refl
]

pub finish_write_lem :
    (conn : Connection) (watched : Interest)
    → (conn' : Connection) × Queues conn watched conn' conn.in_queue_write_buffer_byte_size
        (finish_write conn watched)
      × SameQueue conn' conn
finish_write_lem conn watched =
    let b = is_high conn conn.in_queue_write_buffer_byte_size in
    (
      record conn {
        high_level_callback_set = conn.high_level_callback_set || b;
        write_registered = true;
      },
      (
        ap (λ m. register_write m.0 watched m.1) (high_water_lem conn b refl)
            ∙ register_write_lem _ watched _
            ∙ ap
                (λ w.
                  kept
                    (record conn {
                      high_level_callback_set = conn.high_level_callback_set || b;
                      write_registered = true;
                    })
                    w (if b then high_level ∷ [] else []))
                (same_lem watched),
        refl,
        refl,
      ),
      (refl, refl),
    )
  where
    same_lem :
        (w : Interest)
        → for_writing
            (record conn {
              high_level_callback_set =
                  conn.high_level_callback_set || is_high conn conn.in_queue_write_buffer_byte_size;
            })
            w
          ≡ for_writing conn w
    same_lem absent = refl
    same_lem (watching i o) = refl

-- The queue and its count are not read.
pub Queues-queue :
    (conn : Connection) (queue : List WriteMetaInfo) (count : ℕ) (watched : Interest)
    (conn' : Connection) (n m : ℕ) (handled : Handled)
    → n ≡ m
    → Queues
        (record conn { write_queue = queue; in_queue_write_buffer_byte_size = count })
        watched
        conn'
        n
        handled
    → Queues conn watched conn' m handled
Queues-queue conn queue count absent conn' n m handled e h =
    subst (λ k. Queues conn absent conn' k handled) e h
Queues-queue conn queue count (watching i o) conn' n m handled e h =
    subst (λ k. Queues conn (watching i o) conn' k handled) e h
