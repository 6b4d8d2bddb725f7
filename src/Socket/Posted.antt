-- ===== src/Socket/Posted.antt =====
-- What becomes of the calls that a `LinuxSocket` passes to its context.
use simple_redis_client.Prelude.{
  ◌%◌, ℕ, ◌≡◌, ◌∙◌, refl, sym, ap, Bool, true, false, Option, none, some, List, [], ◌∷◌, ◌++◌,
  append_assoc, append-nil, ◌==◌, if◌then◌else◌, arith, Bool-cases, inl, inr,
}
use simple_redis_client.Net.Context.{
  Task, register_accept, register_read, async_write_once, async_write_batch, remove_socket,
  register_high_level, register_low_level, register_close_callback, Context, submit, refusal, route,
  put_queue, move, run,
}
use simple_redis_client.Socket.Forward.{
  forward, Request, closes, async_accepts, async_reads, writes_once, writes_batch, sets_low_level,
  sets_high_level, sets_close, request, requests,
}

abbrev pub task_of : Request → Task
task_of closes = remove_socket
task_of (async_accepts callback) = register_accept callback
task_of async_reads = register_read
task_of (writes_once callback buf) = async_write_once callback buf
task_of (writes_batch callbacks bufs) = async_write_batch callbacks bufs
task_of sets_low_level = register_low_level
task_of sets_high_level = register_high_level
task_of sets_close = register_close_callback

-- The tasks of the calls that reach the context with a descriptor.
abbrev pub posted : List (Bool × Option ℕ × Request) → List (ℕ × Task)
posted [] = []
posted ((false, s, r) ∷ rs) = posted rs
posted ((true, none, r) ∷ rs) = posted rs
posted ((true, some fd, r) ∷ rs) = (fd, task_of r) ∷ posted rs

-- A call on a socket without a descriptor fails: a write tells its callback, if it has one, and
-- the other calls tell nothing.
abbrev pub failure : Request → List Task
failure (writes_once (some callback) buf) = async_write_once (some callback) buf ∷ []
failure (writes_batch callbacks bufs) = async_write_batch callbacks bufs ∷ []
failure other = []

refusal_lem : (r : Request) → refusal (task_of r) ≡ failure r
refusal_lem closes = refl
refusal_lem (async_accepts callback) = refl
refusal_lem async_reads = refl
refusal_lem (writes_once none buf) = refl
refusal_lem (writes_once (some callback) buf) = refl
refusal_lem (writes_batch callbacks bufs) = refl
refusal_lem sets_low_level = refl
refusal_lem sets_high_level = refl
refusal_lem sets_close = refl

-- The failures that are told to a callback at once.
abbrev pub told : List (Bool × Option ℕ × Request) → List Task
told [] = []
told ((false, s, r) ∷ rs) = told rs
told ((true, some fd, r) ∷ rs) = told rs
told ((true, none, r) ∷ rs) = failure r ++ told rs

module _ (hash : ℕ → ℕ) where
  -- The tasks of one loop of the four: those of the descriptors whose hash leaves its number.
  abbrev pub of_loop : ℕ → List (ℕ × Task) → List (ℕ × Task)
  of_loop i [] = []
  of_loop i ((fd, t) ∷ ts) =
      let rest = of_loop i ts in if hash fd % 4 == i then (fd, t) ∷ rest else rest

request_lem :
    (alive : Bool) (s : Option ℕ) (r : Request) → request alive s r ≡ forward alive s (task_of r)
request_lem alive s closes = refl
request_lem alive s (async_accepts callback) = refl
request_lem alive s async_reads = refl
request_lem alive s (writes_once callback buf) = refl
request_lem alive s (writes_batch callbacks bufs) = refl
request_lem alive s sets_low_level = refl
request_lem alive s sets_high_level = refl
request_lem alive s sets_close = refl

module _ (iov_max : ℕ) (hash : ℕ → ℕ) where
  abbrev pub IsPosted : Context → Context → List (Bool × Option ℕ × Request) → Type 0
  IsPosted c c' rs =
      (c'.submitted ≡ c.submitted ++ posted rs)
      × (c'.refused ≡ c.refused ++ told rs)
      × ((i : ℕ) → c'.queues i ≡ c.queues i ++ of_loop hash i (posted rs))

  -- The calls on sockets, in any order and before and after the end of the context: the context has
  -- the task of every call that came while it was there, on a socket with a descriptor, in the queue
  -- of the loop that the descriptor belongs to, in the order of the calls; the write callbacks of
  -- sockets without a descriptor are told of the failure at once; and a call after the end leaves nothing, so that
  -- its callback is told nothing.
  pub requests-IsPosted :
      (c : Context) (rs : List (Bool × Option ℕ × Request))
      → IsPosted c (run iov_max hash c (requests rs)) rs
  unfolding run move requests
  requests-IsPosted c [] =
      (sym (append-nil c.submitted), sym (append-nil c.refused), λ i. sym (append-nil (c.queues i)))
  requests-IsPosted c ((false, s, r) ∷ rs) = rw (request_lem false s r) (requests-IsPosted c rs)
  requests-IsPosted c ((true, none, r) ∷ rs) =
      let (a, b, d) =
        requests-IsPosted (record c { refused = c.refused ++ refusal (task_of r) }) rs in
      rw (request_lem true none r) (
        a,
        b
            ∙ append_assoc c.refused (refusal (task_of r)) (told rs)
            ∙ ap (λ l. c.refused ++ (l ++ told rs)) (refusal_lem r),
        d,
      )
  requests-IsPosted c ((true, some fd, r) ∷ rs) =
      let (a, b, d) = requests-IsPosted (move iov_max hash c (submit (some fd) (task_of r))) rs in
      rw (request_lem true (some fd) r)
        (a ∙ append_assoc c.submitted ((fd, task_of r) ∷ []) (posted rs), b, λ i. d i ∙ queued i)
    where
      queued :
          (i : ℕ)
          → put_queue c.queues
                (route hash fd)
                (c.queues (route hash fd) ++ ((fd, task_of r) ∷ []))
                i
              ++ of_loop hash i (posted rs)
            ≡ c.queues i ++ of_loop hash i ((fd, task_of r) ∷ posted rs)
      queued i = elim (Bool-cases (route hash fd == i)) [
        | inl e ↦
            let at : route hash fd ≡ i = ground arith in
            simp e (
              append_assoc (c.queues (route hash fd)) ((fd, task_of r) ∷ [])
                (of_loop hash i (posted rs))
              ∙ ap (λ j. c.queues j ++ ((fd, task_of r) ∷ of_loop hash i (posted rs))) at)
        | inr e ↦ simp e refl
      ]
