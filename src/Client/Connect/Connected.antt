-- ===== src/Client/Connect/Connected.antt =====
-- What `connect` of src/app/redis/SimpleRedisClient.cpp leaves.
use simple_redis_client.Prelude.{
  ℕ, ◌≤◌, ◌≡◌, ◌∙◌, refl, sym, ap, subst, Bool, true, false, Option, none, some, List, Bytes, [],
  ◌∷◌, ◌++◌, map, length, if◌then◌else◌, arith, Bool-cases, inl, inr,
}
use simple_redis_client.Socket.{System}
use simple_redis_client.Socket.Forward.{Request, closes, async_reads}
use simple_redis_client.Socket.Posted.{task_of, posted, requests-IsPosted}
use simple_redis_client.Net.Context.{Task, register_read, remove_socket}
use simple_redis_client.Client.Connect.{Network, connect_each, on_each, call_each, close, connect}

-- The descriptors of the sockets that have one.
abbrev pub descriptors : List (Option ℕ) → List ℕ
descriptors [] = []
descriptors (none ∷ sockets) = descriptors sockets
descriptors (some fd ∷ sockets) = fd ∷ descriptors sockets

posted-on_each :
    (r : Request) (sockets : List (Option ℕ))
    → posted (on_each r sockets) ≡ map (λ fd. (fd, task_of r)) (descriptors sockets)
posted-on_each r [] = refl
posted-on_each r (none ∷ sockets) = posted-on_each r sockets
posted-on_each r (some fd ∷ sockets) = ap (λ l. (fd, task_of r) ∷ l) (posted-on_each r sockets)

connect_each-descriptors :
    (sys : System) (sockets : List (Option ℕ)) (host : Bytes) (port : ℕ)
    → (if connect_each sys sockets host port then length sockets else 0)
      ≤ length (descriptors sockets)
unfolding connect_each
connect_each-descriptors sys [] host port = omega arith
connect_each-descriptors sys (none ∷ sockets) host port = omega arith
connect_each-descriptors sys (some fd ∷ sockets) host port =
    ground (arith, connect_each-descriptors sys sockets host port)

-- The task that each socket is left with.
abbrev pub task_after : Bool → Task
task_after connected = if connected then register_read else remove_socket

-- A result of `connect`, with the network that it leaves.
abbrev pub IsLeft : Network → List (Option ℕ) → Bool × Network → Type 0
IsLeft n sockets (connected, n') =
    (n'.running ≡ connected)
    × ((if connected then length sockets else 0) ≤ length (descriptors sockets))
    × (n'.context.submitted
        ≡ n.context.submitted ++ map (λ fd. (fd, task_after connected)) (descriptors sockets))

module _ (iov_max : ℕ) (hash : ℕ → ℕ) where
  submitted-call_each :
      (n : Network) (r : Request) (sockets : List (Option ℕ))
      → (call_each iov_max hash n r sockets).context.submitted
        ≡ n.context.submitted ++ map (λ fd. (fd, task_of r)) (descriptors sockets)
  submitted-call_each n r sockets =
      (requests-IsPosted iov_max hash n.context (on_each r sockets)).0
      ∙ ap (λ l. n.context.submitted ++ l) (posted-on_each r sockets)

  -- When `connect` returns true, every socket of the client has a descriptor, the reading of every
  -- one was asked for, in their order, and the event loops run; when it returns false, the loops do
  -- not run, and those of the sockets that have a descriptor are asked to be removed, connected or
  -- not.
  pub connect-IsLeft :
      (sys : System) (n : Network) (sockets : List (Option ℕ)) (host : Bytes) (port : ℕ)
      → IsLeft n sockets (connect iov_max hash sys n sockets host port)
  unfolding connect
  connect-IsLeft sys n sockets host port =
      let enough = connect_each-descriptors sys sockets host port in
      elim (Bool-cases (connect_each sys sockets host port)) [
        | inl f ↦ branch true f (
          refl,
          subst (λ b. (if b then length sockets else 0) ≤ length (descriptors sockets)) f enough,
          submitted-call_each n async_reads sockets,
        )
        | inr f ↦ branch false f (refl, omega arith, submitted-call_each n closes sockets)
      ]
    where
      result : Bool → Bool × Network
      result b =
          if b
          then (true, record (call_each iov_max hash n async_reads sockets) { running = true })
          else (false, close iov_max hash n sockets)

      branch :
          (b : Bool)
          → connect_each sys sockets host port ≡ b
          → IsLeft n sockets (result b)
          → IsLeft n sockets (result (connect_each sys sockets host port))
      branch b e k = subst (λ a. IsLeft n sockets (result a)) (sym e) k
