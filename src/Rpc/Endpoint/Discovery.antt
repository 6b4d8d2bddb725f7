-- ===== src/Rpc/Endpoint/Discovery.antt =====
-- When the registration of src/app/rpc/RpcServer.cpp calls through a null pointer.
use simple_redis_client.Prelude.{
  ℕ, ◌≡◌, ◌∙◌, refl, Bool, true, false, not, ◌&&◌, Option, none, some, List, Bytes, [], ◌∷◌, arith,
  Bool-cases, inl, inr,
}
use simple_redis_client.Socket.{is_success, bind, listen, default_backlog}
use simple_redis_client.Rpc.Endpoint.{
  Endpoint, new_endpoint, as_unsigned, Attempt, connect_nacos, bind_and_listen, bind_all,
  Registration, registered, refused, not_used, null_service, RegisterInstance, register_with,
  register_discovery,
}

abbrev pub is_null : Registration → Bool
is_null (registered service name ip port) = false
is_null refused = false
is_null not_used = false
is_null null_service = true

abbrev is_none : Option ℕ → Bool
is_none none = true
is_none (some service) = false

is_none-connect_nacos :
    (e : Endpoint) (o : Option ℕ)
    → (connect_nacos e o).use_nacos && is_none (connect_nacos e o).naming_service ≡ false
is_none-connect_nacos e none = refl
is_none-connect_nacos e (some service) = ground arith

is_null-register_with :
    (r : RegisterInstance) (e : Endpoint) (name : Bytes) (o : Option ℕ)
    → is_null (register_with r e name o) ≡ is_none o
is_null-register_with r e name none = refl
is_null-register_with r e name (some service) = ground arith

is_null-register_discovery :
    (r : RegisterInstance) (e : Endpoint) (name : Bytes)
    → is_null (register_discovery r e name) ≡ e.use_nacos && is_none e.naming_service
unfolding register_discovery
is_null-register_discovery r e name = elim (Bool-cases e.use_nacos) [
  | inl f ↦ simp f (is_null-register_with r e name e.naming_service)
  | inr f ↦ simp f refl
]

module _ (socket : Option ℕ) where
  is_none-bind_and_listen :
      (e : Endpoint) (a : Attempt)
      → (bind_and_listen socket e a).1.use_nacos
          && is_none (bind_and_listen socket e a).1.naming_service
        ≡ (e.use_nacos && is_none e.naming_service) && not (bind_and_listen socket e a).0
  unfolding bind_and_listen
  is_none-bind_and_listen e a =
      elim (Bool-cases (
        is_success (bind a.sys socket a.ip (as_unsigned a.port)).0
        && is_success (listen a.sys socket default_backlog).0)) [
          | inl f ↦ simp f (is_none-connect_nacos _ a.created ∙ ground arith)
          | inr f ↦ simp f (ground arith)
        ]

  is_none-bind_all :
      (e : Endpoint) (attempts : List Attempt)
      → (bind_all socket e attempts).1.use_nacos
          && is_none (bind_all socket e attempts).1.naming_service
        ≡ (e.use_nacos && is_none e.naming_service) && not (bind_all socket e attempts).0
  unfolding bind_all
  is_none-bind_all e [] = ground arith
  is_none-bind_all e (a ∷ rest) =
      ground
        (arith, is_none-bind_all (bind_and_listen socket e a).1 rest, is_none-bind_and_listen e a)

  -- After any calls of `bindAndListen`, whatever the system and Nacos answer, the registration of a
  -- service calls through the null pointer exactly when none of the calls has returned true.
  pub discovery_null :
      (attempts : List Attempt) (r : RegisterInstance) (name : Bytes)
      → is_null (register_discovery r (bind_all socket new_endpoint attempts).1 name)
        ≡ not (bind_all socket new_endpoint attempts).0
  discovery_null attempts r name =
      is_null-register_discovery r (bind_all socket new_endpoint attempts).1 name
      ∙ is_none-bind_all new_endpoint attempts
