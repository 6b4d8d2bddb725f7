-- ===== src/Rpc/Service/Known.antt =====
-- The requests that a pool's tasks stand for, and the responses to them, while requests are added.
use simple_redis_client.Prelude.{
  Bool-cases, ◌==◌, inl, inr, Option, none, some, append-nil, ℕ, zero, suc, ◌≤◌, ◌<◌, ◌≡◌, ◌∙◌,
  refl, sym, ap, List, Bytes, [], ◌∷◌, ◌++◌, append_assoc, length, get_elem?, arith,
}
use simple_redis_client.Rpc.Types.{RpcContext}
use simple_redis_client.Rpc.Server.{Handlers, dispatch}
use simple_redis_client.Rpc.Service.{respond, respond_to}
use simple_redis_client.Queue.Blocking.{pop_first}
use simple_redis_client.Pool.{
  ThreadPool, after_pop, update, Worker, popping, running, checking, finished,
}

-- The numbers are below `n`.
abbrev pub AreBelow : ℕ → List ℕ → Type 0
AreBelow n [] = Unit
AreBelow n (x ∷ xs) = (x < n) × AreBelow n xs

pub AreBelow-le : (n m : ℕ) (xs : List ℕ) → n ≤ m → AreBelow n xs → AreBelow m xs
AreBelow-le n m [] le h = tt
AreBelow-le n m (x ∷ xs) le (h, hs) = (omega arith, AreBelow-le n m xs le hs)

pub AreBelow-append :
    (n : ℕ) (xs ys : List ℕ) → AreBelow n xs → AreBelow n ys → AreBelow n (xs ++ ys)
AreBelow-append n [] ys h k = k
AreBelow-append n (x ∷ xs) ys (h, hs) k = (h, AreBelow-append n xs ys hs k)

abbrev pub IsKnown : ℕ → Worker → Type 0
IsKnown n (running t) = t < n
IsKnown n popping = Unit
IsKnown n checking = Unit
IsKnown n finished = Unit

pub IsKnown-le : (n m : ℕ) (w : Worker) → n ≤ m → IsKnown n w → IsKnown m w
IsKnown-le n m popping le h = tt
IsKnown-le n m (running t) le h = omega arith
IsKnown-le n m checking le h = tt
IsKnown-le n m finished le h = tt

get_elem?-append_lt {ℓ} :
    {A : Type ℓ} (xs ys : List A) (i : ℕ) → i < length xs → get_elem? (xs ++ ys) i ≡ get_elem? xs i
get_elem?-append_lt [] ys i h = elim h [ ]
get_elem?-append_lt (x ∷ xs) ys zero h = refl
get_elem?-append_lt (x ∷ xs) ys (suc i) h = get_elem?-append_lt xs ys i (omega arith)

pub update-IsKnown :
    (n : ℕ) (f : ℕ → Worker) (i : ℕ) (w : Worker) (j : ℕ)
    → IsKnown n w
    → IsKnown n (f j)
    → IsKnown n (update f i w j)
update-IsKnown n f i w j h k = elim (Bool-cases (i == j)) [ inl e ↦ rw e h | inr e ↦ rw e k ]

-- What a thread's next move does to the numbers.
pub after_pop-IsKnown :
    (n : ℕ) (p : ThreadPool) (i : ℕ) (queue : List ℕ)
    → p.tasks.queue ≡ queue
    → AreBelow n queue
    → ((j : ℕ) → IsKnown n (p.workers j))
    → AreBelow n (after_pop p i (pop_first p.tasks queue).0 (pop_first p.tasks queue).1).tasks.queue
      × ((j : ℕ)
          → IsKnown n
              ((after_pop p i (pop_first p.tasks queue).0 (pop_first p.tasks queue).1).workers j))
      × ((after_pop p i (pop_first p.tasks queue).0 (pop_first p.tasks queue).1).completed
          ≡ p.completed)
      × ((after_pop p i (pop_first p.tasks queue).0 (pop_first p.tasks queue).1).accepted
          ≡ p.accepted)
after_pop-IsKnown n p i [] e h k = elim (Bool-cases p.tasks.stopped) [
  | inl f ↦ simp f (rw e tt, λ j. update-IsKnown n p.workers i checking j tt (k j), refl, refl)
  | inr f ↦ simp f (rw e tt, k, refl, refl)
]
after_pop-IsKnown n p i (t ∷ ts) e (h, hs') k =
    (hs', λ j. update-IsKnown n p.workers i (running t) j h (k j), refl, refl)

module _ (hs : Handlers) where
  -- What the client of a request is told: one response, to the client that sent it.
  abbrev pub answer_of : Option (ℕ × RpcContext) → List (ℕ × Bytes)
  answer_of none = []
  answer_of (some (client, c)) = (client, dispatch hs c) ∷ []

  -- The responses to the requests with these numbers, in this order.
  abbrev pub answers : List (ℕ × RpcContext) → List ℕ → List (ℕ × Bytes)
  answers requests [] = []
  answers requests (t ∷ ts) = answer_of (get_elem? requests t) ++ answers requests ts

  respond_to_lem : (o : Option (ℕ × RpcContext)) → respond_to hs o ≡ answer_of o
  respond_to_lem none = refl
  respond_to_lem (some (client, c)) = refl

  pub respond_lem :
      (requests : List (ℕ × RpcContext)) (t : ℕ) → respond hs requests t ≡ answers requests (t ∷ [])
  unfolding respond
  respond_lem requests t =
      respond_to_lem (get_elem? requests t) ∙ sym (append-nil (answer_of (get_elem? requests t)))

  pub answers-append :
      (requests : List (ℕ × RpcContext)) (ts us : List ℕ)
      → answers requests (ts ++ us) ≡ answers requests ts ++ answers requests us
  answers-append requests [] us = refl
  answers-append requests (t ∷ ts) us =
      ap (λ l. answer_of (get_elem? requests t) ++ l) (answers-append requests ts us)
      ∙ sym (
          append_assoc (answer_of (get_elem? requests t)) (answers requests ts)
            (answers requests us))

  -- Later requests do not change the responses to the ones before.
  pub answers-append_requests :
      (requests more : List (ℕ × RpcContext)) (ts : List ℕ)
      → AreBelow (length requests) ts
      → answers (requests ++ more) ts ≡ answers requests ts
  answers-append_requests requests more [] h = refl
  answers-append_requests requests more (t ∷ ts) (h, hs') =
      ap (λ o. answer_of o ++ answers (requests ++ more) ts) (get_elem?-append_lt requests more t h)
      ∙ ap (λ l. answer_of (get_elem? requests t) ++ l)
          (answers-append_requests requests more ts hs')
