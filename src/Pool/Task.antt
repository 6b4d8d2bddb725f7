-- ===== src/Pool/Task.antt =====
-- src/utils/thread_pool/thread_pool.h: the task that `ThreadPool::put` makes of a function and a
-- callback, and `Result`. Values and exceptions are of any type.
use simple_redis_client.Prelude.{
  ◌≡◌, refl, Bool, true, false, Option, none, some, List, [], ◌∷◌, ◌++◌, if◌then◌else◌,
}

module _ {ℓ} (A E : Type ℓ) where
  -- How the function ends; a function of type void gives `none`.
  pub data Outcome : Type ℓ where
    returned : Option A → Outcome
    threw : E → Outcome

  pub record Result : Type ℓ where
    pub result : Option A
    pub exception : Option E

  -- What was done with the callback: called at once, or put into `cb_tasks`.
  pub data Called : Type ℓ where
    at_once : Result → Called
    enqueued : Result → Called

-- The calls of the callback, and the exception that leaves the task.
abbrev pub Ran {ℓ} : Type ℓ → Type ℓ → Type ℓ
Ran A E = List (Called A E) × Option E

module _ {ℓ} {A E : Type ℓ} where
  -- `Result::get`: an exception, or the value (of another type than asked for: an exception too).
  abbrev pub get : Result A E → Outcome A E
  get r = elim r.exception [ none ↦ returned r.result | some e ↦ threw e ]

  abbrev pub success : Option A → Result A E
  success v = record { result = v; exception = none }

  abbrev pub failure : E → Result A E
  failure e = record { result = none; exception = some e }

  module _ (use_async_cb : Bool) (callback : Result A E → Option E) where
    -- `cb(r)`, which may throw, or `enqueue_callback`.
    abbrev pub hand_over : Result A E → Ran A E
    hand_over r = if use_async_cb then (enqueued r ∷ [], none) else (at_once r ∷ [], callback r)

    -- The `catch (...)` around the function and the callback.
    abbrev pub caught : Ran A E → Ran A E
    caught (calls, none) = (calls, none)
    caught (calls, some e) = let (more, left) = hand_over (failure e) in (calls ++ more, left)

    abbrev pub tried : Outcome A E → Ran A E
    tried (returned v) = hand_over (success v)
    tried (threw e) = ([], some e)

    unfoldable pub run_task : Outcome A E → Ran A E
    run_task outcome = caught (tried outcome)

  -- Without a callback.
  abbrev pub run_silent : Outcome A E → Ran A E
  run_silent outcome = ([], none)

  abbrev pub called : Bool → Result A E → Called A E
  called true r = enqueued r
  called false r = at_once r

  -- Where the callback does not throw, it is called or put into the queue once, with a result whose
  -- `get` ends as the function did, and no exception leaves the task.
  pub run_task_once :
      (use_async_cb : Bool) (callback : Result A E → Option E) (outcome : Outcome A E)
      → ((r : Result A E) → callback r ≡ none)
      → (r : Result A E) × (run_task use_async_cb callback outcome
          ≡ (called use_async_cb r ∷ [], none))
        × (get r ≡ outcome)
  unfolding run_task
  run_task_once true callback (returned v) h = (success v, refl, refl)
  run_task_once true callback (threw e) h = (failure e, refl, refl)
  run_task_once false callback (returned v) h = (success v, rw (h (success v)) refl, refl)
  run_task_once false callback (threw e) h = (failure e, rw (h (failure e)) refl, refl)

  -- A callback that is called at once and throws on the function's value is called a second time,
  -- with its own exception as the result of the function.
  pub run_task_twice :
      (callback : Result A E → Option E) (v : Option A) (e : E)
      → callback (success v) ≡ some e
      → (run_task false callback (returned v)).0 ≡ at_once (success v) ∷ (at_once (failure e) ∷ [])
  unfolding run_task
  run_task_twice callback v e h = rw h refl
