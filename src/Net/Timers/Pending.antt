-- ===== src/Net/Timers/Pending.antt =====
-- The timers that an `EventLoopThread` has open, each with its entry and its kernel state in one list.
use simple_redis_client.Prelude.{
  ℕ, ◌≡◌, refl, ap, Bool, true, false, Option, none, some, List, [], ◌∷◌, ◌++◌, ◌==◌, if◌then◌else◌,
  arith, Bool-cases, inl, inr,
}
use simple_redis_client.Net.Timers.{has_key, erase, disarm, callback_list}

pub data Stage : Type 0 where
  unset : Stage
  armed : Stage
  firing : Stage

pub record Pending : Type 0 where
  pub fd : ℕ
  pub callback : Option ℕ
  pub stage : Stage

abbrev pub is_armed : Stage → Bool
is_armed unset = false
is_armed armed = true
is_armed firing = false

abbrev pub is_firing : Stage → Bool
is_firing unset = false
is_firing armed = false
is_firing firing = true

-- `timer_fds_` and the kernel's timers.
abbrev pub entries : List Pending → List (ℕ × Option ℕ)
entries [] = []
entries (p ∷ ps) = (p.fd, p.callback) ∷ entries ps

abbrev pub descriptors : List Pending → List (ℕ × Bool)
descriptors [] = []
descriptors (p ∷ ps) = (p.fd, is_armed p.stage) ∷ descriptors ps

-- The callbacks that are still to be called, and those whose time was zero.
abbrev pub waiting_at : Stage → Option ℕ → List ℕ
waiting_at firing c = []
waiting_at unset c = callback_list c
waiting_at armed c = callback_list c

abbrev pub unset_at : Stage → Option ℕ → List ℕ
unset_at firing c = []
unset_at unset c = callback_list c
unset_at armed c = []

abbrev pub waiting : List Pending → List ℕ
waiting [] = []
waiting (p ∷ ps) = waiting_at p.stage p.callback ++ waiting ps

abbrev pub never_armed : List Pending → List ℕ
never_armed [] = []
never_armed (p ∷ ps) = unset_at p.stage p.callback ++ never_armed ps

-- The first timer with this descriptor expires, or is closed.
abbrev pub fire : ℕ → List Pending → List Pending
fire fd [] = []
fire fd (p ∷ ps) =
    let rest = fire fd ps in if p.fd == fd then (record p { stage = firing }) ∷ ps else p ∷ rest

abbrev pub remove : ℕ → List Pending → List Pending
remove fd [] = []
remove fd (p ∷ ps) = let rest = remove fd ps in if p.fd == fd then ps else p ∷ rest

abbrev pub is_at : Option ℕ → ℕ → Bool
is_at none x = false
is_at (some fd) x = x == fd

-- No descriptor stands twice in the list, and the timer at `e`, if any, is the one that fires.
abbrev pub Fits : Option ℕ → List Pending → Type 0
Fits e [] = Unit
Fits e (p ∷ ps) =
    (has_key p.fd (entries ps) ≡ false) × (is_firing p.stage ≡ is_at e p.fd) × Fits e ps

pub has_key-descriptors :
    (fd : ℕ) (ps : List Pending) → has_key fd (descriptors ps) ≡ has_key fd (entries ps)
has_key-descriptors fd [] = refl
has_key-descriptors fd (p ∷ ps) = ground (arith, has_key-descriptors fd ps)

pub entries-fire : (fd : ℕ) (ps : List Pending) → entries (fire fd ps) ≡ entries ps
entries-fire fd [] = refl
entries-fire fd (p ∷ ps) = elim (Bool-cases (p.fd == fd)) [
  | inl e ↦ simp e refl
  | inr e ↦ simp e (ap (λ l. (p.fd, p.callback) ∷ l) (entries-fire fd ps))
]

pub descriptors-fire :
    (fd : ℕ) (ps : List Pending) → descriptors (fire fd ps) ≡ disarm fd (descriptors ps)
descriptors-fire fd [] = refl
descriptors-fire fd (p ∷ ps) = elim (Bool-cases (p.fd == fd)) [
  | inl e ↦ simp e refl
  | inr e ↦ simp e (ap (λ l. (p.fd, is_armed p.stage) ∷ l) (descriptors-fire fd ps))
]

pub entries-remove : (fd : ℕ) (ps : List Pending) → entries (remove fd ps) ≡ erase fd (entries ps)
entries-remove fd [] = refl
entries-remove fd (p ∷ ps) = elim (Bool-cases (p.fd == fd)) [
  | inl e ↦ simp e refl
  | inr e ↦ simp e (ap (λ l. (p.fd, p.callback) ∷ l) (entries-remove fd ps))
]

pub descriptors-remove :
    (fd : ℕ) (ps : List Pending) → descriptors (remove fd ps) ≡ erase fd (descriptors ps)
descriptors-remove fd [] = refl
descriptors-remove fd (p ∷ ps) = elim (Bool-cases (p.fd == fd)) [
  | inl e ↦ simp e refl
  | inr e ↦ simp e (ap (λ l. (p.fd, is_armed p.stage) ∷ l) (descriptors-remove fd ps))
]
