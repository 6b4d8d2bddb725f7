-- ===== src/Net/Timers/Expiry.antt =====
-- What an expiry and a removal do to the open timers of an `EventLoopThread`.
use simple_redis_client.Prelude.{
  ℕ, ◌+◌, ◌≡◌, ◌∙◌, refl, ap, subst, Bool, true, false, Option, none, some, List, [], ◌∷◌, ◌++◌,
  ◌==◌, if◌then◌else◌, arith, Bool-cases, inl, inr,
}
use simple_redis_client.Net.Timers.{has_key, find, callback_list}
use simple_redis_client.Net.Timers.Pending.{
  Stage, unset, armed, firing, Pending, is_armed, is_firing, entries, descriptors, waiting_at,
  unset_at, waiting, never_armed, fire, remove, Fits, entries-fire,
}
use simple_redis_client.Pool.Count.{count}

pub count-append : (t : ℕ) (xs ys : List ℕ) → count t (xs ++ ys) ≡ count t xs + count t ys
unfolding count
count-append t [] ys = omega arith
count-append t (x ∷ xs) ys = ground (arith, count-append t xs ys)

waiting_at_of_armed :
    (s : Stage) (c : Option ℕ) → is_armed s ≡ true → waiting_at s c ≡ callback_list c
waiting_at_of_armed armed c e = refl
waiting_at_of_armed unset c e = cc
waiting_at_of_armed firing c e = cc

unset_at_of_armed : (s : Stage) (c : Option ℕ) → is_armed s ≡ true → unset_at s c ≡ []
unset_at_of_armed armed c e = refl
unset_at_of_armed unset c e = cc
unset_at_of_armed firing c e = cc

waiting_at_of_firing : (s : Stage) (c : Option ℕ) → is_firing s ≡ true → waiting_at s c ≡ []
waiting_at_of_firing armed c e = cc
waiting_at_of_firing unset c e = cc
waiting_at_of_firing firing c e = refl

unset_at_of_firing : (s : Stage) (c : Option ℕ) → is_firing s ≡ true → unset_at s c ≡ []
unset_at_of_firing armed c e = cc
unset_at_of_firing unset c e = cc
unset_at_of_firing firing c e = refl

unset_at-waiting_at :
    (s : Stage) (c : Option ℕ)
    → is_armed s ≡ false
    → is_firing s ≡ false
    → unset_at s c ≡ waiting_at s c
unset_at-waiting_at armed c e f = cc
unset_at-waiting_at unset c e f = refl
unset_at-waiting_at firing c e f = cc

-- The callback of a table's answer.
abbrev pub found : Option (Option ℕ) → List ℕ
found none = []
found (some c) = callback_list c

some-true : (b : Bool) → some b ≡ some true → b ≡ true
some-true true e = refl
some-true false e = cc

-- An expiry takes the callback out of those that are still to be called.
pub waiting-fire :
    (t fd : ℕ) (ps : List Pending)
    → find fd (descriptors ps) ≡ some true
    → count t (waiting ps) ≡ count t (waiting (fire fd ps)) + count t (found (find fd (entries ps)))
waiting-fire t fd [] h = cc
waiting-fire t fd (p ∷ ps) h = elim (Bool-cases (p.fd == fd)) [
  | inl e ↦
      let is : is_armed p.stage ≡ true = some-true _ (
        subst (λ b. (if b then some (is_armed p.stage) else find fd (descriptors ps)) ≡ some true) e
          h) in
      simp (e, waiting_at_of_armed p.stage p.callback is)
        (omega (arith, count-append t (callback_list p.callback) (waiting ps)))
  | inr e ↦
      let rest = waiting-fire t fd ps (
        subst (λ b. (if b then some (is_armed p.stage) else find fd (descriptors ps)) ≡ some true) e
          h) in
      simp e (
        omega (
          arith,
          rest,
          count-append t (waiting_at p.stage p.callback) (waiting ps),
          count-append t (waiting_at p.stage p.callback) (waiting (fire fd ps)),
        ))
]

pub never_armed-fire :
    (fd : ℕ) (ps : List Pending)
    → find fd (descriptors ps) ≡ some true
    → never_armed (fire fd ps) ≡ never_armed ps
never_armed-fire fd [] h = cc
never_armed-fire fd (p ∷ ps) h = elim (Bool-cases (p.fd == fd)) [
  | inl e ↦
      let is : is_armed p.stage ≡ true = some-true _ (
        subst (λ b. (if b then some (is_armed p.stage) else find fd (descriptors ps)) ≡ some true) e
          h) in
      simp (e, unset_at_of_armed p.stage p.callback is) refl
  | inr e ↦
      let rest = never_armed-fire fd ps (
        subst (λ b. (if b then some (is_armed p.stage) else find fd (descriptors ps)) ≡ some true) e
          h) in
      simp e (ap (λ l. unset_at p.stage p.callback ++ l) rest)
]

-- Without a timer at this descriptor it makes no difference which one fires.
Fits-some :
    (fd : ℕ) (ps : List Pending)
    → has_key fd (entries ps) ≡ false
    → Fits none ps
    → Fits (some fd) ps
Fits-some fd [] h f = tt
Fits-some fd (p ∷ ps) h (a, b, c) = (a, ground (arith, b), Fits-some fd ps (ground arith) c)

Fits-none :
    (fd : ℕ) (ps : List Pending)
    → has_key fd (entries ps) ≡ false
    → Fits (some fd) ps
    → Fits none ps
Fits-none fd [] h f = tt
Fits-none fd (p ∷ ps) h (a, b, c) = (a, ground (arith, b), Fits-none fd ps (ground arith) c)

has_key-fire :
    (fd x : ℕ) (ps : List Pending) → has_key x (entries (fire fd ps)) ≡ has_key x (entries ps)
has_key-fire fd x ps = ap (has_key x) (entries-fire fd ps)

pub fire-Fits : (fd : ℕ) (ps : List Pending) → Fits none ps → Fits (some fd) (fire fd ps)
fire-Fits fd [] f = tt
fire-Fits fd (p ∷ ps) (a, b, c) = elim (Bool-cases (p.fd == fd)) [
  | inl e ↦
      let at : p.fd ≡ fd = ground arith in
      simp e (a, refl, Fits-some fd ps (subst (λ x. has_key x (entries ps) ≡ false) at a) c)
  | inr e ↦ simp e (has_key-fire fd p.fd ps ∙ a, b, fire-Fits fd ps c)
]

has_key-remove :
    (fd x : ℕ) (ps : List Pending)
    → has_key x (entries ps) ≡ false
    → has_key x (entries (remove fd ps)) ≡ false
has_key-remove fd x [] h = refl
has_key-remove fd x (p ∷ ps) h = ground (arith, has_key-remove fd x ps)

-- The removal of the timer that has fired.
pub remove-Fits : (fd : ℕ) (ps : List Pending) → Fits (some fd) ps → Fits none (remove fd ps)
remove-Fits fd [] f = tt
remove-Fits fd (p ∷ ps) (a, b, c) = elim (Bool-cases (p.fd == fd)) [
  | inl e ↦
      let at : p.fd ≡ fd = ground arith in
      simp e (Fits-none fd ps (subst (λ x. has_key x (entries ps) ≡ false) at a) c)
  | inr e ↦ simp e (has_key-remove fd p.fd ps a, b ∙ e, remove-Fits fd ps c)
]

pub waiting-remove :
    (fd : ℕ) (ps : List Pending) → Fits (some fd) ps → waiting (remove fd ps) ≡ waiting ps
waiting-remove fd [] f = refl
waiting-remove fd (p ∷ ps) (a, b, c) = elim (Bool-cases (p.fd == fd)) [
  | inl e ↦ simp (e, waiting_at_of_firing p.stage p.callback (b ∙ e)) refl
  | inr e ↦ simp e (ap (λ l. waiting_at p.stage p.callback ++ l) (waiting-remove fd ps c))
]

pub never_armed-remove :
    (fd : ℕ) (ps : List Pending) → Fits (some fd) ps → never_armed (remove fd ps) ≡ never_armed ps
never_armed-remove fd [] f = refl
never_armed-remove fd (p ∷ ps) (a, b, c) = elim (Bool-cases (p.fd == fd)) [
  | inl e ↦ simp (e, unset_at_of_firing p.stage p.callback (b ∙ e)) refl
  | inr e ↦ simp e (ap (λ l. unset_at p.stage p.callback ++ l) (never_armed-remove fd ps c))
]

-- Whether a timer of the kernel will still expire.
abbrev pub any_armed : List (ℕ × Bool) → Bool
any_armed [] = false
any_armed ((x, b) ∷ l) = let rest = any_armed l in if b then true else rest

pub never_armed-waiting :
    (ps : List Pending)
    → any_armed (descriptors ps) ≡ false
    → Fits none ps
    → never_armed ps ≡ waiting ps
never_armed-waiting [] h f = refl
never_armed-waiting (p ∷ ps) h (a, b, c) = elim (Bool-cases (is_armed p.stage)) [
  | inl e ↦ absurd (ground arith)
  | inr e ↦
      rw (unset_at-waiting_at p.stage p.callback e b)
        (ap (λ l. waiting_at p.stage p.callback ++ l) (never_armed-waiting ps (ground arith) c))
]
