-- ===== src/Queue/Mpsc/Invariant.antt =====
-- What holds between the accesses of an `MPSCQueue`: who writes to which slot, and what is in it.
use simple_redis_client.Prelude.{
  ℕ, ◌+◌, ◌-◌, ◌%◌, ◌<◌, ◌≡◌, ◌≢◌, Bool, true, false, ◌++◌, ltb, ◌==◌, if◌then◌else◌, Bool-cases,
  inl, inr, arith,
}
use simple_redis_client.Queue.Ring.{contents, index, mod-next}
use simple_redis_client.Queue.Mpsc.{
  Pusher, has_slot, stored, Popper, out_of_pop, popping, loaded_tail, awaiting, ready, taken_out,
  cleared, Mpsc, set_pusher, set_popper, invalid_index,
}

-- How far slot `j` lies behind the tail.
abbrev pub offset : ℕ → ℕ → ℕ → ℕ
offset cap tail j = if ltb j tail then j + cap - tail else j - tail

-- Slot `j` is one of the `n` from the tail on.
abbrev pub IsIn : ℕ → ℕ → ℕ → ℕ → Type 0
IsIn cap tail n j = (j < cap) × (offset cap tail j < n)

module _ {A : Type 0} where
  -- The slot that a thread has claimed and not yet published.
  abbrev pub owns : Pusher A → ℕ → Bool
  owns (has_slot x head) j = head == j
  owns (stored x head) j = head == j
  owns other j = false

  abbrev pub PusherKnows : (ℕ → A) → (ℕ → A) → Pusher A → Type 0
  PusherKnows items promised (has_slot x head) = promised head ≡ x
  PusherKnows items promised (stored x head) = (promised head ≡ x) × (items head ≡ x)
  PusherKnows items promised other = Unit

module _ {A : Type 0} (cap : ℕ) where
  abbrev pub PopperKnows : ℕ → Mpsc A → Popper A → Type 0
  PopperKnows n q (loaded_tail tail) = tail ≡ q.tail
  PopperKnows n q (awaiting tail) = (tail ≡ q.tail) × (0 < n)
  PopperKnows n q (ready tail) =
      (tail ≡ q.tail) × (0 < n) × ((q.seq tail == invalid_index cap) ≡ false)
  PopperKnows n q (taken_out x tail) =
      (tail ≡ q.tail)
      × (0 < n)
      × ((q.seq tail == invalid_index cap) ≡ false)
      × (q.promised tail ≡ x)
  PopperKnows n q (cleared x tail) =
      (tail ≡ q.tail)
      × (0 < n)
      × ((q.seq tail == invalid_index cap) ≡ true)
      × (q.promised tail ≡ x)
      × ((i : ℕ) → owns (q.pushers i) tail ≡ false)
  PopperKnows n q other = Unit

  -- `n` slots from the tail on are claimed, and their items are what was claimed and not popped.
  pub record Holds (q : Mpsc A) (n : ℕ) : Type 0 where
    pub fits : n < cap
    pub tail_in : q.tail < cap
    pub head_at : q.head ≡ index cap q.tail n
    pub waiting : q.claimed ≡ q.popped ++ contents cap q.promised q.tail n
    -- A published slot is in the ring, with the item that it was claimed for.
    pub published :
        (j : ℕ)
        → (q.seq j == invalid_index cap) ≡ false
        → IsIn cap q.tail n j × (q.items j ≡ q.promised j)
    -- A slot that a thread is writing to is in the ring, not published, and that thread's alone.
    pub owned :
        (i j : ℕ)
        → owns (q.pushers i) j ≡ true
        → IsIn cap q.tail n j × ((q.seq j == invalid_index cap) ≡ true)
    pub alone : (i k j : ℕ) → owns (q.pushers i) j ≡ true → owns (q.pushers k) j ≡ true → i ≡ k
    pub pushers_know : (i : ℕ) → PusherKnows q.items q.promised (q.pushers i)
    pub popper_knows : PopperKnows n q q.popper

  -- A thread that has and gets no slot.
  pub set_pusher-Holds :
      (q : Mpsc A) (n i : ℕ) (p : Pusher A)
      → Holds q n
      → ((j : ℕ) → owns p j ≡ false)
      → PusherKnows q.items q.promised p
      → Holds (set_pusher q i p) n
  set_pusher-Holds q n i p h o k = record {
    fits = h.fits;
    tail_in = h.tail_in;
    head_at = h.head_at;
    waiting = h.waiting;
    published = h.published;
    owned = λ l j e. h.owned l j (ground (arith, o j));
    alone = λ l m j e f. h.alone l m j (ground (arith, o j)) (ground (arith, o j));
    pushers_know =
        λ l. elim (Bool-cases (i == l)) [ inl e ↦ rw e k | inr e ↦ rw e (h.pushers_know l) ];
    popper_knows = fewer q.popper h.popper_knows;
  }
    where
      fewer : (c : Popper A) → PopperKnows n q c → PopperKnows n (set_pusher q i p) c
      fewer out_of_pop u = u
      fewer popping u = u
      fewer (loaded_tail t) u = u
      fewer (awaiting t) u = u
      fewer (ready t) u = u
      fewer (taken_out x t) u = u
      fewer (cleared x t) (a, b, c, d, u) = (a, b, c, d, λ l. ground (arith, o t, u l))

  pub set_popper-Holds :
      (q : Mpsc A) (n : ℕ) (c : Popper A) → Holds q n → PopperKnows n q c → Holds (set_popper q c) n
  set_popper-Holds q n c h k = record {
    fits = h.fits;
    tail_in = h.tail_in;
    head_at = h.head_at;
    waiting = h.waiting;
    published = h.published;
    owned = h.owned;
    alone = h.alone;
    pushers_know = h.pushers_know;
    popper_knows = same c k;
  }
    where
      same : (d : Popper A) → PopperKnows n q d → PopperKnows n (set_popper q c) d
      same out_of_pop u = u
      same popping u = u
      same (loaded_tail t) u = u
      same (awaiting t) u = u
      same (ready t) u = u
      same (taken_out x t) u = u
      same (cleared x t) u = u

-- The slot at the head is the one behind the others.
pub offset-head :
    (cap tail n head : ℕ)
    → tail < cap
    → n < cap
    → head ≡ index cap tail n
    → (head < cap) × (offset cap tail head ≡ n)
offset-head cap tail n head t k e = ground arith

-- The tail moves on by one.
pub offset_next :
    (cap tail j : ℕ)
    → tail < cap
    → j < cap
    → j ≢ tail
    → offset cap ((tail + 1) % cap) j + 1 ≡ offset cap tail j
offset_next cap tail j t k n = ground (arith, mod-next cap tail)
