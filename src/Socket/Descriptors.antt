-- ===== src/Socket/Descriptors.antt =====
-- The descriptors of the sockets of src/net/socket/LinuxSocket.cpp, over a whole run.
use simple_redis_client.Prelude.{
  ℕ, zero, suc, ◌+◌, ◌≤◌, ◌≡◌, ◌∙◌, refl, sym, ap, subst, Bool, true, false, Option, none, some,
  List, [], ◌∷◌, ◌++◌, length, get_elem?, if◌then◌else◌, arith, Bool-cases, inl, inr,
}
use simple_redis_client.Socket.World.{
  World, no_sockets, is_open, free, close_fd, construct, accept_client, accept_on, close_own,
  remove_at, Move, constructs, accepts_on, destroys, context_ends, move, run,
}
use simple_redis_client.Pool.{running}
use simple_redis_client.Pool.Count.{count, count-snoc, runs}

-- The descriptors of the sockets that have one.
abbrev pub held : List (Option ℕ) → List ℕ
held [] = []
held (none ∷ l) = held l
held (some fd ∷ l) = fd ∷ held l

-- An open descriptor is held by one socket or was left open, once, and none was while the context is
-- there.
pub record IsHeld (w : World) : Type 0 where
  pub counted : (fd : ℕ) → count fd w.kernel ≡ count fd (held w.sockets) + count fd w.left_open
  pub single : (fd : ℕ) → count fd w.kernel ≤ 1
  pub kept : (if w.alive then length w.left_open else 0) ≡ 0

count_closed : (fd : ℕ) (l : List ℕ) → is_open fd l ≡ false → count fd l ≡ 0
unfolding count
count_closed fd [] h = refl
count_closed fd (x ∷ l) h = ground (arith, count_closed fd l)

open_of_count : (fd : ℕ) (l : List ℕ) → 1 ≤ count fd l → is_open fd l ≡ true
open_of_count fd l h = elim (Bool-cases (is_open fd l)) [
  | inl e ↦ e
  | inr e ↦ absurd (omega (arith, count_closed fd l e))
]

count-close_fd :
    (t fd : ℕ) (l : List ℕ)
    → is_open fd l ≡ true
    → count t (close_fd fd l) + runs t (running fd) ≡ count t l
unfolding count
count-close_fd t fd [] h = cc
count-close_fd t fd (x ∷ l) h = ground (arith, count-close_fd t fd l)

held-snoc_some : (l : List (Option ℕ)) (fd : ℕ) → held (l ++ (some fd ∷ [])) ≡ held l ++ (fd ∷ [])
held-snoc_some [] fd = refl
held-snoc_some (none ∷ l) fd = held-snoc_some l fd
held-snoc_some (some x ∷ l) fd = ap (λ m. x ∷ m) (held-snoc_some l fd)

held-snoc_none : (l : List (Option ℕ)) → held (l ++ (none ∷ [])) ≡ held l
held-snoc_none [] = refl
held-snoc_none (none ∷ l) = held-snoc_none l
held-snoc_none (some x ∷ l) = ap (λ m. x ∷ m) (held-snoc_none l)

-- The descriptor of the socket that goes.
abbrev own : Option (Option ℕ) → List ℕ
own none = []
own (some none) = []
own (some (some fd)) = fd ∷ []

held-remove_at :
    (t : ℕ) (l : List (Option ℕ)) (i : ℕ)
    → count t (held l) ≡ count t (held (remove_at l i)) + count t (own (get_elem? l i))
unfolding count
held-remove_at t [] i = omega arith
held-remove_at t (none ∷ l) zero = omega arith
held-remove_at t (some fd ∷ l) zero = ground arith
held-remove_at t (none ∷ l) (suc i) = held-remove_at t l i
held-remove_at t (some fd ∷ l) (suc i) = ground (arith, held-remove_at t l i)

free-is_open : (l : List ℕ) (o : Option ℕ) (fd : ℕ) → free l o ≡ some fd → is_open fd l ≡ false
free-is_open l none fd e = cc
free-is_open l (some x) fd e = elim (Bool-cases (is_open x l)) [
  | inl f ↦ absurd (cc (subst (λ b. (if b then none else some x) ≡ some fd) f e))
  | inr f ↦
      let same : some x ≡ some fd = subst (λ b. (if b then none else some x) ≡ some fd) f e in cc
]

construct-IsHeld :
    (w : World) (o : Option ℕ)
    → ((fd : ℕ) → o ≡ some fd → is_open fd w.kernel ≡ false)
    → IsHeld w
    → IsHeld (construct w o)
construct-IsHeld w none new h = record {
  counted = λ t. rw (held-snoc_none w.sockets) (h.counted t);
  single = h.single;
  kept = h.kept;
}
construct-IsHeld w (some fd) new h = record {
  counted = λ t.
      rw (held-snoc_some w.sockets fd)
        (omega (arith, h.counted t, count-snoc t w.kernel fd, count-snoc t (held w.sockets) fd));
  single = λ t.
      ground (arith, h.single t, count-snoc t w.kernel fd, count_closed fd w.kernel (new fd refl));
  kept = h.kept;
}

accept_client-IsHeld :
    (w : World) (o : Option ℕ)
    → ((fd : ℕ) → o ≡ some fd → is_open fd w.kernel ≡ false)
    → IsHeld w
    → IsHeld (accept_client w o)
accept_client-IsHeld w none new h = h
accept_client-IsHeld w (some fd) new h = elim (Bool-cases w.alive) [
  | inl e ↦ branch true e (construct-IsHeld w (some fd) new h)
  | inr e ↦ branch false e (record {
    counted =
        λ t. omega (arith, h.counted t, count-snoc t w.kernel fd, count-snoc t w.left_open fd);
    single = λ t.
        ground
          (arith, h.single t, count-snoc t w.kernel fd, count_closed fd w.kernel (new fd refl));
    kept = simp e refl;
  })
]
  where
    after : Bool → World
    after b =
        if b
        then record w { sockets = w.sockets ++ (some fd ∷ []); kernel = w.kernel ++ (fd ∷ []) }
        else record w { kernel = w.kernel ++ (fd ∷ []); left_open = w.left_open ++ (fd ∷ []) }

    branch : (b : Bool) → w.alive ≡ b → IsHeld (after b) → IsHeld (after w.alive)
    branch b e k = subst (λ a. IsHeld (after a)) (sym e) k

accept_on-IsHeld :
    (w : World) (s : Option (Option ℕ)) (o : Option ℕ)
    → ((fd : ℕ) → o ≡ some fd → is_open fd w.kernel ≡ false)
    → IsHeld w
    → IsHeld (accept_on w s o)
accept_on-IsHeld w none o new h = h
accept_on-IsHeld w (some none) o new h = h
accept_on-IsHeld w (some (some fd)) o new h = accept_client-IsHeld w o new h

-- A socket goes, with the descriptor that is its own.
destroy-IsHeld :
    (w : World) (i : ℕ) (s : Option (Option ℕ))
    → get_elem? w.sockets i ≡ s
    → IsHeld w
    → IsHeld (record (close_own w s) { sockets = remove_at w.sockets i })
unfolding count
destroy-IsHeld w i none e h = record {
  counted =
      λ t. omega (arith, h.counted t, held-remove_at t w.sockets i, ap (λ s. count t (own s)) e);
  single = h.single;
  kept = h.kept;
}
destroy-IsHeld w i (some none) e h = record {
  counted =
      λ t. omega (arith, h.counted t, held-remove_at t w.sockets i, ap (λ s. count t (own s)) e);
  single = h.single;
  kept = h.kept;
}
destroy-IsHeld w i (some (some fd)) e h = record {
  counted = λ t. omega (arith, h.counted t, gone t, count-close_fd t fd w.kernel here);
  single = λ t. omega (arith, h.single t, count-close_fd t fd w.kernel here);
  kept = h.kept;
}
  where
    gone :
        (t : ℕ)
        → count t (held w.sockets) ≡ count t (held (remove_at w.sockets i)) + runs t (running fd)
    gone t = ground (
      arith,
      held-remove_at t w.sockets i
          ∙ ap (λ s. count t (held (remove_at w.sockets i)) + count t (own s)) e,
    )

    here : is_open fd w.kernel ≡ true
    here = open_of_count fd w.kernel (ground (arith, h.counted fd, gone fd))

move-IsHeld : (w : World) (m : Move) → IsHeld w → IsHeld (move w m)
unfolding move
move-IsHeld w (constructs o) h = construct-IsHeld w (free w.kernel o) (free-is_open w.kernel o) h
move-IsHeld w (accepts_on i o) h =
    accept_on-IsHeld w (get_elem? w.sockets i) (free w.kernel o) (free-is_open w.kernel o) h
move-IsHeld w (destroys i) h = destroy-IsHeld w i (get_elem? w.sockets i) refl h
move-IsHeld w context_ends h = record { counted = h.counted; single = h.single; kept = refl }

run-IsHeld : (w : World) (ms : List Move) → IsHeld w → IsHeld (run w ms)
unfolding run
run-IsHeld w [] h = h
run-IsHeld w (m ∷ ms) h = run-IsHeld (move w m) ms (move-IsHeld w m h)

-- Whatever sockets are made, accepted and destroyed, and whichever calls fail: each open descriptor
-- is open once, and it is that of one socket, or it was accepted after the end of the context and is
-- that of no socket. As long as the context is there, none of this last kind is left.
pub descriptors_held :
    (ms : List Move) (fd : ℕ)
    → (count fd (run no_sockets ms).kernel
        ≡ count fd (held (run no_sockets ms).sockets) + count fd (run no_sockets ms).left_open)
      × (count fd (run no_sockets ms).kernel ≤ 1)
      × ((if (run no_sockets ms).alive then length (run no_sockets ms).left_open else 0) ≡ 0)
unfolding count
descriptors_held ms fd =
    let h : IsHeld (run no_sockets ms) = run-IsHeld no_sockets ms new in
    (h.counted fd, h.single fd, h.kept)
  where
    new : IsHeld no_sockets
    new = record { counted = λ t. omega arith; single = λ t. omega arith; kept = refl }
