-- ===== src/Socket/World.antt =====
-- src/net/socket/LinuxSocket.cpp: which `LinuxSocket`s there are and which descriptors they hold open,
-- from their construction or `accept` to their destructor.
use simple_redis_client.Prelude.{
  ℕ, zero, suc, Bool, true, false, Option, none, some, List, [], ◌∷◌, ◌++◌, get_elem?, ◌==◌,
  if◌then◌else◌,
}

-- The descriptors that the kernel has open, the sockets, and whether the context is still there. Not
-- in the source: the clients' descriptors that `accept` took and left to no socket.
pub record World : Type 0 where
  pub kernel : List ℕ
  pub sockets : List (Option ℕ)
  pub alive : Bool
  pub left_open : List ℕ

abbrev pub no_sockets : World
no_sockets = record { kernel = []; sockets = []; alive = true; left_open = [] }

abbrev pub is_open : ℕ → List ℕ → Bool
is_open fd [] = false
is_open fd (x ∷ l) = let rest = is_open fd l in if x == fd then true else rest

-- The kernel gives no descriptor that is open: such a number stands for a failure.
abbrev pub free : List ℕ → Option ℕ → Option ℕ
free kernel none = none
free kernel (some fd) = if is_open fd kernel then none else some fd

-- `close`, of a descriptor that is open.
abbrev pub close_fd : ℕ → List ℕ → List ℕ
close_fd fd [] = []
close_fd fd (x ∷ l) = let rest = close_fd fd l in if x == fd then l else x ∷ rest

-- The constructor, with the result of `::socket`.
abbrev pub construct : World → Option ℕ → World
construct w none = record w { sockets = w.sockets ++ (none ∷ []) }
construct w (some fd) = record w {
  sockets = w.sockets ++ (some fd ∷ []);
  kernel = w.kernel ++ (fd ∷ []);
}

-- `accept`, with the result of `::accept`: the client's socket needs the context.
abbrev pub accept_client : World → Option ℕ → World
accept_client w none = w
accept_client w (some fd) =
    if w.alive
    then record w { sockets = w.sockets ++ (some fd ∷ []); kernel = w.kernel ++ (fd ∷ []) }
    else record w { kernel = w.kernel ++ (fd ∷ []); left_open = w.left_open ++ (fd ∷ []) }

abbrev pub accept_on : World → Option (Option ℕ) → Option ℕ → World
accept_on w none answer = w
accept_on w (some none) answer = w
accept_on w (some (some fd)) answer = accept_client w answer

-- The destructor.
abbrev pub close_own : World → Option (Option ℕ) → World
close_own w none = w
close_own w (some none) = w
close_own w (some (some fd)) = record w { kernel = close_fd fd w.kernel }

abbrev pub remove_at {ℓ} : {A : Type ℓ} → List A → ℕ → List A
remove_at [] i = []
remove_at (x ∷ l) zero = l
remove_at (x ∷ l) (suc i) = x ∷ remove_at l i

abbrev pub destroy : World → ℕ → World
destroy w i = record (close_own w (get_elem? w.sockets i)) { sockets = remove_at w.sockets i }

pub data Move : Type 0 where
  constructs : Option ℕ → Move
  accepts_on : ℕ → Option ℕ → Move
  destroys : ℕ → Move
  context_ends : Move

unfoldable pub move : World → Move → World
move w (constructs answer) = construct w (free w.kernel answer)
move w (accepts_on i answer) = accept_on w (get_elem? w.sockets i) (free w.kernel answer)
move w (destroys i) = destroy w i
move w context_ends = record w { alive = false }

unfoldable pub run : World → List Move → World
unfolding move
run w [] = w
run w (m ∷ ms) = run (move w m) ms
