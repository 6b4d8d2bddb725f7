-- ===== src/Net/Timers.antt =====
-- src/net/context/EpollContext.cpp: the timers of an `EventLoopThread`, `addTimer` and `handleTimer`,
-- with the descriptors that the kernel has for them.
pub mod Pending
pub mod Expiry
pub mod Added
pub mod Fired
pub mod Loops
pub mod Once
mod Tests
use simple_redis_client.Prelude.{
  ℕ, zero, suc, ◌+◌, ◌-◌, ◌*◌, ◌/◌, Bool, true, false, not, ◌&&◌, Option, none, some, List, [], ◌∷◌,
  ◌++◌, ◌==◌, if◌then◌else◌,
}

-- `timer_fds_`, in which a callback may be empty; the kernel's open timers, with whether they still
-- expire; and the callbacks that were called, oldest first. Not in the source: the callbacks for
-- which `addTimer` returned a descriptor, and those of them with a time of zero.
pub record Timers : Type 0 where
  pub timer_fds : List (ℕ × Option ℕ)
  pub kernel : List (ℕ × Bool)
  pub called : List ℕ
  pub added : List ℕ
  pub untimed : List ℕ

abbrev pub no_timers : Timers
no_timers = record { timer_fds = []; kernel = []; called = []; added = []; untimed = [] }

-- The tables by descriptor: a key stands in them once.
abbrev pub has_key {ℓ} : {A : Type ℓ} → ℕ → List (ℕ × A) → Bool
has_key fd [] = false
has_key fd ((x, a) ∷ l) = let rest = has_key fd l in if x == fd then true else rest

abbrev pub find {ℓ} : {A : Type ℓ} → ℕ → List (ℕ × A) → Option A
find fd [] = none
find fd ((x, a) ∷ l) = let rest = find fd l in if x == fd then some a else rest

abbrev pub erase {ℓ} : {A : Type ℓ} → ℕ → List (ℕ × A) → List (ℕ × A)
erase fd [] = []
erase fd ((x, a) ∷ l) = let rest = erase fd l in if x == fd then l else (x, a) ∷ rest

-- `emplace` keeps an entry that is there.
abbrev pub emplace {ℓ} : {A : Type ℓ} → ℕ → A → List (ℕ × A) → List (ℕ × A)
emplace fd a l = if has_key fd l then l else (fd, a) ∷ l

-- Epoll's one shot: the timer expires once.
abbrev pub disarm : ℕ → List (ℕ × Bool) → List (ℕ × Bool)
disarm fd [] = []
disarm fd ((x, b) ∷ l) = let rest = disarm fd l in if x == fd then (x, false) ∷ l else (x, b) ∷ rest

-- `spec.it_value`, seconds and nanoseconds of a number of milliseconds.
abbrev pub it_value : ℕ → ℕ × ℕ
it_value ms = (ms / 1000, (ms - ms / 1000 * 1000) * 1000000)

-- `timerfd_settime` disarms a timer that is set to zero.
abbrev pub arms : ℕ × ℕ → Bool
arms (sec, nsec) = not ((sec == 0) && (nsec == 0))

-- The results of the three system calls of `addTimer`.
pub record Calls : Type 0 where
  pub timerfd_create : Option ℕ
  pub timerfd_settime : Bool
  pub epoll_ctl : Bool

abbrev pub callback_list : Option ℕ → List ℕ
callback_list none = []
callback_list (some t) = t ∷ []

-- Both timer and entry are there; `addTimer` returns the descriptor.
abbrev pub timer_added : Timers → ℕ → ℕ → Option ℕ → Timers
timer_added s fd ms callback = record s {
  timer_fds = emplace fd callback s.timer_fds;
  kernel = (fd, arms (it_value ms)) ∷ s.kernel;
  added = s.added ++ callback_list callback;
  untimed = if arms (it_value ms) then s.untimed else s.untimed ++ callback_list callback;
}

-- The timer is closed, then its entry is erased.
abbrev pub ctl_failed : Timers → ℕ → ℕ → Option ℕ → Timers
ctl_failed s fd ms callback = record s {
  timer_fds = erase fd (emplace fd callback s.timer_fds);
  kernel = erase fd ((fd, arms (it_value ms)) ∷ s.kernel);
}

abbrev pub settime_failed : Timers → ℕ → Timers
settime_failed s fd = record s { kernel = erase fd ((fd, false) ∷ s.kernel) }

abbrev pub timer_created : Timers → Calls → ℕ → Option ℕ → Option ℕ → Timers × Option ℕ
timer_created s k ms callback none = (s, none)
timer_created s k ms callback (some fd) =
    if not k.timerfd_settime
    then (settime_failed s fd, none)
    else if not k.epoll_ctl
    then (ctl_failed s fd ms callback, none)
    else (timer_added s fd ms callback, some fd)

-- The kernel does not give a descriptor that is open: such a number stands for a failure.
abbrev pub free_fd : List (ℕ × Bool) → Option ℕ → Option ℕ
free_fd kernel none = none
free_fd kernel (some fd) = if has_key fd kernel then none else some fd

-- `addTimer`, with the descriptor it returns.
unfoldable pub add_timer : Timers → Calls → ℕ → Option ℕ → Timers × Option ℕ
add_timer s k ms callback = timer_created s k ms callback (free_fd s.kernel k.timerfd_create)

-- One call of `addTimer`: the system's answers, the time and the callback.
abbrev pub Addition : Type 0
Addition = Calls × ℕ × Option ℕ

unfoldable pub add_timers : Timers → List Addition → Timers
unfolding add_timer
add_timers s [] = s
add_timers s ((k, ms, callback) ∷ more) = add_timers (add_timer s k ms callback).0 more

-- The callback, which may add timers, is called before the timer is closed and its entry erased.
abbrev pub call_back : Timers → Option (Option ℕ) → List Addition → Timers
call_back s none more = s
call_back s (some none) more = s
call_back s (some (some t)) more = add_timers (record s { called = s.called ++ (t ∷ []) }) more

unfoldable pub handle_timer : Timers → ℕ → List Addition → Timers
unfolding add_timers
handle_timer s fd more =
    let s' = call_back s (find fd s.timer_fds) more in
    record s' { kernel = erase fd s'.kernel; timer_fds = erase fd s'.timer_fds }

-- Epoll reports an expired timer, and `handleRead` finds its entry.
abbrev pub expire : Timers → ℕ → List Addition → Option Bool → Timers
expire s fd more (some true) =
    let s' = record s { kernel = disarm fd s.kernel } in
    if has_key fd s'.timer_fds then handle_timer s' fd more else s'
expire s fd more (some false) = s
expire s fd more none = s

-- A report of epoll for a timer.
unfoldable pub report_timer : Timers → ℕ → List Addition → Timers
unfolding handle_timer
report_timer s fd more = expire s fd more (find fd s.kernel)
