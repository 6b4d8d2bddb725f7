-- ===== src/Net/Loop/Owned.antt =====
-- The places of the queue of an `EpollContext`: their tasks, and the threads that they belong to.
use simple_redis_client.Prelude.{
  ℕ, ◌≡◌, refl, ap, Bool, true, false, List, [], ◌∷◌, ◌++◌, ◌==◌, ◌||◌, arith, Bool-cases, inl, inr,
}
use simple_redis_client.Net.Loop.{Poster, idle, publishing, Entry, update, publish}

abbrev pub is_publishing : Poster → Bool
is_publishing (publishing ts) = true
is_publishing other = false

-- A place that is not ready belongs to a thread that is about to write to it.
abbrev pub IsOwned : (ℕ → Poster) → List Entry → Type 0
IsOwned f [] = Unit
IsOwned f (e ∷ es) = (e.ready || is_publishing (f e.owner) ≡ true) × IsOwned f es

abbrev pub IsReady : List Entry → Type 0
IsReady [] = Unit
IsReady (e ∷ es) = (e.ready ≡ true) × IsReady es

abbrev pub tasks : List Entry → List ℕ
tasks [] = []
tasks (e ∷ es) = e.task ∷ tasks es

pub IsOwned-update :
    (f : ℕ → Poster) (i : ℕ) (p : Poster) (es : List Entry)
    → is_publishing (f i) ≡ false
    → IsOwned f es
    → IsOwned (update f i p) es
IsOwned-update f i p [] w h = tt
IsOwned-update f i p (e ∷ es) w (h, hs) = (ground arith, IsOwned-update f i p es w hs)

pub IsOwned-publish :
    (f : ℕ → Poster) (i : ℕ) (p : Poster) (es : List Entry)
    → IsOwned f es
    → IsOwned (update f i p) (publish i es)
unfolding publish
IsOwned-publish f i p [] h = tt
IsOwned-publish f i p (e ∷ es) (h, hs) = (ground arith, IsOwned-publish f i p es hs)

pub IsOwned-append :
    (f : ℕ → Poster) (es : List Entry) (e : Entry)
    → IsOwned f es
    → (e.ready || is_publishing (f e.owner)) ≡ true
    → IsOwned f (es ++ (e ∷ []))
IsOwned-append f [] e h k = (k, tt)
IsOwned-append f (x ∷ es) e (h, hs) k = (h, IsOwned-append f es e hs k)

pub tasks-publish : (i : ℕ) (es : List Entry) → tasks (publish i es) ≡ tasks es
unfolding publish
tasks-publish i [] = refl
tasks-publish i (e ∷ es) = elim (Bool-cases (e.owner == i)) [
  | inl k ↦ rw k (ap (◌∷◌ e.task) (tasks-publish i es))
  | inr k ↦ rw k (ap (◌∷◌ e.task) (tasks-publish i es))
]

pub tasks-append :
    (es : List Entry) (e : Entry) → tasks (es ++ (e ∷ [])) ≡ tasks es ++ (e.task ∷ [])
tasks-append [] e = refl
tasks-append (x ∷ es) e = ap (◌∷◌ x.task) (tasks-append es e)

pub ready_lem :
    (f : ℕ → Poster) (es : List Entry) → IsOwned f es → ((i : ℕ) → f i ≡ idle) → IsReady es
ready_lem f [] h idles = tt
ready_lem f (e ∷ es) (h, hs) idles = (ground (arith, idles e.owner), ready_lem f es hs idles)
