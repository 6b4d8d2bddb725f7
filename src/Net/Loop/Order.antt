-- ===== src/Net/Loop/Order.antt =====
-- The tasks of an `EpollContext` keep their order, and every place in its queue is ready or will be.
use simple_redis_client.Prelude.{
  ◌⊎◌, ◌%◌, suc, ℕ, ◌≡◌, ◌∙◌, refl, sym, ap, subst, Bool, true, false, List, [], ◌∷◌, ◌++◌,
  append_assoc, ltb, ◌==◌, if◌then◌else◌, ◌||◌, arith, Bool-cases, inl, inr,
}
use simple_redis_client.Net.Loop.{
  Poster, loaded, has_room, queue_head, queue_tail, claim_place, fail_exchange, exchange_fails,
  store_lands, idle, pushing, publishing, exchanging, writing, Entry, LoopAt, testing, waiting,
  reading, popping, running_task, storing, checking, loop_exchanging, loop_writing, closing,
  closing_task, ended, EventLoop, update, set_poster, pushed, post, pop_task, check_tasks, turn,
  Move, post_batch, poster, loop_moves, stop_store, stop_write, begin_post, move, run, new_loop,
}
use simple_redis_client.Net.Loop.Owned.{
  is_publishing, IsOwned, tasks, IsOwned-update, IsOwned-publish, IsOwned-append, tasks-publish,
  tasks-append,
}

pub record IsOrdered (s : EventLoop) : Type 0 where
  pub owned : IsOwned s.posters s.queue
  -- Unless a push has met the tail.
  pub order : (s.overrun ≡ true) ⊎ (s.posted ≡ s.started ++ tasks s.queue)

poster-IsOrdered :
    (s : EventLoop) (i : ℕ) (p : Poster)
    → is_publishing (s.posters i) ≡ false
    → IsOrdered s
    → IsOrdered (set_poster s i p)
poster-IsOrdered s i p w h = record {
  owned = IsOwned-update s.posters i p s.queue w h.owned;
  order = h.order;
}

IsOrdered-fields :
    (s s' : EventLoop)
    → s'.queue ≡ s.queue
    → s'.posters ≡ s.posters
    → s'.posted ≡ s.posted
    → s'.started ≡ s.started
    → s'.overrun ≡ s.overrun
    → IsOrdered s
    → IsOrdered s'
IsOrdered-fields s s' a b c d e h = record {
  owned = rw (a, b) h.owned;
  order = rw (a, c, d, e) h.order;
}

claim_place-IsOrdered :
    (cap : ℕ) (s : EventLoop) (i t : ℕ) (ts : List ℕ) (laps : Bool)
    → is_publishing (s.posters i) ≡ false
    → IsOrdered s
    → IsOrdered (claim_place cap s i t ts laps)
claim_place-IsOrdered cap s i t ts true w h = record { owned = tt; order = inl (ground arith) }
claim_place-IsOrdered cap s i t ts false w h = record {
  owned =
      IsOwned-append (update s.posters i (publishing ts)) s.queue _
        (IsOwned-update s.posters i (publishing ts) s.queue w h.owned) (ground arith);
  order = elim h.order [
    | inl o ↦ inl (ground arith)
    | inr o ↦ inr (
        ap (λ l. l ++ (t ∷ [])) o
        ∙ append_assoc s.started (tasks s.queue) (t ∷ [])
        ∙ ap (λ l. s.started ++ l) (sym (tasks-append s.queue _)))
  ];
}

post-IsOrdered :
    (cap : ℕ) (s : EventLoop) (i : ℕ) (p : Poster)
    → s.posters i ≡ p
    → IsOrdered s
    → IsOrdered (post cap s i p)
unfolding post
post-IsOrdered cap s i idle e h = h
post-IsOrdered cap s i (pushing []) e h = poster-IsOrdered s i exchanging (rw e refl) h
post-IsOrdered cap s i (pushing (t ∷ ts)) e h = poster-IsOrdered s i _ (rw e refl) h
post-IsOrdered cap s i (loaded t ts k) e h = poster-IsOrdered s i _ (rw e refl) h
post-IsOrdered cap s i (has_room t ts k) e h = elim (Bool-cases (k == queue_head cap s)) [
  | inl f ↦
      simp f (claim_place-IsOrdered cap s i t ts (suc k % cap == queue_tail cap s) (rw e refl) h)
  | inr f ↦ simp f (poster-IsOrdered s i _ (rw e refl) h)
]
post-IsOrdered cap s i (publishing ts) e h = record {
  owned = IsOwned-publish s.posters i (pushed ts) s.queue h.owned;
  order = elim h.order [
    | inl o ↦ inl o
    | inr o ↦ inr (o ∙ ap (λ l. s.started ++ l) (sym (tasks-publish i s.queue)))
  ];
}
post-IsOrdered cap s i exchanging e h =
    IsOrdered-fields (set_poster s i (if s.awake then idle else writing)) _ refl refl refl refl refl
      (poster-IsOrdered s i _ (rw e refl) h)
post-IsOrdered cap s i writing e h =
    IsOrdered-fields (set_poster s i idle) _ refl refl refl refl refl
      (poster-IsOrdered s i idle (rw e refl) h)

pop_task-IsOrdered :
    (s : EventLoop) (l l' : LoopAt) (es : List Entry)
    → s.queue ≡ es
    → IsOrdered s
    → IsOrdered (pop_task s l l' es)
pop_task-IsOrdered s l l' [] q h = IsOrdered-fields s _ refl refl refl refl refl h
pop_task-IsOrdered s l l' (e ∷ es) q h = elim (Bool-cases e.ready) [
  | inl k ↦ simp k (record {
    owned = (subst (IsOwned s.posters) q h.owned).1;
    order = elim h.order [
      | inl o ↦ inl o
      | inr o ↦ inr (
          o
          ∙ ap (λ l. s.started ++ tasks l) q
          ∙ sym (append_assoc s.started (e.task ∷ []) (tasks es)))
    ];
  })
  | inr k ↦ simp k h
]

check_tasks-IsOrdered :
    (s : EventLoop) (es : List Entry) → IsOrdered s → IsOrdered (check_tasks s es)
check_tasks-IsOrdered s [] h = IsOrdered-fields s _ refl refl refl refl refl h
check_tasks-IsOrdered s (x ∷ es) h = IsOrdered-fields s _ refl refl refl refl refl h

turn-IsOrdered : (s : EventLoop) (l : LoopAt) → IsOrdered s → IsOrdered (turn s l)
unfolding turn
turn-IsOrdered s testing h = IsOrdered-fields s _ refl refl refl refl refl h
turn-IsOrdered s waiting h = elim (Bool-cases (ltb 0 s.eventfd)) [
  | inl k ↦ simp k (IsOrdered-fields s _ refl refl refl refl refl h)
  | inr k ↦ simp k h
]
turn-IsOrdered s reading h = IsOrdered-fields s _ refl refl refl refl refl h
turn-IsOrdered s popping h = pop_task-IsOrdered s running_task storing s.queue refl h
turn-IsOrdered s running_task h = IsOrdered-fields s _ refl refl refl refl refl h
turn-IsOrdered s storing h = IsOrdered-fields s _ refl refl refl refl refl h
turn-IsOrdered s checking h =
    check_tasks-IsOrdered (record s { early = s.early || s.delayed }) s.queue
      (IsOrdered-fields s _ refl refl refl refl refl h)
turn-IsOrdered s loop_exchanging h = IsOrdered-fields s _ refl refl refl refl refl h
turn-IsOrdered s loop_writing h = IsOrdered-fields s _ refl refl refl refl refl h
turn-IsOrdered s closing h = pop_task-IsOrdered s closing_task ended s.queue refl h
turn-IsOrdered s closing_task h = IsOrdered-fields s _ refl refl refl refl refl h
turn-IsOrdered s ended h = h

begin_post-IsOrdered :
    (s : EventLoop) (i : ℕ) (ts : List ℕ) (p : Poster)
    → s.posters i ≡ p
    → IsOrdered s
    → IsOrdered (begin_post s i ts p)
begin_post-IsOrdered s i ts idle e h = poster-IsOrdered s i (pushing ts) (rw e refl) h
begin_post-IsOrdered s i ts (pushing us) e h = h
begin_post-IsOrdered s i ts (loaded t us k) e h = h
begin_post-IsOrdered s i ts (has_room t us k) e h = h
begin_post-IsOrdered s i ts (publishing us) e h = h
begin_post-IsOrdered s i ts exchanging e h = h
begin_post-IsOrdered s i ts writing e h = h

fail_exchange-IsOrdered :
    (cap : ℕ) (s : EventLoop) (i : ℕ) (p : Poster)
    → s.posters i ≡ p
    → IsOrdered s
    → IsOrdered (fail_exchange cap s i p)
fail_exchange-IsOrdered cap s i (has_room t ts k) e h = poster-IsOrdered s i _ (rw e refl) h
fail_exchange-IsOrdered cap s i idle e h = h
fail_exchange-IsOrdered cap s i (pushing ts) e h = h
fail_exchange-IsOrdered cap s i (loaded t ts k) e h = h
fail_exchange-IsOrdered cap s i (publishing ts) e h = h
fail_exchange-IsOrdered cap s i exchanging e h = h
fail_exchange-IsOrdered cap s i writing e h = h

move-IsOrdered : (cap : ℕ) (s : EventLoop) (m : Move) → IsOrdered s → IsOrdered (move cap s m)
unfolding move
move-IsOrdered cap s (post_batch i ts) h = begin_post-IsOrdered s i ts (s.posters i) refl h
move-IsOrdered cap s (poster i) h = post-IsOrdered cap s i (s.posters i) refl h
move-IsOrdered cap s (exchange_fails i) h = fail_exchange-IsOrdered cap s i (s.posters i) refl h
move-IsOrdered cap s store_lands h = elim (Bool-cases s.delayed) [
  | inl k ↦ simp k (IsOrdered-fields s _ refl refl refl refl refl h)
  | inr k ↦ simp k h
]
move-IsOrdered cap s loop_moves h = turn-IsOrdered s s.loop h
move-IsOrdered cap s stop_store h = IsOrdered-fields s _ refl refl refl refl refl h
move-IsOrdered cap s stop_write h = elim (Bool-cases s.stopping) [
  | inl k ↦ simp k (IsOrdered-fields s _ refl refl refl refl refl h)
  | inr k ↦ simp k h
]

pub run-IsOrdered :
    (cap : ℕ) (s : EventLoop) (ms : List Move) → IsOrdered s → IsOrdered (run cap s ms)
unfolding run
run-IsOrdered cap s [] h = h
run-IsOrdered cap s (m ∷ ms) h = run-IsOrdered cap (move cap s m) ms (move-IsOrdered cap s m h)

pub new_loop-IsOrdered : IsOrdered new_loop
new_loop-IsOrdered = record { owned = tt; order = inr refl }
