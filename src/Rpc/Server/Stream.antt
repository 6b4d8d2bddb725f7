-- ===== src/Rpc/Server/Stream.antt =====
-- src/app/rpc/RpcServer.cpp: the read callback of `acceptClient` ends, and consumes what it is given.
use simple_redis_client.Prelude.{
  ℕ, zero, suc, ◌+◌, ◌≤◌, ◌<◌, ◌≡◌, ◌≢◌, ◌∙◌, refl, sym, ap, ◌⊎◌, inl, inr, Option, none, some,
  Bytes, [], ◌∷◌, length, drop, length-drop, false, arith,
}
use simple_redis_client.Rpc.Types.{ParserResult, complete, waiting, error, RpcContext, fresh}
use simple_redis_client.Rpc.Parser.{parse}
use simple_redis_client.Rpc.Parser.Feed.{parse_takes, parse_progress}
use simple_redis_client.Rpc.Server.{Served, put_task, serve_loop, serve_fuel, on_read}

pub waiting_or : (r : ParserResult) → (r ≡ waiting) ⊎ (r ≢ waiting)
waiting_or waiting = inl refl
waiting_or complete = inr (λ e. cc)
waiting_or error = inr (λ e. cc)

abbrev pub waits : ℕ → RpcContext → Served
waits n c = record { consumed = n; context = c; tasks = []; closed = false }

-- One round, by how `parse` ends.
module _ (fuel b : ℕ) (src : Bytes) (c : RpcContext) where
  pub round_waits :
      (parse (b ∷ src) c).1.result ≡ waiting
      → serve_loop (suc fuel) (b ∷ src) c ≡ some (waits (parse (b ∷ src) c).0 (parse (b ∷ src) c).1)
  unfolding serve_loop
  round_waits w = ground arith

  pub round_ends :
      (parse (b ∷ src) c).1.result ≢ waiting
      → serve_loop (suc fuel) (b ∷ src) c
        ≡ put_task
            (parse (b ∷ src) c).0
            (parse (b ∷ src) c).1
            (serve_loop fuel (drop (parse (b ∷ src) c).0 (b ∷ src)) fresh)
  unfolding serve_loop
  round_ends w = ground arith

pub put_task-some :
    (n : ℕ) (c : RpcContext) (o : Option Served) {s : Served}
    → put_task n c o ≡ some s
    → (t : Served) × (o ≡ some t)
      × (s ≡ record t { consumed = n + t.consumed; tasks = c ∷ t.tasks })
put_task-some n c none e = cc
put_task-some n c (some t) e = (t, refl, ground arith)

-- What a whole read is: all its bytes are consumed, and the connection stays open.
record Whole (fuel : ℕ) (src : Bytes) (c : RpcContext) : Type 0 where
  pub served : Served
  pub ran : serve_loop fuel src c ≡ some served
  pub all : served.consumed ≡ length src
  pub open_still : served.closed ≡ false

Whole-waits :
    (fuel b : ℕ) (src : Bytes) (c : RpcContext)
    → (parse (b ∷ src) c).1.result ≡ waiting
    → Whole (suc fuel) (b ∷ src) c
Whole-waits fuel b src c w = record {
  served = waits (parse (b ∷ src) c).0 (parse (b ∷ src) c).1;
  ran = round_waits fuel b src c w;
  all = (parse_takes (b ∷ src) c).1 w;
  open_still = refl;
}

Whole-ends :
    (fuel b : ℕ) (src : Bytes) (c : RpcContext)
    → (parse (b ∷ src) c).1.result ≢ waiting
    → Whole fuel (drop (parse (b ∷ src) c).0 (b ∷ src)) fresh
    → Whole (suc fuel) (b ∷ src) c
Whole-ends fuel b src c w r = record {
  served = record (r.served) {
    consumed = (parse (b ∷ src) c).0 + r.served.consumed;
    tasks = (parse (b ∷ src) c).1 ∷ r.served.tasks;
  };
  ran = round_ends fuel b src c w ∙ ap (put_task (parse (b ∷ src) c).0 (parse (b ∷ src) c).1) r.ran;
  all =
      omega
        (arith, r.all, (parse_takes (b ∷ src) c).0, length-drop (parse (b ∷ src) c).0 (b ∷ src));
  open_still = r.open_still;
}

-- Every round from the first state takes a byte, so the loop ends.
serve_fresh : (fuel : ℕ) (src : Bytes) → length src < fuel → Whole fuel src fresh
serve_fresh zero src h = absurd (omega arith)
serve_fresh (suc fuel) [] h = record {
  served = waits 0 fresh;
  ran = unfold serve_loop in refl;
  all = refl;
  open_still = refl;
}
serve_fresh (suc fuel) (b ∷ src) h = elim (waiting_or (parse (b ∷ src) fresh).1.result) [
  | inl w ↦ Whole-waits fuel b src fresh w
  | inr w ↦ Whole-ends fuel b src fresh w (
      serve_fresh fuel (drop (parse (b ∷ src) fresh).0 (b ∷ src)) (
        omega (
          arith,
          parse_progress b src fresh refl,
          length-drop (parse (b ∷ src) fresh).0 (b ∷ src),
        )))
]

-- From any state one round more may take nothing.
serve_any : (fuel : ℕ) (src : Bytes) (c : RpcContext) → length src + 1 < fuel → Whole fuel src c
serve_any zero src c h = absurd (omega arith)
serve_any (suc fuel) [] c h = record {
  served = waits 0 c;
  ran = unfold serve_loop in refl;
  all = refl;
  open_still = refl;
}
serve_any (suc fuel) (b ∷ src) c h = elim (waiting_or (parse (b ∷ src) c).1.result) [
  | inl w ↦ Whole-waits fuel b src c w
  | inr w ↦ Whole-ends fuel b src c w (
      serve_fresh fuel (drop (parse (b ∷ src) c).0 (b ∷ src))
        (omega (arith, length-drop (parse (b ∷ src) c).0 (b ∷ src))))
]

-- The callback ends on every read that is not empty, from every state of the connection: it
-- consumes all the bytes, and does not close.
pub on_read_total :
    (b : ℕ) (src : Bytes) (c : RpcContext)
    → (s : Served) × (on_read (b ∷ src) c ≡ some s)
      × (s.consumed ≡ length (b ∷ src))
      × (s.closed ≡ false)
unfolding on_read
on_read_total b src c =
    let w = serve_any (serve_fuel (b ∷ src)) (b ∷ src) c (omega arith) in
    (w.served, w.ran, w.all, w.open_still)

-- More fuel gives the same.
pub serve_loop_mono :
    (f g : ℕ) (src : Bytes) (c : RpcContext) {s : Served}
    → serve_loop f src c ≡ some s
    → f ≤ g
    → serve_loop g src c ≡ some s
serve_loop_mono zero g src c e h = unfold serve_loop in cc
serve_loop_mono (suc f) zero src c e h = absurd (omega arith)
serve_loop_mono (suc f) (suc g) [] c e h = unfold serve_loop in e
serve_loop_mono (suc f) (suc g) (b ∷ src) c e h = elim (waiting_or (parse (b ∷ src) c).1.result) [
  | inl w ↦ round_waits g b src c w ∙ sym (round_waits f b src c w) ∙ e
  | inr w ↦
      let (t, r, q) = put_task-some _ _ _ (sym (round_ends f b src c w) ∙ e) in
      round_ends g b src c w
      ∙ ap (put_task (parse (b ∷ src) c).0 (parse (b ∷ src) c).1)
          (serve_loop_mono f g _ fresh r (omega arith))
      ∙ ap some (sym q)
]
