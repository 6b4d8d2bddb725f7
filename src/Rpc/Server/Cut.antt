-- ===== src/Rpc/Server/Cut.antt =====
-- src/app/rpc/RpcServer.cpp: two reads in a row, and one read of the joined bytes.
use simple_redis_client.Prelude.{
  ℕ, zero, suc, ◌+◌, ◌≡◌, ◌∙◌, refl, sym, ap, inl, inr, some, Bytes, [], ◌∷◌, ◌++◌, length, drop,
  drop-append_le, drop-append_ge, arith,
}
use simple_redis_client.Rpc.Types.{waiting, RpcContext, fresh}
use simple_redis_client.Rpc.Parser.{parse}
use simple_redis_client.Rpc.Parser.Feed.{parse_takes, parse-append_parts}
use simple_redis_client.Rpc.Server.{Served, put_task, serve_loop, serve_fuel, on_read}
use simple_redis_client.Rpc.Server.Stream.{
  waiting_or, waits, round_waits, round_ends, put_task-some, serve_loop_mono, on_read_total,
}

-- Two reads in a row.
abbrev pub after : Served → Served → Served
after s t = record {
  consumed = s.consumed + t.consumed;
  context = t.context;
  tasks = s.tasks ++ t.tasks;
  closed = t.closed;
}

parts : {A B : Type 0} (p : A × B) {a : A} {b : B} → p ≡ (a, b) → (p.0 ≡ a) × (p.1 ≡ b)
parts p e = (ap (λ q. q.0) e, ap (λ q. q.1) e)

-- The second read goes on where the first one waits.
append_waits :
    (g x y : ℕ) (xs ys : Bytes) (c : RpcContext) {t : Served}
    → (parse (x ∷ xs) c).1.result ≡ waiting
    → serve_loop (suc g) (y ∷ ys) (parse (x ∷ xs) c).1 ≡ some t
    → serve_loop (suc g) (x ∷ (xs ++ y ∷ ys)) c
      ≡ some (after (waits (length (x ∷ xs)) (parse (x ∷ xs) c).1) t)
append_waits g x y xs ys c {t} w e =
    let joined = parts _ ((parse-append_parts (x ∷ xs) (y ∷ ys) c).0 w) in
    elim (waiting_or (parse (y ∷ ys) (parse (x ∷ xs) c).1).1.result) [
      | inl v ↦
          round_waits g x (xs ++ y ∷ ys) c (rw joined.1 v)
          ∙ ground (arith, joined.0, joined.1, sym e ∙ round_waits g y ys _ v)
      | inr v ↦
          let (u, r, q) = put_task-some _ _ _ (sym (round_ends g y ys _ v) ∙ e) in
          round_ends g x (xs ++ y ∷ ys) c (rw joined.1 v)
          ∙ ap (put_task _ _) (ap (λ l. serve_loop g l fresh) (dropped _ _ joined.0) ∙ r)
          ∙ ground (arith, joined.0, joined.1, q)
    ]
  where
    dropped : (m n : ℕ) → m ≡ length (x ∷ xs) + n → drop m (x ∷ (xs ++ y ∷ ys)) ≡ drop n (y ∷ ys)
    dropped m n h =
        drop-append_ge m (x ∷ xs) (y ∷ ys) (omega arith) ∙ ap (λ k. drop k (y ∷ ys)) (omega arith)

-- The loop over the joined bytes, from the loops over the two reads.
serve_loop-append :
    (f g y : ℕ) (xs ys : Bytes) (c : RpcContext) {s t : Served}
    → serve_loop f xs c ≡ some s
    → serve_loop (suc g) (y ∷ ys) s.context ≡ some t
    → (h : ℕ) × (serve_loop h (xs ++ y ∷ ys) c ≡ some (after s t))
serve_loop-append zero g y xs ys c e k = absurd (unfold serve_loop in cc)
serve_loop-append (suc f) g y [] ys c {s} {t} e k = (
  suc g,
  ap (λ d. serve_loop (suc g) (y ∷ ys) d) (ap (λ o. o.context) unread) ∙ k ∙ ground (arith, unread),
)
  where
    unread : waits 0 c ≡ s
    unread = unfold serve_loop in cc
serve_loop-append (suc f) g y (x ∷ xs) ys c {s} {t} e k =
    elim (waiting_or (parse (x ∷ xs) c).1.result) [
      | inl w ↦
          let q : waits (parse (x ∷ xs) c).0 (parse (x ∷ xs) c).1 ≡ s =
            ground (arith, sym (round_waits f x xs c w) ∙ e) in
          (
            suc g,
            append_waits g x y xs ys c w
                  (ap (λ d. serve_loop (suc g) (y ∷ ys) d) (ap (λ o. o.context) q) ∙ k)
                ∙ ground (arith, q, (parse_takes (x ∷ xs) c).1 w),
          )
      | inr w ↦
          let (u, r, q) = put_task-some _ _ _ (sym (round_ends f x xs c w) ∙ e) in
          let (h, p) =
            serve_loop-append f g y (drop (parse (x ∷ xs) c).0 (x ∷ xs)) ys fresh {s = u} {t = t} r
              (ap (λ d. serve_loop (suc g) (y ∷ ys) d) (ap (λ o. o.context) (sym q)) ∙ k) in
          let j = (parse-append_parts (x ∷ xs) (y ∷ ys) c).1 w in
          (
            suc h,
            round_ends h x (xs ++ y ∷ ys) c (rw j w)
                ∙ ap (λ P. put_task P.0 P.1 (serve_loop h (drop P.0 (x ∷ (xs ++ y ∷ ys))) fresh)) j
                ∙ ap
                    (λ l. put_task (parse (x ∷ xs) c).0 (parse (x ∷ xs) c).1 (serve_loop h l fresh))
                    (drop-append_le (parse (x ∷ xs) c).0 (x ∷ xs) (y ∷ ys)
                      (parse_takes (x ∷ xs) c).0)
                ∙ ap (put_task (parse (x ∷ xs) c).0 (parse (x ∷ xs) c).1) p
                ∙ ground (arith, q),
          )
    ]

on_read_loop :
    (b : ℕ) (src : Bytes) (c : RpcContext)
    → on_read (b ∷ src) c ≡ serve_loop (serve_fuel (b ∷ src)) (b ∷ src) c
unfolding on_read
on_read_loop b src c = refl

some-eq : {A : Type 0} {a b : A} → some a ≡ some b → a ≡ b
some-eq e = cc

serve_loop_unique :
    (f h : ℕ) (src : Bytes) (c : RpcContext) {u v : Served}
    → serve_loop f src c ≡ some u
    → serve_loop h src c ≡ some v
    → u ≡ v
serve_loop_unique f h src c p q = some-eq (
    sym (serve_loop_mono f (f + h) src c p (omega arith))
    ∙ serve_loop_mono h (f + h) src c q (omega arith))

-- The callback does not depend on where the stream is cut: two reads that are not empty give the
-- thread pool, in order, the contexts that the joined bytes give in one read, they consume as many
-- bytes, and they leave the same parser state.
pub on_read-append :
    (x y : ℕ) (xs ys : Bytes) (c : RpcContext) (s t : Served)
    → on_read (x ∷ xs) c ≡ some s
    → on_read (y ∷ ys) s.context ≡ some t
    → on_read (x ∷ (xs ++ y ∷ ys)) c ≡ some (after s t)
on_read-append x y xs ys c s t e k =
    let (h, p) =
      serve_loop-append (serve_fuel (x ∷ xs)) (suc (length (y ∷ ys))) y (x ∷ xs) ys c {s = s}
        {t = t} (sym (on_read_loop x xs c) ∙ e) (sym (on_read_loop y ys s.context) ∙ k) in
    let (u, r, _, _) = on_read_total x (xs ++ y ∷ ys) c in
    r
    ∙ ap some
        (serve_loop_unique _ h (x ∷ (xs ++ y ∷ ys)) c (sym (on_read_loop x (xs ++ y ∷ ys) c) ∙ r) p)
