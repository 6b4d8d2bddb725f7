-- ===== src/Rpc/Parser/Feed.antt =====
-- src/app/rpc/RpcServer.cpp: what one call of `parse` takes, and two calls in a row.
use simple_redis_client.Prelude.{
  length-drop, Option-cases, inl, inr, ℕ, zero, suc, ◌+◌, ◌-◌, ◌≤◌, ◌<◌, ◌≡◌, ◌≢◌, ◌∙◌, refl, sym,
  ap, Bytes, [], ◌∷◌, ◌++◌, length, length-append, arith,
}
use simple_redis_client.Rpc.Types.{
  ParserStatus, soa, magic0, ParserResult, complete, waiting, error, RpcContext,
}
use simple_redis_client.Rpc.Parser.{
  memchr, round_rest, step_soa, Round, next, stop, read_var, switch, parse_loop, max_rounds,
  run_parser, parse,
}
use simple_redis_client.Rpc.Parser.Rounds.{
  rank, Advances, switch-Advances, Round-cases, parse_loop-stops,
}
use simple_redis_client.Rpc.Parser.Stream.{
  memchr-le, parse_loop-le, parse_loop-append, rank-lt, resume_loop, resume_loop_stop, with_waiting,
}

-- How a call of the loop ends.
abbrev pub Ends : Round → Type 0
Ends (next c rest) = ⊥
Ends (stop c rest) = (c.result ≡ waiting → rest ≡ []) × (c.result ≢ waiting → c.status ≡ soa)

switch-Ends :
    (s : ParserStatus) (c : RpcContext) (src : Bytes) (c' : RpcContext) (rest : Bytes)
    → switch s c src ≡ stop c' rest
    → c'.result ≢ waiting
    → c'.status ≡ soa
unfolding switch read_var
switch-Ends soa c src c' rest e n = ground arith
switch-Ends s c [] c' rest e n = ground arith
switch-Ends s c (b ∷ src) c' rest e n = ground arith

parse_loop-Ends :
    (fuel : ℕ) (c : RpcContext) (src : Bytes) → rank c.status < fuel → Ends (parse_loop fuel c src)
unfolding parse_loop
parse_loop-Ends zero c src h = absurd (omega arith)
parse_loop-Ends (suc fuel) c [] h = (λ _. refl, λ n. absurd (n refl))
parse_loop-Ends (suc fuel) c (b ∷ src) h = elim (Round-cases (switch c.status c (b ∷ src))) [
  | inl (c', rest, e) ↦
      let a : Advances c.status (next c' rest) =
        rw e at (switch-Advances c.status c (b ∷ src) refl) in
      rw (e, parse_loop) (parse_loop-Ends fuel c' rest (omega arith))
  | inr (c', rest, e) ↦
      let a : Advances c.status (stop c' rest) =
        rw e at (switch-Advances c.status c (b ∷ src) refl) in
      rw (e, parse_loop) (λ w. (a w).1, switch-Ends c.status c (b ∷ src) c' rest e)
]

-- `parse` by what its loop does.
pub parse_run :
    (src : Bytes) (c : RpcContext) {c' : RpcContext} {rest : Bytes}
    → run_parser c src ≡ stop c' rest
    → parse src c ≡ (length src - length rest, c')
unfolding parse
parse_run [] c e = unfold parse_loop in ground (arith, e)
parse_run (b ∷ src) c e = rw e

resume_ended :
    (r : ParserResult) (c : RpcContext) (rest ys : Bytes)
    → r ≢ waiting
    → resume_loop_stop r c rest ys ≡ stop c (rest ++ ys)
resume_ended waiting c rest ys h = absurd (h refl)
resume_ended complete c rest ys h = refl
resume_ended error c rest ys h = refl

-- The loop's last round, with what is known of it.
pub record Final (src : Bytes) (c : RpcContext) : Type 0 where
  pub last : RpcContext
  pub rest : Bytes
  pub ran : run_parser c src ≡ stop last rest
  pub within : length rest ≤ length src
  pub drained : last.result ≡ waiting → rest ≡ []
  pub home : last.result ≢ waiting → last.status ≡ soa

pub final : (src : Bytes) (c : RpcContext) → Final src c
final src c =
    let (d, r, e) =
      parse_loop-stops max_rounds (record c { result = waiting }) src (rank-lt c.status) in
    let ends : Ends (stop d r) =
      rw e at (parse_loop-Ends max_rounds (record c { result = waiting }) src (rank-lt c.status)) in
    record {
      last = d;
      rest = r;
      ran = e;
      within = rw e at (parse_loop-le max_rounds (record c { result = waiting }) src);
      drained = ends.0;
      home = ends.1;
    }

pub parse_takes :
    (src : Bytes) (c : RpcContext)
    → ((parse src c).0 ≤ length src)
      × ((parse src c).1.result ≡ waiting → (parse src c).0 ≡ length src)
      × ((parse src c).1.result ≢ waiting → (parse src c).1.status ≡ soa)
parse_takes src c =
    let f = final src c in
    rw (parse_run src c f.ran) (omega arith, λ w. rw (f.drained w) (omega arith), f.home)

pub parse-append_parts :
    (xs ys : Bytes) (c : RpcContext)
    → ((parse xs c).1.result ≡ waiting
        → parse (xs ++ ys) c
          ≡ (length xs + (parse ys (parse xs c).1).0, (parse ys (parse xs c).1).1))
      × ((parse xs c).1.result ≢ waiting → parse (xs ++ ys) c ≡ parse xs c)
parse-append_parts xs ys c = let f = final xs c in rw (parse_run xs c f.ran) (waits f, ends f)
  where
    joined : (f : Final xs c) → run_parser c (xs ++ ys) ≡ resume_loop (stop f.last f.rest) ys
    joined f =
        parse_loop-append max_rounds (record c { result = waiting }) xs ys (rank-lt c.status) refl
        ∙ ap (λ r. resume_loop r ys) f.ran

    waits :
        (f : Final xs c)
        → f.last.result ≡ waiting
        → parse (xs ++ ys) c ≡ (length xs + (parse ys f.last).0, (parse ys f.last).1)
    waits f w =
        let g = final ys f.last in
        let go : run_parser c (xs ++ ys) ≡ stop g.last g.rest =
          joined f
          ∙ ap (λ r. resume_loop_stop r f.last f.rest ys) w
          ∙ ap (λ k. parse_loop max_rounds k ys) (sym (with_waiting f.last w))
          ∙ g.ran in
        rw (parse_run (xs ++ ys) c go, parse_run ys f.last g.ran)
          (ground (arith, length-append xs ys, g.within))

    ends :
        (f : Final xs c)
        → f.last.result ≢ waiting
        → parse (xs ++ ys) c ≡ (length xs - length f.rest, f.last)
    ends f w =
        rw (parse_run (xs ++ ys) c (joined f ∙ resume_ended f.last.result f.last f.rest ys w))
          (ground (arith, length-append xs ys, length-append f.rest ys))

switch_soa-lt :
    (c : RpcContext) (b : ℕ) (src : Bytes)
    → length (round_rest (switch soa c (b ∷ src))) ≤ length src
unfolding switch
switch_soa-lt c b src = elim (Option-cases (memchr magic0 (b ∷ src))) [
  | inl n ↦ rw (n, step_soa) (omega arith)
  | inr (p, m) ↦ rw (m, step_soa) (omega (arith, memchr-le magic0 (b ∷ src) p m, length-drop 1 p))
]

soa_takes :
    (fuel : ℕ) (c : RpcContext) (b : ℕ) (src : Bytes)
    → c.status ≡ soa
    → length (round_rest (parse_loop (suc fuel) c (b ∷ src))) ≤ length src
unfolding parse_loop
soa_takes fuel c b src e = elim (Round-cases (switch c.status c (b ∷ src))) [
  | inl (c', rest, r) ↦ rw (r, parse_loop) (omega (arith, parse_loop-le fuel c' rest, within r))
  | inr (c', rest, r) ↦ rw (r, parse_loop) (within r)
]
  where
    within : {r : Round} → switch c.status c (b ∷ src) ≡ r → length (round_rest r) ≤ length src
    within r = rw (ap (λ s. switch s c (b ∷ src)) (sym e) ∙ r) at (switch_soa-lt c b src)

-- From the first state a call takes at least one byte.
pub parse_progress :
    (b : ℕ) (src : Bytes) (c : RpcContext) → c.status ≡ soa → 1 ≤ (parse (b ∷ src) c).0
unfolding parse
parse_progress b src c e = omega (arith, soa_takes 12 (record c { result = waiting }) b src e)

-- A call on `xs ++ ys`, from the call on `xs`.
abbrev pub go_on : Bytes → Bytes → ParserResult → ℕ → RpcContext → ℕ × RpcContext
go_on xs ys waiting parsed c = (length xs + (parse ys c).0, (parse ys c).1)
go_on xs ys complete parsed c = (parsed, c)
go_on xs ys error parsed c = (parsed, c)

-- Two calls in a row are one call on the joined bytes: where the first waits, the second goes on
-- from its state; where the first ends a frame or fails, the rest of the bytes play no part.
parse-append :
    (xs ys : Bytes) (c : RpcContext)
    → parse (xs ++ ys) c ≡ go_on xs ys (parse xs c).1.result (parse xs c).0 (parse xs c).1
parse-append xs ys c = ends (parse xs c).1.result refl
  where
    ends :
        (r : ParserResult)
        → (parse xs c).1.result ≡ r
        → parse (xs ++ ys) c ≡ go_on xs ys r (parse xs c).0 (parse xs c).1
    ends waiting e = (parse-append_parts xs ys c).0 e
    ends complete e = (parse-append_parts xs ys c).1 (λ w. cc)
    ends error e = (parse-append_parts xs ys c).1 (λ w. cc)

-- A call that waits for more has taken all that it was given.
pub parse-waiting :
    (src : Bytes) (c : RpcContext) → (parse src c).1.result ≡ waiting → (parse src c).0 ≡ length src
parse-waiting src c = (parse_takes src c).1
