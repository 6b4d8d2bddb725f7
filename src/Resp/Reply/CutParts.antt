-- ===== src/Resp/Reply/CutParts.antt =====
-- The parts of a reply of which only a beginning has arrived (src/app/redis/redis.h).
use simple_redis_client.Prelude.{
  ℕ, zero, suc, ◌+◌, ◌<◌, ◌≤◌, ◌^◌, ◌≡◌, ◌∙◌, ◌⊎◌, inl, inr, refl, ap, Bytes, none, some, [], ◌∷◌,
  ◌++◌, length, drop, get_elem?, arith, length-append, length-drop, append_assoc,
}
use simple_redis_client.Prelude.Int.{pos}
use simple_redis_client.Resp.Number.{to_string}
use simple_redis_client.Resp.Parser.{ok, incomplete, find_crlf, read_line, read_number, bulk_body}
use simple_redis_client.Resp.Command.{crlf}
use simple_redis_client.Resp.Reply.{IsLine}
use simple_redis_client.Resp.Reply.Lines.{drop_past, get_elem?-drop}
use simple_redis_client.Resp.Reply.Parts.{
  print-IsLine, part_bound, past_line, add_size_small, read_size,
}

-- A text in two parts, cut: in the first part, or behind it.
pub split :
    (a b cut rest : Bytes)
    → a ++ b ≡ cut ++ rest
    → ((mid : Bytes) × (0 < length mid) × (a ≡ cut ++ mid))
      ⊎ ((cut' : Bytes) × (cut ≡ a ++ cut') × (b ≡ cut' ++ rest))
split [] b cut rest e = inr (cut, refl, e)
split (x ∷ a) b [] rest e = inl (x ∷ a, ground arith, refl)
split (x ∷ a) b (y ∷ cut) rest e = elim (split a b cut rest (ground arith)) [
  | inl (mid, h, k) ↦ inl (mid, h, ground arith)
  | inr (cut', h, k) ↦ inr (cut', ground arith, k)
]

pub get_elem?-none : (n : ℕ) (xs : Bytes) → drop n xs ≡ [] → get_elem? xs n ≡ none
get_elem?-none zero [] h = refl
get_elem?-none zero (x ∷ xs) h = ground arith
get_elem?-none (suc n) [] h = refl
get_elem?-none (suc n) (x ∷ xs) h = get_elem?-none n xs h

pub find_crlf_cut :
    (at : ℕ) (line cut mid : Bytes)
    → IsLine line
    → line ++ crlf ≡ cut ++ mid
    → 0 < length mid
    → find_crlf at cut ≡ none
unfolding find_crlf
find_crlf_cut at line [] mid h e k = refl
find_crlf_cut at [] (c ∷ []) mid h e k = ground arith
find_crlf_cut at [] (c ∷ (d ∷ cut)) mid h e k =
    absurd (omega (arith, ap length e, length-append cut mid))
find_crlf_cut at (x ∷ line) (c ∷ cut) mid h e k =
    ground (arith, find_crlf_cut (suc at) line cut mid h.1)

pub read_line_cut :
    (src : Bytes) (at : ℕ) (line cut mid : Bytes)
    → IsLine line
    → line ++ crlf ≡ cut ++ mid
    → 0 < length mid
    → drop at src ≡ cut
    → read_line src at ≡ incomplete
unfolding read_line
read_line_cut src at line cut mid h e k d = rw (d, find_crlf_cut at line cut mid h e k) refl

pub bulk_body_cut :
    (s src : Bytes) (at : ℕ) (cut mid : Bytes)
    → at + length s + 2 < 2 ^ 63
    → at ≤ length src
    → s ++ crlf ≡ cut ++ mid
    → 0 < length mid
    → drop at src ≡ cut
    → bulk_body src (pos (length s)) at ≡ incomplete
unfolding bulk_body
bulk_body_cut s src at cut mid small le e k d =
    rw (add_size_small at (length s) (omega arith), add_size_small (at + length s) 2 (omega arith))
      (ground (arith, short))
  where
    short : length src < at + length s + 2
    short = omega (
      arith,
      length-drop at src,
      ap length d,
      ap length e,
      length-append s crlf,
      length-append cut mid,
    )

-- The number of a size: it is cut, or it is read and the cut stands in the body.
pub size_cut :
    (n : ℕ) (src : Bytes) (at : ℕ) (body cut mid : Bytes)
    → n < 2 ^ 63
    → to_string n ++ (crlf ++ body) ≡ cut ++ mid
    → drop at src ≡ cut
    → (read_number src at ≡ incomplete)
      ⊎ ((cut' : Bytes) × (read_number src at ≡ ok (pos n) (at + length (to_string n) + 2))
          × (body ≡ cut' ++ mid)
          × (drop (at + length (to_string n) + 2) src ≡ cut')
          × (at + length (to_string n) + 2 ≤ length src))
size_cut n src at body cut mid fits e c =
    elim (split (to_string n ++ crlf) body cut mid (append_assoc (to_string n) crlf body ∙ e)) [
      | inl (mid', k, e') ↦
          inl (rw (read_line_cut src at (to_string n) cut mid' (print-IsLine (pos n)) e' k c) refl)
      | inr (cut', c', e') ↦ inr (
        cut',
        read_size n src at cut' fits (here cut' c'),
        e',
        past_line src at (to_string n) cut' (here cut' c'),
        part_bound src at (to_string n) cut' (here cut' c'),
      )
    ]
  where
    here :
        (cut' : Bytes)
        → cut ≡ (to_string n ++ crlf) ++ cut'
        → drop at src ≡ to_string n ++ (crlf ++ cut')
    here cut' c' = c ∙ c' ∙ append_assoc (to_string n) crlf cut'

-- A cut behind the type byte.
pub typed_cut :
    (src : Bytes) (at kind c : ℕ) (tail cut mid : Bytes)
    → kind ∷ tail ≡ (c ∷ cut) ++ mid
    → drop at src ≡ c ∷ cut
    → (get_elem? src at ≡ some kind) × (tail ≡ cut ++ mid) × (drop (at + 1) src ≡ cut)
typed_cut src at kind c tail cut mid e d =
    (get_elem?-drop at src cut c d ∙ ground arith, ground arith, drop_past at src (c ∷ []) cut d)
