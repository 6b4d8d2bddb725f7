-- ===== src/Client/Words.antt =====
-- The words of `execute(const std::string& cmd)` in src/app/redis/SimpleRedisClient.cpp.
use simple_redis_client.Prelude.{
  ◌<◌, ◌≡◌, ◌∙◌, refl, sym, ap, Bytes, List, [], ◌∷◌, ◌++◌, All, length, append-nil, append_assoc,
  arith, false, true,
}
use simple_redis_client.Resp.Number.{is_space}
use simple_redis_client.Client.{words, emit}

abbrev pub IsWord : Bytes → Type 0
IsWord s = (0 < length s) × All (λ c. is_space c ≡ false) s

-- Words with a gap of blanks behind each.
abbrev pub line_of : List (Bytes × Bytes) → Bytes
line_of [] = []
line_of (w ∷ ws) = w.0 ++ (w.1 ++ line_of ws)

abbrev pub AreWords : List (Bytes × Bytes) → Type 0
AreWords [] = Unit
AreWords (w ∷ ws) = IsWord w.0 × (0 < length w.1) × All (λ c. is_space c ≡ true) w.1 × AreWords ws

abbrev pub firsts : List (Bytes × Bytes) → List Bytes
firsts [] = []
firsts (w ∷ ws) = w.0 ∷ firsts ws

words_word :
    (word s t : Bytes) → All (λ c. is_space c ≡ false) s → words word (s ++ t) ≡ words (word ++ s) t
unfolding words
words_word word [] t h = rw append-nil refl
words_word word (c ∷ s) t h =
    rw (h.0, words)
      (words_word (word ++ (c ∷ [])) s t h.1 ∙ ap (λ w. words w t) (append_assoc word (c ∷ []) s))

words_blanks : (s t : Bytes) → All (λ c. is_space c ≡ true) s → words [] (s ++ t) ≡ words [] t
unfolding words
words_blanks [] t h = refl
words_blanks (c ∷ s) t h = rw (h.0, words) (words_blanks s t h.1)

words_gap :
    (word s t : Bytes)
    → 0 < length word
    → 0 < length s
    → All (λ c. is_space c ≡ true) s
    → words word (s ++ t) ≡ word ∷ words [] t
unfolding words
words_gap [] s t k l h = absurd (omega arith)
words_gap (x ∷ word) [] t k l h = absurd (omega arith)
words_gap (x ∷ word) (c ∷ s) t k l h = rw (h.0, words) (ap (◌∷◌ (x ∷ word)) (words_blanks s t h.1))

words_end : (word : Bytes) → words word [] ≡ emit word []
unfolding words
words_end word = refl

words_line :
    (last : Bytes) (ws : List (Bytes × Bytes))
    → AreWords ws
    → All (λ c. is_space c ≡ false) last
    → words [] (line_of ws ++ last) ≡ firsts ws ++ emit last []
words_line last [] k l =
    ap (words []) (sym (append-nil last)) ∙ words_word [] last [] l ∙ words_end last
words_line last ((w, gap) ∷ ws) (word, long, blank, k) l =
    ap (words []) (append_assoc w (gap ++ line_of ws) last)
    ∙ words_word [] w ((gap ++ line_of ws) ++ last) word.1
    ∙ ap (words w) (append_assoc gap (line_of ws) last)
    ∙ words_gap w gap (line_of ws ++ last) word.0 long blank
    ∙ ap (◌∷◌ w) (words_line last ws k l)

-- The words of a line are its maximal runs of bytes that are no blanks, in order, however many
-- blanks stand before them and, at least one each, behind all of them but possibly the last.
words-line_of :
    (lead last : Bytes) (ws : List (Bytes × Bytes))
    → All (λ c. is_space c ≡ true) lead
    → AreWords ws
    → All (λ c. is_space c ≡ false) last
    → words [] (lead ++ (line_of ws ++ last)) ≡ firsts ws ++ emit last []
words-line_of lead last ws h k l = words_blanks lead (line_of ws ++ last) h ∙ words_line last ws k l
