-- ===== src/Http/Words.antt =====
-- src/net/net-http-parse.c: the parts of a line end in a state that its flags allow, and nearer to the end.
use teleproxy.Base.{
  ℕ, suc, ◌+◌, ◌-◌, ◌*◌, ◌≤◌, ◌<◌, Bool, true, false, ◌||◌, List, [], ◌∷◌, arith, if◌then◌else◌,
  length, ◌≡◌, refl, ◌⊎◌, inl, inr, sym, ◌∙◌,
}
use teleproxy.Http.{
  Hts, ParseState, readtospace, readtocolon, readint, skipspc, skiptoeoln, skipspctoeoln, read_word,
  read_name, skip_spaces, read_digits, first_word, second_word, third_word, value_word, end_word,
  step_readtospace, step_start, after_spaces, step_spaces, name_flags, step_readtocolon,
  step_readint, add_word, started, after_word, after_skip, after_name, after_digits,
}
use teleproxy.Http.Ranks.{
  allows, is_allowed, rank, fits, read_word-Keeps, read_name-Keeps, skip_spaces-Keeps,
  length-read_digits,
}

-- What a word does: the state is `p`, or the line is refused; the words are counted before.
abbrev Lands : ParseState → Hts → Hts → Type 0
Lands p d result =
    (result.query_words ≡ d.query_words)
    × ((result.parse_state ≡ p) ⊎ (result.parse_state ≡ skiptoeoln))

first_word-Lands : (d : Hts) → d.parse_state ≡ skipspc → Lands skipspc d (first_word d)
unfolding first_word
first_word-Lands d p = ground (arith, p)

second_word-Lands : (d : Hts) → d.parse_state ≡ skipspc → Lands skipspc d (second_word d)
unfolding second_word
second_word-Lands d p = ground (arith, p)

third_word-Lands : (d : Hts) → Lands skipspctoeoln d (third_word d)
unfolding third_word
third_word-Lands d = ground arith

value_word-Lands : (d : Hts) → Lands skipspctoeoln d (value_word d)
unfolding value_word
value_word-Lands d = ground arith

fits-landed :
    (d r : Hts) (p : ParseState) (c : ℕ) (s : List ℕ) (m : ℕ)
    → Lands p d r
    → allows p d.query_words false ≡ true
    → 16 * suc (length s) + rank p d.query_words < m
    → 16 * suc (length s) + 3 < m
    → fits m (add_word r (c ∷ s)) ≡ true
unfolding fits allows rank
fits-landed d r p c s m (w, inl e) a h k = ground (arith, w, e, a, sym e)
fits-landed d r p c s m (w, inr e) a h k = ground (arith, w, e)

fits-end_word :
    (d : Hts) (c : ℕ) (s : List ℕ) (m : ℕ)
    → allows readtospace d.query_words (d.qf_host || d.qf_connection) ≡ true
    → 16 * suc (length s) + 5 + (2 - d.query_words) * 2 < m
    → fits m (end_word d (c ∷ s)) ≡ true
unfolding end_word allows rank
fits-end_word d c s m a h =
    let d1 : Hts = record d { parse_state = skipspc; query_words = d.query_words + 1 } in
    let k1 : d1.query_words ≡ 1 → fits m (add_word (first_word d1) (c ∷ s)) ≡ true = λ e.
      fits-landed d1 (first_word d1) skipspc c s m (first_word-Lands d1 refl) (ground (arith, e))
        (ground (arith, e)) (omega arith) in
    let k2 : d1.query_words ≡ 2 → fits m (add_word (second_word d1) (c ∷ s)) ≡ true = λ e.
      fits-landed d1 (second_word d1) skipspc c s m (second_word-Lands d1 refl) (ground (arith, e))
        (ground (arith, e)) (omega arith) in
    let k3 : fits m (add_word (third_word d1) (c ∷ s)) ≡ true =
      fits-landed d1 (third_word d1) skipspctoeoln c s m (third_word-Lands d1) refl (omega arith)
        (omega arith) in
    let k4 : fits m (add_word (value_word d1) (c ∷ s)) ≡ true =
      fits-landed d1 (value_word d1) skipspctoeoln c s m (value_word-Lands d1) refl (omega arith)
        (omega arith) in
    ground (arith, k1, k2, k3, k4, a)

fits-after_word :
    (d : Hts) (s : List ℕ) (m : ℕ)
    → d.parse_state ≡ readtospace
    → is_allowed d ≡ true
    → 16 * length s + 5 + (2 - d.query_words) * 2 < m
    → fits m (after_word d s) ≡ true
unfolding after_word fits rank allows
fits-after_word d [] m p a h = ground (arith, p, a)
fits-after_word d (c ∷ s) m p a h =
    let k = fits-end_word d c s m (ground (arith, p, a)) h in ground (arith, k)

pub fits-step_readtospace :
    (d : Hts) (s : List ℕ) (m : ℕ)
    → d.parse_state ≡ readtospace
    → is_allowed d ≡ true
    → 16 * length s + 5 + (2 - d.query_words) * 2 < m
    → fits m (step_readtospace d s) ≡ true
unfolding step_readtospace
fits-step_readtospace d s m p a h =
    let (q, w, x, y, l) = read_word-Keeps d s in
    let r = read_word d s in
    fits-after_word r.0 r.1 m (q ∙ p) (ground (arith, q, w, x, y, a)) (ground (arith, w, l))

pub fits-step_start : (d : Hts) (s : List ℕ) → fits (16 * length s + 12) (step_start d s) ≡ true
unfolding step_start allows
fits-step_start d s =
    fits-step_readtospace (started d) s (16 * length s + 12) refl refl (omega arith)

fits-after_spaces :
    (d : Hts) (c : ℕ) (s : List ℕ) (m : ℕ)
    → allows skipspc d.query_words false ≡ true
    → 16 * suc (length s) + 6 + (2 - d.query_words) * 2 < m
    → fits m (after_spaces d (c ∷ s)) ≡ true
unfolding after_spaces fits allows rank
fits-after_spaces d c s m a h = ground (arith, a)

fits-after_skip :
    (to_eoln : Bool) (d : Hts) (s : List ℕ) (m : ℕ)
    → d.parse_state ≡ (if to_eoln then skipspctoeoln else skipspc)
    → is_allowed d ≡ true
    → 16 * length s + (if to_eoln then 4 else 6 + (2 - d.query_words) * 2) < m
    → fits m (after_skip to_eoln d s) ≡ true
unfolding after_skip fits rank allows
fits-after_skip to_eoln d [] m p a h = ground (arith, p, a)
fits-after_skip true d (c ∷ s) m p a h = ground (arith, p, a)
fits-after_skip false d (c ∷ s) m p a h =
    let k = fits-after_spaces d c s m (ground (arith, p, a)) (omega (arith, h)) in ground (arith, k)

pub fits-step_spaces :
    (to_eoln : Bool) (d : Hts) (s : List ℕ) (m : ℕ)
    → d.parse_state ≡ (if to_eoln then skipspctoeoln else skipspc)
    → is_allowed d ≡ true
    → 16 * length s + (if to_eoln then 4 else 6 + (2 - d.query_words) * 2) < m
    → fits m (step_spaces to_eoln d s) ≡ true
unfolding step_spaces
fits-step_spaces to_eoln d s m p a h =
    let (q, w, x, y, l) = skip_spaces-Keeps d s in
    let r = skip_spaces d s in
    fits-after_skip to_eoln r.0 r.1 m (q ∙ p) (ground (arith, q, w, x, y, a)) (ground (arith, w, l))

words-name_flags : (d : Hts) → (name_flags d).query_words ≡ d.query_words
unfolding name_flags
words-name_flags d = ground arith

fits-after_name :
    (d : Hts) (s : List ℕ) (m : ℕ)
    → d.parse_state ≡ readtocolon
    → 8 ≤ d.query_words
    → 16 * length s + 3 < m
    → fits m (after_name d s) ≡ true
unfolding after_name fits rank allows
fits-after_name d [] m p w h = ground (arith, p)
fits-after_name d (c ∷ []) m p w h = let k = words-name_flags d in ground (arith, k)
fits-after_name d (c ∷ b ∷ s) m p w h = let k = words-name_flags d in ground (arith, k)

pub fits-step_readtocolon :
    (d : Hts) (s : List ℕ) (m : ℕ)
    → d.parse_state ≡ readtocolon
    → 8 ≤ d.query_words
    → 16 * length s + 3 < m
    → fits m (step_readtocolon d s) ≡ true
unfolding step_readtocolon
fits-step_readtocolon d s m p w h =
    let (q, x, y, z, l) = read_name-Keeps d s in
    let r = read_name d s in fits-after_name r.0 r.1 m (q ∙ p) (omega (arith, x)) (omega arith)

fits-after_digits :
    (d : Hts) (s : List ℕ) (m : ℕ)
    → is_allowed d ≡ true
    → 16 * length s + 5 < m
    → fits m (after_digits d s) ≡ true
unfolding after_digits fits rank allows
fits-after_digits d [] m a h = a
fits-after_digits d (c ∷ s) m a h = ground arith

pub fits-step_readint :
    (d : Hts) (s : List ℕ) (m : ℕ)
    → d.parse_state ≡ readint
    → 16 * length s + 5 < m
    → fits m (step_readint d s) ≡ true
unfolding step_readint
fits-step_readint d s m p h =
    let (l, a) = length-read_digits d s p in
    fits-after_digits (read_digits d s).0 (read_digits d s).1 m a (omega arith)
