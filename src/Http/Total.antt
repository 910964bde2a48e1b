-- ===== src/Http/Total.antt =====
-- src/net/net-http-parse.c: no assertion of http_parse_data fails, and its loop ends.
use teleproxy.Base.{
  ℕ, zero, suc, ◌+◌, ◌*◌, ◌≤◌, ◌<◌, Bool, true, false, List, [], ◌∷◌, arith, length, Bool-cases,
  ◌≡◌, refl, ◌≢◌, ◌⊎◌, inl, inr, sym, ap, ◌∙◌,
}
use teleproxy.Http.{
  Hts, ParseState, Round, start, readtospace, readtocolon, readint, skipspc, skiptoeoln,
  skipspctoeoln, eoln, wantlf, wantlastlf, linestart, fatal, done, next, abort, step, parsed,
  Result, is_done, parse_loop, http_parse_data,
}
use teleproxy.Http.Ranks.{allows, is_allowed, rank, rank_bound, measure, fits}
use teleproxy.Http.Lines.{
  fits-step_linestart, fits-step_wantlf, fits-step_eoln, fits-step_skiptoeoln, fits-step_wantlastlf,
  Ahead, lf_rank, eoln_rank,
}
use teleproxy.Http.Words.{
  fits-step_readtospace, fits-step_start, fits-step_spaces, fits-step_readtocolon,
  fits-step_readint,
}

-- The state reads a line's name or start.
abbrev at_line : ParseState → Bool
at_line readtocolon = true
at_line linestart = true
at_line _ = false

words_eight :
    (d : Hts) (p : ParseState)
    → d.parse_state ≡ p
    → is_allowed d ≡ true
    → at_line p ≡ true
    → 8 ≤ d.query_words
unfolding allows
words_eight d p e a l = ground (arith, e, a, l)

ahead : (left : ℕ → ℕ) (s : List ℕ) → ((c : ℕ) → left c < 4) → Ahead left (16 * length s + 4) s
ahead left [] h = tt
ahead left (c ∷ s) h = let q = h c in omega arith

fits-fatal : (d : Hts) (s : List ℕ) → fits (16 * length s + 1) (step fatal d s) ≡ true
unfolding step fits allows rank
fits-fatal d [] = refl
fits-fatal d (c ∷ s) = ground arith

fits-step :
    (p : ParseState) (d : Hts) (s : List ℕ)
    → d.parse_state ≡ p
    → is_allowed d ≡ true
    → is_done p ≡ false
    → fits (16 * length s + rank p d.query_words) (step p d s) ≡ true
unfolding step rank
fits-step start d s p a n = fits-step_start d s
fits-step readtospace d s p a n = fits-step_readtospace d s _ p a (omega arith)
fits-step skipspc d s p a n = fits-step_spaces false d s _ p a (omega arith)
fits-step skipspctoeoln d s p a n = fits-step_spaces true d s _ p a (omega arith)
fits-step readtocolon d s p a n =
    fits-step_readtocolon d s _ p (words_eight d readtocolon p a refl) (omega arith)
fits-step readint d s p a n = fits-step_readint d s _ p (omega arith)
fits-step skiptoeoln d s p a n = fits-step_skiptoeoln d s _ p (omega arith)
fits-step eoln d s p a n = fits-step_eoln d s _ p (ahead eoln_rank s (λ c. ground arith))
fits-step wantlf d s p a n = fits-step_wantlf d s _ p (ahead lf_rank s (λ c. ground arith))
fits-step linestart d s p a n =
    fits-step_linestart d s _ p (words_eight d linestart p a refl) (omega arith)
fits-step wantlastlf d s p a n = fits-step_wantlastlf d s p
fits-step fatal d s p a n = fits-fatal d s
fits-step done d s p a n = absurd (ground (arith, n))

not_abort : (m : ℕ) (r : Round) → r ≡ abort → fits m r ≢ true
unfolding fits
not_abort m r e k = ground (arith, e, k)

Round-cases : (r : Round) → (r ≡ abort) ⊎ ((d : Hts) × (s : List ℕ) × (r ≡ next d s))
Round-cases abort = inl refl
Round-cases (next d s) = inr (d, s, refl)

-- A call's outcome: no assertion failed, the state is allowed, everything was consumed or the
-- request is complete, and no more is left than there was.
abbrev pub Ends : List ℕ → Result → Type 0
Ends s result =
    (d : Hts) × (rest : List ℕ) × (result ≡ parsed d rest)
    × (is_allowed d ≡ true)
    × ((rest ≡ []) ⊎ (is_done d.parse_state ≡ true))
    × (length rest ≤ length s)

fits_next :
    (m : ℕ) (d : Hts) (s : List ℕ)
    → fits m (next d s) ≡ true
    → (is_allowed d ≡ true) × ((s ≡ []) ⊎ (measure d s < m))
unfolding fits
fits_next m d [] h = (h, inl refl)
fits_next m d (c ∷ s) h = (ground (arith, h), inr (ground (arith, h)))

measure_less :
    (d d' : Hts) (c : ℕ) (s rest : List ℕ) (fuel : ℕ)
    → measure d (c ∷ s) < suc fuel
    → (rest ≡ []) ⊎ (measure d' rest < measure d (c ∷ s))
    → (length rest ≤ length (c ∷ s)) × (measure d' rest < fuel)
measure_less d d' c s rest fuel h (inl e) =
    let b = rank_bound d'.parse_state d'.query_words in rw e (omega arith, omega (arith, b, h))
measure_less d d' c s rest fuel h (inr l) =
    let b = rank_bound d'.parse_state d'.query_words in
    let b0 = rank_bound d.parse_state d.query_words in (omega (arith, l, b0), omega arith)

parse_loop-Ends :
    (fuel : ℕ) (d : Hts) (s : List ℕ)
    → is_allowed d ≡ true
    → measure d s < fuel
    → Ends s (parse_loop fuel d s)
unfolding parse_loop
parse_loop-Ends zero d s a h = absurd (omega arith)
parse_loop-Ends (suc fuel) d [] a h = (d, [], refl, a, inl refl, omega arith)
parse_loop-Ends (suc fuel) d (c ∷ s) a h = elim (Bool-cases (is_done d.parse_state)) [
  | inl t ↦ rw t (d, c ∷ s, refl, a, inr t, omega arith)
  | inr f ↦
      let k = fits-step d.parse_state d (c ∷ s) refl a f in
      elim (Round-cases (step d.parse_state d (c ∷ s))) [
        | inl e ↦ absurd (not_abort _ (step d.parse_state d (c ∷ s)) e k)
        | inr (d', rest, e) ↦
            let (a', m) = fits_next _ d' rest (ap (fits _) (sym e) ∙ k) in
            let (less, enough) = measure_less d d' c s rest fuel h m in
            let (x, y, p, q, o, l) = parse_loop-Ends fuel d' rest a' enough in
            let left : length y ≤ length (c ∷ s) = omega (arith, less, l) in
            rw (f, e, parse_loop) (x, y, p, q, o, left)
      ]
]

-- From every state that a call can leave, the first one included, a call comes back: no assertion
-- fails, and the state is again such a state. It has consumed all its bytes, or the request is
-- complete and the rest is left, no more than there was.
pub http_parse_data_total :
    (d : Hts) (s : List ℕ) → is_allowed d ≡ true → Ends s (http_parse_data d s)
unfolding http_parse_data
http_parse_data_total d s a =
    parse_loop-Ends (16 * length s + 13) d s a
      (omega (arith, rank_bound d.parse_state d.query_words))
