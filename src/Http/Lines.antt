-- ===== src/Http/Lines.antt =====
-- src/net/net-http-parse.c: the ends of lines end in a state that its flags allow, and nearer to the end.
use teleproxy.Base.{
  ℕ, suc, ◌+◌, ◌*◌, ◌≤◌, ◌<◌, true, ◌||◌, List, [], ◌∷◌, arith, leb, ◌==◌, if◌then◌else◌, length,
  Bool-cases, ◌≡◌, refl, inl, inr, ◌∙◌,
}
use teleproxy.Http.{
  Hts, skiptoeoln, eoln, wantlf, wantlastlf, linestart, skip_line, max_http_header_size,
  step_linestart, line_feed, step_wantlf, step_eoln, step_skiptoeoln, step_wantlastlf, after_line,
}
use teleproxy.Http.Ranks.{allows, rank, fits, skip_line-Keeps, StopsAt}

-- How far a line feed, or the end of a line, is from the next state that waits.
abbrev pub lf_rank : ℕ → ℕ
lf_rank c = if c == 10 then 2 else 3

abbrev pub eoln_rank : ℕ → ℕ
eoln_rank c = if c == 13 || c == 10 then 2 else 3

-- With these many rounds left, a bound is enough.
abbrev pub Ahead : (ℕ → ℕ) → ℕ → List ℕ → Type 0
Ahead left m [] = Unit {0}
Ahead left m (c ∷ s) = 16 * suc (length s) + left c < m

pub fits-step_linestart :
    (d : Hts) (s : List ℕ) (m : ℕ)
    → d.parse_state ≡ linestart
    → 8 ≤ d.query_words
    → 16 * length s + 4 < m
    → fits m (step_linestart d s) ≡ true
unfolding step_linestart fits allows rank
fits-step_linestart d [] m p w h = ground (arith, p)
fits-step_linestart d (c ∷ []) m p w h = ground (arith, p)
fits-step_linestart d (c ∷ b ∷ s) m p w h = ground (arith, p)

fits-line_feed :
    (d : Hts) (c : ℕ) (s : List ℕ) (m : ℕ)
    → 8 ≤ d.query_words
    → 16 * suc (length s) + lf_rank c < m
    → fits m (line_feed d c s) ≡ true
unfolding line_feed fits allows rank
fits-line_feed d c s m w h =
    let lf : Hts = record d { header_size = d.header_size + 1; parse_state = linestart } in
    let q : c ≡ 10 → 16 * length s + 4 < m = λ e. ground (arith, e) in
    let k : c ≡ 10 → fits m (step_linestart lf s) ≡ true =
      λ e. fits-step_linestart lf s m refl w (q e) in
    ground (arith, k)

pub fits-step_wantlf :
    (d : Hts) (s : List ℕ) (m : ℕ)
    → d.parse_state ≡ wantlf
    → Ahead lf_rank m s
    → fits m (step_wantlf d s) ≡ true
unfolding step_wantlf fits allows rank
fits-step_wantlf d [] m p h = ground (arith, p)
fits-step_wantlf d (c ∷ s) m p h =
    let k8 = fits-line_feed (record d { query_words = 8 }) c s m (omega arith) h in
    let k : 8 ≤ d.query_words + 1
        → fits m (line_feed (record d { query_words = d.query_words + 1 }) c s) ≡ true =
      λ w. fits-line_feed (record d { query_words = d.query_words + 1 }) c s m w h in
    ground (arith, k8, k)

after_cr : (s : List ℕ) (m : ℕ) → 16 * suc (length s) < m + 0 → Ahead lf_rank m s
after_cr [] m h = tt
after_cr (c ∷ s) m h = ground arith

pub fits-step_eoln :
    (d : Hts) (s : List ℕ) (m : ℕ)
    → d.parse_state ≡ eoln
    → Ahead eoln_rank m s
    → fits m (step_eoln d s) ≡ true
unfolding step_eoln fits allows
fits-step_eoln d [] m p h = ground (arith, p)
fits-step_eoln d (c ∷ s) m p h =
    let cr : Hts = record d { header_size = d.header_size + 1; parse_state = wantlf } in
    let no_cr : Hts = record d { parse_state = wantlf } in
    elim (Bool-cases (c == 13)) [
      | inl t ↦ rw t (fits-step_wantlf cr s m refl (after_cr s m (ground (arith, t, h))))
      | inr f ↦ rw f (fits-step_wantlf no_cr (c ∷ s) m refl (ground (arith, f, h)))
    ]

fits-after_line :
    (d : Hts) (s : List ℕ) (m : ℕ)
    → d.parse_state ≡ skiptoeoln
    → 16 * length s + 2 < m
    → StopsAt (d, s)
    → fits m (after_line d s) ≡ true
unfolding after_line fits allows rank
fits-after_line d [] m p h stop = ground (arith, p)
fits-after_line d (c ∷ s) m p h stop =
    let d' : Hts = record d { parse_state = eoln } in
    elim (Bool-cases (leb max_http_header_size d.header_size)) [
      | inl t ↦ rw t (ground arith)
      | inr f ↦ rw f (fits-step_eoln d' (c ∷ s) m refl (ground (arith, f, stop)))
    ]

pub fits-step_skiptoeoln :
    (d : Hts) (s : List ℕ) (m : ℕ)
    → d.parse_state ≡ skiptoeoln
    → 16 * length s + 2 < m
    → fits m (step_skiptoeoln d s) ≡ true
unfolding step_skiptoeoln
fits-step_skiptoeoln d s m p h =
    let ((q, w, a, b, l), stop) = skip_line-Keeps d s in
    fits-after_line (skip_line d s).0 (skip_line d s).1 m (q ∙ p) (omega arith) stop

pub fits-step_wantlastlf :
    (d : Hts) (s : List ℕ)
    → d.parse_state ≡ wantlastlf
    → fits (16 * length s + 2) (step_wantlastlf d s) ≡ true
unfolding step_wantlastlf fits allows rank
fits-step_wantlastlf d [] p = ground (arith, p)
fits-step_wantlastlf d (c ∷ []) p = ground (arith, p)
fits-step_wantlastlf d (c ∷ b ∷ s) p = ground (arith, p)
