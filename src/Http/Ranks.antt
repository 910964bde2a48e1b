-- ===== src/Http/Ranks.antt =====
-- src/net/net-http-parse.c: what each state allows, how far it is from the end, and the inner loops.
use teleproxy.Base.{
  ℕ, suc, ◌+◌, ◌-◌, ◌*◌, ◌≤◌, Bool, true, false, not, ◌&&◌, ◌||◌, List, [], ◌∷◌, arith, ltb, leb,
  ◌==◌, length, Bool-cases, ◌≡◌, refl, inl, inr,
}
use teleproxy.Base.Int.{pos, ◌+ℤ◌, ◌*ℤ◌}
use teleproxy.Http.{
  Hts, ParseState, Round, start, readtospace, readtocolon, readint, skipspc, skiptoeoln,
  skipspctoeoln, eoln, wantlf, wantlastlf, linestart, fatal, done, next, abort, put_char, read_word,
  read_name, skip_spaces, skip_line, read_digits, too_big, max_http_header_size,
}

-- The words and flags that a state is entered with: what the assertions ask for.
unfoldable pub allows : ParseState → ℕ → Bool → Bool
allows readtospace words flag = ltb words 3 || flag
allows skipspc words flag = ltb words 3 || leb 4 words
allows linestart words flag = leb 8 words
allows readtocolon words flag = leb 8 words
allows _ words flag = true

abbrev pub is_allowed : Hts → Bool
is_allowed d = allows d.parse_state d.query_words (d.qf_host || d.qf_connection)

-- At most this many rounds go by before a byte is taken.
unfoldable pub rank : ParseState → ℕ → ℕ
rank done words = 0
rank fatal words = 1
rank wantlastlf words = 2
rank skiptoeoln words = 3
rank eoln words = 4
rank wantlf words = 4
rank readtocolon words = 4
rank linestart words = 5
rank skipspctoeoln words = 5
rank readint words = 6
rank readtospace words = 6 + (2 - words) * 2
rank skipspc words = 7 + (2 - words) * 2
rank start words = 12

pub rank_bound : (p : ParseState) (words : ℕ) → rank p words ≤ 12
unfolding rank
rank_bound p words = ground arith

abbrev pub measure : Hts → List ℕ → ℕ
measure d s = 16 * length s + rank d.parse_state d.query_words

-- A round that ends in an allowed state, with nothing left or below `bound`.
unfoldable pub fits : ℕ → Round → Bool
fits bound abort = false
fits bound (next d []) = is_allowed d
fits bound (next d (c ∷ s)) = is_allowed d && ltb (measure d (c ∷ s)) bound

-- An inner loop changes neither the state nor the words and flags, and reads on.
abbrev pub Keeps : Hts → List ℕ → Hts × List ℕ → Type 0
Keeps d s result =
    (result.0.parse_state ≡ d.parse_state)
    × (result.0.query_words ≡ d.query_words)
    × (result.0.qf_host ≡ d.qf_host)
    × (result.0.qf_connection ≡ d.qf_connection)
    × (length result.1 ≤ length s)

more : {n m : ℕ} → n ≤ m → n ≤ suc m
more h = omega arith

longer :
    (d d' : Hts) (c : ℕ) (s : List ℕ) (result : Hts × List ℕ)
    → d'.parse_state ≡ d.parse_state
    → d'.query_words ≡ d.query_words
    → d'.qf_host ≡ d.qf_host
    → d'.qf_connection ≡ d.qf_connection
    → Keeps d' s result
    → Keeps d (c ∷ s) result
longer d d' c s result p q r t (a, b, e, f, g) = (cc, cc, cc, cc, more g)

stays : (d : Hts) (s : List ℕ) → Keeps d s (d, s)
stays d s = (refl, refl, refl, refl, omega arith)

pub read_word-Keeps : (d : Hts) (s : List ℕ) → Keeps d s (read_word d s)
unfolding read_word
read_word-Keeps d [] = stays d []
read_word-Keeps d (c ∷ s) = elim (Bool-cases (ltb 32 c)) [
  | inl t ↦ rw t (
      longer d (put_char d c) c s (read_word (put_char d c) s) refl refl refl refl
        (read_word-Keeps (put_char d c) s))
  | inr f ↦ rw f (stays d (c ∷ s))
]

pub read_name-Keeps : (d : Hts) (s : List ℕ) → Keeps d s (read_name d s)
unfolding read_name
read_name-Keeps d [] = stays d []
read_name-Keeps d (c ∷ s) = elim (Bool-cases (not (c == b':') && (ltb 32 c && ltb c 128))) [
  | inl t ↦ rw t (
      longer d (put_char d c) c s (read_name (put_char d c) s) refl refl refl refl
        (read_name-Keeps (put_char d c) s))
  | inr f ↦ rw f (stays d (c ∷ s))
]

abbrev counted : Hts → Hts
counted d = record d { header_size = d.header_size + 1 }

pub skip_spaces-Keeps : (d : Hts) (s : List ℕ) → Keeps d s (skip_spaces d s)
unfolding skip_spaces
skip_spaces-Keeps d [] = stays d []
skip_spaces-Keeps d (c ∷ s) =
    elim (Bool-cases
      (ltb d.header_size max_http_header_size && (c == 32 || (c == 9 && leb 8 d.query_words)))) [
        | inl t ↦ rw t (
            longer d (counted d) c s (skip_spaces (counted d) s) refl refl refl refl
              (skip_spaces-Keeps (counted d) s))
        | inr f ↦ rw f (stays d (c ∷ s))
      ]

-- The loop to the end of a line stops at one, or at the limit.
abbrev pub StopsAt : Hts × List ℕ → Type 0
StopsAt (d, []) = Unit {0}
StopsAt (d, c ∷ s) = (leb max_http_header_size d.header_size || (c == 13 || c == 10)) ≡ true

pub skip_line-Keeps : (d : Hts) (s : List ℕ) → Keeps d s (skip_line d s) × StopsAt (skip_line d s)
unfolding skip_line
skip_line-Keeps d [] = (stays d [], tt)
skip_line-Keeps d (c ∷ s) =
    elim (Bool-cases (ltb d.header_size max_http_header_size && (not (c == 13) && not (c == 10)))) [
      | inl t ↦
          let (k, e) = skip_line-Keeps (counted d) s in
          rw t (longer d (counted d) c s (skip_line (counted d) s) refl refl refl refl k, e)
      | inr f ↦ rw f (stays d (c ∷ s), ground (arith, f))
    ]

abbrev digit : Hts → ℕ → Hts
unfolding ◌+ℤ◌ ◌*ℤ◌
digit d c = record d {
  data_size = d.data_size *ℤ pos 10 +ℤ pos (c - b'0');
  header_size = d.header_size + 1;
  qf_datasize = false;
}

pub length-read_digits :
    (d : Hts) (s : List ℕ)
    → d.parse_state ≡ readint
    → (length (read_digits d s).1 ≤ length s) × (is_allowed (read_digits d s).0 ≡ true)
unfolding read_digits allows
length-read_digits d [] h = (omega arith, ground (arith, h))
length-read_digits d (c ∷ s) h = elim (Bool-cases (leb b'0' c && leb c b'9')) [
  | inr f ↦ rw f (omega arith, ground (arith, h))
  | inl t ↦ elim (Bool-cases (too_big d.data_size)) [
    | inl b ↦ rw (t, b) (omega arith, refl)
    | inr b ↦ let d' = digit d c in let (l, a) = length-read_digits d' s h in rw (t, b) (more l, a)
  ]
]
