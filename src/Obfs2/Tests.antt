-- ===== src/Obfs2/Tests.antt =====
-- Concrete runs, and the theorems at concrete inputs.
use teleproxy.Base.{
  ℕ, ◌+◌, ◌-◌, ◌%◌, ◌/◌, ◌≡◌, refl, List, [], ◌∷◌, ◌++◌, arith, length, ◌⊎◌, inl, inr, true, false,
  Option, some, none, All, replicate, drop,
}
use teleproxy.Obfs2.{FrameResult, has_pad, has_medium, parse_frame_length, rounds, parse_header}
use teleproxy.Obfs2.Frame.{
  medium_word, parse-medium_word, compact_word, parse-compact_word, parse_frame_length_canonical,
}
use teleproxy.Obfs2.Handshake.{takes, round_result, parse_header_sound}

abbrev medium : ℕ
medium = 0x20000000

abbrev frame_12 : FrameResult
frame_12 = record { packet_len = 12; header_bytes = 1; quickack = true }

compact_12 : parse_frame_length 0xaabbcc83 0 0 ≡ some frame_12
unfolding parse_frame_length has_medium has_pad
compact_12 = refl

overlong_refused : parse_frame_length 0x0000037f 0 0 ≡ none
unfolding parse_frame_length has_medium has_pad
overlong_refused = refl

transport_error_refused : parse_frame_length 0xfffffe6c medium 0 ≡ none
unfolding parse_frame_length has_medium has_pad
transport_error_refused = refl

medium_is_medium : has_medium medium ≡ true
unfolding has_medium
medium_is_medium = refl

zero_is_compact : has_medium 0 ≡ false
unfolding has_medium
zero_is_compact = refl

parse-medium_word_example :
    parse_frame_length (medium_word true 1000) medium 4096
    ≡ some (record { packet_len = 1000; header_bytes = 4; quickack = true })
parse-medium_word_example =
    parse-medium_word true 1000 medium 4096 medium_is_medium (omega arith) (omega arith)
      (inr (omega arith)) (inr (omega arith))

parse-compact_word_example :
    parse_frame_length (compact_word false 200 0) 0 0
    ≡ some (record { packet_len = 800; header_bytes = 4; quickack = false })
parse-compact_word_example =
    parse-compact_word false 200 0 0 0 zero_is_compact (omega arith) (omega arith) (omega arith)
      (inl refl)

parse_frame_length_canonical_example : 0xaabbcc83 ≡ compact_word true (12 / 4) (0xaabbcc83 / 256)
parse_frame_length_canonical_example =
    parse_frame_length_canonical 0xaabbcc83 0 0 frame_12 (omega arith) zero_is_compact compact_12

-- A hash that keeps its input, and a cipher that takes the first byte of the key off each byte.
abbrev toy_hash : List ℕ → List ℕ
toy_hash k = drop 32 k

abbrev shift_all : ℕ → List ℕ → List ℕ
shift_all k [] = []
shift_all k (b ∷ bs) = (b + 256 - k) % 256 ∷ shift_all k bs

abbrev toy_cipher : List ℕ → List ℕ → List ℕ → List ℕ
toy_cipher [] iv text = text
toy_cipher (k ∷ key) iv text = shift_all k text

abbrev hello : List ℕ
hello = replicate 56 9 ++ (0xe2 ∷ 0xe2 ∷ 0xe2 ∷ 0xe2 ∷ 7 ∷ 5 ∷ 0 ∷ 0 ∷ [])

abbrev two_secrets : List (List ℕ)
two_secrets = (4 ∷ []) ∷ (5 ∷ []) ∷ []

-- The second secret fits, and asks for data centre 2.
second_secret_fits :
    parse_header toy_hash toy_cipher hello two_secrets true
    ≡ round_result toy_hash toy_cipher true hello 1 (some (5 ∷ []))
unfolding parse_header
second_secret_fits = refl

parse_header_sound_example :
    ((parse_header toy_hash toy_cipher hello two_secrets true ≡ (none, hello))
      × All (λ t. takes toy_hash toy_cipher true hello t ≡ false) (rounds two_secrets))
    ⊎ ((pre : List (Option (List ℕ))) × (s : Option (List ℕ)) × (post : List (Option (List ℕ)))
        × (rounds two_secrets ≡ pre ++ (s ∷ post))
        × All (λ t. takes toy_hash toy_cipher true hello t ≡ false) pre
        × (takes toy_hash toy_cipher true hello s ≡ true)
        × (parse_header toy_hash toy_cipher hello two_secrets true
            ≡ round_result toy_hash toy_cipher true hello (length pre) s))
parse_header_sound_example = parse_header_sound toy_hash toy_cipher true hello two_secrets
