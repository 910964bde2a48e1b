-- ===== src/Acl/Tests.antt =====
-- Concrete lists, and the theorems at concrete inputs.
use teleproxy.Base.{ℕ, zero, suc, ◌≡◌, refl, true, false, List, [], ◌∷◌, arith, Option, none, some}
use teleproxy.Base.Int.{ℤ, pos, negsuc}
use teleproxy.Acl.{
  rule_v4, rule_v6, Acl, State, mask_v6, match_v6, check_v4, check_v6, load, reload, to_int,
}
use teleproxy.Acl.Decision.{mapped, check_v6-mapped}
use teleproxy.Acl.Load.{HasRoom, rules_of, load_lem}

-- Texts with a dot are the IPv4 address 10.1.2.3, and every number is 8.
abbrev pton4 : List ℕ → Option ℕ
pton4 [] = none
pton4 (c ∷ s) = some 167838211

abbrev pton6 : List ℕ → Option (List ℕ)
pton6 s = none

abbrev eight : List ℕ → ℤ × List ℕ
eight s = (pos 8, [])

-- " 10/8" and a comment.
abbrev lines : List (List ℕ)
lines = (b' ' ∷ b'1' ∷ b'0' ∷ b'/' ∷ b'8' ∷ 10 ∷ []) ∷ (b'#' ∷ b'x' ∷ []) ∷ []

abbrev ten : Acl
ten = record { rules = rule_v4 8 167772160 ∷ []; capacity = 16 }

abbrev files : ℕ → Option (List (List ℕ))
files zero = some lines
files (suc n) = none

-- The number is converted to `int`, so 2^32 + 8 is the prefix 8.
abbrev wide : List ℕ → ℤ × List ℕ
wide s = (pos 4294967304, [])

load-wide : load pton4 pton6 wide files (λ _. true) 0 ≡ some ten
unfolding load
load-wide = refl

minus_eight : to_int (negsuc 7) ≡ negsuc 7
unfolding to_int
minus_eight = refl

load-ten : load pton4 pton6 eight files (λ _. true) 0 ≡ some ten
unfolding load
load-ten = refl

abbrev blocked : State
blocked = record {
  current_blocklist = some ten;
  current_allowlist = none;
  stats_allowlist = none;
  blocklist_file = some 0;
  allowlist_file = none;
}

blocked-mapped : check_v6 blocked (mapped 167838211) ≡ false
unfolding check_v6
blocked-mapped = refl

same_first_bytes :
    match_v6 (rule_v6 12 (mask_v6 (0x20 ∷ 0x01 ∷ 5 ∷ []) 12)) (0x20 ∷ 0x0f ∷ 0 ∷ []) ≡ true
unfolding match_v6 mask_v6
same_first_bytes = refl

only_v4 : (ip : List ℕ) → match_v6 (rule_v4 8 167772160) ip ≡ false
unfolding match_v6
only_v4 ip = refl

check_v6-mapped_example : check_v6 blocked (mapped 167838211) ≡ check_v4 blocked 167838211
check_v6-mapped_example = check_v6-mapped blocked 167838211 (omega arith) tt (only_v4, tt)

load_lem_example :
    (acl : Acl) × (load pton4 pton6 eight files (λ _. true) 0 ≡ some acl)
    × (acl.rules ≡ rules_of pton4 pton6 eight lines)
    × HasRoom acl
load_lem_example = load_lem pton4 pton6 eight files 0 lines refl

-- A list whose file is gone stays.
reload-gone :
    reload pton4 pton6 eight files (λ _. true) (record blocked { blocklist_file = some 1 })
    ≡ (true, record blocked { blocklist_file = some 1 })
unfolding reload
reload-gone = refl
