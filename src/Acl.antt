-- ===== src/Acl.antt =====
-- src/net/net-ip-acl.c: lists of networks, the decision on a client's address, and their reload.
-- A text is the list of its bytes. `inet_pton` (with `ntohl`) and `strtol` of the C library, and the
-- files with their lines as `fgets` gives them, are parameters.
pub mod Networks
pub mod Decision
pub mod Load
mod Tests
use teleproxy.Base.{
  ℕ, zero, suc, ◌+◌, ◌-◌, ◌*◌, ◌/◌, ◌%◌, ◌^◌, Bool, true, false, not, ◌&&◌, ◌||◌, List, [], ◌∷◌,
  ◌++◌, arith, ltb, leb, ◌==◌, if◌then◌else◌, length, Option, none, some, replicate, take, drop,
  get_or,
}
use teleproxy.Base.Int.{ℤ, pos, negsuc}

-- `struct ip_acl_rule`: the family tells which member of the union is used.
pub data Rule : Type 0 where
  rule_v4 : ℕ → ℕ → Rule
  rule_v6 : ℕ → List ℕ → Rule

-- `struct ip_acl`; the first `count` elements of `rules` are the list.
pub record Acl : Type 0 where
  pub rules : List Rule
  pub capacity : ℕ

-- `x & (~0 << k)`: the low k bits are cleared.
abbrev pub clear_low : ℕ → ℕ → ℕ
clear_low x k = x / 2 ^ k * 2 ^ k

pub mask_v4 : ℕ → ℕ → ℕ
mask_v4 addr prefix_len =
    if prefix_len == 0
    then 0
    else if leb 32 prefix_len
    then addr
    else clear_low addr (32 - prefix_len)

-- A byte of which the first `bits` bits are kept.
pub mask_byte : ℕ → ℕ → ℕ
mask_byte b bits = if leb 8 bits then b else if ltb 0 bits then clear_low b (8 - bits) else 0

pub mask_v6 : List ℕ → ℕ → List ℕ
unfolding mask_byte
mask_v6 [] prefix_len = []
mask_v6 (b ∷ addr) prefix_len = mask_byte b prefix_len ∷ mask_v6 addr (prefix_len - 8)

pub match_v4 : Rule → ℕ → Bool
unfolding mask_v4
match_v4 (rule_v4 prefix_len addr) ip = mask_v4 ip prefix_len == addr
match_v4 (rule_v6 prefix_len addr) ip = false

-- The loop of `match_v6` from one byte on.
pub match_bytes : List ℕ → List ℕ → ℕ → Bool
unfolding mask_byte
match_bytes [] addr prefix_len = true
match_bytes (b ∷ ip) addr prefix_len =
    mask_byte b prefix_len == get_or addr 0 0 && match_bytes ip (drop 1 addr) (prefix_len - 8)

pub match_v6 : Rule → List ℕ → Bool
unfolding match_bytes
match_v6 (rule_v4 prefix_len addr) ip = false
match_v6 (rule_v6 prefix_len addr) ip = match_bytes ip addr prefix_len

any_v4 : List Rule → ℕ → Bool
unfolding match_v4
any_v4 [] ip = false
any_v4 (r ∷ rs) ip = match_v4 r ip || any_v4 rs ip

any_v6 : List Rule → List ℕ → Bool
unfolding match_v6
any_v6 [] ip = false
any_v6 (r ∷ rs) ip = match_v6 r ip || any_v6 rs ip

pub acl_contains_v4 : Option Acl → ℕ → Bool
unfolding any_v4
acl_contains_v4 none ip = false
acl_contains_v4 (some acl) ip = any_v4 acl.rules ip

pub acl_contains_v6 : Option Acl → List ℕ → Bool
unfolding any_v6
acl_contains_v6 none ip = false
acl_contains_v6 (some acl) ip = any_v6 acl.rules ip

bytes_eq : List ℕ → List ℕ → Bool
bytes_eq [] [] = true
bytes_eq [] (y ∷ ys) = false
bytes_eq (x ∷ xs) [] = false
bytes_eq (x ∷ xs) (y ∷ ys) = x == y && bytes_eq xs ys

abbrev pub v4mapped_prefix : List ℕ
v4mapped_prefix = 0 ∷ 0 ∷ 0 ∷ 0 ∷ 0 ∷ 0 ∷ 0 ∷ 0 ∷ 0 ∷ 0 ∷ 0xFF ∷ 0xFF ∷ []

-- The IPv4 address of a mapped one, or 0.
pub v6_to_v4_mapped : List ℕ → ℕ
unfolding bytes_eq
v6_to_v4_mapped ip =
    if bytes_eq (take 12 ip) v4mapped_prefix
    then get_or ip 12 0 * 2 ^ 24 + get_or ip 13 0 * 2 ^ 16 + get_or ip 14 0 * 2 ^ 8 + get_or ip 15 0
    else 0

-- The module's variables; a file is named by a path.
pub record State : Type 0 where
  pub current_blocklist : Option Acl
  pub current_allowlist : Option Acl
  pub stats_allowlist : Option Acl
  pub blocklist_file : Option ℕ
  pub allowlist_file : Option ℕ

-- A list that is there and has a rule.
pub is_active : Option Acl → Bool
is_active none = false
is_active (some acl) = ltb 0 (length acl.rules)

pub check_v4 : State → ℕ → Bool
unfolding acl_contains_v4 is_active
check_v4 s ip =
    if is_active s.current_allowlist
    then acl_contains_v4 s.current_allowlist ip
    else if is_active s.current_blocklist
    then not (acl_contains_v4 s.current_blocklist ip)
    else true

-- Whether a list names an IPv6 address, itself or as the IPv4 address that it maps.
pub names_v6 : Option Acl → List ℕ → Bool
unfolding acl_contains_v4 acl_contains_v6 v6_to_v4_mapped
names_v6 acl ip =
    let v4 = v6_to_v4_mapped ip in
    acl_contains_v6 acl ip || (not (v4 == 0) && acl_contains_v4 acl v4)

pub check_v6 : State → List ℕ → Bool
unfolding names_v6 is_active
check_v6 s ip =
    if is_active s.current_allowlist
    then names_v6 s.current_allowlist ip
    else if is_active s.current_blocklist
    then not (names_v6 s.current_blocklist ip)
    else true

pub check_stats_v4 : State → ℕ → Bool
unfolding acl_contains_v4
check_stats_v4 s ip = acl_contains_v4 s.stats_allowlist ip

-- `isspace` in the C locale.
pub is_space : ℕ → Bool
is_space c = c == 32 || (leb 9 c && leb c 13)

pub skip_spaces : List ℕ → List ℕ
unfolding is_space
skip_spaces [] = []
skip_spaces (c ∷ s) = let rest = skip_spaces s in if is_space c then rest else c ∷ s

-- The text without the spaces at its end.
pub cut_spaces : List ℕ → List ℕ
unfolding is_space
cut_spaces [] = []
cut_spaces (c ∷ s) = elim (cut_spaces s) [
  | [] ↦ if is_space c then [] else c ∷ []
  | d ∷ r ↦ c ∷ d ∷ r
]

pub trim : List ℕ → List ℕ
unfolding skip_spaces cut_spaces
trim s = cut_spaces (skip_spaces s)

-- The text before the first slash, and the text behind it.
pub split_slash : List ℕ → List ℕ × Option (List ℕ)
split_slash [] = ([], none)
split_slash (c ∷ s) =
    let (host, tail) = split_slash s in if c == b'/' then ([], some s) else (c ∷ host, tail)

-- A prefix length between 0 and a limit.
abbrev pub within : ℕ → ℤ → Option ℕ
within limit (pos n) = if leb n limit then some n else none
within limit (negsuc n) = none

-- `ip_acl_alloc` and `ip_acl_add_rule`, with what the allocation gives.
abbrev pub fresh_acl : Acl
fresh_acl = record { rules = []; capacity = 0 }

pub add_rule : Bool → Acl → Rule → Option Acl
add_rule memory acl rule =
    if leb acl.capacity (length acl.rules)
    then (if memory
        then some (record {
          rules = acl.rules ++ (rule ∷ []);
          capacity = if acl.capacity == 0 then 16 else acl.capacity * 2;
        })
        else none)
    else some (record acl { rules = acl.rules ++ (rule ∷ []) })

abbrev pub signed32 : ℕ → ℤ
signed32 w = if ltb w (2 ^ 31) then pos w else negsuc (2 ^ 32 - w - 1)

-- The conversion of a `long` to `int`.
pub to_int : ℤ → ℤ
to_int (pos n) = signed32 (n % 2 ^ 32)
to_int (negsuc n) = signed32 (2 ^ 32 - n % 2 ^ 32 - 1)

module _ (inet_pton4 : List ℕ → Option ℕ) (inet_pton6 : List ℕ → Option (List ℕ))
    (strtol : List ℕ → ℤ × List ℕ) where
  -- What `strtol` makes of the text behind the slash, as an `int`: `none` if something else follows
  -- it.
  pub explicit_prefix : List ℕ → Option ℤ
  unfolding is_space to_int
  explicit_prefix text = elim (strtol text).1 [
    | [] ↦ some (to_int (strtol text).0)
    | c ∷ rest ↦ if is_space c then some (to_int (strtol text).0) else none
  ]

  -- The rule for a host and a prefix length, if that is given.
  pub make_rule : List ℕ → Option ℤ → Option Rule
  unfolding mask_v4 mask_v6
  make_rule host prefix = elim (inet_pton4 host) [
    | some a ↦ elim (within 32 (elim prefix [ none ↦ pos 32 | some p ↦ p ])) [
      | none ↦ none
      | some n ↦ some (rule_v4 n (mask_v4 a n))
    ]
    | none ↦ elim (inet_pton6 host) [
      | none ↦ none
      | some a ↦ elim (within 128 (elim prefix [ none ↦ pos 128 | some p ↦ p ])) [
        | none ↦ none
        | some n ↦ some (rule_v6 n (mask_v6 a n))
      ]
    ]
  ]

  pub parse_cidr : List ℕ → Option Rule
  unfolding split_slash explicit_prefix make_rule
  parse_cidr s =
      let (host, tail) = split_slash s in
      elim tail [
        | none ↦ make_rule host none
        | some text ↦ elim (explicit_prefix text) [ none ↦ none | some p ↦ make_rule host (some p) ]
      ]

  -- The rule that one line of a file stands for: none for an empty line, a comment, or a line that
  -- cannot be parsed.
  pub line_rule : List ℕ → Option Rule
  unfolding trim parse_cidr
  line_rule line = elim (trim line) [
    | [] ↦ none
    | c ∷ s ↦ if c == b'#' then none else parse_cidr (c ∷ s)
  ]

  -- The loop of `ip_acl_load`; `memory` says whether the list can grow at each rule.
  pub load_lines : (ℕ → Bool) → Acl → List (List ℕ) → Option Acl
  unfolding line_rule add_rule
  load_lines memory acl [] = some acl
  load_lines memory acl (line ∷ lines) = elim (line_rule line) [
    | none ↦ load_lines memory acl lines
    | some r ↦ elim (add_rule (memory (length acl.rules)) acl r) [
      | none ↦ none
      | some acl' ↦ load_lines memory acl' lines
    ]
  ]

  module _ (files : ℕ → Option (List (List ℕ))) (memory : ℕ → Bool) where
    -- `ip_acl_load`, where the empty list itself can be allocated.
    pub load : ℕ → Option Acl
    unfolding load_lines
    load path = elim (files path) [ none ↦ none | some lines ↦ load_lines memory fresh_acl lines ]

    -- One of the two halves of `ip_acl_reload`: the list afterwards, and whether all is well.
    pub reload_list : Option ℕ → Option Acl → Bool × Option Acl
    unfolding load
    reload_list none current = (true, current)
    reload_list (some path) current = elim (load path) [
      | some acl ↦ (true, some acl)
      | none ↦ elim current [ none ↦ (false, none) | some old ↦ (true, some old) ]
    ]

    -- `ip_acl_reload`: whether it returns 0, and the lists after it.
    pub reload : State → Bool × State
    unfolding reload_list
    reload s =
        let (fine, bl) = reload_list s.blocklist_file s.current_blocklist in
        let (fine', al) = reload_list s.allowlist_file s.current_allowlist in
        if fine
        then (fine', record s { current_blocklist = bl; current_allowlist = al })
        else (false, record s { current_blocklist = bl })

  -- `ip_acl_add_stats_net`: whether it returns 0, and the list after it. The text must fit a buffer
  -- of 256 bytes. The list structure itself can be allocated; `memory` is about its rules.
  pub add_stats_net : Bool → State → List ℕ → Bool × State
  unfolding trim parse_cidr add_rule
  add_stats_net memory s cidr =
      if length cidr == 0 || leb 256 (length cidr) then (false, s) else (elim (trim cidr) [
        | [] ↦ (false, s)
        | c ∷ text ↦ elim (parse_cidr (c ∷ text)) [
          | none ↦ (false, s)
          | some r ↦
              let acl : Acl = elim s.stats_allowlist [ none ↦ fresh_acl | some a ↦ a ] in
              elim (add_rule memory acl r) [
                | none ↦ (false, record s { stats_allowlist = some acl })
                | some acl' ↦ (true, record s { stats_allowlist = some acl' })
              ]
        ]
      ])
