-- ===== src/Acl/Load.antt =====
-- src/net/net-ip-acl.c: loading a list.
use teleproxy.Base.{
  ℕ, ◌≤◌, ◌≡◌, refl, Bool, true, List, [], ◌∷◌, ◌++◌, arith, length, Option, none, some, inl, inr,
  Option-cases, length-append, append-nil, append_assoc,
}
use teleproxy.Base.Int.{ℤ}
use teleproxy.Acl.{Rule, Acl, fresh_acl, add_rule, line_rule, load_lines, load}

-- The array has room for the rules.
abbrev pub HasRoom : Acl → Type 0
HasRoom acl = length acl.rules ≤ acl.capacity

-- A rule that is added stands at the end, and the array grows before it is full.
pub add_rule_lem :
    (memory : Bool) (acl : Acl) (rule : Rule) (acl' : Acl)
    → HasRoom acl
    → add_rule memory acl rule ≡ some acl'
    → (acl'.rules ≡ acl.rules ++ (rule ∷ [])) × HasRoom acl'
unfolding add_rule
add_rule_lem memory acl rule acl' h e = ground (arith, length-append acl.rules (rule ∷ []))

add_rule_memory : (acl : Acl) (rule : Rule) → (acl' : Acl) × (add_rule true acl rule ≡ some acl')
unfolding add_rule
add_rule_memory acl rule = elim (Option-cases (add_rule true acl rule)) [
  | inl n ↦ absurd (ground (arith, n))
  | inr found ↦ found
]

module _ (inet_pton4 : List ℕ → Option ℕ) (inet_pton6 : List ℕ → Option (List ℕ))
    (strtol : List ℕ → ℤ × List ℕ) where
  -- The rules of the lines that stand for one, in their order.
  pub rules_of : List (List ℕ) → List Rule
  rules_of [] = []
  rules_of (line ∷ lines) = elim (line_rule inet_pton4 inet_pton6 strtol line) [
    | none ↦ rules_of lines
    | some r ↦ r ∷ rules_of lines
  ]

  load_lines_rules :
      (memory : ℕ → Bool) (acl : Acl) (lines : List (List ℕ)) (acl' : Acl)
      → HasRoom acl
      → load_lines inet_pton4 inet_pton6 strtol memory acl lines ≡ some acl'
      → (acl'.rules ≡ acl.rules ++ rules_of lines) × HasRoom acl'
  unfolding load_lines rules_of
  load_lines_rules memory acl [] acl' h e = ground (arith, append-nil acl.rules)
  load_lines_rules memory acl (line ∷ lines) acl' h e =
      elim (Option-cases (line_rule inet_pton4 inet_pton6 strtol line)) [
        | inl n ↦ ground (arith, n, load_lines_rules memory acl lines acl' h)
        | inr (r, p) ↦ elim (Option-cases (add_rule (memory (length acl.rules)) acl r)) [
          | inl n ↦ absurd (ground (arith, n, p))
          | inr (next, q) ↦
              let (order, room) = add_rule_lem (memory (length acl.rules)) acl r next h q in
              ground (
                arith,
                p,
                q,
                order,
                load_lines_rules memory next lines acl' room,
                append_assoc acl.rules (r ∷ []) (rules_of lines),
              )
        ]
      ]

  load_lines_total :
      (acl : Acl) (lines : List (List ℕ))
      → (acl' : Acl) × (load_lines inet_pton4 inet_pton6 strtol (λ _. true) acl lines ≡ some acl')
  unfolding load_lines
  load_lines_total acl [] = (acl, refl)
  load_lines_total acl (line ∷ lines) =
      elim (Option-cases (line_rule inet_pton4 inet_pton6 strtol line)) [
        | inl n ↦ rw (n, load_lines) (load_lines_total acl lines)
        | inr (r, p) ↦
            let (next, q) = add_rule_memory acl r in
            rw (p, load_lines, q) (load_lines_total next lines)
      ]

  module _ (files : ℕ → Option (List (List ℕ))) where
    -- While there is memory, a file that can be opened is loaded: the list has exactly the rules of
    -- the lines that parse, in their order, whatever the other lines hold.
    pub load_lem :
        (path : ℕ) (lines : List (List ℕ))
        → files path ≡ some lines
        → (acl : Acl) × (load inet_pton4 inet_pton6 strtol files (λ _. true) path ≡ some acl)
          × (acl.rules ≡ rules_of lines)
          × HasRoom acl
    unfolding load
    load_lem path lines e =
        let (acl, p) = load_lines_total fresh_acl lines in
        let (order, room) = load_lines_rules (λ _. true) fresh_acl lines acl (omega arith) p in
        (acl, rw (e, load) p, order, room)
