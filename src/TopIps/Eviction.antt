-- ===== src/TopIps/Eviction.antt =====
-- src/net/net-tcp-rpc-ext-top-ips.c: which entry of a full table makes way for a new address.
use teleproxy.Base.{
  ℕ, suc, ◌+◌, Bool, true, false, List, [], ◌∷◌, arith, ltb, Option, none, some, get_elem?, get_or,
  Bool-cases, Option-cases, ◌≡◌, refl, sym, ap, ◌∙◌, ◌≢◌, ◌⊎◌, inl, inr, get_elem?-set_ne,
}
use teleproxy.Base.Int.{pos}
use teleproxy.TopIps.{
  IpVolumeEntry, Volumes, is_empty_slot, is_stale, find_index, find_victim, ip_volume_acquire_slot,
  ip_volume_get_or_create, ip_volume_lookup, fresh_entry, empty_entry, change, connected, on_secret,
  account_connect, place,
}

-- An index that is none, or the index of an entry that passes the test.
abbrev pub Passes : (IpVolumeEntry → Bool) → ℕ → List IpVolumeEntry → Option ℕ → Type 0
Passes test i es found =
    (found ≡ none)
    ⊎ ((k : ℕ) × (e : IpVolumeEntry) × (found ≡ some (i + k))
        × (get_elem? es k ≡ some e)
        × (test e ≡ true))

Passes-cons :
    (test : IpVolumeEntry → Bool) (i : ℕ) (d : IpVolumeEntry) (es : List IpVolumeEntry)
    (found : Option ℕ)
    → Passes test (suc i) es found
    → Passes test i (d ∷ es) found
Passes-cons test i d es found (inl n) = inl n
Passes-cons test i d es found (inr (k, e, p, g, t)) =
    let q : suc i + k ≡ i + suc k = omega arith in inr (suc k, e, p ∙ ap some q, g, t)

Passes-here :
    (test : IpVolumeEntry → Bool) (i : ℕ) (d : IpVolumeEntry) (es : List IpVolumeEntry)
    → test d ≡ true
    → Passes test i (d ∷ es) (some i)
Passes-here test i d es t = let q : i ≡ i + 0 = omega arith in inr (0, d, ap some q, refl, t)

find_index_lem :
    (test : IpVolumeEntry → Bool) (i : ℕ) (es : List IpVolumeEntry)
    → Passes test i es (find_index test i es)
unfolding find_index
find_index_lem test i [] = inl refl
find_index_lem test i (d ∷ es) = elim (Bool-cases (test d)) [
  | inl t ↦ rw t (Passes-here test i d es t)
  | inr f ↦ rw f (Passes-cons test i d es _ (find_index_lem test (suc i) es))
]

-- The victim is the one that was passed in, or stale.
find_victim_lem :
    (now i : ℕ) (victim : Option ℕ) (victim_bytes : ℕ) (es : List IpVolumeEntry)
    → (find_victim now i victim victim_bytes es ≡ victim)
      ⊎ Passes (is_stale now) i es (find_victim now i victim victim_bytes es)
unfolding find_victim
find_victim_lem now i victim b [] = inl refl
find_victim_lem now i victim b (d ∷ es) =
    let taken : is_stale now d ≡ true
        → Passes (is_stale now) i (d ∷ es) (find_victim now (suc i) (some i) (place d) es) =
      λ t. elim (find_victim_lem now (suc i) (some i) (place d) es) [
        | inl e ↦ rw e (Passes-here (is_stale now) i d es t)
        | inr p ↦ Passes-cons (is_stale now) i d es _ p
      ] in
    let passed : (find_victim now (suc i) victim b es ≡ victim)
        ⊎ Passes (is_stale now) i (d ∷ es) (find_victim now (suc i) victim b es) =
      elim (find_victim_lem now (suc i) victim b es) [
        | inl e ↦ inl e
        | inr p ↦ inr (Passes-cons (is_stale now) i d es _ p)
      ] in
    elim (Bool-cases (is_stale now d)) [
      | inr f ↦ rw f passed
      | inl t ↦ elim (Option-cases victim) [
        | inl n ↦ rw (t, n, find_victim) (inr (taken t))
        | inr (v, s) ↦ elim (Bool-cases (ltb (place d) b)) [
          | inl y ↦ rw (t, s, y, find_victim) (inr (taken t))
          | inr y ↦ rw (t, s, y, find_victim) (elim passed [ inl e ↦ inl (e ∙ s) | inr q ↦ inr q ])
        ]
      ]
    ]

some_inj : {x y : ℕ} → some x ≡ some y → x ≡ y
some_inj {x} e = ap (λ o. elim o [ none ↦ x | some z ↦ z ]) e

-- What a table does to the entry at `j`: the slot found is another, and the entry is as it was.
abbrev pub Keeps : ℕ → IpVolumeEntry → Option ℕ × List IpVolumeEntry → Type 0
Keeps j e result = (result.0 ≢ some j) × (get_elem? result.1 j ≡ some e)

-- An index that passes a test is not that of an entry that fails it.
Passes-other :
    (test : IpVolumeEntry → Bool) (es : List IpVolumeEntry) (i j : ℕ) (e : IpVolumeEntry)
    → Passes test 0 es (some i)
    → get_elem? es j ≡ some e
    → test e ≡ false
    → i ≢ j
Passes-other test es i j e (inl n) g f = absurd (ground (arith, n))
Passes-other test es i j e (inr (k, d, p, h, t)) g f = λ q.
    let z : k ≡ j = ground (arith, some_inj p, q) in
    let same : some d ≡ some e = sym h ∙ ap (get_elem? es) z ∙ g in
    let test_same : test d ≡ test e = ap (λ o. elim o [ none ↦ true | some x ↦ test x ]) same in
    ground (arith, test_same, t, f)

acquire-Keeps :
    (now j : ℕ) (es : List IpVolumeEntry) (e : IpVolumeEntry)
    → get_elem? es j ≡ some e
    → is_empty_slot e ≡ false
    → is_stale now e ≡ false
    → Keeps j e (ip_volume_acquire_slot now es)
unfolding ip_volume_acquire_slot
acquire-Keeps now j es e g n f = elim (Option-cases (find_index is_empty_slot 0 es)) [
  | inr (i, p) ↦
      let other : i ≢ j =
        Passes-other is_empty_slot es i j e (rw (sym p) (find_index_lem is_empty_slot 0 es)) g n in
      rw (p, ip_volume_acquire_slot) (λ q. other (some_inj q), g)
  | inl p ↦ elim (Option-cases (find_victim now 0 none 0 es)) [
    | inl q ↦ rw (p, q, ip_volume_acquire_slot) (λ r. absurd (ground (arith, r)), g)
    | inr (i, q) ↦
        let stale : Passes (is_stale now) 0 es (some i) = elim (find_victim_lem now 0 none 0 es) [
          | inl r ↦ absurd (ground (arith, q, r))
          | inr r ↦ rw (sym q) r
        ] in
        let other : i ≢ j = Passes-other (is_stale now) es i j e stale g f in
        rw (p, q, ip_volume_acquire_slot)
          (λ r. other (some_inj r), get_elem?-set_ne es empty_entry other ∙ g)
  ]
]

create-Keeps :
    (now ip j : ℕ) (address : Option (List ℕ)) (es : List IpVolumeEntry) (e : IpVolumeEntry)
    → get_elem? es j ≡ some e
    → is_empty_slot e ≡ false
    → is_stale now e ≡ false
    → ip_volume_lookup ip address es ≢ some j
    → Keeps j e (ip_volume_get_or_create now ip address es)
unfolding ip_volume_get_or_create
create-Keeps now ip j address es e g n f other =
    elim (Option-cases (ip_volume_lookup ip address es)) [
      | inr (i, p) ↦ rw (p, ip_volume_get_or_create) (λ q. other (p ∙ q), g)
      | inl p ↦
          let (free, kept) = acquire-Keeps now j es e g n f in
          elim (Option-cases (ip_volume_acquire_slot now es).0) [
            | inl q ↦ rw (p, q, ip_volume_get_or_create) (λ r. absurd (ground (arith, r)), kept)
            | inr (i, q) ↦
                let elsewhere : i ≢ j = λ r. free (q ∙ ap some r) in
                rw (p, q, ip_volume_get_or_create)
                  (
                    λ r. elsewhere (some_inj r),
                    get_elem?-set_ne (ip_volume_acquire_slot now es).1 (fresh_entry ip address now)
                          elsewhere
                        ∙ kept,
                  )
          ]
    ]

change-Keeps :
    (f : IpVolumeEntry → IpVolumeEntry) (j : ℕ) (e : IpVolumeEntry)
    (result : Option ℕ × List IpVolumeEntry)
    → Keeps j e result
    → get_elem? (change f result) j ≡ some e
change-Keeps f j e (none, es) k = k.1
change-Keeps f j e (some i, es) k =
    get_elem?-set_ne es (f (get_or es i empty_entry)) (λ q. k.0 (ap some q)) ∙ k.1

-- A new connection costs no other client its entry while the entry is in use or was seen in the
-- last five seconds: it stays in its place as it is. (The hypothesis on the lookup says that the
-- entry is not the new connection's own.)
pub connect_keeps :
    (v : Volumes) (sid ip j : ℕ) (address : Option (List ℕ)) (e : IpVolumeEntry)
    → get_elem? (v.ip_volume sid) j ≡ some e
    → is_empty_slot e ≡ false
    → is_stale v.precise_now e ≡ false
    → ip_volume_lookup ip address (v.ip_volume sid) ≢ some j
    → get_elem? ((account_connect (pos sid) ip address v).ip_volume sid) j ≡ some e
unfolding account_connect on_secret
connect_keeps v sid ip j address e g n f other =
    let kept =
      change-Keeps (connected v.precise_now) j e
        (ip_volume_get_or_create v.precise_now ip address (v.ip_volume sid))
        (create-Keeps v.precise_now ip j address (v.ip_volume sid) e g n f other) in
    ground (arith, kept, g)
