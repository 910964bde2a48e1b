-- ===== src/TopIps/Snapshot.antt =====
-- src/net/net-tcp-rpc-ext-top-ips.c: the report of the busiest addresses, tcp_rpcs_snapshot_top_ips.
use teleproxy.Base.{
  ℕ, zero, suc, ◌+◌, ◌-◌, ◌^◌, ◌≤◌, ◌<◌, Bool, true, false, ◌||◌, ◌&&◌, List, [], ◌∷◌, arith, ltb,
  ◌==◌, length, Option, none, some, get_elem?, set, Bool-cases, ◌≡◌, refl, sym, ap, ◌∙◌, ◌≢◌, ◌⊎◌,
  inl, inr, All, get_elem?-set_ne, get_elem?-set_self, subst,
}
use teleproxy.Base.Int.{pos}
use mathlib.Core.List.{map}
use teleproxy.TopIps.{
  IpVolumeEntry, Volumes, Slot, reported, is_empty_slot, snapshot_top_ips, place, is_candidate,
  find_best, pick_loop, unpicked,
}

-- No candidate of the slots is above `bound`.
abbrev pub NoneAbove : ℕ → List Slot → Type 0
NoneAbove bound slots =
    (j : ℕ) (s : Slot) → get_elem? slots j ≡ some s → is_candidate s ≡ true → place s.1 ≤ bound

-- What the inner loop finds: nothing new, or the first of the best.
abbrev pub Best : ℕ → Option ℕ → ℕ → List Slot → Option ℕ → Type 0
Best i best best_total slots found =
    ((found ≡ best) × NoneAbove best_total slots)
    ⊎ ((j : ℕ) × (s : Slot) × (found ≡ some (i + j))
        × (get_elem? slots j ≡ some s)
        × (is_candidate s ≡ true)
        × (best_total < place s.1)
        × NoneAbove (place s.1) slots)

some_inj : {A : Type 0} {x y : A} → some x ≡ some y → x ≡ y
some_inj {x} e = ap (λ o. elim o [ none ↦ x | some z ↦ z ]) e

NoneAbove-cons :
    (bound : ℕ) (s : Slot) (slots : List Slot)
    → (is_candidate s ≡ true → place s.1 ≤ bound)
    → NoneAbove bound slots
    → NoneAbove bound (s ∷ slots)
NoneAbove-cons bound s slots h k zero t e c =
    let p : s ≡ t = some_inj e in
    let q : is_candidate s ≡ true → place s.1 ≤ bound = h in ground (arith, p, c, q)
NoneAbove-cons bound s slots h k (suc j) t e c = k j t e c

NoneAbove-mono : (a b : ℕ) (slots : List Slot) → a ≤ b → NoneAbove a slots → NoneAbove b slots
NoneAbove-mono a b slots h k j s e c = let q : place s.1 ≤ a = k j s e c in omega arith

-- One more slot in front.
Best-cons :
    (i : ℕ) (best : Option ℕ) (best_total : ℕ) (s : Slot) (slots : List Slot) (found : Option ℕ)
    → (is_candidate s ≡ true → place s.1 ≤ best_total)
    → Best (suc i) best best_total slots found
    → Best i best best_total (s ∷ slots) found
Best-cons i best best_total s slots found h (inl (e, n)) =
    inl (e, NoneAbove-cons best_total s slots h n)
Best-cons i best best_total s slots found h (inr (j, t, e, g, c, lt, n)) =
    let p : suc i + j ≡ i + suc j = omega arith in
    let weaker : place s.1 ≤ best_total → place s.1 ≤ place t.1 = λ w. omega arith in
    inr
      (suc j, t, e ∙ ap some p, g, c, lt, NoneAbove-cons (place t.1) s slots (λ d. weaker (h d)) n)

-- One more slot in front, which is the best so far.
Best-here :
    (i : ℕ) (best : Option ℕ) (best_total : ℕ) (s : Slot) (slots : List Slot) (found : Option ℕ)
    → is_candidate s ≡ true
    → best_total < place s.1
    → Best (suc i) (some i) (place s.1) slots found
    → Best i best best_total (s ∷ slots) found
Best-here i best best_total s slots found c lt (inl (e, n)) =
    let p : i ≡ i + 0 = omega arith in
    inr (0, s, e ∙ ap some p, refl, c, lt, NoneAbove-cons (place s.1) s slots (λ d. omega arith) n)
Best-here i best best_total s slots found c lt (inr (j, t, e, g, d, more, n)) =
    let p : suc i + j ≡ i + suc j = omega arith in
    let q : place s.1 ≤ place t.1 = omega arith in
    inr (suc j, t, e ∙ ap some p, g, d, omega arith, NoneAbove-cons (place t.1) s slots (λ r. q) n)

find_best_lem :
    (i : ℕ) (best : Option ℕ) (best_total : ℕ) (slots : List Slot)
    → Best i best best_total slots (find_best i best best_total slots)
unfolding find_best
find_best_lem i best best_total [] = inl (refl, λ j s e c. absurd (ground (arith, e)))
find_best_lem i best best_total (s ∷ slots) =
    elim (Bool-cases (is_candidate s && ltb best_total (place s.1))) [
      | inl t ↦ rw t (
          Best-here i best best_total s slots _ (ground (arith, t)) (ground (arith, t))
            (find_best_lem (suc i) (some i) (place s.1) slots))
      | inr f ↦ rw f (
          Best-cons i best best_total s slots _ (λ d. ground (arith, f, d))
            (find_best_lem (suc i) best best_total slots))
    ]

NoneAbove-set :
    (bound : ℕ) (slots : List Slot) (i : ℕ) (e : IpVolumeEntry)
    → NoneAbove bound slots
    → NoneAbove bound (set slots i (true, e))
unfolding is_candidate
NoneAbove-set bound [] i e n j t g c = n j t g c
NoneAbove-set bound (s ∷ slots) zero e n zero t g c =
    let p : (true, e) ≡ t = some_inj g in absurd (ground (arith, p, c))
NoneAbove-set bound (s ∷ slots) zero e n (suc j) t g c = n (suc j) t g c
NoneAbove-set bound (s ∷ slots) (suc i) e n zero t g c = n zero t g c
NoneAbove-set bound (s ∷ slots) (suc i) e n (suc j) t g c =
    NoneAbove-set bound slots i e (λ k. n (suc k)) j t g c

-- Each entry's sum is at most the one before it, and the first at most `bound`.
abbrev pub Descending : ℕ → List IpVolumeEntry → Type 0
Descending bound [] = Unit {0}
Descending bound (e ∷ es) = (place e ≤ bound) × Descending (place e) es

abbrev start_place : ℕ
start_place = 2 ^ 63 - 1

-- One round of the outer loop.
pick_round :
    (max : ℕ) (slots : List Slot)
    → ((pick_loop (suc max) slots ≡ []) × NoneAbove start_place slots)
      ⊎ ((j : ℕ) × (s : Slot) × (pick_loop (suc max) slots
            ≡ s.1 ∷ pick_loop max (set slots j (true, s.1)))
          × (get_elem? slots j ≡ some s)
          × (is_candidate s ≡ true)
          × NoneAbove (place s.1) slots)
unfolding pick_loop
pick_round max slots = elim (find_best_lem 0 none start_place slots) [
  | inl (e, n) ↦ inl (rw (e, pick_loop) refl, n)
  | inr (j, s, e, g, c, lt, n) ↦
      let z : 0 + j ≡ j = omega arith in
      let found = e ∙ ap some z in inr (j, s, rw (found, g, pick_loop) refl, g, c, n)
]

pick_loop-Descending :
    (bound max : ℕ) (slots : List Slot)
    → NoneAbove bound slots
    → Descending bound (pick_loop max slots)
unfolding pick_loop
pick_loop-Descending bound zero slots n = tt
pick_loop-Descending bound (suc max) slots n = elim (pick_round max slots) [
  | inl (e, k) ↦ rw e tt
  | inr (j, s, e, g, c, k) ↦ rw e (
    n j s g c,
    pick_loop-Descending (place s.1) max (set slots j (true, s.1))
        (NoneAbove-set (place s.1) slots j s.1 k),
  )
]

length-pick_loop : (max : ℕ) (slots : List Slot) → length (pick_loop max slots) ≤ max
unfolding pick_loop
length-pick_loop zero slots = omega arith
length-pick_loop (suc max) slots = elim (pick_round max slots) [
  | inl (e, k) ↦ rw e (omega arith)
  | inr (j, s, e, g, c, k) ↦ rw e (omega (arith, length-pick_loop max (set slots j (true, s.1))))
]

-- The entry is in the report, or the report is full of entries with at least its traffic.
abbrev pub Reported : IpVolumeEntry → ℕ → List IpVolumeEntry → Type 0
Reported e max top =
    ((k : ℕ) × (get_elem? top k ≡ some e)) ⊎ ((length top ≡ max) × All (λ o. place e ≤ place o) top)

Reported-cons :
    (e o : IpVolumeEntry) (max : ℕ) (top : List IpVolumeEntry)
    → place e ≤ place o
    → Reported e max top
    → Reported e (suc max) (o ∷ top)
Reported-cons e o max top h (inl (k, p)) = inl (suc k, p)
Reported-cons e o max top h (inr (l, a)) = inr (ap suc l, (h, a))

pick_loop_complete :
    (max : ℕ) (slots : List Slot) (j : ℕ) (s : Slot)
    → get_elem? slots j ≡ some s
    → is_candidate s ≡ true
    → start_place < place s.1
    → Reported s.1 max (pick_loop max slots)
unfolding pick_loop
pick_loop_complete zero slots j s g c lt = inr (refl, tt)
pick_loop_complete (suc max) slots j s g c lt = elim (pick_round max slots) [
  | inl (e, n) ↦ let q : place s.1 ≤ start_place = n j s g c in absurd (omega arith)
  | inr (i, t, e, d, r, n) ↦ rw e (elim (Bool-cases (i == j)) [
    | inl y ↦
        let p : i ≡ j = ground (arith, y) in
        let q : t ≡ s = some_inj (sym d ∙ ap (get_elem? slots) p ∙ g) in
        inl (0, ap (λ x. some x.1) q)
    | inr y ↦ Reported-cons s.1 t.1 max (pick_loop max (set slots i (true, t.1))) (n j s g c) (
        pick_loop_complete max (set slots i (true, t.1)) j s
          (get_elem?-set_ne slots (true, t.1) (ground (arith, y)) ∙ g) c lt)
  ])
]

pub has : ℕ → List ℕ → Bool
has i [] = false
has i (j ∷ js) = i == j || has i js

-- The report `top` consists of the entries at these indices of the table, each once, and each a
-- candidate that was not picked before.
pub Picks : List Slot → List ℕ → List IpVolumeEntry → Type 0
Picks slots [] [] = Unit {0}
Picks slots [] (e ∷ es) = ⊥
Picks slots (i ∷ is) [] = ⊥
Picks slots (i ∷ is) (e ∷ es) =
    (get_elem? slots i ≡ some (false, e))
    × (is_candidate (false, e) ≡ true)
    × (has i is ≡ false)
    × Picks slots is es

-- What is picked once a slot is marked was there before, and is no pick of that slot.
Picks-set :
    (slots : List Slot) (j : ℕ) (x : IpVolumeEntry) (is : List ℕ) (es : List IpVolumeEntry)
    → j < length slots
    → Picks (set slots j (true, x)) is es
    → (has j is ≡ false) × Picks slots is es
unfolding has Picks
Picks-set slots j x [] [] l p = (refl, tt)
Picks-set slots j x [] (e ∷ es) l p = absurd p
Picks-set slots j x (i ∷ is) [] l p = absurd p
Picks-set slots j x (i ∷ is) (e ∷ es) l (g, c, n, rest) =
    let (h, rest') = Picks-set slots j x is es l rest in
    elim (Bool-cases (j == i)) [
      | inl y ↦
          let q : j ≡ i = ground (arith, y) in
          let marked = ap (λ k. get_elem? (set slots j (true, x)) k) q ∙ g in
          let at_j = get_elem?-set_self slots j (true, x) l in
          let both = some_inj (sym at_j ∙ marked) in
          let marks = ap (λ r. r.0) both in absurd (ground (arith, marks))
      | inr y ↦
          let same = get_elem?-set_ne slots (true, x) (ground (arith, y)) in
          (rw (y, h) refl, (sym same ∙ g, c, n, rest'))
    ]

candidate_unpicked : (s : Slot) → is_candidate s ≡ true → s ≡ (false, s.1)
unfolding is_candidate
candidate_unpicked (true, e) c = absurd (ground (arith, c))
candidate_unpicked (false, e) c = refl

get_elem?_lt : {A : Type 0} (xs : List A) (i : ℕ) {x : A} → get_elem? xs i ≡ some x → i < length xs
get_elem?_lt [] i g = absurd (ground (arith, g))
get_elem?_lt (x ∷ xs) zero g = omega arith
get_elem?_lt (x ∷ xs) (suc i) g = let h = get_elem?_lt xs i g in omega (arith, h)

pick_loop-Picks :
    (max : ℕ) (slots : List Slot) → (is : List ℕ) × Picks slots is (pick_loop max slots)
unfolding Picks pick_loop
pick_loop-Picks zero slots = ([], tt)
pick_loop-Picks (suc max) slots = elim (pick_round max slots) [
  | inl (e, n) ↦ ([], rw e tt)
  | inr (j, s, e, g, c, n) ↦
      let q = candidate_unpicked s c in
      let (is, p) = pick_loop-Picks max (set slots j (true, s.1)) in
      let (h, p') = Picks-set slots j s.1 is _ (get_elem?_lt slots j g) p in
      (j ∷ is, rw e (g ∙ ap some q, subst (λ r. is_candidate r ≡ true) q c, h, p'))
]

-- The slots of the report's first round.
get_elem?-unpicked :
    (es : List IpVolumeEntry) (j : ℕ) (e : IpVolumeEntry)
    → get_elem? es j ≡ some e
    → get_elem? (unpicked es) j ≡ some (false, e)
get_elem?-unpicked [] j e g = absurd (ground (arith, g))
get_elem?-unpicked (d ∷ es) zero e g = ap (λ x. some (false, x)) (some_inj g)
get_elem?-unpicked (d ∷ es) (suc j) e g = get_elem?-unpicked es j e g

place_bound : (e : IpVolumeEntry) → place e ≤ 2 ^ 64
unfolding place
place_bound e = omega arith

-- An entry with traffic is a candidate.
busy_candidate :
    (e : IpVolumeEntry)
    → is_empty_slot e ≡ false
    → 2 ^ 63 < place e
    → is_candidate (false, e) ≡ true
unfolding is_candidate place
busy_candidate e n lt = ground (arith, n)

-- The entries at these indices of the table are the report's, in its order; no index stands twice.
pub IsOf : List IpVolumeEntry → List ℕ → List IpVolumeEntry → Type 0
IsOf es [] [] = Unit {0}
IsOf es [] (e ∷ top) = ⊥
IsOf es (i ∷ is) [] = ⊥
IsOf es (i ∷ is) (e ∷ top) =
    (get_elem? es i ≡ some e) × (is_empty_slot e ≡ false) × (has i is ≡ false) × IsOf es is top

unpicked-get_elem? :
    (es : List IpVolumeEntry) (i : ℕ) {m : Bool} {e : IpVolumeEntry}
    → get_elem? (unpicked es) i ≡ some (m, e)
    → get_elem? es i ≡ some e
unpicked-get_elem? [] i g = absurd (ground (arith, g))
unpicked-get_elem? (d ∷ es) zero g = ap (λ o. elim o [ none ↦ none | some r ↦ some r.1 ]) g
unpicked-get_elem? (d ∷ es) (suc i) g = unpicked-get_elem? es i g

candidate_held : (e : IpVolumeEntry) → is_candidate (false, e) ≡ true → is_empty_slot e ≡ false
unfolding is_candidate
candidate_held e c = ground (arith, c)

Picks-IsOf :
    (es : List IpVolumeEntry) (is : List ℕ) (top : List IpVolumeEntry)
    → Picks (unpicked es) is top
    → IsOf es is top
unfolding Picks IsOf
Picks-IsOf es [] [] p = tt
Picks-IsOf es [] (e ∷ top) p = absurd p
Picks-IsOf es (i ∷ is) [] p = absurd p
Picks-IsOf es (i ∷ is) (e ∷ top) (g, c, n, rest) =
    (unpicked-get_elem? es i g, candidate_held e c, n, Picks-IsOf es is top rest)

-- The report on a secret, while the feature is on, lists entries of the table that hold an address,
-- none of them twice, at most `max`, the busiest first, and misses none that counts: an entry of the
-- table that holds an address and has traffic (a sum that is positive in `long long`) is in the
-- report, or the report has `max` entries with at least its traffic each.
pub snapshot_lem :
    (v : Volumes) (sid max : ℕ)
    → v.top_ips_per_secret_runtime ≢ 0
    → sid < 16
    → (top : List IpVolumeEntry) × (snapshot_top_ips (pos sid) (pos max) v ≡ map reported top)
      × ((is : List ℕ) × IsOf (v.ip_volume sid) is top)
      × (length top ≤ max)
      × Descending (2 ^ 64) top
      × ((j : ℕ) (e : IpVolumeEntry)
          → get_elem? (v.ip_volume sid) j ≡ some e
          → is_empty_slot e ≡ false
          → 2 ^ 63 < place e
          → Reported e max top)
unfolding snapshot_top_ips
snapshot_lem v sid max on h =
    let slots = unpicked (v.ip_volume sid) in
    let (is, picks) = pick_loop-Picks max slots in
    (
      pick_loop max slots,
      ground arith,
      (is, Picks-IsOf (v.ip_volume sid) is (pick_loop max slots) picks),
      length-pick_loop max slots,
      pick_loop-Descending (2 ^ 64) max slots (λ j s g c. place_bound s.1),
      λ j e g n lt.
          pick_loop_complete max slots j (false, e) (get_elem?-unpicked (v.ip_volume sid) j e g)
            (busy_candidate e n lt) (omega arith),
    )
