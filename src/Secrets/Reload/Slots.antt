-- ===== src/Secrets/Reload/Slots.antt =====
-- src/net/net-tcp-rpc-ext-drain.c: what a reload leaves alone.
use teleproxy.Base.{
  ℕ, zero, suc, ◌+◌, ◌≤◌, ◌<◌, Bool, true, false, ◌&&◌, List, [], ◌∷◌, arith, ltb, leb, ◌==◌, none,
  some, Bool-cases, Option-cases, ◌≡◌, refl, sym, ap, ◌∙◌, inl, inr,
}
use mathlib.Core.Path.{subst}
use teleproxy.Secrets.{Slot, Secrets, NewSecret, is_free, is_active, set_slot, refresh}
use teleproxy.Secrets.Reload.{
  find_slot, find_free_range, in_use_with, clear_at, drain_slot, mark_draining, match_existing,
  fresh_slot, place_new, match_and_drain, finish_reload, reload_ext_secrets, drop_pinned,
}

pub some_inj : {A : Type 0} {x y : A} → some x ≡ some y → x ≡ y
some_inj {x} e = ap (λ o. elim o [ none ↦ x | some z ↦ z ]) e

-- A slot found lies in the range and passes the test.
pub find_slot-some :
    (test : Slot → Bool) (slots : ℕ → Slot) (i n j : ℕ)
    → find_slot test slots i n ≡ some j
    → (i ≤ j) × (j < i + n) × (test (slots j) ≡ true)
unfolding find_slot
find_slot-some test slots i zero j e = absurd (ground (arith, e))
find_slot-some test slots i (suc n) j e = elim (Bool-cases (test (slots i))) [
  | inl t ↦
      let same : i ≡ j = some_inj (rw t at e) in
      (omega (arith, same), omega (arith, same), ap (λ k. test (slots k)) (sym same) ∙ t)
  | inr f ↦
      let (a, b, c) = find_slot-some test slots (suc i) n j (rw f at e) in
      (omega (arith, a), omega (arith, b), c)
]

-- The connections of a slot go on: its secret, its counters and its addresses are the same, and it
-- is not free.
pub record Continues (slot slot' : Slot) : Type 0 where
  pub secret_same : slot'.secret ≡ slot.secret
  pub connections_same : slot'.active_connections ≡ slot.active_connections
  pub counters_same : slot'.counters ≡ slot.counters
  pub ips_same : slot'.ips ≡ slot.ips
  pub count_same : slot'.unique_ip_count ≡ slot.unique_ip_count
  pub not_free : is_free slot'.state ≡ false

-- Every slot in use goes on, and the pinned ones are untouched.
pub record Kept (pinned : ℕ) (slots slots' : ℕ → Slot) : Type 0 where
  pub continues : (k : ℕ) → is_free (slots k).state ≡ false → Continues (slots k) (slots' k)
  pub untouched : (k : ℕ) → k < pinned → slots' k ≡ slots k

Continues-refl : (slot : Slot) → is_free slot.state ≡ false → Continues slot slot
Continues-refl slot f = record {
  secret_same = refl;
  connections_same = refl;
  counters_same = refl;
  ips_same = refl;
  count_same = refl;
  not_free = f;
}

Continues-trans : {a b c : Slot} → Continues a b → Continues b c → Continues a c
Continues-trans x y = record {
  secret_same = y.secret_same ∙ x.secret_same;
  connections_same = y.connections_same ∙ x.connections_same;
  counters_same = y.counters_same ∙ x.counters_same;
  ips_same = y.ips_same ∙ x.ips_same;
  count_same = y.count_same ∙ x.count_same;
  not_free = y.not_free;
}

pub Kept-refl : (pinned : ℕ) (slots : ℕ → Slot) → Kept pinned slots slots
Kept-refl pinned slots = record {
  continues = λ k f. Continues-refl (slots k) f;
  untouched = λ k l. refl;
}

pub Kept-trans :
    {pinned : ℕ} {a b c : ℕ → Slot} → Kept pinned a b → Kept pinned b c → Kept pinned a c
Kept-trans x y = record {
  continues = λ k f. let z = x.continues k f in Continues-trans z (y.continues k z.not_free);
  untouched = λ k l. y.untouched k l ∙ x.untouched k l;
}

at_slot :
    (slots : ℕ → Slot) (i k : ℕ) (v : Slot)
    → k ≡ i
    → (is_free (slots i).state ≡ false → Continues (slots i) v)
    → is_free (slots k).state ≡ false
    → Continues (slots k) v
at_slot slots i k v e h f =
    subst (λ j. Continues (slots j) v) (sym e)
      (h (subst (λ j. is_free (slots j).state ≡ false) e f))

-- A change of one slot behind the pinned ones.
Kept-set_slot :
    (pinned : ℕ) (slots : ℕ → Slot) (i : ℕ) (v : Slot)
    → pinned ≤ i
    → (is_free (slots i).state ≡ false → Continues (slots i) v)
    → Kept pinned slots (set_slot i v slots)
Kept-set_slot pinned slots i v p h = record {
  continues = λ k f. elim (Bool-cases (k == i)) [
    | inl t ↦ let e : k ≡ i = ground (arith, t) in rw t (at_slot slots i k v e h f)
    | inr d ↦ rw d (Continues-refl (slots k) f)
  ];
  untouched = λ k l. let d : (k == i) ≡ false = ground arith in rw d refl;
}

module _ (secret_name : ℕ → List ℕ) where
  refresh-Continues :
      (i : ℕ) (new : NewSecret) (slot : Slot) → Continues slot (refresh secret_name i new slot)
  unfolding refresh
  refresh-Continues i new slot = record {
    secret_same = refl;
    connections_same = refl;
    counters_same = refl;
    ips_same = refl;
    count_same = refl;
    not_free = refl;
  }

  match_existing-Kept :
      (pinned : ℕ) (news : List NewSecret) (slots : ℕ → Slot) (candidate : ℕ → Bool)
      → Kept pinned slots (match_existing secret_name pinned news slots candidate).0
  unfolding match_existing
  match_existing-Kept pinned [] slots candidate = Kept-refl pinned slots
  match_existing-Kept pinned (new ∷ news) slots candidate =
      elim (Option-cases (find_free_range (in_use_with new.new_secret) slots pinned)) [
        | inl n ↦ rw (n, match_existing) (match_existing-Kept pinned news slots candidate)
        | inr (i, e) ↦
            let (p, l, t) = find_slot-some (in_use_with new.new_secret) slots pinned _ i e in
            rw (e, match_existing)
              (Kept-trans
                (Kept-set_slot pinned slots i (refresh secret_name i new (slots i)) p
                  (λ f. refresh-Continues i new (slots i)))
                (match_existing-Kept pinned news
                  (set_slot i (refresh secret_name i new (slots i)) slots) (clear_at i candidate)))
      ]

  drain-Continues : (now : ℕ) (slot : Slot) → Continues slot (drain_slot now slot)
  drain-Continues now slot = record {
    secret_same = refl;
    connections_same = refl;
    counters_same = refl;
    ips_same = refl;
    count_same = refl;
    not_free = refl;
  }

  mark_draining-Kept :
      (now pinned : ℕ) (candidate : ℕ → Bool) (slots : ℕ → Slot)
      → Kept pinned slots (mark_draining now pinned candidate slots)
  unfolding mark_draining
  mark_draining-Kept now pinned candidate slots = record {
    continues = λ k f. elim (Bool-cases (leb pinned k && (ltb k 32 && candidate k))) [
      | inl t ↦ rw t (drain-Continues now (slots k))
      | inr n ↦ rw n (Continues-refl (slots k) f)
    ];
    untouched = λ k l. let d : leb pinned k ≡ false = ground arith in rw d refl;
  }

  place_new-Kept :
      (news : List NewSecret) (s : Secrets)
      → Kept s.ext_secret_pinned s.slots (place_new secret_name news s).0.slots
        × ((place_new secret_name news s).0.ext_secret_pinned ≡ s.ext_secret_pinned)
  unfolding place_new
  place_new-Kept [] s = (Kept-refl s.ext_secret_pinned s.slots, refl)
  place_new-Kept (new ∷ news) s =
      elim (Option-cases
        (find_free_range (λ slot. is_free slot.state) s.slots s.ext_secret_pinned)) [
          | inl n ↦ rw (n, place_new) (Kept-refl s.ext_secret_pinned s.slots, refl)
          | inr (i, e) ↦
              let (p, l, t) =
                find_slot-some (λ slot. is_free slot.state) s.slots s.ext_secret_pinned _ i e in
              let (k, same) = place_new-Kept news _ in
              rw (e, place_new)
                (
                  Kept-trans
                      (Kept-set_slot s.ext_secret_pinned s.slots i
                        (fresh_slot secret_name i new (s.slots i)) p
                        (λ f. absurd (ground (arith, f, t))))
                      k,
                  same,
                )
        ]

  match_and_drain-Kept :
      (news : List NewSecret) (s : Secrets)
      → Kept s.ext_secret_pinned s.slots (match_and_drain secret_name news s).0.slots
  unfolding match_and_drain
  match_and_drain-Kept news s =
      let pinned = s.ext_secret_pinned in
      let left = drop_pinned s.slots pinned news in
      let candidate : ℕ → Bool = λ k. is_active (s.slots k).state in
      let matched = match_existing secret_name pinned left s.slots candidate in
      Kept-trans (match_existing-Kept pinned left s.slots candidate)
        (mark_draining-Kept s.precise_now pinned matched.1 matched.0)

  pub finish_reload-slots : (r : Secrets × Bool) → (finish_reload secret_name r).0.slots ≡ r.0.slots
  unfolding finish_reload
  finish_reload-slots (s, false) = refl
  finish_reload-slots (s, true) = ground arith

  -- A reload, successful or not, takes no slot in use away from its connections: the slot keeps its
  -- secret, its counters and its addresses, and is not free. It leaves the pinned slots alone.
  pub reload-Kept :
      (news : List NewSecret) (s : Secrets)
      → Kept s.ext_secret_pinned s.slots (reload_ext_secrets secret_name news s).0.slots
  unfolding reload_ext_secrets match_and_drain place_new
  reload-Kept news s =
      let (s1, rest) = match_and_drain secret_name news s in
      rw (finish_reload-slots (place_new secret_name rest s1))
        (Kept-trans (match_and_drain-Kept news s) (place_new-Kept rest s1).0)
