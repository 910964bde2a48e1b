-- ===== src/Secrets/Reload/Result.antt =====
-- src/net/net-tcp-rpc-ext-drain.c: after a reload, the active secrets are those of the
-- configuration.
use teleproxy.Base.{
  ℕ, zero, suc, ◌≤◌, ◌<◌, Bool, true, false, ◌&&◌, List, [], ◌∷◌, arith, ltb, leb, ◌==◌, none, some,
  Bool-cases, Option-cases, ◌≡◌, refl, ap, inl, inr, ◌⊎◌, get_elem?,
}
use mathlib.Core.Path.{subst}
use teleproxy.TopIps.{same_bytes}
use teleproxy.Secrets.{
  Slot, SlotState, slot_free, slot_active, slot_draining, Secrets, NewSecret, is_free, is_active,
  set_slot, refresh,
}
use teleproxy.Secrets.Reload.{
  find_slot, find_free_range, in_use_with, has_key, clear_at, mark_draining, match_existing,
  fresh_slot, place_new, match_and_drain, finish_reload, reload_ext_secrets, drop_pinned,
}
use teleproxy.Base.Int.{pos}
use teleproxy.UniqBloom.{uniq_bloom_clear_slot}
use teleproxy.Secrets.Reload.Slots.{find_slot-some, finish_reload-slots}

-- The entry stands in the list.
abbrev pub In : NewSecret → List NewSecret → Type 0
In new news = (j : ℕ) × (get_elem? news j ≡ some new)

-- A slot behind the pinned ones is active and has the entry's key.
abbrev pub ActiveFor : ℕ → (ℕ → Slot) → NewSecret → Type 0
ActiveFor pinned slots new =
    (k : ℕ) × (pinned ≤ k)
    × (k < 32)
    × (has_key new.new_secret (slots k) ≡ true)
    × (is_active (slots k).state ≡ true)

-- And it is no candidate for draining.
abbrev ServedBy : ℕ → (ℕ → Slot) → (ℕ → Bool) → NewSecret → Type 0
ServedBy pinned slots candidate new =
    (k : ℕ) × (pinned ≤ k)
    × (k < 32)
    × (has_key new.new_secret (slots k) ≡ true)
    × (is_active (slots k).state ≡ true)
    × (candidate k ≡ false)

-- A slot of the configuration.
abbrev pub Wanted : List NewSecret → Slot → Type 0
Wanted news slot = (new : NewSecret) × In new news × (has_key new.new_secret slot ≡ true)

-- One entry more in front.
later :
    {P : Type 0} (new : NewSecret) (v : NewSecret) (rest : List NewSecret)
    → P ⊎ In new rest
    → P ⊎ In new (v ∷ rest)
later new v rest (inl x) = inl x
later new v rest (inr (j, e)) = inr (suc j, e)

head_eq : {v new : NewSecret} (news : List NewSecret) → get_elem? (v ∷ news) 0 ≡ some new → v ≡ new
head_eq {v} news e = ap (λ o. elim o [ none ↦ v | some z ↦ z ]) e

-- A pinned slot has the entry's key.
abbrev pub PinnedFor : ℕ → (ℕ → Slot) → NewSecret → Type 0
PinnedFor pinned slots new = (p : ℕ) × (p < pinned) × (has_key new.new_secret (slots p) ≡ true)

-- The entries that are left collide with no pinned slot.
drop_pinned_or :
    (slots : ℕ → Slot) (pinned : ℕ) (news : List NewSecret) (new : NewSecret)
    → In new news
    → PinnedFor pinned slots new ⊎ In new (drop_pinned slots pinned news)
unfolding drop_pinned
drop_pinned_or slots pinned [] new (j, e) = absurd (ground (arith, e))
drop_pinned_or slots pinned (v ∷ news) new (zero, e) =
    elim (Option-cases (find_slot (has_key v.new_secret) slots 0 pinned)) [
      | inl n ↦ rw (n, drop_pinned) (inr (0, e))
      | inr (p, q) ↦
          let (a, l, t) = find_slot-some (has_key v.new_secret) slots 0 pinned p q in
          let l' : p < pinned = omega (arith, l) in
          inl (subst (PinnedFor pinned slots) (head_eq news e) (p, l', t))
    ]
drop_pinned_or slots pinned (v ∷ news) new (suc j, e) =
    elim (Option-cases (find_slot (has_key v.new_secret) slots 0 pinned)) [
      | inl n ↦
          rw (n, drop_pinned)
            (later new v (drop_pinned slots pinned news)
              (drop_pinned_or slots pinned news new (j, e)))
      | inr (p, q) ↦ rw (q, drop_pinned) (drop_pinned_or slots pinned news new (j, e))
    ]

same_bytes_refl : (key : List ℕ) → same_bytes key key ≡ true
unfolding same_bytes
same_bytes_refl [] = refl
same_bytes_refl (x ∷ xs) = let e = same_bytes_refl xs in ground (arith, e)

active_not_free : (state : SlotState) → is_active state ≡ true → is_free state ≡ true → ⊥
active_not_free slot_free a f = absurd (ground (arith, a))
active_not_free slot_active a f = absurd (ground (arith, f))
active_not_free slot_draining a f = absurd (ground (arith, a))

-- The secrets after one step of pass D.
abbrev occupied : Secrets → ℕ → Slot → Secrets
occupied s i slot = record s {
  slots = set_slot i slot s.slots;
  uniq_bloom = uniq_bloom_clear_slot (pos i) s.uniq_bloom;
}

module _ (secret_name : ℕ → List ℕ) (pinned : ℕ) where
  refresh_serves :
      (slots : ℕ → Slot) (candidate : ℕ → Bool) (i : ℕ) (v : NewSecret) (new : NewSecret)
      → ServedBy pinned slots candidate new
      → ServedBy pinned
          (set_slot i (refresh secret_name i v (slots i)) slots)
          (clear_at i candidate)
          new
  unfolding refresh
  refresh_serves slots candidate i v new (k, p, l, h, a, c) = elim (Bool-cases (k == i)) [
    | inl t ↦
        let e : i ≡ k = ground (arith, t) in
        let h' : has_key new.new_secret (slots i) ≡ true = rw e h in
        (k, p, l, rw t h', rw t refl, rw t refl)
    | inr n ↦ (k, p, l, rw n h, rw n a, rw n c)
  ]

  abbrev matched :
      List NewSecret → (ℕ → Slot) → (ℕ → Bool) → (ℕ → Slot) × (ℕ → Bool) × List NewSecret
  matched news slots candidate = match_existing secret_name pinned news slots candidate

  match_existing_serves :
      (news : List NewSecret) (slots : ℕ → Slot) (candidate : ℕ → Bool) (new : NewSecret)
      → ServedBy pinned slots candidate new
      → ServedBy pinned (matched news slots candidate).0 (matched news slots candidate).1 new
  unfolding match_existing
  match_existing_serves [] slots candidate new s = s
  match_existing_serves (v ∷ news) slots candidate new s =
      elim (Option-cases (find_free_range (in_use_with v.new_secret) slots pinned)) [
        | inl n ↦ rw (n, match_existing) (match_existing_serves news slots candidate new s)
        | inr (i, e) ↦
            rw (e, match_existing)
              (match_existing_serves news (set_slot i (refresh secret_name i v (slots i)) slots)
                (clear_at i candidate) new (refresh_serves slots candidate i v new s))
      ]

  key_of :
      (new : NewSecret) (slot : Slot)
      → in_use_with new.new_secret slot ≡ true
      → has_key new.new_secret slot ≡ true
  key_of new slot t = ground (arith, t)

  served_now :
      (slots : ℕ → Slot) (candidate : ℕ → Bool) (i : ℕ) (new : NewSecret)
      → pinned ≤ i
      → i < 32
      → has_key new.new_secret (slots i) ≡ true
      → ServedBy pinned
          (set_slot i (refresh secret_name i new (slots i)) slots)
          (clear_at i candidate)
          new
  unfolding refresh
  served_now slots candidate i new p l h =
      let same : (i == i) ≡ true = ground arith in (i, p, l, rw same h, rw same refl, rw same refl)

  -- After pass B an entry is served, or still to be placed.
  match_existing_or :
      (news : List NewSecret) (slots : ℕ → Slot) (candidate : ℕ → Bool) (new : NewSecret)
      → In new news
      → ServedBy pinned (matched news slots candidate).0 (matched news slots candidate).1 new
        ⊎ In new (matched news slots candidate).2
  unfolding match_existing
  match_existing_or [] slots candidate new (j, e) = absurd (ground (arith, e))
  match_existing_or (v ∷ news) slots candidate new (zero, e) =
      elim (Option-cases (find_free_range (in_use_with v.new_secret) slots pinned)) [
        | inl n ↦ rw (n, match_existing) (inr (0, e))
        | inr (i, q) ↦
            let (p, l, t) = find_slot-some (in_use_with v.new_secret) slots pinned _ i q in
            let inside : i < 32 = ground (arith, p, l) in
            let now = served_now slots candidate i v p inside (key_of v (slots i) t) in
            let slots' : ℕ → Slot = set_slot i (refresh secret_name i v (slots i)) slots in
            let candidate' : ℕ → Bool = clear_at i candidate in
            let served : ServedBy pinned slots' candidate' new =
              subst (ServedBy pinned slots' candidate') (head_eq news e) now in
            rw (q, match_existing) (inl (match_existing_serves news slots' candidate' new served))
      ]
  match_existing_or (v ∷ news) slots candidate new (suc j, e) =
      elim (Option-cases (find_free_range (in_use_with v.new_secret) slots pinned)) [
        | inl n ↦
            rw (n, match_existing)
              (later new v (matched news slots candidate).2
                (match_existing_or news slots candidate new (j, e)))
        | inr (i, q) ↦
            rw (q, match_existing)
              (match_existing_or news (set_slot i (refresh secret_name i v (slots i)) slots)
                (clear_at i candidate) new (j, e))
      ]

  mark_draining_serves :
      (now : ℕ) (candidate : ℕ → Bool) (slots : ℕ → Slot) (new : NewSecret)
      → ServedBy pinned slots candidate new
      → ActiveFor pinned (mark_draining now pinned candidate slots) new
  unfolding mark_draining
  mark_draining_serves now candidate slots new (k, p, l, h, a, c) =
      let n : (leb pinned k && (ltb k 32 && candidate k)) ≡ false = ground (arith, c) in
      (k, p, l, rw n h, rw n a)

  set_slot_active :
      (slots : ℕ → Slot) (i : ℕ) (slot : Slot) (new : NewSecret)
      → is_free (slots i).state ≡ true
      → ActiveFor pinned slots new
      → ActiveFor pinned (set_slot i slot slots) new
  set_slot_active slots i slot new f (k, p, l, h, a) = elim (Bool-cases (k == i)) [
    | inl t ↦
        let e : k ≡ i = ground (arith, t) in
        let a' : is_active (slots i).state ≡ true = rw e at a in
        absurd (active_not_free (slots i).state a' f)
    | inr n ↦ (k, p, l, rw n h, rw n a)
  ]

  fresh_active :
      (slots : ℕ → Slot) (i : ℕ) (new : NewSecret)
      → pinned ≤ i
      → i < 32
      → ActiveFor pinned (set_slot i (fresh_slot secret_name i new (slots i)) slots) new
  unfolding refresh
  fresh_active slots i new p l =
      let same : (i == i) ≡ true = ground arith in
      (i, p, l, rw same (same_bytes_refl new.new_secret), rw same refl)

module _ (secret_name : ℕ → List ℕ) where
  -- The slots after pass D.
  abbrev placed : List NewSecret → Secrets → Secrets × Bool
  placed news s = place_new secret_name news s

  place_new_active :
      (news : List NewSecret) (s : Secrets) (new : NewSecret)
      → ActiveFor s.ext_secret_pinned s.slots new
      → ActiveFor s.ext_secret_pinned (placed news s).0.slots new
  unfolding place_new
  place_new_active [] s new a = a
  place_new_active (v ∷ news) s new a =
      elim (Option-cases
        (find_free_range (λ slot. is_free slot.state) s.slots s.ext_secret_pinned)) [
          | inl n ↦ rw (n, place_new) a
          | inr (i, e) ↦
              let (p, l, t) =
                find_slot-some (λ slot. is_free slot.state) s.slots s.ext_secret_pinned _ i e in
              rw (e, place_new)
                (place_new_active news (occupied s i (fresh_slot secret_name i v (s.slots i))) new (
                  set_slot_active secret_name s.ext_secret_pinned s.slots i
                    (fresh_slot secret_name i v (s.slots i)) new t a))
        ]

  place_new_all :
      (news : List NewSecret) (s : Secrets) (new : NewSecret)
      → In new news
      → (placed news s).1 ≡ true
      → ActiveFor s.ext_secret_pinned (placed news s).0.slots new
  unfolding place_new
  place_new_all [] s new (j, e) done = absurd (ground (arith, e))
  place_new_all (v ∷ news) s new (zero, e) done =
      elim (Option-cases
        (find_free_range (λ slot. is_free slot.state) s.slots s.ext_secret_pinned)) [
          | inl n ↦ absurd (ground (arith, rw (n, place_new) at done))
          | inr (i, q) ↦
              let (p, l, t) =
                find_slot-some (λ slot. is_free slot.state) s.slots s.ext_secret_pinned _ i q in
              let inside : i < 32 = ground (arith, p, l) in
              let s' = occupied s i (fresh_slot secret_name i v (s.slots i)) in
              let now = fresh_active secret_name s.ext_secret_pinned s.slots i v p inside in
              rw (q, place_new)
                (place_new_active news s' new
                  (subst (ActiveFor s.ext_secret_pinned s'.slots) (head_eq news e) now))
        ]
  place_new_all (v ∷ news) s new (suc j, e) done =
      elim (Option-cases
        (find_free_range (λ slot. is_free slot.state) s.slots s.ext_secret_pinned)) [
          | inl n ↦ absurd (ground (arith, rw (n, place_new) at done))
          | inr (i, q) ↦
              rw (q, place_new)
                (place_new_all news (occupied s i (fresh_slot secret_name i v (s.slots i))) new
                  (j, e) (rw (q, place_new) at done))
        ]

  finish_reload_done : (r : Secrets × Bool) → (finish_reload secret_name r).1 ≡ true → r.1 ≡ true
  unfolding finish_reload
  finish_reload_done (s, false) e = e
  finish_reload_done (s, true) e = refl

  -- After a reload that succeeds, each entry of the configuration has the key of a pinned slot, or
  -- of an active slot behind the pinned ones.
  pub reload-serves :
      (news : List NewSecret) (s : Secrets) (new : NewSecret)
      → In new news
      → (reload_ext_secrets secret_name news s).1 ≡ true
      → PinnedFor s.ext_secret_pinned s.slots new
        ⊎ ActiveFor s.ext_secret_pinned (reload_ext_secrets secret_name news s).0.slots new
  unfolding reload_ext_secrets match_and_drain
  reload-serves news s new listed done =
      let pinned = s.ext_secret_pinned in
      let candidate : ℕ → Bool = λ k. is_active (s.slots k).state in
      let left = drop_pinned s.slots pinned news in
      let (slots, candidate', rest) = match_existing secret_name pinned left s.slots candidate in
      let s1 = record s { slots = mark_draining s.precise_now pinned candidate' slots } in
      let placed_all = finish_reload_done (placed rest s1) done in
      elim (drop_pinned_or s.slots pinned news new listed) [
        | inl p ↦ inl p
        | inr l ↦ inr (
            rw (finish_reload-slots secret_name (placed rest s1))
              (elim (match_existing_or secret_name pinned left s.slots candidate new l) [
                | inl served ↦ place_new_active rest s1 new (
                    mark_draining_serves secret_name pinned s.precise_now candidate' slots new
                      served)
                | inr waiting ↦ place_new_all rest s1 new waiting placed_all
              ]))
      ]
