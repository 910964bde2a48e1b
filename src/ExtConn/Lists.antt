-- ===== src/ExtConn/Lists.antt =====
-- src/mtproto/mtproto-proxy.c: linking and unlinking.
use teleproxy.Base.{
  ℕ, Bool, true, false, not, ◌&&◌, ◌||◌, List, [], ◌∷◌, ◌++◌, arith, ◌==◌, none, some, ◌≡◌, ◌≢◌,
  refl, sym, ap, ◌∙◌, subst, Bool-cases, inl, inr, ◌⊎◌,
}
use teleproxy.ExtConn.{Table, mem, erase, upd, find_in_chain}

pub is_false : (b : Bool) → (b ≡ true → ⊥) → b ≡ false
is_false true n = absurd (n refl)
is_false false n = refl

pub mem-erase : (y x : ℕ) (l : List ℕ) → mem y (erase x l) ≡ (not (y == x) && mem y l)
unfolding mem erase
mem-erase y x [] = ground arith
mem-erase y x (z ∷ l) = let e = mem-erase y x l in ground (arith, e)

pub mem-append : (y x : ℕ) (l : List ℕ) → mem y (l ++ (x ∷ [])) ≡ (mem y l || y == x)
unfolding mem
mem-append y x [] = ground arith
mem-append y x (z ∷ l) = let e = mem-append y x l in ground (arith, e)

pub mem-cons : (y x : ℕ) (l : List ℕ) → mem y (x ∷ l) ≡ (y == x || mem y l)
unfolding mem
mem-cons y x l = refl

pub List-cases : (l : List ℕ) → (l ≡ []) ⊎ ((x : ℕ) × (xs : List ℕ) × (l ≡ x ∷ xs))
List-cases [] = inl refl
List-cases (x ∷ xs) = inr (x, xs, refl)

pub mem-nil : (y : ℕ) → mem y [] ≡ false
unfolding mem
mem-nil y = refl

-- What the search along a chain finds.
pub find_in_chain-some :
    (t : Table) (in_fd in_conn_id : ℕ) (l : List ℕ) {x : ℕ}
    → find_in_chain t in_fd in_conn_id l ≡ some x
    → (mem x l ≡ true) × ((t.ext x).in_fd ≡ in_fd) × ((t.ext x).in_conn_id ≡ in_conn_id)
unfolding find_in_chain mem
find_in_chain-some t in_fd in_conn_id [] e = absurd (ground (arith, e))
find_in_chain-some t in_fd in_conn_id (y ∷ l) {x} e =
    elim (Bool-cases ((t.ext y).in_fd == in_fd && (t.ext y).in_conn_id == in_conn_id)) [
      | inl h ↦ let e' = rw h at e in ground (arith, e', h)
      | inr h ↦ let r = find_in_chain-some t in_fd in_conn_id l (rw h at e) in ground (arith, r)
    ]

pub find_in_chain-none :
    (t : Table) (in_fd in_conn_id : ℕ) (l : List ℕ) (x : ℕ)
    → find_in_chain t in_fd in_conn_id l ≡ none
    → mem x l ≡ true
    → ((t.ext x).in_fd == in_fd && (t.ext x).in_conn_id == in_conn_id) ≡ false
unfolding find_in_chain mem
find_in_chain-none t in_fd in_conn_id [] x e m = absurd (ground (arith, m))
find_in_chain-none t in_fd in_conn_id (y ∷ l) x e m =
    elim (Bool-cases ((t.ext y).in_fd == in_fd && (t.ext y).in_conn_id == in_conn_id)) [
      | inl h ↦ absurd (ground (arith, rw h at e))
      | inr h ↦ elim (Bool-cases (x == y)) [
        | inl s ↦ let q : x ≡ y = ground (arith, s) in rw q h
        | inr n ↦ find_in_chain-none t in_fd in_conn_id l x (rw h at e) (ground (arith, m, n))
      ]
    ]

pub upd-same : {A : Type 0} (f : ℕ → A) (k : ℕ) (v : A) → upd f k v k ≡ v
upd-same f k v = ground arith

pub upd-other : {A : Type 0} (f : ℕ → A) (k : ℕ) (v : A) {j : ℕ} → j ≢ k → upd f k v j ≡ f j
upd-other f k v {j} n = ground (arith, n)

-- A block that stands in the list `i` at most is unlinked from it.
pub unlinked :
    (f : ℕ → List ℕ) (i a j k : ℕ)
    → (mem k (f a) ≡ true → a ≡ i)
    → mem j (upd f i (erase k (f i)) a) ≡ true
    → (j ≢ k) × (mem j (f a) ≡ true)
unlinked f i a j k own m = elim (Bool-cases (a == i)) [
  | inl s ↦
      let q : a ≡ i = ground (arith, s) in
      let m' = rw (s, mem-erase j k (f i)) at m in (ground (arith, m'), rw q (ground (arith, m')))
  | inr n ↦ let m' = rw n at m in (λ e. let o = own (rw (sym e) m') in ground (arith, o, n), m')
]

pub still_linked :
    (f : ℕ → List ℕ) (i a j k : ℕ)
    → j ≢ k
    → mem j (f a) ≡ true
    → mem j (upd f i (erase k (f i)) a) ≡ true
still_linked f i a j k n m = elim (Bool-cases (a == i)) [
  | inl s ↦
      let q : i ≡ a = ground (arith, s) in rw (s, mem-erase j k (f i), q, m) (ground (arith, n))
  | inr s ↦ rw s m
]

-- The list `p` of a family gets the block `x`.
pub record IsLinked (f g : ℕ → List ℕ) (p x : ℕ) (v : List ℕ) : Type 0 where
  pub at_list : (i : ℕ) → g i ≡ upd f p v i
  pub has_new : mem x v ≡ true
  pub has_old : (j : ℕ) → mem j (f p) ≡ true → mem j v ≡ true
  pub only : (j : ℕ) → mem j v ≡ true → (j ≡ x) ⊎ (mem j (f p) ≡ true)

module _ (f g : ℕ → List ℕ) (p x : ℕ) (v : List ℕ) (l : IsLinked f g p x v) where
  pub linked_new : mem x (g p) ≡ true
  linked_new = ap (mem x) (l.at_list p ∙ upd-same f p v) ∙ l.has_new

  pub linked_old : (i j : ℕ) → mem j (f i) ≡ true → mem j (g i) ≡ true
  linked_old i j m = elim (Bool-cases (i == p)) [
    | inl s ↦
        let q : i ≡ p = ground (arith, s) in
        subst (λ i. mem j (f i) ≡ true → mem j (g i) ≡ true) (sym q)
          (λ m. ap (mem j) (l.at_list p ∙ upd-same f p v) ∙ l.has_old j m) m
    | inr n ↦ ap (mem j) (l.at_list i ∙ upd-other f p v (ground (arith, n))) ∙ m
  ]

  pub linked_only : (i j : ℕ) → mem j (g i) ≡ true → ((i ≡ p) × (j ≡ x)) ⊎ (mem j (f i) ≡ true)
  linked_only i j m = elim (Bool-cases (i == p)) [
    | inl s ↦
        let q : i ≡ p = ground (arith, s) in
        elim (l.only j (sym (ap (mem j) (ap g q ∙ (l.at_list p ∙ upd-same f p v))) ∙ m)) [
          | inl e ↦ inl (q, e)
          | inr o ↦ inr (ap (λ i. mem j (f i)) q ∙ o)
        ]
    | inr n ↦ inr (ap (mem j) (sym (l.at_list i ∙ upd-other f p v (ground (arith, n)))) ∙ m)
  ]

-- No block stands twice in a list.
pub distinct : List ℕ → Bool
distinct [] = true
distinct (x ∷ xs) = not (mem x xs) && distinct xs

pub distinct-cons :
    (x : ℕ) (l : List ℕ) → distinct l ≡ true → mem x l ≡ false → distinct (x ∷ l) ≡ true
unfolding distinct
distinct-cons x l d n = rw (n, d) refl

pub cons-distinct :
    (x : ℕ) (l : List ℕ) → distinct (x ∷ l) ≡ true → (mem x l ≡ false) × (distinct l ≡ true)
unfolding distinct
cons-distinct x l d = ground (arith, d)

pub distinct-nil : distinct [] ≡ true
unfolding distinct
distinct-nil = refl

pub distinct-erase : (x : ℕ) (l : List ℕ) → distinct l ≡ true → distinct (erase x l) ≡ true
unfolding distinct erase
distinct-erase x [] d = refl
distinct-erase x (y ∷ l) d =
    let e = distinct-erase x l (ground (arith, d)) in
    let m = mem-erase y x l in
    elim (Bool-cases (x == y)) [ inl h ↦ rw h e | inr h ↦ rw (h, e, m) (ground (arith, d)) ]

pub distinct-append :
    (x : ℕ) (l : List ℕ) → distinct l ≡ true → mem x l ≡ false → distinct (l ++ (x ∷ [])) ≡ true
unfolding distinct mem
distinct-append x [] d n = refl
distinct-append x (y ∷ l) d n =
    let e = distinct-append x l (ground (arith, d)) (ground (arith, n)) in
    let m = mem-append y x l in ground (arith, e, m, d, n)

pub distinct-upd :
    (f : ℕ → List ℕ) (p : ℕ) (v : List ℕ) (i : ℕ)
    → distinct v ≡ true
    → distinct (f i) ≡ true
    → distinct (upd f p v i) ≡ true
distinct-upd f p v i d e = elim (Bool-cases (i == p)) [ inl h ↦ rw h d | inr h ↦ rw h e ]
