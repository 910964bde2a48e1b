-- ===== src/Secrets/IpTrack/Count.antt =====
-- src/net/net-tcp-rpc-ext-server.c: the count of a slot's addresses is the number of its live
-- entries.
use teleproxy.Base.{
  ℕ, ◌+◌, ◌≤◌, ◌<◌, true, false, List, [], ◌∷◌, arith, if◌then◌else◌, Option, none, some,
  Bool-cases, Option-cases, ◌≡◌, refl, inl, inr, ◌⊎◌,
}
use teleproxy.Base.Int.{ℤ}
use teleproxy.Secrets.{TrackedIp, Slot, Secrets}
use teleproxy.Secrets.IpTrack.{
  is_live, is_for, is_tracked, add_connection, new_ip, fill_empty, track, drop_connection, untrack,
}

unfoldable pub live : List TrackedIp → ℕ
live [] = 0
live (e ∷ es) = if is_live e then live es + 1 else live es

abbrev pub IsCounted : Slot → Type 0
IsCounted slot = slot.unique_ip_count ≡ live slot.ips

abbrev UnlessNone : ℕ → Option (List TrackedIp) → Type 0
UnlessNone n none = Unit {0}
UnlessNone n (some es) = live es ≡ n

is_for-positive :
    (ip : ℕ) (ipv6 : List ℕ) (e : TrackedIp) → is_for ip ipv6 e ≡ true → 0 < e.connections
unfolding is_for
is_for-positive ip ipv6 e t = ground (arith, t)

live-add_connection :
    (ip : ℕ) (ipv6 : List ℕ) (es : List TrackedIp)
    → UnlessNone (live es) (add_connection ip ipv6 es)
unfolding add_connection live
live-add_connection ip ipv6 [] = tt
live-add_connection ip ipv6 (e ∷ es) = elim (Bool-cases (is_for ip ipv6 e)) [
  | inl t ↦ rw t (ground (arith, is_for-positive ip ipv6 e t))
  | inr f ↦ elim (Option-cases (add_connection ip ipv6 es)) [
    | inl n ↦ rw (f, n) tt
    | inr (rest, p) ↦
        let k = rw p at (live-add_connection ip ipv6 es) in rw (f, p) (ground (arith, k))
  ]
]

-- An address that is tracked is found.
add_connection-tracked :
    (ip : ℕ) (ipv6 : List ℕ) (es : List TrackedIp)
    → add_connection ip ipv6 es ≡ none
    → is_tracked ip ipv6 es ≡ false
unfolding add_connection is_tracked
add_connection-tracked ip ipv6 [] n = refl
add_connection-tracked ip ipv6 (e ∷ es) n = ground (arith, n, add_connection-tracked ip ipv6 es)

live-fill_empty :
    (f : TrackedIp → TrackedIp) (es : List TrackedIp)
    → ((e : TrackedIp) → (f e).connections ≡ 1)
    → UnlessNone (live es + 1) (fill_empty f es)
unfolding fill_empty live
live-fill_empty f [] h = tt
live-fill_empty f (e ∷ es) h = elim (Bool-cases (is_live e)) [
  | inr d ↦ rw d (ground (arith, h e))
  | inl t ↦ elim (Option-cases (fill_empty f es)) [
    | inl n ↦ rw (t, n) tt
    | inr (rest, p) ↦ let k = rw p at (live-fill_empty f es h) in rw (t, p) (ground (arith, k))
  ]
]

new_ip-connections :
    (s : Secrets) (rate_limit : ℤ) (ip : ℕ) (ipv6 : List ℕ) (e : TrackedIp)
    → (new_ip s rate_limit ip ipv6 e).connections ≡ 1
unfolding new_ip
new_ip-connections s rate_limit ip ipv6 e = ground arith

-- A slot after a connection: the count is right, and greater only for an address that was not
-- tracked, by one; nothing but the table and the count has changed.
pub track_lem :
    (s : Secrets) (ip : ℕ) (ipv6 : List ℕ) (slot : Slot)
    → IsCounted slot
    → IsCounted (track s ip ipv6 slot)
      × (((track s ip ipv6 slot).unique_ip_count ≡ slot.unique_ip_count)
          ⊎ ((is_tracked ip ipv6 slot.ips ≡ false)
              × ((track s ip ipv6 slot).unique_ip_count ≡ slot.unique_ip_count + 1)))
      × ((track s ip ipv6 slot).active_connections ≡ slot.active_connections)
      × ((track s ip ipv6 slot).limit ≡ slot.limit)
      × ((track s ip ipv6 slot).max_ips ≡ slot.max_ips)
unfolding track
track_lem s ip ipv6 slot c = elim (Option-cases (add_connection ip ipv6 slot.ips)) [
  | inr (es, p) ↦
      let k = rw p at (live-add_connection ip ipv6 slot.ips) in
      rw (p, track) (ground (arith, k, c), inl refl, refl, refl, refl)
  | inl n ↦
      let f = new_ip s slot.rate_limit ip ipv6 in
      elim (Option-cases (fill_empty f slot.ips)) [
        | inl m ↦ rw (n, m, track) (c, inl refl, refl, refl, refl)
        | inr (es, p) ↦
            let k =
              rw p at (live-fill_empty f slot.ips (new_ip-connections s slot.rate_limit ip ipv6)) in
            rw (n, p, track)
              (
                ground (arith, k, c),
                inr (add_connection-tracked ip ipv6 slot.ips n, refl),
                refl,
                refl,
                refl,
              )
      ]
]

live-drop_connection :
    (ip : ℕ) (ipv6 : List ℕ) (es : List TrackedIp)
    → live (drop_connection ip ipv6 es).0 + (if (drop_connection ip ipv6 es).1 then 1 else 0)
      ≡ live es
unfolding drop_connection live
live-drop_connection ip ipv6 [] = refl
live-drop_connection ip ipv6 (e ∷ es) = elim (Bool-cases (is_for ip ipv6 e)) [
  | inl t ↦ let k = is_for-positive ip ipv6 e t in rw t (ground (arith, k))
  | inr f ↦ let k = live-drop_connection ip ipv6 es in rw f (ground (arith, k))
]

pub untrack-IsCounted :
    (ip : ℕ) (ipv6 : List ℕ) (slot : Slot) → IsCounted slot → IsCounted (untrack ip ipv6 slot)
unfolding untrack
untrack-IsCounted ip ipv6 slot c =
    let k = live-drop_connection ip ipv6 slot.ips in ground (arith, k, c)

pub untrack_le :
    (ip : ℕ) (ipv6 : List ℕ) (slot : Slot)
    → (untrack ip ipv6 slot).unique_ip_count ≤ slot.unique_ip_count
unfolding untrack
untrack_le ip ipv6 slot = ground arith
