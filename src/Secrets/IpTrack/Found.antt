-- ===== src/Secrets/IpTrack/Found.antt =====
-- src/net/net-tcp-rpc-ext-server.c: an address that is counted is found in the table afterwards, while
-- there is room.
use teleproxy.Base.{
  ℕ, ◌+◌, ◌≤◌, true, false, List, [], ◌∷◌, arith, length, Option, none, some, Bool-cases,
  Option-cases, ◌≡◌, ◌≢◌, refl, inl, inr, ◌⊎◌,
}
use teleproxy.Base.Int.{ℤ}
use teleproxy.TopIps.{same_bytes, zero_ipv6}
use teleproxy.Secrets.{TrackedIp, Slot, Secrets}
use teleproxy.Secrets.IpTrack.{
  is_live, is_for, is_tracked, add_connection, new_ip, fill_empty, track,
}
use teleproxy.Secrets.IpTrack.Count.{live, IsCounted}

same_bytes_refl : (a : List ℕ) → same_bytes a a ≡ true
unfolding same_bytes
same_bytes_refl [] = refl
same_bytes_refl (x ∷ a) = let k = same_bytes_refl a in ground (arith, k)

-- An address is an IPv4 address that is not 0, or an IPv6 address that is not all 0.
abbrev pub IsAddress : ℕ → List ℕ → Type 0
IsAddress ip ipv6 = (ip ≢ 0) ⊎ (same_bytes ipv6 zero_ipv6 ≡ false)

abbrev Tracks : ℕ → List ℕ → Option (List TrackedIp) → Type 0
Tracks ip ipv6 none = Unit {0}
Tracks ip ipv6 (some es) = is_tracked ip ipv6 es ≡ true

is_for_more :
    (ip : ℕ) (ipv6 : List ℕ) (e : TrackedIp)
    → is_for ip ipv6 e ≡ true
    → is_for ip ipv6 (record e { connections = e.connections + 1 }) ≡ true
unfolding is_for
is_for_more ip ipv6 e t = ground (arith, t)

is_tracked-add_connection :
    (ip : ℕ) (ipv6 : List ℕ) (es : List TrackedIp) → Tracks ip ipv6 (add_connection ip ipv6 es)
unfolding add_connection is_tracked
is_tracked-add_connection ip ipv6 [] = tt
is_tracked-add_connection ip ipv6 (e ∷ es) = elim (Bool-cases (is_for ip ipv6 e)) [
  | inl t ↦ let more = is_for_more ip ipv6 e t in rw (t, more) refl
  | inr f ↦ elim (Option-cases (add_connection ip ipv6 es)) [
    | inl n ↦ rw (f, n) tt
    | inr (rest, p) ↦
        let k = rw p at (is_tracked-add_connection ip ipv6 es) in rw (f, p) (rw (f, k) refl)
  ]
]

new_ip-is_for :
    (s : Secrets) (rate_limit : ℤ) (ip : ℕ) (ipv6 : List ℕ) (e : TrackedIp)
    → IsAddress ip ipv6
    → is_for ip ipv6 (new_ip s rate_limit ip ipv6 e) ≡ true
unfolding new_ip is_for
new_ip-is_for s rate_limit ip ipv6 e h = let k = same_bytes_refl ipv6 in ground (arith, h, k)

is_tracked-fill_empty :
    (ip : ℕ) (ipv6 : List ℕ) (f : TrackedIp → TrackedIp) (es : List TrackedIp)
    → ((e : TrackedIp) → is_for ip ipv6 (f e) ≡ true)
    → Tracks ip ipv6 (fill_empty f es)
unfolding fill_empty is_tracked
is_tracked-fill_empty ip ipv6 f [] h = tt
is_tracked-fill_empty ip ipv6 f (e ∷ es) h = elim (Bool-cases (is_live e)) [
  | inr d ↦ rw d (rw (h e) refl)
  | inl t ↦ elim (Option-cases (fill_empty f es)) [
    | inl n ↦ rw (t, n) tt
    | inr (rest, p) ↦
        let k = rw p at (is_tracked-fill_empty ip ipv6 f es h) in rw (t, p) (ground (arith, k))
  ]
]

fill_empty_full :
    (f : TrackedIp → TrackedIp) (es : List TrackedIp) → fill_empty f es ≡ none → live es ≡ length es
unfolding fill_empty live
fill_empty_full f [] n = refl
fill_empty_full f (e ∷ es) n = ground (arith, n, fill_empty_full f es)

pub track-is_tracked :
    (s : Secrets) (ip : ℕ) (ipv6 : List ℕ) (slot : Slot)
    → IsAddress ip ipv6
    → IsCounted slot
    → (is_tracked ip ipv6 slot.ips ≡ false → slot.unique_ip_count + 1 ≤ length slot.ips)
    → is_tracked ip ipv6 (track s ip ipv6 slot).ips ≡ true
unfolding track
track-is_tracked s ip ipv6 slot h c room = elim (Option-cases (add_connection ip ipv6 slot.ips)) [
  | inr (es, p) ↦ let k = rw p at (is_tracked-add_connection ip ipv6 slot.ips) in rw (p, track) k
  | inl n ↦
      let f = new_ip s slot.rate_limit ip ipv6 in
      elim (Option-cases (fill_empty f slot.ips)) [
        | inr (es, p) ↦
            let k = rw p at (
              is_tracked-fill_empty ip ipv6 f slot.ips
                (λ e. new_ip-is_for s slot.rate_limit ip ipv6 e h)) in
            rw (n, p, track) k
        | inl m ↦
            let full = fill_empty_full f slot.ips m in
            elim (Bool-cases (is_tracked ip ipv6 slot.ips)) [
              | inl t ↦ rw (n, m, track) t
              | inr x ↦ let r = room x in absurd (omega (arith, full, r, c))
            ]
      ]
]
