-- ===== src/Secrets/Gate/Runs.antt =====
-- src/net/net-tcp-rpc-ext-server.c: connections of all secrets, one after the other.
use teleproxy.Base.{ℕ, List, [], ◌∷◌, ◌==◌, if◌then◌else◌, Bool-cases, inl, inr}
use teleproxy.TopIps.{Volumes}
use teleproxy.Secrets.{Secrets}
use teleproxy.Secrets.Gate.{accept, discount_connection}
use teleproxy.Secrets.Gate.Limits.{AllWithin, accept-AllWithin, discount-AllWithin}

-- A connection that asks for a slot's secret, or ends. Without an open connection none ends.
pub data Event : Type 0 where
  opens closes : ℕ → ℕ → List ℕ → Event

pub handle : Event → Secrets × Volumes → Secrets × Volumes
handle (opens id ip ipv6) s = (accept id ip ipv6 s).0
handle (closes id ip ipv6) (s, v) =
    if (s.slots id).active_connections == 0 then (s, v) else discount_connection id ip ipv6 (s, v)

pub run : List Event → Secrets × Volumes → Secrets × Volumes
run [] s = s
run (e ∷ es) s = run es (handle e s)

handle-AllWithin :
    (e : Event) (s : Secrets) (v : Volumes) → AllWithin s → AllWithin (handle e (s, v)).0
unfolding handle
handle-AllWithin (opens id ip ipv6) s v w = accept-AllWithin id ip ipv6 s v w
handle-AllWithin (closes id ip ipv6) s v w =
    elim (Bool-cases ((s.slots id).active_connections == 0)) [
      | inl t ↦ rw t w
      | inr n ↦ rw n (discount-AllWithin id ip ipv6 s v w)
    ]

-- Whatever connections without TLS come and go, from a state where this holds, no secret ever has
-- more connections, or more live entries in its table of addresses, than its limits allow a worker,
-- and its count of addresses is that of the live entries.
pub run-AllWithin :
    (events : List Event) (s : Secrets) (v : Volumes)
    → AllWithin s
    → AllWithin (run events (s, v)).0
unfolding run
run-AllWithin [] s v w = w
run-AllWithin (e ∷ es) s v w =
    let (s', v') = handle e (s, v) in run-AllWithin es s' v' (handle-AllWithin e s v w)
