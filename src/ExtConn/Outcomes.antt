-- ===== src/ExtConn/Outcomes.antt =====
-- What a call returned.
use teleproxy.Base.{◌≡◌, ap}
use teleproxy.Timers.{Outcome, returned, aborted, overrun, stuck}

value : {A : Type 0} → A → Outcome A → A
value a (returned b) = b
value a aborted = a
value a overrun = a
value a stuck = a

pub returned-injective : {A : Type 0} (a b : A) → returned a ≡ returned b → a ≡ b
unfolding value
returned-injective a b e = ap (value a) e
