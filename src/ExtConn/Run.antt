-- ===== src/ExtConn/Run.antt =====
-- src/mtproto/mtproto-proxy.c: any sequence of events at the table of external connections.
pub mod Effects
pub mod Safety
use teleproxy.Base.{ℕ, List, []}
use teleproxy.Base.Int.{ℤ, pos}
use teleproxy.Base.{Bool, true, false, ◌≡◌}
use teleproxy.Timers.{Outcome, returned}
use teleproxy.ExtConn.{Table, Conn, cleared}
use teleproxy.ExtConn.Calls.{
  Notice, create_ext_connection, remove_ext_connection, mtfront_client_ready,
  mtproto_proxy_rpc_ready, mtfront_client_close, mtproto_proxy_rpc_close,
}
use teleproxy.ExtConn.Calls.Create.{Admits}

-- The variables at the start of the program: all are zero, and `calloc` gives no NULL.
abbrev pub empty_table : Table
empty_table = record {
  ext = λ k. cleared;
  next_block = 1;
  hash_chain = λ h. [];
  ref = λ s. 0;
  slot_id = λ s. 0;
  in_ready = λ fd. false;
  in_list = λ fd. [];
  out_ready = λ fd. false;
  out_list = λ fd. [];
  lru = [];
  ext_connections = 0;
  ext_connections_created = 0;
  extra_int = λ fd. pos 0;
  draws = 0;
}

-- An event that is handled to its end.
pub data Step (lrand48 : ℕ → ℕ) (is_open : Conn → Bool) : Table → Table → Type 0 where
  server_ready :
      (c : Conn) {t u : Table} → mtfront_client_ready c t ≡ returned u → Step lrand48 is_open t u
  client_ready :
      (c : Conn) {t u : Table} → mtproto_proxy_rpc_ready c t ≡ returned u → Step lrand48 is_open t u
  create :
      (fuel n : ℕ) (client server : Conn) (auth_key_id : ℕ) {t u : Table} (x : ℕ)
      → Admits lrand48 fuel n client server t
      → create_ext_connection lrand48 is_open fuel client 0 server auth_key_id t ≡ returned (u, x)
      → Step lrand48 is_open t u
  remove :
      (k send : ℕ) {t u : Table} (notes : List Notice)
      → remove_ext_connection lrand48 is_open k send t ≡ returned (u, notes)
      → Step lrand48 is_open t u
  server_lost :
      (c : Conn) {t u : Table} (notes : List Notice)
      → mtfront_client_close lrand48 is_open c t ≡ returned (u, notes)
      → Step lrand48 is_open t u
  client_lost :
      (c : Conn) {t u : Table} (notes : List Notice)
      → mtproto_proxy_rpc_close lrand48 is_open c t ≡ returned (u, notes)
      → Step lrand48 is_open t u

-- Events one after the other.
pub data Steps (lrand48 : ℕ → ℕ) (is_open : Conn → Bool) : Table → Table → Type 0 where
  done : (t : Table) → Steps lrand48 is_open t t
  next :
      {t u v : Table}
      → Step lrand48 is_open t u
      → Steps lrand48 is_open u v
      → Steps lrand48 is_open t v
