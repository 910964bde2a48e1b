-- ===== src/ExtConn/Forward.antt =====
-- src/mtproto/mtproto-proxy.c: the connection on which a client's query is forwarded. Which connection a
-- target has to offer at a try, and whether a connection still has a target, are the net module's
-- answers.
pub mod Rekeyed
pub mod Sticky
use teleproxy.Base.{
  ℕ, zero, suc, ◌+◌, ◌-◌, ◌/◌, ◌%◌, ◌^◌, Bool, true, false, not, ◌&&◌, ◌||◌, List, [], ◌∷◌, ◌++◌,
  arith, ltb, ◌==◌, if◌then◌else◌, Option, none, some, length,
}
use teleproxy.Base.Int.{ℤ, pos, negsuc}
use Prim.Native.Nat.{bit_or}
use teleproxy.Timers.{Outcome, returned, aborted, stuck, ◌>>=◌}
use teleproxy.ExtConn.{
  Table, ExtConnection, Conn, upd, max_connections, get_ext_connection_by_in_fd,
}
use teleproxy.ExtConn.Serve.{int_at, long_at}
use teleproxy.ExtConn.Calls.{
  Notice, fail_client, get_conn_tag, create_ext_connection, remove_ext_connection,
}

-- The table, the counters, and for a client's descriptor whether `RPC_F_DROPPED` is set.
pub record Queries : Type 0 where
  pub table : Table
  pub tot_forwarded_queries : ℕ
  pub dropped_queries : ℕ
  pub dropped : ℕ → Bool

abbrev pub rpc_f_dropped : ℕ
rpc_f_dropped = 2 ^ 28

abbrev pub server_of : ExtConnection → Conn
server_of b = record { fd = b.out_fd; generation = b.out_gen }

-- `TCP_RPC_DATA(d)->extra_int == get_conn_tag (d)`
abbrev pub is_tagged : Table → Conn → Bool
is_tagged t d = elim (t.extra_int d.fd) [ pos n ↦ n == get_conn_tag d | negsuc n ↦ false ]

-- The functions that a client may call before it has a key.
abbrev pub is_handshake : ℕ → Bool
is_handshake f = f == 0x60469778 || (f == 0xbe7e8ef1 || (f == 0xd712e4be || f == 0xf5045f1f))

-- The key and the flags of a client's packet, unless the packet is refused. The sum with the inner
-- length wraps around.
abbrev pub packet_query : List ℕ → ℕ → Option (ℕ × ℕ)
packet_query b rpc_flags =
    let len = length b in
    let auth_key_id = long_at 0 b in
    let inner_len = int_at 16 b in
    let end = (inner_len + 20) % 2 ^ 32 in
    if ltb len 28 || not (len % 4 == 0)
    then none
    else if not (auth_key_id == 0)
    then (if ltb len 56 then none else some (auth_key_id, rpc_flags))
    else if ltb end (2 ^ 31) && ltb len end
    then none
    else if ltb inner_len 20 || not (ltb inner_len (2 ^ 31))
    then none
    else if not (is_handshake (int_at 20 b))
    then none
    else some (0, bit_or 2 rpc_flags)

-- The query is on its way on a connection, as an external connection's, or it was dropped.
abbrev pub Forwarded : Type 0
Forwarded = Outcome (Queries × List Notice × Option (Conn × ℕ))

abbrev pub rekey : ℕ → ℕ → Table → Table
rekey x auth_key_id t = record t {
  ext = upd t.ext x (record (t.ext x) { auth_key_id = auth_key_id });
}

module _ (lrand48 : ℕ → ℕ) (is_open has_target is_mtfront is_http : Conn → Bool)
    (choose : ℕ → Option Conn) where
  -- The loop over the attempts.
  pub pick : ℕ → ℕ → Table → Option Conn
  pick zero i t = none
  pick (suc attempts) i t =
      let later = pick attempts (i + 1) t in
      elim (choose i) [ none ↦ later | some d ↦ if is_tagged t d then some d else later ]

  -- The flags of the query, with the client's.
  pub query_flags : ℕ → Conn → Queries → ℕ
  query_flags flags c q =
      if is_mtfront c
      then bit_or (bit_or flags (if q.dropped c.fd then rpc_f_dropped else 0)) 0x1000
      else if is_http c
      then bit_or flags 0x3005
      else flags

  -- A query without an external connection.
  pub connect_query : ℕ → Conn → Bool → ℕ → ℕ → List Notice → Queries → Forwarded
  connect_query fuel c target flags auth_key_id notes q =
      elim (if target then pick 5 0 q.table else none) [
        | none ↦ returned (
          record q {
            dropped_queries = q.dropped_queries + 1;
            dropped = if is_mtfront c then upd q.dropped c.fd true else q.dropped;
          },
          notes,
          none,
        )
        | some d ↦
            if flags / rpc_f_dropped % 2 == 1
            then returned (q, notes ++ (fail_client c ∷ []), none)
            else create_ext_connection lrand48 is_open fuel c 0 d auth_key_id q.table >>= λ r.
                returned (
                  record q { table = r.0; tot_forwarded_queries = q.tot_forwarded_queries + 1 },
                  notes,
                  some (d, r.1),
                )
      ]

  -- A query with the external connection `x`.
  pub continue_query : ℕ → Conn → Bool → ℕ → ℕ → ℕ → Queries → Forwarded
  continue_query fuel c target flags auth_key_id x q =
      let t = rekey x auth_key_id q.table in
      let server = server_of (t.ext x) in
      if server.fd == 0 || not (ltb server.fd max_connections)
      then aborted
      else if is_open server && has_target server
      then returned (
        record q { table = t; tot_forwarded_queries = q.tot_forwarded_queries + 1 },
        [],
        some (server, x),
      )
      else remove_ext_connection lrand48 is_open x 1 t >>= λ r.
          connect_query fuel c target flags auth_key_id r.1 (record q { table = r.0 })

  -- `forward_tcp_query`, up to the connection. `target` says whether the caller found one.
  pub query_connection : ℕ → Conn → Bool → ℕ → ℕ → Queries → Forwarded
  query_connection fuel c target flags auth_key_id q =
      let all_flags = query_flags flags c q in
      get_ext_connection_by_in_fd c.fd q.table >>= λ x.
      if x == 0
      then connect_query fuel c target all_flags auth_key_id [] q
      else continue_query fuel c target all_flags auth_key_id x q

  -- `forward_mtproto_packet`. `target` says whether `choose_proxy_target` finds one.
  abbrev pub forward_mtproto_packet : ℕ → Conn → Bool → ℕ → List ℕ → Queries → Forwarded
  forward_mtproto_packet fuel c target rpc_flags b q = elim (packet_query b rpc_flags) [
    | none ↦ returned (q, [], none)
    | some r ↦ query_connection fuel c target r.1 r.0 q
  ]
