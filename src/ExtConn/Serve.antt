-- ===== src/ExtConn/Serve.antt =====
-- src/mtproto/mtproto-proxy.c: a packet from a middle-end server, and the choice of the server that a
-- client's query goes to. A packet is its operation and the bytes behind it.
pub mod Answers
use teleproxy.Base.{
  ℕ, zero, suc, ◌+◌, ◌-◌, ◌*◌, ◌/◌, ◌%◌, ◌^◌, Bool, true, false, not, ◌&&◌, ◌||◌, List, [], ◌∷◌,
  ◌++◌, arith, ltb, leb, ◌==◌, if◌then◌else◌, Option, none, some, length, get_or, drop,
}
use teleproxy.Base.Int.{ℤ, pos, negsuc}
use Prim.Native.Nat.{bit_or}
use teleproxy.Timers.{Outcome, returned, aborted, stuck, ◌>>=◌}
use teleproxy.ExtConn.{
  Table, ExtConnection, Conn, upd, max_connections, get_ext_connection_by_in_fd,
  find_ext_connection_by_out_conn_id,
}
use teleproxy.ExtConn.Calls.{
  Notice, remote_closed, fail_client, send_message, send_confirmation, get_conn_tag,
  create_ext_connection, remove_ext_connection,
}

abbrev pub rpc_pong : ℕ
rpc_pong = 0x8430eaa7

abbrev pub rpc_proxy_ans : ℕ
rpc_proxy_ans = 0x4403da0d

abbrev pub rpc_simple_ack : ℕ
rpc_simple_ack = 0x3bac409b

abbrev pub rpc_close_ext : ℕ
rpc_close_ext = 0x5eb634a2

-- The table and the counters.
pub record Proxy : Type 0 where
  pub table : Table
  pub tot_forwarded_responses : ℕ
  pub dropped_responses : ℕ
  pub tot_forwarded_simple_acks : ℕ
  pub dropped_simple_acks : ℕ

-- `tl_fetch_int` and `tl_fetch_long`, at a position.
abbrev pub int_at : ℕ → List ℕ → ℕ
int_at i b =
    get_or b i 0
    + get_or b (i + 1) 0 * 2 ^ 8
    + get_or b (i + 2) 0 * 2 ^ 16
    + get_or b (i + 3) 0 * 2 ^ 24

abbrev pub long_at : ℕ → List ℕ → ℕ
long_at i b = int_at i b + int_at (i + 4) b * 2 ^ 32

-- `__builtin_bswap32`
abbrev pub bswap32 : ℕ → ℕ
bswap32 x =
    x % 2 ^ 8 * 2 ^ 24
    + x / 2 ^ 8 % 2 ^ 8 * 2 ^ 16
    + x / 2 ^ 16 % 2 ^ 8 * 2 ^ 8
    + x / 2 ^ 24 % 2 ^ 8

abbrev pub client_of : ExtConnection → Conn
client_of b = record { fd = b.in_fd; generation = b.in_gen }

-- The connection of the client that a server's packet is for.
pub receiver : (Conn → Bool) → Conn → ExtConnection → ℕ → Option Conn
receiver is_open server b k =
    if not (k == 0)
      && (b.out_fd == server.fd && (b.out_gen == server.generation && is_open (client_of b)))
    then some (client_of b)
    else none

-- What is done with a packet: the proxy, what is sent, and whether the packet was taken.
abbrev pub Served : Type 0
Served = Outcome (Proxy × List Notice × Bool)

-- An answer, once its external connection `k` was looked up and its client, if it has an open one.
pub answer_found : List ℕ → Conn → Proxy → ℕ → Option Conn → Served
answer_found body server p k (some client) = returned (
  record p { tot_forwarded_responses = p.tot_forwarded_responses + 1 },
  send_message client (p.table.ext k).in_conn_id (drop 12 body) (int_at 0 body) ∷ [],
  true,
)
answer_found body server p k none = returned (
  record p { dropped_responses = p.dropped_responses + 1 },
  remote_closed server (long_at 4 body) ∷ [],
  true,
)

-- An acknowledgement, likewise.
pub ack_found : (Conn → Bool) → List ℕ → Conn → Proxy → ℕ → Option Conn → Served
ack_found is_compact body server p k (some client) =
    let confirm = int_at 8 body in
    if not ((p.table.ext k).in_conn_id == 0)
    then aborted
    else returned (
      record p { tot_forwarded_simple_acks = p.tot_forwarded_simple_acks + 1 },
      send_confirmation client (if is_compact client then bswap32 confirm else confirm) ∷ [],
      true,
    )
ack_found is_compact body server p k none = returned (
  record p { dropped_simple_acks = p.dropped_simple_acks + 1 },
  remote_closed server (long_at 0 body) ∷ [],
  true,
)

module _ (lrand48 : ℕ → ℕ) (is_open : Conn → Bool) (is_compact : Conn → Bool) where
  -- `RPC_PROXY_ANS`
  pub serve_answer : List ℕ → Conn → Proxy → Served
  serve_answer body server p = find_ext_connection_by_out_conn_id (long_at 4 body) p.table >>= λ k.
      answer_found body server p k (receiver is_open server (p.table.ext k) k)

  -- `RPC_SIMPLE_ACK`
  pub serve_ack : List ℕ → Conn → Proxy → Served
  serve_ack body server p = find_ext_connection_by_out_conn_id (long_at 0 body) p.table >>= λ k.
      ack_found is_compact body server p k (receiver is_open server (p.table.ext k) k)

  -- `RPC_CLOSE_EXT`
  pub serve_close : List ℕ → Proxy → Served
  serve_close body p = find_ext_connection_by_out_conn_id (long_at 0 body) p.table >>= λ k.
      if k == 0
      then returned (p, [], true)
      else remove_ext_connection lrand48 is_open k 2 p.table >>= λ r.
          returned (record p { table = r.0 }, r.1, true)

  -- `len` counts the operation too.
  pub process_client_packet : ℕ → List ℕ → Conn → Proxy → Served
  process_client_packet op body server p =
      let len = length body + 4 in
      if op == rpc_pong
      then returned (p, [], true)
      else if op == rpc_proxy_ans && leb 16 len
      then serve_answer body server p
      else if op == rpc_simple_ack && len == 16
      then serve_ack body server p
      else if op == rpc_close_ext && len == 12
      then serve_close body p
      else returned (p, [], false)
