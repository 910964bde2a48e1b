-- ===== src/ExtConn/Calls.antt =====
-- src/mtproto/mtproto-proxy.c: external connections are created and removed, and connections to clients
-- and to middle-end servers come and go. Whether a descriptor still has its connection is asked of
-- the net module: `is_open`, the answer of `connection_get_by_fd_generation`.
pub mod Search
pub mod Created
pub mod Linked
pub mod Create
pub mod Freed
pub mod Remove
pub mod Pruned
pub mod Loops
pub mod Relinked
pub mod Close
pub mod Closed
pub mod Ready
mod Tests
use teleproxy.Base.{
  ℕ, zero, suc, ◌+◌, ◌-◌, ◌*◌, ◌/◌, ◌%◌, ◌^◌, Bool, true, false, not, ◌&&◌, ◌||◌, List, [], ◌∷◌,
  ◌++◌, arith, ltb, leb, ◌==◌, if◌then◌else◌, Option, none, some,
}
use teleproxy.Base.Int.{ℤ, pos, negsuc}
use teleproxy.Timers.{Outcome, returned, aborted, stuck, ◌>>=◌}
use teleproxy.ExtConn.{
  Table, ExtConnection, Conn, Found, no_connection, deleted, found, upd, mem, max_connections,
  slot_of, get_ext_connection_by_in_conn_id, find_ext_connection_by_out_conn_id, is_nil,
}

-- What the code does to other connections.
pub data Notice : Type 0 where
  remote_closed : Conn → ℕ → Notice
  fail_client : Conn → Notice
  send_message : Conn → ℕ → List ℕ → ℕ → Notice
  send_confirmation : Conn → ℕ → Notice

-- `get_conn_tag`
abbrev pub get_conn_tag : Conn → ℕ
get_conn_tag c = 1 + c.generation % 2 ^ 24

-- The new connection is tied to the server's.
abbrev pub tie : ℕ → Conn → ℕ → Table → Table
tie x server auth_key_id t = record t {
  out_list = upd t.out_list server.fd (t.out_list server.fd ++ (x ∷ []));
  ext = upd t.ext x (record (t.ext x) {
    out_fd = server.fd;
    out_gen = server.generation;
    auth_key_id = auth_key_id;
  });
}

-- The notifications of `remove_ext_connection`: `none` is a failed assertion.
pub notices : (Conn → Bool) → ExtConnection → ℕ → List Notice
notices is_open c send =
    let server : Conn = record { fd = c.out_fd; generation = c.out_gen } in
    let client : Conn = record { fd = c.in_fd; generation = c.in_gen } in
    (if not (c.out_fd == 0) && (send % 2 == 1 && is_open server)
      then remote_closed server c.out_conn_id ∷ []
      else [])
    ++ (if not (c.in_fd == 0) && (send / 2 % 2 == 1 && is_open client)
        then fail_client client ∷ []
        else [])

-- The assertions of `remove_ext_connection` on the links and on `in_conn_id`.
pub may_remove : ℕ → ℕ → Table → Bool
may_remove x send t =
    let c = t.ext x in
    (c.out_fd == 0 || (ltb c.out_fd max_connections && mem x (t.out_list c.out_fd)))
    && (c.in_fd == 0
        || (ltb c.in_fd max_connections
            && (mem x (t.in_list c.in_fd) && (not (send / 2 % 2 == 1) || c.in_conn_id == 0))))

-- `mtfront_client_ready`: a connection to a server is ready.
pub mtfront_client_ready : Conn → Table → Outcome Table
mtfront_client_ready c t =
    if not (ltb c.fd max_connections)
      || not (elim (t.extra_int c.fd) [ pos n ↦ n == 0 | negsuc n ↦ false ])
    then aborted
    else if t.out_ready c.fd
    then aborted
    else returned (record t {
      extra_int = upd t.extra_int c.fd (pos (get_conn_tag c));
      out_ready = upd t.out_ready c.fd true;
      out_list = upd t.out_list c.fd [];
    })

-- `mtproto_proxy_rpc_ready`: a client's connection is ready. Its list is empty, so that
-- `lru_insert_conn` finds no block.
pub mtproto_proxy_rpc_ready : Conn → Table → Outcome Table
mtproto_proxy_rpc_ready c t =
    if not (ltb c.fd max_connections) || t.in_ready c.fd
    then aborted
    else if not (elim (t.extra_int c.fd) [ pos n ↦ n == 0 | negsuc n ↦ false ])
    then aborted
    else returned (record t {
      extra_int = upd t.extra_int c.fd (negsuc (get_conn_tag c - 1));
      in_ready = upd t.in_ready c.fd true;
      in_list = upd t.in_list c.fd [];
    })

module _ (lrand48 : ℕ → ℕ) (is_open : Conn → Bool) where
  -- `create_ext_connection`, with a server.
  pub create_ext_connection : ℕ → Conn → ℕ → Conn → ℕ → Table → Outcome (Table × ℕ)
  create_ext_connection fuel client in_conn_id server auth_key_id t =
      get_ext_connection_by_in_conn_id lrand48 fuel client in_conn_id 2 t >>= λ r. elim r.1 [
        | no_connection ↦ aborted
        | deleted ↦ aborted
        | found x ↦
            if not (ltb server.fd max_connections)
            then aborted
            else if server.fd == client.fd
            then aborted
            else if not (r.0.out_ready server.fd)
            then aborted
            else returned (tie x server auth_key_id r.0, x)
      ]

  pub remove_ext_connection : ℕ → ℕ → Table → Outcome (Table × List Notice)
  remove_ext_connection x send t =
      let c = t.ext x in
      let client : Conn = record { fd = c.in_fd; generation = c.in_gen } in
      if x == 0 || c.out_conn_id == 0
      then aborted
      else find_ext_connection_by_out_conn_id c.out_conn_id t >>= λ y.
          if not (y == x)
          then aborted
          else if not (may_remove x send t)
          then aborted
          else get_ext_connection_by_in_conn_id lrand48 0 client c.in_conn_id 1 t >>= λ r.
              elim r.1 [
                | no_connection ↦ aborted
                | found y ↦ aborted
                | deleted ↦ returned (r.0, notices is_open c send)
              ]

  -- The loop of `mtfront_client_close` along the list.
  pub close_out : ℕ → List ℕ → Table → Outcome (Table × List Notice)
  close_out fd [] t = returned (t, [])
  close_out fd (x ∷ xs) t =
      if not ((t.ext x).out_fd == fd)
      then aborted
      else remove_ext_connection x 2 t >>= λ r.
          close_out fd xs r.0 >>= λ q. returned (q.0, r.1 ++ q.1)

  pub mtfront_client_close : Conn → Table → Outcome (Table × List Notice)
  mtfront_client_close c t =
      if not (ltb c.fd max_connections) then aborted else elim (t.extra_int c.fd) [
        | negsuc n ↦ aborted
        | pos n ↦
            if n == 0
            then returned (t, [])
            else if not (n == get_conn_tag c) || not (t.out_ready c.fd)
            then aborted
            else close_out c.fd (t.out_list c.fd) t >>= λ r.
                if not (is_nil (r.0.out_list c.fd))
                then aborted
                else returned (
                  record (r.0) {
                    out_ready = upd (r.0).out_ready c.fd false;
                    extra_int = upd (r.0).extra_int c.fd (pos 0);
                  },
                  r.1,
                )
      ]

  -- The loop of `mtproto_proxy_rpc_close` along the list.
  pub close_in : ℕ → List ℕ → Table → Outcome (Table × List Notice)
  close_in fd [] t = returned (t, [])
  close_in fd (x ∷ xs) t =
      if not ((t.ext x).in_fd == fd)
      then aborted
      else remove_ext_connection x 1 t >>= λ r.
          close_in fd xs r.0 >>= λ q. returned (q.0, r.1 ++ q.1)

  pub mtproto_proxy_rpc_close : Conn → Table → Outcome (Table × List Notice)
  mtproto_proxy_rpc_close c t =
      if not (ltb c.fd max_connections) then aborted else elim (t.extra_int c.fd) [
        | pos n ↦ if n == 0 then returned (t, []) else aborted
        | negsuc n ↦
            if not (n + 1 == get_conn_tag c) || not (t.in_ready c.fd)
            then aborted
            else close_in c.fd (t.in_list c.fd) t >>= λ r.
                if not (is_nil (r.0.in_list c.fd))
                then aborted
                else returned (
                  record (r.0) {
                    in_ready = upd (r.0).in_ready c.fd false;
                    extra_int = upd (r.0).extra_int c.fd (pos 0);
                  },
                  r.1,
                )
      ]
