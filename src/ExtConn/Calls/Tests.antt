-- ===== src/ExtConn/Calls/Tests.antt =====
-- src/mtproto/mtproto-proxy.c: a client and a server get an external connection and lose it.
use teleproxy.Base.{
  List, [], Option, none, some, ◌∷◌, ℕ, ◌<◌, Bool, true, false, arith, ◌==◌, if◌then◌else◌, ◌≡◌,
  refl,
}
use teleproxy.Base.Int.{pos}
use teleproxy.Timers.{returned, ◌>>=◌}
use teleproxy.ExtConn.{
  Table, Conn, slot_of, ext_conn_hash, linked, placed, next_id, free_slot, create_new,
  find_in_chain, get_ext_connection_by_in_conn_id, find_ext_connection_by_out_conn_id,
}
use teleproxy.ExtConn.Wf.{IsLive, IsTable, Grows}
use teleproxy.ExtConn.Calls.{
  send_message, notices, tie, create_ext_connection, remove_ext_connection, mtfront_client_ready,
  mtproto_proxy_rpc_ready, mtfront_client_close, mtproto_proxy_rpc_close,
}
use teleproxy.ExtConn.Calls.Search.{tried}
use teleproxy.ExtConn.Calls.Created.{new_block}
use teleproxy.ExtConn.Calls.Create.{Admits, create_ext_connection-IsTable}
use teleproxy.ExtConn.Calls.Remove.{remove_ext_connection-returned, remove_ext_connection-IsTable}
use teleproxy.ExtConn.Calls.Freed.{without}
use teleproxy.ExtConn.Calls.Loops.{all_notices}
use teleproxy.ExtConn.Calls.Close.{mtfront_client_close-IsTable, mtproto_proxy_rpc_close-IsTable}
use teleproxy.ExtConn.Calls.Ready.{out_opened, in_opened}
use teleproxy.ExtConn.Serve.{Proxy, long_at, process_client_packet, rpc_proxy_ans}
use teleproxy.ExtConn.Serve.Answers.{IsServed, process_client_packet-IsServed}
use teleproxy.ExtConn.Forward.{Queries, rekey, packet_query, query_connection}
use teleproxy.ExtConn.Forward.Rekeyed.{rekey-IsTable}
use teleproxy.ExtConn.Forward.Sticky.{query_connection-process_client_packet}
use teleproxy.ExtConn.Run.{empty_table, Steps, done, next, server_ready, client_ready, create}
use teleproxy.ExtConn.Run.Safety.{Steps-IsTable, removed_number-absent}

abbrev server : Conn
server = record { fd = 7; generation = 1 }

abbrev client : Conn
client = record { fd = 9; generation = 2 }

abbrev draw : ℕ → ℕ
draw n = n

abbrev all_open : Conn → Bool
all_open c = true

abbrev opened : Table
opened = in_opened client (out_opened server empty_table)

abbrev tied : Table
tied = tie 1 server 5 (placed 1 9 0 (linked (ext_conn_hash 9 0) client 0 opened))

opened-server : mtfront_client_ready server empty_table ≡ returned (out_opened server empty_table)
unfolding mtfront_client_ready
opened-server = refl

opened-client : mtproto_proxy_rpc_ready client (out_opened server empty_table) ≡ returned opened
unfolding mtproto_proxy_rpc_ready
opened-client = refl

opened-Admits : Admits draw 3 0 client server opened
unfolding tried
opened-Admits = record {
  client_fd = (ground arith, ground arith);
  server_fd = (ground arith, ground arith);
  distinct = ground arith;
  server_ready = refl;
  room = ground arith;
  no_other = λ k l. absurd (l refl);
  enough_fuel = ground arith;
  try_free = refl;
  no_wrap = λ s b. omega arith;
}

created_tied : create_ext_connection draw all_open 3 client 0 server 5 opened ≡ returned (tied, 1)
unfolding create_ext_connection get_ext_connection_by_in_conn_id create_new free_slot next_id
    ext_conn_hash find_in_chain
created_tied = refl

opened-Steps : Steps draw all_open empty_table opened
opened-Steps =
    next (server_ready server opened-server) (next (client_ready client opened-client) (done _))

tied-Steps : Steps draw all_open empty_table tied
tied-Steps = next (server_ready server opened-server) (
    next (client_ready client opened-client)
      (next (create 3 0 client server 5 1 opened-Admits created_tied) (done _)))

tied-IsLive : IsLive tied 1
unfolding next_id
tied-IsLive = ground arith

removed_tied :
    remove_ext_connection draw all_open 1 3 tied
    ≡ returned (without 1 tied, notices all_open (tied.ext 1) 3)
removed_tied =
    remove_ext_connection-returned draw all_open 1 3 tied
      (Steps-IsTable draw all_open tied tied-Steps) tied-IsLive

Steps-IsTable_example : IsTable tied
Steps-IsTable_example = Steps-IsTable draw all_open tied tied-Steps

create_ext_connection-IsTable_example :
    (u : Table) × (id : ℕ) × (create_ext_connection draw all_open 3 client 0 server 5 opened
      ≡ returned (u, opened.next_block))
    × IsTable u
    × Grows opened u
    × (u.ext opened.next_block ≡ new_block client server 5 id)
    × (opened.slot_id (slot_of id) < id)
    × (find_ext_connection_by_out_conn_id id opened ≡ returned 0)
    × ((other : ℕ)
        → find_ext_connection_by_out_conn_id other u ≡ (
            if other == id
            then returned opened.next_block
            else find_ext_connection_by_out_conn_id other opened))
create_ext_connection-IsTable_example =
    create_ext_connection-IsTable draw all_open 3 0 client server 5 opened
      (Steps-IsTable draw all_open opened opened-Steps) opened-Admits

remove_ext_connection-IsTable_example :
    (u : Table) × (remove_ext_connection draw all_open 1 3 tied
      ≡ returned (u, notices all_open (tied.ext 1) 3))
    × IsTable u
    × Grows tied u
    × ((id : ℕ)
        → find_ext_connection_by_out_conn_id id u ≡ (
            if id == (tied.ext 1).out_conn_id
            then returned 0
            else find_ext_connection_by_out_conn_id id tied))
remove_ext_connection-IsTable_example =
    remove_ext_connection-IsTable draw all_open 1 3 tied
      (Steps-IsTable draw all_open tied tied-Steps) tied-IsLive

mtfront_client_close-IsTable_example :
    (u : Table) × (mtfront_client_close draw all_open server tied
      ≡ returned (u, all_notices all_open 2 tied (tied.out_list 7)))
    × IsTable u
    × Grows tied u
    × (u.out_ready 7 ≡ false)
    × (u.extra_int 7 ≡ pos 0)
    × ((id : ℕ)
        → find_ext_connection_by_out_conn_id id u ≡ (
            find_ext_connection_by_out_conn_id id tied >>= λ k.
            returned (if (tied.ext k).out_fd == 7 then 0 else k)))
mtfront_client_close-IsTable_example =
    mtfront_client_close-IsTable draw all_open server tied
      (Steps-IsTable draw all_open tied tied-Steps) (ground arith) refl refl

mtproto_proxy_rpc_close-IsTable_example :
    (u : Table) × (mtproto_proxy_rpc_close draw all_open client tied
      ≡ returned (u, all_notices all_open 1 tied (tied.in_list 9)))
    × IsTable u
    × Grows tied u
    × (u.in_ready 9 ≡ false)
    × (u.extra_int 9 ≡ pos 0)
    × ((id : ℕ)
        → find_ext_connection_by_out_conn_id id u ≡ (
            find_ext_connection_by_out_conn_id id tied >>= λ k.
            returned (if (tied.ext k).in_fd == 9 then 0 else k)))
mtproto_proxy_rpc_close-IsTable_example =
    mtproto_proxy_rpc_close-IsTable draw all_open client tied
      (Steps-IsTable draw all_open tied tied-Steps) (ground arith) refl refl

removed_number-absent_example :
    find_ext_connection_by_out_conn_id (tied.ext 1).out_conn_id (without 1 tied) ≡ returned 0
removed_number-absent_example =
    removed_number-absent draw all_open tied (without 1 tied) (without 1 tied) 1 3
      (notices all_open (tied.ext 1) 3) tied-Steps removed_tied (done (without 1 tied))

abbrev serving : Proxy
serving = record {
  table = rekey 1 6 tied;
  tot_forwarded_responses = 0;
  dropped_responses = 0;
  tot_forwarded_simple_acks = 0;
  dropped_simple_acks = 0;
}

abbrev asking : Queries
asking = record {
  table = tied;
  tot_forwarded_queries = 0;
  dropped_queries = 0;
  dropped = λ fd. false;
}

abbrev no_choice : ℕ → Option Conn
no_choice i = none

-- Flags 0, the number of the external connection, and a byte of payload.
abbrev answer : List ℕ
answer = 0 ∷ 0 ∷ 0 ∷ 0 ∷ 9 ∷ 0 ∷ 64 ∷ 0 ∷ 0 ∷ 0 ∷ 0 ∷ 0 ∷ 65 ∷ []

answer_number : long_at 4 answer ≡ (tied.ext 1).out_conn_id
unfolding next_id
answer_number = refl

process_client_packet-IsServed_example :
    IsServed
      (rekey 1 6 tied)
      server
      (process_client_packet draw all_open all_open rpc_proxy_ans answer server serving)
process_client_packet-IsServed_example =
    process_client_packet-IsServed draw all_open all_open server answer serving
      (rekey-IsTable 1 6 tied (Steps-IsTable draw all_open tied tied-Steps)) rpc_proxy_ans

query_connection-process_client_packet_example :
    (query_connection draw all_open all_open all_open all_open no_choice 3 client true 0 6 asking
      ≡ returned (
        record asking { table = serving.table; tot_forwarded_queries = 1 },
        [],
        some (server, 1),
      ))
    × IsTable serving.table
    × (process_client_packet draw all_open all_open rpc_proxy_ans answer server serving
        ≡ returned (
          record serving { tot_forwarded_responses = 1 },
          send_message client 0 (65 ∷ []) 0 ∷ [],
          true,
        ))
query_connection-process_client_packet_example =
    query_connection-process_client_packet draw all_open all_open all_open all_open all_open
      no_choice 3 0 6 1 true client asking (Steps-IsTable draw all_open tied tied-Steps) tied-IsLive
      answer serving refl refl refl refl refl (ground arith) answer_number

-- A packet of 28 bytes whose inner length is 2 ^ 31 - 16.
abbrev wrapping : List ℕ
wrapping =
    0 ∷ 0 ∷ 0 ∷ 0 ∷ 0 ∷ 0 ∷ 0 ∷ 0 ∷ 0 ∷ 0 ∷ 0 ∷ 0 ∷ 0 ∷ 0 ∷ 0 ∷ 0 ∷ 240 ∷ 255 ∷ 255 ∷ 127 ∷ 241
    ∷ 142 ∷ 126 ∷ 190 ∷ 0 ∷ 0 ∷ 0 ∷ 0 ∷ []

-- It is let through.
packet_query-wrapping : packet_query wrapping 0 ≡ some (0, 2)
packet_query-wrapping = refl
