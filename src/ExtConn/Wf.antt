-- ===== src/ExtConn/Wf.antt =====
-- src/mtproto/mtproto-proxy.c: what holds of the table between two calls.
use teleproxy.Base.{ℕ, ◌≤◌, ◌<◌, true, ◌≡◌, ◌≢◌}
use teleproxy.ExtConn.{Table, mem, slot_of, ext_conn_hash, max_connections}
use teleproxy.ExtConn.Lists.{distinct}

-- A block that holds a connection.
abbrev pub IsLive : Table → ℕ → Type 0
IsLive t k = (t.ext k).out_conn_id ≢ 0

-- The slots of `OutExtConnections` and the blocks agree.
pub record SlotsAgree (t : Table) : Type 0 where
  pub null : (t.ext 0).out_conn_id ≡ 0
  pub unused : (k : ℕ) → t.next_block ≤ k → (t.ext k).out_conn_id ≡ 0
  pub some_block : 0 < t.next_block
  pub slot_ref : (k : ℕ) → IsLive t k → t.ref (slot_of (t.ext k).out_conn_id) ≡ k
  pub slot_same :
      (k : ℕ) → IsLive t k → t.slot_id (slot_of (t.ext k).out_conn_id) ≡ (t.ext k).out_conn_id
  pub ref_live : (s : ℕ) → t.ref s ≢ 0 → IsLive t (t.ref s)
  pub ref_slot : (s : ℕ) → t.ref s ≢ 0 → slot_of (t.ext (t.ref s)).out_conn_id ≡ s

-- The chains of the hash table hold the live blocks, one for each client.
pub record ChainsAgree (t : Table) : Type 0 where
  pub chained : (k : ℕ) → IsLive t k → mem k (t.hash_chain (ext_conn_hash (t.ext k).in_fd 0)) ≡ true
  pub chain_live : (h k : ℕ) → mem k (t.hash_chain h) ≡ true → IsLive t k
  pub chain_hash : (h k : ℕ) → mem k (t.hash_chain h) ≡ true → ext_conn_hash (t.ext k).in_fd 0 ≡ h
  pub plain : (k : ℕ) → IsLive t k → (t.ext k).in_conn_id ≡ 0
  pub unique : (j k : ℕ) → IsLive t j → IsLive t k → (t.ext j).in_fd ≡ (t.ext k).in_fd → j ≡ k
  pub chain_distinct : (h : ℕ) → distinct (t.hash_chain h) ≡ true

-- The lists of the clients and of the servers hold the live blocks.
pub record ListsAgree (t : Table) : Type 0 where
  pub in_linked : (k : ℕ) → IsLive t k → mem k (t.in_list (t.ext k).in_fd) ≡ true
  pub in_live : (fd k : ℕ) → mem k (t.in_list fd) ≡ true → IsLive t k
  pub in_same : (fd k : ℕ) → mem k (t.in_list fd) ≡ true → (t.ext k).in_fd ≡ fd
  pub in_distinct : (fd : ℕ) → distinct (t.in_list fd) ≡ true
  pub in_range : (k : ℕ) → IsLive t k → (0 < (t.ext k).in_fd) × ((t.ext k).in_fd < max_connections)
  pub out_linked : (k : ℕ) → IsLive t k → mem k (t.out_list (t.ext k).out_fd) ≡ true
  pub out_live : (fd k : ℕ) → mem k (t.out_list fd) ≡ true → IsLive t k
  pub out_same : (fd k : ℕ) → mem k (t.out_list fd) ≡ true → (t.ext k).out_fd ≡ fd
  pub out_distinct : (fd : ℕ) → distinct (t.out_list fd) ≡ true
  pub out_range :
      (k : ℕ) → IsLive t k → (0 < (t.ext k).out_fd) × ((t.ext k).out_fd < max_connections)

-- The heads of the lists that hold a live block are linked.
pub record HeadsAgree (t : Table) : Type 0 where
  pub in_open : (k : ℕ) → IsLive t k → t.in_ready (t.ext k).in_fd ≡ true
  pub out_open : (k : ℕ) → IsLive t k → t.out_ready (t.ext k).out_fd ≡ true

pub record IsTable (t : Table) : Type 0 where
  pub slots : SlotsAgree t
  pub chains : ChainsAgree t
  pub lists : ListsAgree t
  pub heads : HeadsAgree t

-- No slot's counter goes back.
abbrev pub Grows : Table → Table → Type 0
Grows t u = (s : ℕ) → t.slot_id s ≤ u.slot_id s
