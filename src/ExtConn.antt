-- ===== src/ExtConn.antt =====
-- src/mtproto/mtproto-proxy.c: the table of external connections, which ties a client's connection to
-- one of a middle-end server. A pointer is the number of its block, 0 is NULL, and `calloc` gives the
-- next number. A list of blocks that are linked by their fields is the list of their numbers, which
-- are distinct, behind its head.
pub mod Lists
pub mod Outcomes
pub mod Wf
pub mod Find
pub mod Calls
pub mod Run
pub mod Serve
pub mod Forward
use teleproxy.Base.{
  ℕ, zero, suc, ◌+◌, ◌-◌, ◌*◌, ◌/◌, ◌%◌, ◌^◌, Bool, true, false, not, ◌&&◌, ◌||◌, List, [], ◌∷◌,
  ◌++◌, arith, ltb, leb, ◌==◌, if◌then◌else◌, Option, none, some,
}
use teleproxy.Base.Int.{ℤ, pos, negsuc}
use teleproxy.Timers.{Outcome, returned, aborted, stuck, ◌>>=◌}

abbrev pub ext_conn_table_size : ℕ
ext_conn_table_size = 2 ^ 22

abbrev pub max_connections : ℕ
max_connections = 65536

-- `struct ext_connection`, but for its links.
pub record ExtConnection : Type 0 where
  pub in_fd : ℕ
  pub in_gen : ℕ
  pub out_fd : ℕ
  pub out_gen : ℕ
  pub in_conn_id : ℕ
  pub out_conn_id : ℕ
  pub auth_key_id : ℕ

abbrev pub cleared : ExtConnection
cleared = record {
  in_fd = 0;
  in_gen = 0;
  out_fd = 0;
  out_gen = 0;
  in_conn_id = 0;
  out_conn_id = 0;
  auth_key_id = 0;
}

-- The blocks, `InExtConnectionHash`, `OutExtConnections` (`ref` and `slot_id`), the two lists behind
-- each element of `ExtConnectionHead` with whether their head is linked, `ConnLRU`, the counters,
-- the connections' `extra_int`, and the random numbers drawn. `extra_int` is kept for the descriptor,
-- which is closed, and given to another connection, only after the handler of the close has run.
pub record Table : Type 0 where
  pub ext : ℕ → ExtConnection
  pub next_block : ℕ
  pub hash_chain : ℕ → List ℕ
  pub ref : ℕ → ℕ
  pub slot_id : ℕ → ℕ
  pub in_ready : ℕ → Bool
  pub in_list : ℕ → List ℕ
  pub out_ready : ℕ → Bool
  pub out_list : ℕ → List ℕ
  pub lru : List ℕ
  pub ext_connections : ℕ
  pub ext_connections_created : ℕ
  pub extra_int : ℕ → ℤ
  pub draws : ℕ

-- A connection, by its descriptor and generation.
pub record Conn : Type 0 where
  pub fd : ℕ
  pub generation : ℕ

abbrev pub upd {ℓ} : {A : Type ℓ} → (ℕ → A) → ℕ → A → ℕ → A
upd f i v k = if k == i then v else f k

pub mem : ℕ → List ℕ → Bool
mem x [] = false
mem x (y ∷ ys) = x == y || mem x ys

abbrev pub is_nil : List ℕ → Bool
is_nil [] = true
is_nil (x ∷ xs) = false

-- A block is unlinked.
pub erase : ℕ → List ℕ → List ℕ
erase x [] = []
erase x (y ∷ ys) = let rest = erase x ys in if x == y then rest else y ∷ rest

abbrev pub slot_of : ℕ → ℕ
slot_of id = id % ext_conn_table_size

pub ext_conn_hash : ℕ → ℕ → ℕ
ext_conn_hash in_fd in_conn_id =
    (in_fd * 11400714819323198485 + in_conn_id * 13043817825332782213) % 2 ^ 64 / 2 ^ 44

-- `get_ext_connection_by_in_fd`: the only block of the list.
pub get_ext_connection_by_in_fd : ℕ → Table → Outcome ℕ
get_ext_connection_by_in_fd in_fd t =
    if not (ltb in_fd max_connections)
    then aborted
    else if not (t.in_ready in_fd)
    then returned 0
    else elim (t.in_list in_fd) [
      | [] ↦ returned 0
      | x ∷ xs ↦ elim xs [
        | [] ↦ if (t.ext x).in_fd == in_fd then returned x else aborted
        | y ∷ ys ↦ aborted
      ]
    ]

-- The search along a chain.
pub find_in_chain : Table → ℕ → ℕ → List ℕ → Option ℕ
find_in_chain t in_fd in_conn_id [] = none
find_in_chain t in_fd in_conn_id (x ∷ xs) =
    let later = find_in_chain t in_fd in_conn_id xs in
    if (t.ext x).in_fd == in_fd && (t.ext x).in_conn_id == in_conn_id then some x else later

-- The number that is returned: NULL, -1 or a block.
pub data Found : Type 0 where
  no_connection deleted : Found
  found : ℕ → Found

-- `lru_delete_ext_conn` and `lru_insert_ext_conn`
abbrev pub lru_delete_ext_conn : ℕ → Table → Table
lru_delete_ext_conn x t = record t { lru = erase x t.lru }

abbrev pub lru_insert_ext_conn : ℕ → Table → Table
lru_insert_ext_conn x t = record t { lru = erase x t.lru ++ (x ∷ []) }

-- The block is unlinked, its slot is free, and it is cleared.
abbrev pub freed : ℕ → ℕ → Table → Table
freed h x t =
    let c = t.ext x in
    record t {
      in_list = upd t.in_list c.in_fd (erase x (t.in_list c.in_fd));
      out_list = upd t.out_list c.out_fd (erase x (t.out_list c.out_fd));
      lru = erase x t.lru;
      hash_chain = upd t.hash_chain h (erase x (t.hash_chain h));
      ref = upd t.ref (slot_of c.out_conn_id) 0;
      ext = upd t.ext x cleared;
      ext_connections = t.ext_connections - 1;
    }

-- Mode 1, on a block of the chain `h`.
pub delete_found : ℕ → ℕ → Table → Outcome (Table × Found)
delete_found h x t =
    let id = (t.ext x).out_conn_id in
    if t.ref (slot_of id) == x && t.slot_id (slot_of id) == id
    then returned (freed h x t, deleted)
    else aborted

-- The next number of a slot.
pub next_id : ℕ → ℕ → ℕ
next_id old s =
    (old / ext_conn_table_size * ext_conn_table_size + (ext_conn_table_size - 1) + 1 + s) % 2 ^ 64

-- The new block in its lists, before it has a slot.
abbrev pub linked : ℕ → Conn → ℕ → Table → Table
linked h client in_conn_id t =
    let x = t.next_block in
    record t {
      next_block = x + 1;
      hash_chain = upd t.hash_chain h (x ∷ t.hash_chain h);
      ext = upd t.ext x (record cleared {
        in_fd = client.fd;
        in_gen = client.generation;
        in_conn_id = in_conn_id;
      });
      in_ready = if client.fd == 0 then t.in_ready else upd t.in_ready client.fd true;
      in_list = if client.fd == 0 then t.in_list else upd t.in_list client.fd (x ∷ []);
    }

-- The block in its slot.
abbrev pub placed : ℕ → ℕ → ℕ → Table → Table
placed x s draws t =
    let id = next_id (t.slot_id s) s in
    record t {
      ref = upd t.ref s x;
      slot_id = upd t.slot_id s id;
      ext = upd t.ext x (record (t.ext x) { out_conn_id = id });
      ext_connections = t.ext_connections + 1;
      ext_connections_created = t.ext_connections_created + 1;
      draws = draws;
    }

module _ (lrand48 : ℕ → ℕ) where
  -- The loop for a free slot: the slot, and the random numbers drawn.
  pub free_slot : ℕ → (ℕ → ℕ) → ℕ → ℕ → Outcome (ℕ × ℕ)
  free_slot zero refs h draws = stuck
  free_slot (suc fuel) refs h draws =
      let again = free_slot fuel refs (slot_of (lrand48 draws)) (draws + 1) in
      if refs h == 0 then returned (h, draws) else again

  -- Modes 2 and 3, when nothing is found. `fuel` bounds the search for a slot.
  pub create_new : ℕ → ℕ → Conn → ℕ → Table → Outcome (Table × Found)
  create_new fuel h client in_conn_id t =
      if not (ltb t.ext_connections (ext_conn_table_size / 2))
      then aborted
      else if not (ltb client.fd max_connections)
      then aborted
      else if not (client.fd == 0) && not (is_nil (t.in_list client.fd))
      then aborted
      else (let first = if in_conn_id == 0 then client.fd else lrand48 t.draws in
          let drawn = if in_conn_id == 0 then t.draws else t.draws + 1 in
          free_slot fuel t.ref (slot_of first) drawn >>= λ r.
          if next_id (t.slot_id r.0) r.0 == 0
          then aborted
          else returned
              (placed t.next_block r.0 r.1 (linked h client in_conn_id t), found t.next_block))

  pub get_ext_connection_by_in_conn_id : ℕ → Conn → ℕ → ℕ → Table → Outcome (Table × Found)
  get_ext_connection_by_in_conn_id fuel client in_conn_id mode t =
      let h = ext_conn_hash client.fd in_conn_id in
      elim (find_in_chain t client.fd in_conn_id (t.hash_chain h)) [
        | some x ↦
            if (t.ext x).out_conn_id == 0
            then aborted
            else if mode == 0 || mode == 3
            then returned (t, found x)
            else if not (mode == 1)
            then returned (t, no_connection)
            else delete_found h x t
        | none ↦
            if not (mode == 2) && not (mode == 3)
            then returned (t, no_connection)
            else create_new fuel h client in_conn_id t
      ]

-- `find_ext_connection_by_out_conn_id`
pub find_ext_connection_by_out_conn_id : ℕ → Table → Outcome ℕ
find_ext_connection_by_out_conn_id out_conn_id t =
    let s = slot_of out_conn_id in
    let x = t.ref s in
    if x == 0 || not (t.slot_id s == out_conn_id)
    then returned 0
    else if (t.ext x).out_conn_id == out_conn_id
    then returned x
    else aborted
