-- ===== src/Drs.antt =====
-- src/net/net-tcp-drs.c: the sizes of the TLS records of the output, and the delays between them.
-- Times are ticks of a clock, counters of type `int` their bit patterns. The connection has its
-- cipher (`c->crypto`), whose key stream and the random numbers are parameters.
pub mod Framing
mod Tests
use teleproxy.Base.{
  ℕ, zero, suc, ◌+◌, ◌-◌, ◌*◌, ◌/◌, ◌%◌, ◌^◌, Bool, true, false, not, ◌&&◌, ◌||◌, List, [], ◌∷◌,
  ◌++◌, arith, ltb, leb, ◌==◌, if◌then◌else◌, Option, none, some, length, take, drop,
}
use teleproxy.Base.Int.{ℤ, pos, negsuc}
use teleproxy.Ws.{lt_i32}

abbrev pub drs_phase1_end : ℕ
drs_phase1_end = 40

abbrev pub drs_phase2_end : ℕ
drs_phase2_end = 60

abbrev pub drs_size_start : ℕ
drs_size_start = 1450

abbrev pub drs_size_accel : ℕ
drs_size_accel = 4096

abbrev pub drs_size_max : ℕ
drs_size_max = 16144

abbrev pub ticks_per_second : ℕ
ticks_per_second = 1000000000

-- `struct drs_state`
pub record DrsState : Type 0 where
  pub record_index : ℕ
  pub total_records : ℕ
  pub last_record_time : ℕ
  pub delay_pending : Bool

-- A connection that sends, and the global variables of the file. `written` is the place in the key
-- stream, `draws` and `samples` count the random numbers drawn, and `alarm` is the job's timer.
pub record Sender : Type 0 where
  pub out : List ℕ
  pub out_p : List ℕ
  pub is_tls : Bool
  pub left_tls_packet_length : ℤ
  pub drs : DrsState
  pub written : ℕ
  pub draws : ℕ
  pub samples : ℕ
  pub alarm : Option ℕ
  pub delays_enabled : Bool
  pub delays_applied : ℕ
  pub delays_skipped : ℕ

-- Return values 0 and -1, a failed assertion, and the end of the fuel, which is no outcome in C.
pub data Outcome : Type 0 where
  sent failed : Sender → Outcome
  aborted stuck : Outcome

-- `drs_record_size`, for a random number.
unfoldable pub drs_record_size : ℕ → ℕ → ℕ
drs_record_size random record_index =
    let base =
      if lt_i32 record_index drs_phase1_end
      then drs_size_start
      else if lt_i32 record_index drs_phase2_end
      then drs_size_accel
      else drs_size_max in
    let size = base + random % 201 - 100 in if ltb size 64 then 64 else size

-- The length of the next record, of `total` bytes that are left.
pub next_length : ℕ → ℕ → ℕ → ℕ
next_length random record_index total =
    let max_len = drs_record_size random record_index in
    if ltb max_len total then max_len else total

-- The state after the pauses are taken into account.
pub after_pause : ℕ → DrsState → DrsState
after_pause precise_now d =
    let pause = precise_now - d.last_record_time in
    let d1 : DrsState =
      if ltb ticks_per_second pause
      then record d { record_index = 0; delay_pending = false }
      else d in
    if ltb (30 * ticks_per_second) pause then record d1 { total_records = 0 } else d1

-- The state after one more record.
abbrev pub count_record : ℕ → DrsState → DrsState
count_record precise_now d = record d {
  record_index = (d.record_index + 1) % 2 ^ 32;
  total_records = (d.total_records + 1) % 2 ^ 32;
  last_record_time = precise_now;
}

abbrev pub record_header : ℕ → List ℕ
record_header len = 0x17 ∷ 0x03 ∷ 0x03 ∷ len / 256 % 256 ∷ len % 256 ∷ []

abbrev pub is_negative : ℤ → Bool
is_negative (pos n) = false
is_negative (negsuc n) = true

-- The cipher on a byte at a place of the key stream.
module _ (cipher : ℕ → ℕ → ℕ) where
  pub encrypt_from : ℕ → List ℕ → List ℕ
  encrypt_from place [] = []
  encrypt_from place (b ∷ bs) = cipher place b ∷ encrypt_from (place + 1) bs

  -- `rwm_encrypt_decrypt_to`, when there is memory: as many bytes as there are, at most `len`.
  abbrev pub encrypt_to : ℕ → Sender → Sender
  encrypt_to len s = record s {
    out = drop len s.out;
    out_p = s.out_p ++ encrypt_from s.written (take len s.out);
    written = s.written + length (take len s.out);
  }

  -- Whether there is memory for `len` bytes behind a message is a parameter, too.
  module _ (lrand48_j : ℕ → ℕ) (precise_now : ℕ) where
    -- The header of the next record, and the record's length.
    pub start_record : Sender → Sender × ℕ
    start_record s =
        let drs = after_pause precise_now s.drs in
        let len = next_length (lrand48_j s.draws) drs.record_index (length s.out) in
        if s.is_tls
        then (
          record s {
            out_p = s.out_p ++ record_header len;
            drs = count_record precise_now drs;
            draws = s.draws + 1;
          },
          len,
        )
        else (s, length s.out)

    module _ (drs_sample_delay : ℕ → ℕ) (memory : List ℕ → ℕ → Bool) where
      -- After a record: whether the loop goes on.
      pub pace : Sender → Sender × Bool
      pace s =
          if s.delays_enabled && (s.is_tls && ltb 0 (length s.out))
          then (if ltb drs_size_max (length s.out)
                || (not (lt_i32 s.drs.total_records drs_phase2_end) || lt_i32 1 s.drs.record_index)
              then (record s { delays_skipped = s.delays_skipped + 1 }, true)
              else (
                record s {
                  drs = record s.drs { delay_pending = true };
                  delays_applied = s.delays_applied + 1;
                  samples = s.samples + 1;
                  alarm = some (precise_now + drs_sample_delay s.samples);
                },
                false,
              ))
          else (s, true)

      pub drs_loop : ℕ → Sender → Outcome
      drs_loop zero s = stuck
      drs_loop (suc fuel) s =
          let (s1, len) = start_record s in
          let s2 = encrypt_to len s1 in
          let (s3, goes_on) = pace s2 in
          let rest = drs_loop fuel s3 in
          if length s.out == 0
          then sent s
          else if s.is_tls && is_negative s.left_tls_packet_length
          then aborted
          else if not (memory s1.out_p len)
          then failed s1
          else if not (length (take len s1.out) == len)
          then failed s2
          else if goes_on
          then rest
          else sent s3

      -- `cpu_tcp_aes_crypto_ctr128_encrypt_output_drs`
      pub encrypt_output_drs : Sender → Outcome
      unfolding drs_loop
      encrypt_output_drs s =
          if s.is_tls && s.drs.delay_pending then sent s else drs_loop (length s.out + 1) s
