-- ===== src/Drs/Tests.antt =====
-- src/net/net-tcp-drs.c: an output on concrete bytes.
use teleproxy.Base.{ℕ, ◌+◌, ◌%◌, false, true, [], none, ◌≡◌, refl, replicate}
use teleproxy.Base.Int.{pos}
use teleproxy.Drs.{DrsState, Sender, encrypt_output_drs, drs_record_size}
use teleproxy.Drs.Framing.{Goes, encrypt_output_drs_lem}

abbrev fresh : DrsState
fresh = record { record_index = 0; total_records = 0; last_record_time = 0; delay_pending = false }

abbrev hello : Sender
hello = record {
  out = replicate 2000 7;
  out_p = [];
  is_tls = true;
  left_tls_packet_length = pos 0;
  drs = fresh;
  written = 0;
  draws = 0;
  samples = 0;
  alarm = none;
  delays_enabled = true;
  delays_applied = 0;
  delays_skipped = 0;
}

abbrev toy_cipher : ℕ → ℕ → ℕ
toy_cipher place b = (b + place) % 256

encrypt_output_drs_lem_example :
    Goes toy_cipher
      (λ k. 100)
      50
      (λ k. 20)
      (λ q n. true)
      hello
      (encrypt_output_drs toy_cipher (λ k. 100) 50 (λ k. 20) (λ q n. true) hello)
encrypt_output_drs_lem_example =
    encrypt_output_drs_lem toy_cipher (λ k. 100) 50 (λ k. 20) (λ q n. true) hello refl

first_size : drs_record_size 0 0 ≡ 1350
unfolding drs_record_size
first_size = refl

largest_size : drs_record_size 200 60 ≡ 16244
unfolding drs_record_size
largest_size = refl
