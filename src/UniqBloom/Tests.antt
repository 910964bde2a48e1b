-- ===== src/UniqBloom/Tests.antt =====
-- src/net/net-tcp-rpc-ext-uniq-bloom.c: the filter on concrete addresses.
use teleproxy.Base.{true, false, [], ◌∷◌, ◌≡◌, refl}
use teleproxy.UniqBloom.{Filters, uniq_bloom_test_and_set}
use teleproxy.UniqBloom.Novelty.{run, test_and_set_again}

abbrev no_bits : Filters
no_bits = λ sid bit. false

test_and_set_again_example :
    (uniq_bloom_test_and_set 1 0x01020304 []
      (run ((1, 5, []) ∷ (2, 6, []) ∷ []) (uniq_bloom_test_and_set 1 0x01020304 [] no_bits).1)).0
    ≡ false
test_and_set_again_example =
    test_and_set_again 1 0x01020304 [] ((1, 5, []) ∷ (2, 6, []) ∷ []) no_bits

-- The first time, an address is new.
first_time : (uniq_bloom_test_and_set 1 0x01020304 [] no_bits).0 ≡ true
unfolding uniq_bloom_test_and_set
first_time = refl
