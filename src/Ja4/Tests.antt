-- ===== src/Ja4/Tests.antt =====
-- src/net/net-ja4.c: a concrete ClientHello.
use teleproxy.Base.{ℕ, true, List, [], ◌∷◌, ◌++◌, ◌≡◌, refl, replicate, length, length-replicate}
use teleproxy.Tls.{done, read_byte}
use teleproxy.Ja4.{
  Inputs, store, is_grease_u16, u16_be, legacy_version, cipher_loop, version_loop,
  supported_versions, alpn, extension_data, extension, ext_loop, ja4_tail, ja4_ciphers, ja4_parse,
}
use mathlib.Core.List.Perm
use teleproxy.Ja4.Fingerprint.{fingerprint}
use teleproxy.Ja4.Order.{fingerprint_lem}
use teleproxy.Ja4.Safe.{Yields, Fits, ja4_parse-Yields}

-- A suite behind a GREASE value, version 1.3, a server name, and the protocol "h2".
abbrev client_hello : List ℕ
client_hello =
    replicate 9 22
    ++ (3 ∷ 3 ∷ [])
    ++ (replicate 32 5
        ++ (0 ∷ 0 ∷ 4 ∷ 10 ∷ 10 ∷ 19 ∷ 1 ∷ 1 ∷ 0 ∷ 0 ∷ 20 ∷ 0 ∷ 43 ∷ 0 ∷ 3 ∷ 2 ∷ 3 ∷ 4 ∷ 0 ∷ 0 ∷ 0
            ∷ 0 ∷ 0 ∷ 16 ∷ 0 ∷ 5 ∷ 0 ∷ 3 ∷ 2 ∷ 104 ∷ 50 ∷ []))

ja4_parse-Yields_example : Yields (Fits 64 64 64) (ja4_parse client_hello 64 64 64)
ja4_parse-Yields_example = ja4_parse-Yields client_hello 64 64 64

hello_parses :
    ja4_parse client_hello 64 64 64
    ≡ done (record {
      tls_ver = (b'1', b'3');
      has_sni = true;
      ciphers = 0x1301 ∷ [];
      exts = 0x2b ∷ [];
      ext_count_total = 3;
      sigalgs = [];
      alpn0_first = b'h';
      alpn0_last = b'2';
    })
unfolding ja4_parse ja4_ciphers ja4_tail ext_loop extension extension_data alpn supported_versions
    version_loop cipher_loop legacy_version u16_be read_byte store is_grease_u16
hello_parses = refl

abbrev parsed : Inputs
parsed = record {
  tls_ver = (b'1', b'3');
  has_sni = true;
  ciphers = 0x1302 ∷ 0x1301 ∷ [];
  exts = 0x2b ∷ 0x0d ∷ [];
  ext_count_total = 4;
  sigalgs = 0x0403 ∷ [];
  alpn0_first = b'h';
  alpn0_last = b'2';
}

abbrev toy_sha256 : List ℕ → List ℕ
toy_sha256 m = replicate 32 (length m)

fingerprint_lem_example :
    (fingerprint toy_sha256
        (record parsed { ciphers = 0x1301 ∷ 0x1302 ∷ []; exts = 0x0d ∷ 0x2b ∷ [] })
      ≡ fingerprint toy_sha256 parsed)
    × (length (fingerprint toy_sha256 parsed) ≡ 36)
fingerprint_lem_example =
    fingerprint_lem toy_sha256 (λ m. length-replicate 32 (length m)) parsed (0x1301 ∷ 0x1302 ∷ [])
      (0x0d ∷ 0x2b ∷ []) (Perm.swap 0x1301 0x1302 []) (Perm.swap 0x0d 0x2b [])
