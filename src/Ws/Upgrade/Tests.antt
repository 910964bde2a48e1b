-- ===== src/Ws/Upgrade/Tests.antt =====
-- src/net/net-websocket.c: an upgrade of a concrete request.
use teleproxy.Base.{
  ℕ, ◌+◌, ◌*◌, ◌/◌, ◌<◌, ◌≤◌, List, [], ◌∷◌, ◌++◌, length, replicate, length-replicate, ◌≡◌, refl,
  ◌⊎◌,
}
use teleproxy.Http.{lower}
use teleproxy.ProxyProtocol.{c_string}
use teleproxy.Ws.Upgrade.{
  Handshake, ws_state_none, ws_state_handshake, waits, goes_on, ws_handshake, crlf2,
  ws_parse_upgrade_request, upgrade, starts_with, find, find_case, skip_spaces, upgrade_request,
  upgrade_key,
}
use teleproxy.Ws.Upgrade.Reply.{IsOpenssl, HasBlankLine, answered, ws_handshake_lem}

abbrev request : List ℕ
request =
    b'G' ∷ b'E' ∷ b'T' ∷ b' ' ∷ b'/' ∷ b'a' ∷ b'p' ∷ b'i' ∷ b' ' ∷ b'H' ∷ b'T' ∷ b'T' ∷ b'P' ∷ b'/'
    ∷ b'1' ∷ b'.' ∷ b'1' ∷ 13 ∷ 10 ∷ b'U' ∷ b'p' ∷ b'g' ∷ b'r' ∷ b'a' ∷ b'd' ∷ b'e' ∷ b':' ∷ b' '
    ∷ b'W' ∷ b'e' ∷ b'b' ∷ b'S' ∷ b'o' ∷ b'c' ∷ b'k' ∷ b'e' ∷ b't' ∷ 13 ∷ 10 ∷ b'S' ∷ b'e' ∷ b'c'
    ∷ b'-' ∷ b'W' ∷ b'e' ∷ b'b' ∷ b'S' ∷ b'o' ∷ b'c' ∷ b'k' ∷ b'e' ∷ b't' ∷ b'-' ∷ b'K' ∷ b'e'
    ∷ b'y' ∷ b':' ∷ b' ' ∷ b'd' ∷ b'G' ∷ b'V' ∷ b'z' ∷ b'd' ∷ b'A' ∷ b'=' ∷ b'=' ∷ 13 ∷ 10 ∷ 13 ∷ 10
    ∷ b'r' ∷ b'e' ∷ b's' ∷ b't' ∷ []

abbrev asking : Handshake
asking = record { input = request; output = []; ws_state = ws_state_handshake }

abbrev toy_digest : List ℕ → List ℕ
toy_digest m = replicate 20 0

abbrev toy_base64 : List ℕ → List ℕ
toy_base64 m = replicate ((length m + 2) / 3 * 4) b'A'

toy-IsOpenssl : IsOpenssl toy_digest toy_base64
toy-IsOpenssl = record {
  digest = λ m. refl;
  encoded = λ m. length-replicate ((length m + 2) / 3 * 4) b'A';
}

ws_handshake_lem_example :
    ((ws_handshake toy_digest toy_base64 asking ≡ (asking, waits)) × (length request < 4096))
    ⊎ (((ws_handshake toy_digest toy_base64 asking
            ≡ (record asking { ws_state = ws_state_none }, goes_on))
          × (HasBlankLine request ⊎ (4096 ≤ length request)))
        ⊎ ((key : List ℕ) × (before : List ℕ) × (rest : List ℕ) × (length key < 128)
            × (request ≡ before ++ (crlf2 ++ rest))
            × (ws_handshake toy_digest toy_base64 asking
                ≡ answered toy_digest toy_base64 key rest asking)))
ws_handshake_lem_example = ws_handshake_lem toy_digest toy_base64 toy-IsOpenssl asking

-- The request is taken, whatever the case of the header's value.
request_upgrades :
    ws_parse_upgrade_request request 128 256
    ≡ upgrade
        (b'/' ∷ b'a' ∷ b'p' ∷ b'i' ∷ [])
        (b'd' ∷ b'G' ∷ b'V' ∷ b'z' ∷ b'd' ∷ b'A' ∷ b'=' ∷ b'=' ∷ [])
unfolding ws_parse_upgrade_request starts_with find find_case skip_spaces upgrade_request
    upgrade_key c_string lower
request_upgrades = refl

-- A TLS record, of which nothing more will come, is not handed on.
hello_waits :
    ws_handshake toy_digest toy_base64
      (record { input = 22 ∷ 3 ∷ 1 ∷ replicate 512 7; output = []; ws_state = ws_state_handshake })
    ≡ (
      record { input = 22 ∷ 3 ∷ 1 ∷ replicate 512 7; output = []; ws_state = ws_state_handshake },
      waits,
    )
unfolding ws_handshake ws_parse_upgrade_request starts_with find c_string
hello_waits = refl
