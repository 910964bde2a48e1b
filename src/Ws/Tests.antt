-- ===== src/Ws/Tests.antt =====
-- Concrete frames, and the theorems at concrete inputs.
use teleproxy.Base.{◌≡◌, refl, [], ◌∷◌, ◌++◌, arith}
use teleproxy.Ws.{Conn, ret, parse_frame_header, write_frame_header, unmask_data}
use teleproxy.Ws.Header.{parse-write_frame_header}

abbrev idle : Conn
idle = record { ws_mask = 0 ∷ 0 ∷ 0 ∷ 0 ∷ []; ws_mask_offset = 0; ws_frame_remaining = 0 }

abbrev masking : Conn
masking = record { ws_mask = 1 ∷ 2 ∷ 3 ∷ 255 ∷ []; ws_mask_offset = 3; ws_frame_remaining = 5 }

-- A ping that says it is almost 2 GB long: the sum of the lengths wraps, and nothing is skipped.
huge_ping_waits :
    parse_frame_header idle (0x89 ∷ 127 ∷ 0 ∷ 0 ∷ 0 ∷ 0 ∷ 127 ∷ 255 ∷ 255 ∷ 255 ∷ 7 ∷ [])
    ≡ (ret 0, idle, 0x89 ∷ 127 ∷ 0 ∷ 0 ∷ 0 ∷ 0 ∷ 127 ∷ 255 ∷ 255 ∷ 255 ∷ 7 ∷ [])
unfolding parse_frame_header
huge_ping_waits = refl

unmask_three : (unmask_data masking (10 ∷ 20 ∷ 30 ∷ [])).1 ≡ 245 ∷ 21 ∷ 28 ∷ []
unfolding unmask_data
unmask_three = refl

parse_two_bytes :
    parse_frame_header idle (0x82 ∷ 2 ∷ 9 ∷ 9 ∷ [])
    ≡ (ret 2, record idle { ws_frame_remaining = 2 }, 9 ∷ 9 ∷ [])
unfolding parse_frame_header
parse_two_bytes = refl

parse-write_frame_header_example :
    parse_frame_header idle ((write_frame_header [] 70000).1 ++ (1 ∷ []))
    ≡ (ret 70000, record idle { ws_frame_remaining = 70000 }, 1 ∷ [])
parse-write_frame_header_example = parse-write_frame_header idle 70000 (1 ∷ []) (omega arith)
