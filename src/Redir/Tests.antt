-- ===== src/Redir/Tests.antt =====
-- Frames of redir/ on small inputs.
use mesh_commander.Prelude.{ℕ, ◌+◌, ◌%◌, ◌≡◌, refl, List, [], ◌∷◌, ◌++◌, some, length, arith}
use mesh_commander.Wire.{IsStreaming, read32_le}
use mesh_commander.Redir.Codec.{
  Qt, AuthReply, auth_digest_with_qop, no_caps, read_body, try_parse_start_session_reply,
  try_parse_auth_reply,
}
use mesh_commander.Redir.Serial.{try_parse_sol_open_reply, try_parse_sol_display_data}
use mesh_commander.Redir.Codec.Stream.{redir_parsers_stream}
use mesh_commander.Redir.Codec.Auth.{encode_challenge, parse-encode_challenge}

-- A stand-in for Qt: Latin-1 text, and a digest that is its length.
abbrev pub latin : Qt
latin = record { to_utf8 = λ s. s; from_utf8 = λ s. s; md5_hex = λ s. (b'0' + length s % 10) ∷ [] }

abbrev pub hi : List ℕ
hi = b'h' ∷ b'i' ∷ []

redir_parsers_stream_example :
    IsStreaming try_parse_start_session_reply
    × IsStreaming (try_parse_auth_reply latin)
    × IsStreaming try_parse_sol_open_reply
    × IsStreaming try_parse_sol_display_data
redir_parsers_stream_example = redir_parsers_stream latin

-- A refusal: status 2, type 4, no data, then another byte.
abbrev refusal : List ℕ
refusal = 0x14 ∷ 2 ∷ 0 ∷ 0 ∷ 4 ∷ 0 ∷ 0 ∷ 0 ∷ 0 ∷ 0x20 ∷ []

abbrev refused : AuthReply
refused = record { status = 2; auth_type = 4; caps = no_caps; realm = []; nonce = []; qop = [] }

refusal_parsed : try_parse_auth_reply latin refusal ≡ some (refused, 9)
unfolding try_parse_auth_reply read32_le read_body
refusal_parsed = refl

parse-encode_challenge_example :
    try_parse_auth_reply latin (encode_challenge hi (1 ∷ []) [] ++ hi)
    ≡ some (
      record {
        status = 1;
        auth_type = auth_digest_with_qop;
        caps = no_caps;
        realm = latin.from_utf8 hi;
        nonce = latin.from_utf8 (1 ∷ []);
        qop = latin.from_utf8 [];
      },
      12 + length hi + 1 + 0,
    )
parse-encode_challenge_example =
    parse-encode_challenge latin hi (1 ∷ []) [] hi (omega arith) (omega arith) (omega arith)
