-- ===== src/Redir/Codec/Auth.antt =====
-- Authentication frames of redir/src/redir_codec.cpp: capabilities, challenges, responses.
use mathlib.Core.List.{append_assoc, append-nil}
use mesh_commander.Prelude.{
  ℕ, ◌+◌, ◌≤◌, ◌<◌, ◌≡◌, refl, ap, ◌∙◌, Bool, false, ◌||◌, List, [], ◌∷◌, ◌++◌, some, ◌==◌, length,
  arith, drop-append, bit_and, bit_and_mask, length-append, take-append,
}
use mesh_commander.Wire.{pack32_le, read32_le, read32_le-pack32_le}
use mesh_commander.Redir.Codec.{
  Qt, AuthReply, AuthCapabilities, no_caps, add_cap, read_caps, read_lp, read_challenge, read_body,
  try_parse_auth_reply, auth_digest_with_qop,
}

abbrev pub contains : ℕ → List ℕ → Bool
contains a [] = false
contains a (b ∷ bytes) = (b == a) || contains a bytes

read_caps-from :
    (payload : List ℕ) (caps : AuthCapabilities)
    → let c = read_caps payload caps in
      (c.has_basic ≡ (caps.has_basic || contains 1 payload))
      × (c.has_kerberos ≡ (caps.has_kerberos || contains 2 payload))
      × (c.has_digest_no_qop ≡ (caps.has_digest_no_qop || contains 3 payload))
      × (c.has_digest_with_qop ≡ (caps.has_digest_with_qop || contains 4 payload))
unfolding read_caps
read_caps-from [] caps = ground arith
read_caps-from (b ∷ payload) caps = ground (arith, read_caps-from payload (add_cap b caps))

-- From no capabilities, reading a list of types sets each capability exactly when its type's
-- byte is in the list.
pub read_caps-contains :
    (payload : List ℕ)
    → let c = read_caps payload no_caps in
      (c.has_basic ≡ contains 1 payload)
      × (c.has_kerberos ≡ contains 2 payload)
      × (c.has_digest_no_qop ≡ contains 3 payload)
      × (c.has_digest_with_qop ≡ contains 4 payload)
read_caps-contains payload = read_caps-from payload no_caps

-- One length-prefixed field.
abbrev pub lp_field : List ℕ → List ℕ
lp_field b = bit_and (length b) 0xFF ∷ b

pub read_lp-field :
    (b rest : List ℕ) → length b < 256 → read_lp (lp_field b ++ rest) ≡ some (b, rest)
unfolding read_lp
read_lp-field b rest h = ground (
  arith,
  bit_and_mask 8 (length b),
  length-append b rest,
  take-append b rest (bit_and (length b) 0xFF),
  drop-append b rest (bit_and (length b) 0xFF),
)

-- A challenge, as the management engine sends it: status 1, type 4, and three fields.
abbrev pub challenge_payload : List ℕ → List ℕ → List ℕ → List ℕ
challenge_payload realm nonce qop = lp_field realm ++ (lp_field nonce ++ lp_field qop)

abbrev pub encode_challenge : List ℕ → List ℕ → List ℕ → List ℕ
encode_challenge realm nonce qop =
    0x14
    ∷ 1
    ∷ 0
    ∷ 0
    ∷ auth_digest_with_qop
    ∷ (pack32_le (length (challenge_payload realm nonce qop)) ++ challenge_payload realm nonce qop)

challenge-length :
    (realm nonce qop : List ℕ)
    → length (challenge_payload realm nonce qop) ≡ 3 + length realm + length nonce + length qop
challenge-length realm nonce qop = omega (
  arith,
  length-append realm (lp_field nonce ++ lp_field qop),
  length-append nonce (lp_field qop),
)

module _ (qt : Qt) where
  read_challenge-encode :
      (reply : AuthReply) (realm nonce qop : List ℕ)
      → reply.auth_type ≡ auth_digest_with_qop
      → length realm < 256
      → length nonce < 256
      → length qop < 256
      → read_challenge qt reply (challenge_payload realm nonce qop)
        ≡ some (record reply {
          realm = qt.from_utf8 realm;
          nonce = qt.from_utf8 nonce;
          qop = qt.from_utf8 qop;
        })
  unfolding read_challenge
  read_challenge-encode reply realm nonce qop t hr hn hq = ground (
    arith,
    read_lp-field realm (lp_field nonce ++ lp_field qop) hr,
    read_lp-field nonce (lp_field qop) hn,
    read_lp-field qop [] hq,
    append-nil qop,
  )

  -- A whole reply with any body that can be read.
  parse_auth_frame :
      (status type : ℕ) (payload rest : List ℕ) (filled : AuthReply)
      → length payload ≤ 65536
      → read_body qt
          (record {
            status = status;
            auth_type = type;
            caps = no_caps;
            realm = [];
            nonce = [];
            qop = [];
          })
          payload
        ≡ some filled
      → try_parse_auth_reply qt
          (0x14 ∷ status ∷ 0 ∷ 0 ∷ type ∷ (pack32_le (length payload) ++ (payload ++ rest)))
        ≡ some (filled, 9 + length payload)
  unfolding try_parse_auth_reply pack32_le read32_le
  parse_auth_frame status type payload rest filled h e = ground (
    arith,
    read32_le-pack32_le (length payload) [] (omega arith),
    take-append payload rest (length payload) refl,
    length-append payload rest,
  )

  -- A digest challenge of status 1 and type 4 whose realm, nonce and qop are below 256 bytes
  -- each is parsed back to those three fields, decoded from UTF-8, whatever follows it, and
  -- exactly its own bytes are consumed.
  pub parse-encode_challenge :
      (realm nonce qop rest : List ℕ)
      → length realm < 256
      → length nonce < 256
      → length qop < 256
      → try_parse_auth_reply qt (encode_challenge realm nonce qop ++ rest)
        ≡ some (
          record {
            status = 1;
            auth_type = auth_digest_with_qop;
            caps = no_caps;
            realm = qt.from_utf8 realm;
            nonce = qt.from_utf8 nonce;
            qop = qt.from_utf8 qop;
          },
          12 + length realm + length nonce + length qop,
        )
  unfolding read_body
  parse-encode_challenge realm nonce qop rest hr hn hq =
      ap (try_parse_auth_reply qt) (
        ap (λ (x : List ℕ). 0x14 ∷ 1 ∷ 0 ∷ 0 ∷ auth_digest_with_qop ∷ x)
          (append_assoc (pack32_le (length p)) p rest))
      ∙ parse_auth_frame 1 auth_digest_with_qop p rest filled (omega (arith, count)) body
      ∙ ap (λ (n : ℕ). some (filled, n)) (omega (arith, count))
    where
      p : List ℕ
      p = challenge_payload realm nonce qop

      empty : AuthReply
      empty = record {
        status = 1;
        auth_type = auth_digest_with_qop;
        caps = no_caps;
        realm = [];
        nonce = [];
        qop = [];
      }

      filled : AuthReply
      filled = record empty {
        realm = qt.from_utf8 realm;
        nonce = qt.from_utf8 nonce;
        qop = qt.from_utf8 qop;
      }

      count : length p ≡ 3 + length realm + length nonce + length qop
      count = challenge-length realm nonce qop

      body : read_body qt empty p ≡ some filled
      body = read_challenge-encode empty realm nonce qop refl hr hn hq
