-- ===== src/Redir/Codec.antt =====
-- redir/include/redir/redir_codec.h and redir/src/redir_codec.cpp: the frames of a redirection
-- session. A parser that fills `*reply` and `*consumed` and returns true gives both as `some`; on
-- false `*consumed` is 0 and the callers drop what has been written to `*reply`, which is `none`.
-- Text and MD5 are Qt's, a parameter.
pub mod Stream
pub mod Auth
pub mod Response
use mesh_commander.Prelude.{
  ℕ, zero, suc, ◌+◌, ◌-◌, ◌*◌, ◌/◌, ◌%◌, ◌^◌, ◌≤◌, ◌<◌, min, ◌≡◌, ◌≢◌, refl, sym, ap, ◌∙◌, ◌⊎◌, inl,
  inr, ◌↔◌, Bool, true, false, not, ◌&&◌, ◌||◌, List, [], ◌∷◌, ◌++◌, Option, none, some, map, ltb,
  leb, ◌==◌, if◌then◌else◌, length, get_or, Bool-cases, Option-cases, arith, take, drop, replicate,
  bit_and,
}
use mesh_commander.Wire.{pack16_le, pack32_le, read16_le, read32_le}

-- QString::toUtf8, QString::fromUtf8, and the lowercase hexadecimal MD5 of md5Hex.
pub record Qt : Type 0 where
  pub to_utf8 : List ℕ → List ℕ
  pub from_utf8 : List ℕ → List ℕ
  pub md5_hex : List ℕ → List ℕ

pub data Protocol : Type 0 where
  sol kvm ider : Protocol

unfoldable pub build_selector : Protocol → List ℕ
build_selector sol = 0x10 ∷ 0x00 ∷ 0x00 ∷ 0x00 ∷ 0x53 ∷ 0x4F ∷ 0x4C ∷ 0x20 ∷ []
build_selector kvm = 0x10 ∷ 0x01 ∷ 0x00 ∷ 0x00 ∷ 0x4B ∷ 0x56 ∷ 0x4D ∷ 0x52 ∷ []
build_selector ider = 0x10 ∷ 0x00 ∷ 0x00 ∷ 0x00 ∷ 0x49 ∷ 0x44 ∷ 0x45 ∷ 0x52 ∷ []

pub record StartSessionReply : Type 0 where
  pub status : ℕ
  pub oem_data : List ℕ

abbrev pub start_reply_fixed_size : ℕ
start_reply_fixed_size = 13

abbrev pub auth_reply_fixed_size : ℕ
auth_reply_fixed_size = 9

-- The first byte, read after the test that there is one.
abbrev pub first_byte : List ℕ → ℕ
first_byte buffer = get_or buffer 0 0

unfoldable pub try_parse_start_session_reply : List ℕ → Option (StartSessionReply × ℕ)
try_parse_start_session_reply buffer =
    let oem_len : ℕ = get_or buffer 12 0 in
    if ltb (length buffer) 1
    then none
    else if not (first_byte buffer == 0x11)
    then none
    else if ltb (length buffer) start_reply_fixed_size
    then none
    else if ltb (length buffer) (start_reply_fixed_size + oem_len)
    then none
    else some (
      record {
        status = get_or buffer 1 0;
        oem_data = take oem_len (drop start_reply_fixed_size buffer);
      },
      start_reply_fixed_size + oem_len,
    )

-- `enum class AuthType`; any other byte may arrive too.
abbrev pub auth_query : ℕ
auth_query = 0

abbrev pub auth_digest_no_qop : ℕ
auth_digest_no_qop = 3

abbrev pub auth_digest_with_qop : ℕ
auth_digest_with_qop = 4

pub record AuthCapabilities : Type 0 where
  pub has_basic : Bool
  pub has_kerberos : Bool
  pub has_digest_no_qop : Bool
  pub has_digest_with_qop : Bool

abbrev pub no_caps : AuthCapabilities
no_caps = record {
  has_basic = false;
  has_kerberos = false;
  has_digest_no_qop = false;
  has_digest_with_qop = false;
}

pub record AuthReply : Type 0 where
  pub status : ℕ
  pub auth_type : ℕ
  pub caps : AuthCapabilities
  pub realm : List ℕ
  pub nonce : List ℕ
  pub qop : List ℕ

unfoldable pub build_auth_frame : ℕ → List ℕ → List ℕ
unfolding pack32_le
build_auth_frame type payload =
    0x13 ∷ 0x00 ∷ 0x00 ∷ 0x00 ∷ type ∷ (pack32_le (length payload % 2 ^ 32) ++ payload)

unfoldable pub build_auth_query : List ℕ
unfolding build_auth_frame
build_auth_query = build_auth_frame auth_query []

abbrev pub auth_reply_max_data : ℕ
auth_reply_max_data = 64 * 1024

-- One byte of the list of supported types.
unfoldable pub add_cap : ℕ → AuthCapabilities → AuthCapabilities
add_cap b caps =
    if b == 1
    then record caps { has_basic = true }
    else if b == 2
    then record caps { has_kerberos = true }
    else if b == 3
    then record caps { has_digest_no_qop = true }
    else if b == 4
    then record caps { has_digest_with_qop = true }
    else caps

unfoldable pub read_caps : List ℕ → AuthCapabilities → AuthCapabilities
unfolding add_cap
read_caps [] caps = caps
read_caps (b ∷ payload) caps = read_caps payload (add_cap b caps)

-- The lambda `readLp`, over what is left from `p` on: the field, and what is left after it.
unfoldable pub read_lp : List ℕ → Option (List ℕ × List ℕ)
read_lp [] = none
read_lp (n ∷ rest) = if ltb (length rest) n then none else some (take n rest, drop n rest)

-- `readLp(&reply->qop)`, whose result is not looked at.
abbrev pub optional_lp : Option (List ℕ × List ℕ) → List ℕ
optional_lp none = []
optional_lp (some (field, rest)) = field

module _ (qt : Qt) where
  unfoldable pub append_lp : List ℕ → List ℕ → List ℕ
  append_lp buf s = let b : List ℕ = qt.to_utf8 s in buf ++ (bit_and (length b) 0xFF ∷ b)

  unfoldable pub build_digest_response :
      List ℕ → List ℕ → List ℕ → List ℕ → List ℕ → List ℕ → List ℕ → List ℕ → List ℕ
  unfolding build_auth_frame append_lp
  build_digest_response user realm nonce auth_uri cnonce nc response qop =
      let d1 : List ℕ = append_lp [] user in
      let d2 : List ℕ = append_lp d1 realm in
      let d3 : List ℕ = append_lp d2 nonce in
      let d4 : List ℕ = append_lp d3 auth_uri in
      let d5 : List ℕ = append_lp d4 cnonce in
      let d6 : List ℕ = append_lp d5 nc in
      let d7 : List ℕ = append_lp d6 response in
      build_auth_frame auth_digest_with_qop (append_lp d7 qop)

  -- The query sends the same eight fields, six of them empty.
  unfoldable pub build_digest_query : List ℕ → List ℕ → List ℕ
  unfolding build_auth_frame append_lp
  build_digest_query user auth_uri =
      let d1 : List ℕ = append_lp [] user in
      let d2 : List ℕ = append_lp d1 [] in
      let d3 : List ℕ = append_lp d2 [] in
      let d4 : List ℕ = append_lp d3 auth_uri in
      let d5 : List ℕ = append_lp d4 [] in
      let d6 : List ℕ = append_lp d5 [] in
      let d7 : List ℕ = append_lp d6 [] in build_auth_frame auth_digest_with_qop (append_lp d7 [])

  -- The texts of a challenge: `<realm><nonce>[<qop>]`, `qop` for type 4 only.
  unfoldable pub read_challenge : AuthReply → List ℕ → Option AuthReply
  read_challenge reply payload = elim (read_lp payload) [
    | none ↦ none
    | some (realm, rest) ↦ elim (read_lp rest) [
      | none ↦ none
      | some (nonce, rest') ↦ some (record reply {
        realm = qt.from_utf8 realm;
        nonce = qt.from_utf8 nonce;
        qop =
            if reply.auth_type == auth_digest_with_qop
            then qt.from_utf8 (optional_lp (read_lp rest'))
            else [];
      })
    ]
  ]

  -- The body of the reply, by its type and status.
  unfoldable pub read_body : AuthReply → List ℕ → Option AuthReply
  read_body reply payload =
      if reply.auth_type == auth_query
      then some (record reply { caps = read_caps payload no_caps })
      else if ((reply.auth_type == auth_digest_with_qop) || (reply.auth_type == auth_digest_no_qop))
          && (reply.status == 1)
      then read_challenge reply payload
      else some reply

  unfoldable pub try_parse_auth_reply : List ℕ → Option (AuthReply × ℕ)
  try_parse_auth_reply buffer =
      let data_len : ℕ = read32_le buffer 5 in
      let reply : AuthReply = record {
        status = get_or buffer 1 0;
        auth_type = get_or buffer 4 0;
        caps = no_caps;
        realm = [];
        nonce = [];
        qop = [];
      } in
      if ltb (length buffer) 1
      then none
      else if not (first_byte buffer == 0x14)
      then none
      else if ltb (length buffer) auth_reply_fixed_size
      then none
      else if ltb auth_reply_max_data data_len
      then none
      else if ltb (length buffer) (auth_reply_fixed_size + data_len)
      then none
      else elim (read_body reply (take data_len (drop auth_reply_fixed_size buffer))) [
        | none ↦ none
        | some filled ↦ some (filled, auth_reply_fixed_size + data_len)
      ]

  -- `:` between two texts.
  abbrev pub joined : List ℕ → List ℕ → List ℕ
  joined a b = a ++ (b':' ∷ b)

  unfoldable pub compute_digest :
      List ℕ → List ℕ → List ℕ → List ℕ → List ℕ → List ℕ → List ℕ → List ℕ → List ℕ
  compute_digest user realm pass nonce nc cnonce qop auth_uri =
      let ha1 : List ℕ = qt.md5_hex (qt.to_utf8 (joined user (joined realm pass))) in
      let post : List ℕ = b'P' ∷ b'O' ∷ b'S' ∷ b'T' ∷ [] in
      let ha2 : List ℕ = qt.md5_hex (qt.to_utf8 (joined post auth_uri)) in
      qt.md5_hex
        (qt.to_utf8 (joined ha1 (joined nonce (joined nc (joined cnonce (joined qop ha2))))))
