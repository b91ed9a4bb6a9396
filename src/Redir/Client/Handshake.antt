-- ===== src/Redir/Client/Handshake.antt =====
-- redir/src/redir_client.cpp: frames of the device that follow one another in one read.
use mesh_commander.Redir.Client.Rounds.{
  IsStart, IsAuth, some_bytes, rounds_next, start_frame, auth_frame, taken,
}
use mesh_commander.Redir.Client.{
  on_challenge, on_auth_caps, session_opened_signal, auth_challenging, state_changed,
  build_auth_query, auth_querying, build_digest_query, session_opened, digest_response, is_live,
  auth_responding, State, state_code, Client, Settings, Written, whole, set_state, write_result,
  wrote, on_start_reply, on_auth_reply, rounds,
}
use mesh_commander.Redir.Codec.{Qt, StartSessionReply, AuthReply}
use mesh_commander.Prelude.{
  ℕ, suc, ◌+◌, ◌≡◌, refl, ◌∙◌, true, false, ◌||◌, List, ◌∷◌, ◌++◌, ◌==◌, length, arith,
}

-- `s` behind the digest response: in state `auth_responding`, with the three frames sent.
module _ (qt : Qt) (set : Settings) (nonces : ℕ → List ℕ) where
  unfoldable pub responded : StartSessionReply → AuthReply → List ℕ → Client → Client
  responded opened challenge rest s = record s {
    state = auth_responding;
    inbox = rest;
    start_status = opened.status;
    oem_data = opened.oem_data;
    writes = s.writes + 1 + 1 + 1;
    sent =
        digest_response qt set (nonces (s.writes + 1 + 1)) challenge
        ∷ build_digest_query qt set.user set.auth_uri
        ∷ build_auth_query
        ∷ s.sent;
    signals =
        state_changed auth_responding
        ∷ state_changed auth_challenging
        ∷ state_changed auth_querying
        ∷ state_changed session_opened
        ∷ session_opened_signal
        ∷ s.signals;
  }

-- A start reply, the capabilities and a challenge, on a socket that takes everything.
module _ (qt : Qt) (set : Settings) (socket : ℕ → List ℕ → Written) (nonces : ℕ → List ℕ)
    (takes : (n : ℕ) (bytes : List ℕ) → socket n bytes ≡ whole)
    (named : (length set.user == 0) ≡ false) where
  accepted :
      (bytes : List ℕ) (s : Client)
      → is_live s.socket ≡ true
      → write_result qt set socket nonces bytes s ≡ whole
  unfolding write_result
  accepted bytes s live = rw (live, write_result) (takes s.writes bytes)

  opened_step :
      (reply : StartSessionReply) (t : State) (s : Client)
      → is_live s.socket ≡ true
      → reply.status ≡ 0
      → (state_code t == state_code session_opened) ≡ false
      → on_start_reply qt set socket nonces reply (record s { state = t }) ≡ (
        record s {
          state = auth_querying;
          start_status = reply.status;
          oem_data = reply.oem_data;
          writes = s.writes + 1;
          sent = build_auth_query ∷ s.sent;
          signals =
              state_changed auth_querying
              ∷ state_changed session_opened
              ∷ session_opened_signal
              ∷ s.signals;
        },
        true,
      )
  unfolding on_start_reply set_state wrote
  opened_step reply t s live zero_status other =
      let ok : (reply.status == 0) ≡ true = ground arith in
      let u : Client = record s {
        state = session_opened;
        start_status = reply.status;
        oem_data = reply.oem_data;
        signals = state_changed session_opened ∷ session_opened_signal ∷ s.signals;
      } in
      rw
        (
          ok,
          named,
          other,
          taken qt set socket nonces build_auth_query auth_querying u
              (accepted build_auth_query u live),
          on_start_reply,
        )
        refl

  caps_step :
      (reply : AuthReply) (s : Client)
      → is_live s.socket ≡ true
      → reply.caps.has_digest_with_qop ≡ true
      → on_auth_reply qt set socket nonces auth_querying reply (record s { state = auth_querying })
        ≡ (
          record s {
            state = auth_challenging;
            writes = s.writes + 1;
            sent = build_digest_query qt set.user set.auth_uri ∷ s.sent;
            signals = state_changed auth_challenging ∷ s.signals;
          },
          true,
        )
  unfolding on_auth_reply on_auth_caps set_state wrote
  caps_step reply s live offered =
      let u : Client = record s { state = auth_querying } in
      let query : List ℕ = build_digest_query qt set.user set.auth_uri in
      rw
        (
          offered,
          taken qt set socket nonces query auth_challenging u (accepted query u live),
          on_auth_reply,
        )
        refl

  challenge_step :
      (reply : AuthReply) (s : Client)
      → is_live s.socket ≡ true
      → reply.status ≡ 1
      → (length reply.realm == 0 || length reply.nonce == 0) ≡ false
      → on_auth_reply qt set socket nonces auth_challenging reply
          (record s { state = auth_challenging })
        ≡ (
          record s {
            state = auth_responding;
            writes = s.writes + 1;
            sent = digest_response qt set (nonces s.writes) reply ∷ s.sent;
            signals = state_changed auth_responding ∷ s.signals;
          },
          true,
        )
  unfolding on_auth_reply on_challenge set_state wrote
  challenge_step reply s live one filled =
      let ok : (reply.status == 1) ≡ true = ground arith in
      let u : Client = record s { state = auth_challenging } in
      let response : List ℕ = digest_response qt set (nonces s.writes) reply in
      rw
        (
          ok,
          filled,
          taken qt set socket nonces response auth_responding u (accepted response u live),
          on_auth_reply,
        )
        refl

  module _ (opened : StartSessionReply) (offer challenge : AuthReply) (b0 b1 b2 : List ℕ)
      (is0 : IsStart b0 opened) (is1 : IsAuth qt b1 offer) (is2 : IsAuth qt b2 challenge)
      (ok0 : opened.status ≡ 0) (ok1 : offer.caps.has_digest_with_qop ≡ true)
      (ok2 : challenge.status ≡ 1)
      (ok3 : (length challenge.realm == 0 || length challenge.nonce == 0) ≡ false) where
    pub three_rounds :
        (n : ℕ) (t : State) (rest : List ℕ) (s : Client)
        → is_live s.socket ≡ true
        → (state_code t == state_code session_opened) ≡ false
        → rounds qt set socket nonces
            (suc (suc (suc n)))
            (record s { state = t; inbox = b0 ++ (b1 ++ (b2 ++ rest)) })
          ≡ rounds qt set socket nonces n (responded qt set nonces opened challenge rest s)
    unfolding responded
    three_rounds n t rest s live other =
        let rest2 : List ℕ = b2 ++ rest in
        let rest1 : List ℕ = b1 ++ rest2 in
        let s1 : Client = record s {
          state = auth_querying;
          start_status = opened.status;
          oem_data = opened.oem_data;
          writes = s.writes + 1;
          sent = build_auth_query ∷ s.sent;
          signals =
              state_changed auth_querying
              ∷ state_changed session_opened
              ∷ session_opened_signal
              ∷ s.signals;
        } in
        let s2 : Client = record s1 {
          state = auth_challenging;
          writes = s.writes + 1 + 1;
          sent = build_digest_query qt set.user set.auth_uri ∷ s1.sent;
          signals = state_changed auth_challenging ∷ s1.signals;
        } in
        let v0 : Client = record s { state = t; inbox = b0 ++ rest1 } in
        let v1 : Client = record s1 { inbox = b1 ++ rest2 } in
        let v2 : Client = record s2 { inbox = b2 ++ rest } in
        let v3 : Client = responded qt set nonces opened challenge rest s in
        rounds_next qt set socket nonces (suc (suc n)) v0 v1 (some_bytes b0 rest1 0x10 is0.0) (
          start_frame qt set socket nonces b0 rest1 opened v0 is0
          ∙ opened_step opened t (record s { inbox = rest1 }) live ok0 other)
        ∙ rounds_next qt set socket nonces (suc n) v1 v2 (some_bytes b1 rest2 0x13 is1.0) (
            auth_frame qt set socket nonces b1 rest2 offer s1 is1
            ∙ caps_step offer (record s1 { inbox = rest2 }) live ok1)
        ∙ rounds_next qt set socket nonces n v2 v3 (some_bytes b2 rest 0x13 is2.0) (
            auth_frame qt set socket nonces b2 rest challenge s2 is2
            ∙ challenge_step challenge (record s2 { inbox = rest }) live ok2 ok3)
