-- ===== src/Redir/Client/Tests.antt =====
-- redir/src/redir_client.cpp on small inputs.
use mesh_commander.Prelude.{ℕ, ◌≡◌, refl, true, false, List, [], ◌∷◌, ◌++◌, some, arith}
use mesh_commander.Wire.{read32_le}
use mesh_commander.Redir.Client.{
  disconnected, connecting, selector_sent, session_opened, auth_querying, auth_challenging,
  auth_responding, authenticated, Settings, Client, Written, whole, ssl, connect, encrypted, trust,
  ready_read, raw_write, no_digest, fail, state_changed, session_opened_signal,
  authenticated_signal, raw_bytes, digest_response, is_live, is_kvm, handle_ready_read, rounds,
  on_events,
}
use mesh_commander.Redir.Client.Rounds.{IsStart, IsAuth}
use mesh_commander.Redir.Client.Login.{handle_ready_read_untrusted, handle_ready_read_login}
use mesh_commander.Redir.Client.Order.{IsOrdered, on_events-IsOrdered}
use mesh_commander.Redir.Client.Ends.{rounds_end}
use mesh_commander.Redir.Client.Failure.{IsClosed, on_events-fail}
use mesh_commander.Redir.Codec.{
  sol, StartSessionReply, build_auth_query, build_digest_query, read_caps, add_cap, read_challenge,
  read_lp, AuthReply, no_caps, read_body, try_parse_start_session_reply, try_parse_auth_reply,
}
use mesh_commander.Redir.Tests.{latin, hi}

-- A serial session over TLS, on a socket that takes every write.
abbrev pub sol_tls : Settings
sol_tls = record { protocol = sol; tls = true; tunnel = false; user = hi; pass = hi; auth_uri = hi }

abbrev pub takes_all : ℕ → List ℕ → Written
takes_all n bytes = whole

abbrev pub nonce_hi : ℕ → List ℕ
nonce_hi n = hi

abbrev pub encrypted_client : Client
encrypted_client = record {
  state = connecting;
  inbox = [];
  socket = ssl false;
  start_status = 0xFF;
  oem_data = [];
  trusted = [];
  pending_cert = hi;
  awaiting_trust = true;
  queued = 0;
  writes = 0;
  sent = [];
  raw_sent = [];
  signals = [];
}

-- The four frames of the device.
abbrev start_bytes : List ℕ
start_bytes = 0x11 ∷ 0 ∷ 0 ∷ 0 ∷ 0 ∷ 0 ∷ 0 ∷ 0 ∷ 0 ∷ 0 ∷ 0 ∷ 0 ∷ 0 ∷ []

abbrev start_reply : StartSessionReply
start_reply = record { status = 0; oem_data = [] }

abbrev offer_bytes : List ℕ
offer_bytes = 0x14 ∷ 0 ∷ 0 ∷ 0 ∷ 0 ∷ 1 ∷ 0 ∷ 0 ∷ 0 ∷ 4 ∷ []

abbrev offer_reply : AuthReply
offer_reply = record {
  status = 0;
  auth_type = 0;
  caps = record no_caps { has_digest_with_qop = true };
  realm = [];
  nonce = [];
  qop = [];
}

abbrev challenge_bytes : List ℕ
challenge_bytes = 0x14 ∷ 1 ∷ 0 ∷ 0 ∷ 4 ∷ 5 ∷ 0 ∷ 0 ∷ 0 ∷ 1 ∷ b'r' ∷ 1 ∷ b'n' ∷ 0 ∷ []

abbrev challenge_reply : AuthReply
challenge_reply = record {
  status = 1;
  auth_type = 4;
  caps = no_caps;
  realm = b'r' ∷ [];
  nonce = b'n' ∷ [];
  qop = [];
}

abbrev verdict_bytes : List ℕ
verdict_bytes = 0x14 ∷ 0 ∷ 0 ∷ 0 ∷ 4 ∷ 0 ∷ 0 ∷ 0 ∷ 0 ∷ []

abbrev verdict_reply : AuthReply
verdict_reply = record {
  status = 0;
  auth_type = 4;
  caps = no_caps;
  realm = [];
  nonce = [];
  qop = [];
}

start_bytes-IsStart : IsStart start_bytes start_reply
unfolding try_parse_start_session_reply
start_bytes-IsStart = (refl, refl)

offer_bytes-IsAuth : IsAuth latin offer_bytes offer_reply
unfolding try_parse_auth_reply read32_le read_body read_caps add_cap
offer_bytes-IsAuth = (refl, refl)

challenge_bytes-IsAuth : IsAuth latin challenge_bytes challenge_reply
unfolding try_parse_auth_reply read32_le read_body read_challenge read_lp
challenge_bytes-IsAuth = (refl, refl)

verdict_bytes-IsAuth : IsAuth latin verdict_bytes verdict_reply
unfolding try_parse_auth_reply read32_le read_body
verdict_bytes-IsAuth = (refl, refl)

handle_ready_read_untrusted_example :
    let r =
      handle_ready_read latin sol_tls takes_all nonce_hi
        (start_bytes ++ (offer_bytes ++ challenge_bytes))
        (record encrypted_client { state = connecting; inbox = []; awaiting_trust = true }) in
    (r.awaiting_trust ≡ true)
    × (r.state ≡ auth_responding)
    × (r.sent
        ≡ digest_response latin sol_tls (nonce_hi 2) challenge_reply
          ∷ build_digest_query latin hi hi
          ∷ build_auth_query
          ∷ [])
unfolding is_live
handle_ready_read_untrusted_example =
    handle_ready_read_untrusted latin sol_tls takes_all nonce_hi (λ n bytes. refl) refl start_reply
      offer_reply challenge_reply start_bytes offer_bytes challenge_bytes start_bytes-IsStart
      offer_bytes-IsAuth challenge_bytes-IsAuth refl refl refl refl encrypted_client refl

handle_ready_read_login_example :
    let r =
      handle_ready_read latin sol_tls takes_all nonce_hi
        (start_bytes ++ (offer_bytes ++ (challenge_bytes ++ (verdict_bytes ++ hi))))
        (record encrypted_client { state = selector_sent; inbox = [] }) in
    (r.state ≡ authenticated)
    × (r.inbox ≡ [])
    × (r.sent
        ≡ digest_response latin sol_tls (nonce_hi 2) challenge_reply
          ∷ build_digest_query latin hi hi
          ∷ build_auth_query
          ∷ [])
    × (r.signals
        ≡ raw_bytes hi
          ∷ authenticated_signal
          ∷ state_changed authenticated
          ∷ state_changed auth_responding
          ∷ state_changed auth_challenging
          ∷ state_changed auth_querying
          ∷ state_changed session_opened
          ∷ session_opened_signal
          ∷ [])
unfolding is_live is_kvm
handle_ready_read_login_example =
    handle_ready_read_login latin sol_tls takes_all nonce_hi (λ n bytes. refl) refl start_reply
      offer_reply challenge_reply start_bytes offer_bytes challenge_bytes start_bytes-IsStart
      offer_bytes-IsAuth challenge_bytes-IsAuth refl refl refl refl verdict_bytes hi verdict_reply
      encrypted_client verdict_bytes-IsAuth refl refl refl

on_events-IsOrdered_example : IsOrdered latin sol_tls (
    on_events latin sol_tls takes_all nonce_hi
      (connect ∷ encrypted (some hi) ∷ trust ∷ ready_read start_bytes ∷ raw_write hi ∷ [])
      (record encrypted_client { state = disconnected }))
on_events-IsOrdered_example =
    on_events-IsOrdered latin sol_tls takes_all nonce_hi
      (connect ∷ encrypted (some hi) ∷ trust ∷ ready_read start_bytes ∷ raw_write hi ∷ [])
      (record encrypted_client { state = disconnected }) tt

rounds_end_example :
    (rounds latin sol_tls takes_all nonce_hi 14
      (record encrypted_client { state = selector_sent; inbox = start_bytes })).1
    ≡ true
rounds_end_example =
    rounds_end latin sol_tls takes_all nonce_hi 14
      (record encrypted_client { state = selector_sent; inbox = start_bytes }) (omega arith)

on_events-fail_example : IsClosed encrypted_client (
    on_events latin sol_tls takes_all nonce_hi
      (ready_read start_bytes ∷ trust ∷ raw_write hi ∷ [])
      (fail no_digest encrypted_client))
on_events-fail_example =
    on_events-fail latin sol_tls takes_all nonce_hi no_digest
      (ready_read start_bytes ∷ trust ∷ raw_write hi ∷ []) encrypted_client (tt, (tt, (tt, tt)))
