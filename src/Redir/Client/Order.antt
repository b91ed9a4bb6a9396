-- ===== src/Redir/Client/Order.antt =====
-- redir/src/redir_client.cpp: what the client has sent when it is in a state.
use mesh_commander.Redir.Client.{
  start_round, auth_round, handle_encrypted, contains, verified_by_pin, no_certificate,
  trust_pending_peer_cert, is_ssl, is_live, handle_ready_read, drain_inbox, handle_socket_error,
  connection_failed, write_raw, Event, connect, disconnect, connected, queued_connected, trust,
  tunnel, encrypted, ready_read, raw_write, socket_error, on_event, on_events, connect_to,
  on_tunnel, connect_via_socket_descriptor, disconnect_from_host, with_socket, new_socket,
  descriptor_failed, tunnel_failed, session_opened_signal, State, disconnected, connecting,
  selector_sent, session_opened, auth_querying, auth_challenging, auth_responding, kvm_starting,
  authenticated, failed, state_code, Reason, Client, Settings, Written, whole, part, error,
  set_state, fail, write_result, wrote, write_then, handle_connected, become_authenticated,
  hand_over, on_kvm_reply, on_start_reply, on_auth_caps, on_challenge, on_auth_result,
  on_auth_reply, round, rounds, drain_inbox, is_kvm, kvm_start, digest_response, unexpected_auth,
  refused, no_digest, auth_rejected, auth_failed, unexpected_frame, write_failed,
  selector_not_written,
}
use mesh_commander.Redir.Client.Fields.{state_code_inj, set_state_lem, set_state-Keeps, fail_lem}
use mesh_commander.Redir.Codec.{
  Qt, StartSessionReply, AuthReply, build_auth_query, build_digest_query, build_selector,
  try_parse_start_session_reply, try_parse_auth_reply,
}
use mathlib.Core.Path.{subst}
use mesh_commander.Prelude.{
  ℕ, zero, suc, ◌+◌, ◌-◌, ◌≡◌, refl, ap, inl, inr, Bool, true, false, not, ◌&&◌, ◌||◌, List, [],
  ◌∷◌, ◌++◌, Option, none, some, ltb, ◌==◌, if◌then◌else◌, length, get_or, Bool-cases, Option-cases,
  ==_iff, drop,
}

module _ (qt : Qt) (set : Settings) where
  -- A digest response, behind the digest query and the query for the types of authentication.
  abbrev pub HasResponded : List (List ℕ) → Type 0
  HasResponded frames =
      (cnonce : List ℕ) × (reply : AuthReply) × (older : List (List ℕ)) × (frames
        ≡ digest_response qt set cnonce reply
          ∷ build_digest_query qt set.user set.auth_uri
          ∷ build_auth_query
          ∷ older)

  -- The same, and for KVM the start frame behind it.
  abbrev pub HasStarted : Bool → List (List ℕ) → Type 0
  HasStarted false frames = HasResponded frames
  HasStarted true frames =
      (older : List (List ℕ)) × (frames ≡ kvm_start ∷ older) × HasResponded older

  abbrev pub HasSent : State → List (List ℕ) → Type 0
  HasSent disconnected frames = Unit {0}
  HasSent connecting frames = Unit {0}
  HasSent selector_sent frames = Unit {0}
  HasSent session_opened frames = Unit {0}
  HasSent auth_querying frames = (older : List (List ℕ)) × (frames ≡ build_auth_query ∷ older)
  HasSent auth_challenging frames =
      (older : List (List ℕ)) × (frames
        ≡ build_digest_query qt set.user set.auth_uri ∷ build_auth_query ∷ older)
  HasSent auth_responding frames = HasResponded frames
  HasSent kvm_starting frames = (is_kvm set.protocol ≡ true) × HasStarted true frames
  HasSent authenticated frames = HasStarted (is_kvm set.protocol) frames
  HasSent failed frames = Unit {0}

  abbrev pub IsOrdered : Client → Type 0
  IsOrdered s = HasSent s.state s.sent

  fail-IsOrdered : (reason : Reason) (s : Client) → IsOrdered (fail reason s)
  fail-IsOrdered reason s = rw (fail_lem reason s) tt

  entered : (t : State) (s : Client) → HasSent t s.sent → IsOrdered (set_state t s)
  entered t s h = rw (set_state_lem t s, (set_state-Keeps t s).sent_eq) h

  module _ (socket : ℕ → List ℕ → Written) (nonces : ℕ → List ℕ) where
    write_then-IsOrdered :
        (bytes : List ℕ) (t : State) (s : Client)
        → HasSent t (bytes ∷ s.sent)
        → IsOrdered (write_then qt set socket nonces bytes t s).0
    unfolding write_then wrote
    write_then-IsOrdered bytes t s h = by_result (write_result qt set socket nonces bytes s) refl
      where
        by_result :
            (r : Written)
            → write_result qt set socket nonces bytes s ≡ r
            → IsOrdered (write_then qt set socket nonces bytes t s).0
        by_result whole e = rw (e, write_then) (entered t (wrote bytes s) h)
        by_result part e = rw (e, write_then) (entered t (wrote bytes s) h)
        by_result error e =
            rw (e, write_then) (fail-IsOrdered write_failed (record s { writes = s.writes + 1 }))

    become_authenticated-IsOrdered :
        (skipped : ℕ) (s : Client)
        → HasStarted (is_kvm set.protocol) s.sent
        → IsOrdered (become_authenticated skipped s)
    unfolding become_authenticated hand_over
    become_authenticated-IsOrdered skipped s h =
        let t : Client = record s { inbox = [] } in
        elim (Bool-cases (length (drop skipped s.inbox) == 0)) [
          | inl e ↦ rw (e, become_authenticated, hand_over) (entered authenticated t h)
          | inr e ↦ rw (e, become_authenticated, hand_over) (entered authenticated t h)
        ]

    if-IsOrdered :
        (b : Bool) (r t : Client × Bool)
        → IsOrdered r.0
        → IsOrdered t.0
        → IsOrdered (if b then r else t).0
    if-IsOrdered true r t h k = h
    if-IsOrdered false r t h k = k

    on_start_reply-IsOrdered :
        (reply : StartSessionReply) (s : Client)
        → IsOrdered (on_start_reply qt set socket nonces reply s).0
    unfolding on_start_reply
    on_start_reply-IsOrdered reply s =
        let t : Client = record s { start_status = reply.status; oem_data = reply.oem_data } in
        let u : Client = record t { signals = session_opened_signal ∷ t.signals } in
        if-IsOrdered (not (reply.status == 0)) _ _ (fail-IsOrdered (refused reply.status) t) (
          if-IsOrdered (length set.user == 0) _ _ (entered session_opened u tt) (
            write_then-IsOrdered build_auth_query auth_querying (set_state session_opened u)
              (s.sent, ap (◌∷◌ build_auth_query) (set_state-Keeps session_opened u).sent_eq)))

    on_auth_caps-IsOrdered :
        (reply : AuthReply) (s : Client)
        → HasSent auth_querying s.sent
        → IsOrdered (on_auth_caps qt set socket nonces reply s).0
    unfolding on_auth_caps
    on_auth_caps-IsOrdered reply s (older, e) =
        if-IsOrdered (not reply.caps.has_digest_with_qop) _ _ (fail-IsOrdered no_digest s) (
          write_then-IsOrdered (build_digest_query qt set.user set.auth_uri) auth_challenging s
            (older, ap (◌∷◌ (build_digest_query qt set.user set.auth_uri)) e))

    on_challenge-IsOrdered :
        (reply : AuthReply) (s : Client)
        → HasSent auth_challenging s.sent
        → IsOrdered (on_challenge qt set socket nonces reply s).0
    unfolding on_challenge
    on_challenge-IsOrdered reply s (older, e) =
        let response : List ℕ = digest_response qt set (nonces s.writes) reply in
        if-IsOrdered
          (not (reply.status == 1) || (length reply.realm == 0 || length reply.nonce == 0)) _ _
          (fail-IsOrdered auth_rejected s)
          (write_then-IsOrdered response auth_responding s
            (nonces s.writes, reply, older, ap (◌∷◌ response) e))

    on_auth_result-IsOrdered :
        (reply : AuthReply) (s : Client)
        → HasSent auth_responding s.sent
        → IsOrdered (on_auth_result qt set socket nonces reply s).0
    unfolding on_auth_result
    on_auth_result-IsOrdered reply s h =
        if-IsOrdered (not (reply.status == 0)) _ _ (fail-IsOrdered (auth_failed reply.status) s)
          (elim (Bool-cases (is_kvm set.protocol)) [
            | inl e ↦ rw e (write_then-IsOrdered kvm_start kvm_starting s (e, (s.sent, refl, h)))
            | inr e ↦ rw e (become_authenticated-IsOrdered 0 s (rw e h))
          ])

    on_auth_reply-IsOrdered :
        (t : State) (reply : AuthReply) (s : Client)
        → HasSent t s.sent
        → IsOrdered (on_auth_reply qt set socket nonces t reply s).0
    unfolding on_auth_reply
    on_auth_reply-IsOrdered auth_querying reply s h = on_auth_caps-IsOrdered reply s h
    on_auth_reply-IsOrdered auth_challenging reply s h = on_challenge-IsOrdered reply s h
    on_auth_reply-IsOrdered auth_responding reply s h = on_auth_result-IsOrdered reply s h
    on_auth_reply-IsOrdered disconnected reply s h = fail-IsOrdered (unexpected_auth 0) s
    on_auth_reply-IsOrdered connecting reply s h = fail-IsOrdered (unexpected_auth 1) s
    on_auth_reply-IsOrdered selector_sent reply s h = fail-IsOrdered (unexpected_auth 2) s
    on_auth_reply-IsOrdered session_opened reply s h = fail-IsOrdered (unexpected_auth 3) s
    on_auth_reply-IsOrdered kvm_starting reply s h = fail-IsOrdered (unexpected_auth 7) s
    on_auth_reply-IsOrdered authenticated reply s h = fail-IsOrdered (unexpected_auth 8) s
    on_auth_reply-IsOrdered failed reply s h = fail-IsOrdered (unexpected_auth 9) s

    on_kvm_reply-IsOrdered :
        (s : Client) → IsOrdered s → s.state ≡ kvm_starting → IsOrdered (on_kvm_reply s).0
    unfolding on_kvm_reply
    on_kvm_reply-IsOrdered s h e =
        let sent : HasSent kvm_starting s.sent = subst (λ (t : State). HasSent t s.sent) e h in
        if-IsOrdered (ltb (length s.inbox) 8) _ _ h
          (become_authenticated-IsOrdered 8 s (rw sent.0 sent.1))

    start_round-IsOrdered :
        (s : Client) → IsOrdered s → IsOrdered (start_round qt set socket nonces s).0
    unfolding start_round
    start_round-IsOrdered s h = elim (Option-cases (try_parse_start_session_reply s.inbox)) [
      | inl e ↦ rw (e, start_round) h
      | inr ((reply, consumed), e) ↦
          rw (e, start_round)
            (on_start_reply-IsOrdered reply (record s { inbox = drop consumed s.inbox }))
    ]

    auth_round-IsOrdered :
        (s : Client) → IsOrdered s → IsOrdered (auth_round qt set socket nonces s).0
    unfolding auth_round
    auth_round-IsOrdered s h = elim (Option-cases (try_parse_auth_reply qt s.inbox)) [
      | inl e ↦ rw (e, auth_round) h
      | inr ((reply, consumed), e) ↦
          rw (e, auth_round)
            (on_auth_reply-IsOrdered s.state reply (record s { inbox = drop consumed s.inbox }) h)
    ]

    round-IsOrdered : (s : Client) → IsOrdered s → IsOrdered (round qt set socket nonces s).0
    unfolding round
    round-IsOrdered s h =
        let tag : ℕ = get_or s.inbox 0 0 in
        let other = if-IsOrdered (tag == 0x11) _ _ (start_round-IsOrdered s h) (
          if-IsOrdered (tag == 0x14) _ _ (auth_round-IsOrdered s h)
            (fail-IsOrdered (unexpected_frame tag) s)) in
        elim (Bool-cases (state_code s.state == state_code kvm_starting)) [
          | inl e ↦
              rw (e, round)
                (if-IsOrdered (tag == 0x41) _ _
                  (on_kvm_reply-IsOrdered s h
                    (state_code_inj s.state kvm_starting ((==_iff _ _).0 e)))
                  other)
          | inr e ↦ rw (e, round) other
        ]

    rounds-IsOrdered :
        (n : ℕ) (s : Client) → IsOrdered s → IsOrdered (rounds qt set socket nonces n s).0
    unfolding rounds
    rounds-IsOrdered zero s h = h
    rounds-IsOrdered (suc n) s h = elim (Bool-cases (length s.inbox == 0)) [
      | inl e ↦ rw (e, rounds) h
      | inr e ↦ elim (Bool-cases (round qt set socket nonces s).1) [
        | inl e' ↦
            rw (e, e', rounds)
              (rounds-IsOrdered n (round qt set socket nonces s).0 (round-IsOrdered s h))
        | inr e' ↦ rw (e, e', rounds) (round-IsOrdered s h)
      ]
    ]

    handle_connected-IsOrdered : (s : Client) → IsOrdered (handle_connected qt set socket nonces s)
    unfolding handle_connected wrote
    handle_connected-IsOrdered s =
        by_result (write_result qt set socket nonces (build_selector set.protocol) s) refl
      where
        by_result :
            (r : Written)
            → write_result qt set socket nonces (build_selector set.protocol) s ≡ r
            → IsOrdered (handle_connected qt set socket nonces s)
        by_result whole e =
            rw (e, handle_connected)
              (entered selector_sent (wrote (build_selector set.protocol) s) tt)
        by_result part e =
            rw (e, handle_connected)
              (fail-IsOrdered selector_not_written (wrote (build_selector set.protocol) s))
        by_result error e =
            rw (e, handle_connected)
              (fail-IsOrdered selector_not_written (record s { writes = s.writes + 1 }))

    handle_encrypted-IsOrdered :
        (certificate : Option (List ℕ)) (s : Client)
        → IsOrdered s
        → IsOrdered (handle_encrypted qt set socket nonces certificate s)
    unfolding handle_encrypted
    handle_encrypted-IsOrdered none s h = fail-IsOrdered no_certificate s
    handle_encrypted-IsOrdered (some fingerprint) s h =
        elim (Bool-cases (contains s.trusted fingerprint)) [
          | inl e ↦
              rw (e, handle_encrypted)
                (handle_connected-IsOrdered
                  (record s { signals = verified_by_pin fingerprint ∷ s.signals }))
          | inr e ↦ rw (e, handle_encrypted) h
        ]

    -- Where the state is changed, and the sent frames are kept, or nothing is changed.
    if-keeps :
        (b : Bool) (s t : Client) → IsOrdered s → IsOrdered t → IsOrdered (if b then s else t)
    if-keeps true s t h k = h
    if-keeps false s t h k = k

    trust-IsOrdered :
        (s : Client) → IsOrdered s → IsOrdered (trust_pending_peer_cert qt set socket nonces s)
    unfolding trust_pending_peer_cert
    trust-IsOrdered s h =
        let known : Bool = length s.pending_cert == 0 || contains s.trusted s.pending_cert in
        let trusted : List (List ℕ) =
          if known then s.trusted else s.trusted ++ (s.pending_cert ∷ []) in
        if-keeps (not (is_ssl s.socket) || not s.awaiting_trust) s _ h
          (handle_connected-IsOrdered (record s { trusted = trusted; awaiting_trust = false }))

    ready_read-IsOrdered :
        (chunk : List ℕ) (s : Client)
        → IsOrdered s
        → IsOrdered (handle_ready_read qt set socket nonces chunk s)
    unfolding handle_ready_read drain_inbox
    ready_read-IsOrdered chunk s h =
        let t : Client = record s { inbox = s.inbox ++ chunk } in
        if-keeps (state_code s.state == state_code authenticated) _ _ h
          (rounds-IsOrdered (length t.inbox + 1) t h)

    socket_error-IsOrdered :
        (closed_by_peer : Bool) (s : Client) → IsOrdered (handle_socket_error closed_by_peer s)
    unfolding handle_socket_error
    socket_error-IsOrdered closed_by_peer s =
        if-keeps (closed_by_peer && state_code s.state == state_code authenticated) _ _
          (entered disconnected s tt) (fail-IsOrdered connection_failed s)

    write_raw-IsOrdered :
        (bytes : List ℕ) (s : Client)
        → IsOrdered s
        → IsOrdered (write_raw qt set socket nonces bytes s)
    unfolding write_raw
    write_raw-IsOrdered bytes s h = by_result (write_result qt set socket nonces bytes s) refl
      where
        by_result :
            (r : Written)
            → write_result qt set socket nonces bytes s ≡ r
            → IsOrdered (write_raw qt set socket nonces bytes s)
        by_result whole e = rw (e, write_raw) h
        by_result part e = rw (e, write_raw) h
        by_result error e = rw (e, write_raw) h

    on_event-IsOrdered :
        (e : Event) (s : Client) → IsOrdered s → IsOrdered (on_event qt set socket nonces e s)
    unfolding on_event connect_to on_tunnel connect_via_socket_descriptor disconnect_from_host
    on_event-IsOrdered connect s h =
        if-keeps set.tunnel _ _ (entered connecting s tt)
          (entered connecting (with_socket (new_socket set) s) tt)
    on_event-IsOrdered (tunnel opened adopted) s h =
        let t : Client = with_socket (new_socket set) s in
        if-keeps opened _ _
          (if-keeps (not adopted) _ _ (fail-IsOrdered descriptor_failed t)
            (if-keeps set.tls _ _ (entered connecting t tt) (entered connecting t tt)))
          (fail-IsOrdered tunnel_failed s)
    on_event-IsOrdered disconnect s h = entered disconnected s tt
    on_event-IsOrdered connected s h =
        if-keeps (is_live s.socket && not (is_ssl s.socket)) _ _ (handle_connected-IsOrdered s) h
    on_event-IsOrdered queued_connected s h =
        if-keeps (ltb 0 s.queued) _ _
          (handle_connected-IsOrdered (record s { queued = s.queued - 1 })) h
    on_event-IsOrdered (encrypted certificate) s h =
        if-keeps (is_live s.socket && is_ssl s.socket) _ _
          (handle_encrypted-IsOrdered certificate s h) h
    on_event-IsOrdered (ready_read chunk) s h =
        if-keeps (is_live s.socket) _ _ (ready_read-IsOrdered chunk s h) h
    on_event-IsOrdered (socket_error closed_by_peer) s h =
        if-keeps (is_live s.socket) _ _ (socket_error-IsOrdered closed_by_peer s) h
    on_event-IsOrdered trust s h = trust-IsOrdered s h
    on_event-IsOrdered (raw_write bytes) s h = write_raw-IsOrdered bytes s h

    -- Whatever events arrive in any order and whatever becomes of each write, a client that in
    -- its state has last sent the handshake frames of that state keeps to it: behind the
    -- authentication query, the digest query for the user, the response to a challenge and, for
    -- KVM, the start frame, each directly behind the one before, and it is authenticated only
    -- behind the last of them.
    pub on_events-IsOrdered :
        (events : List Event) (s : Client)
        → IsOrdered s
        → IsOrdered (on_events qt set socket nonces events s)
    unfolding on_events
    on_events-IsOrdered [] s h = h
    on_events-IsOrdered (e ∷ events) s h =
        on_events-IsOrdered events (on_event qt set socket nonces e s) (on_event-IsOrdered e s h)
