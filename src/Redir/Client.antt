-- ===== src/Redir/Client.antt =====
-- redir/src/redir_client.cpp: the redirection handshake. The socket is a parameter that says of each
-- write, counted from the first, what becomes of it; a socket that was aborted takes nothing. `sent` is
-- what the client has written to its present socket, and `raw_sent` what others have written through
-- writeRaw, the latest first. The settings do not change while a session runs.
pub mod Fields
pub mod Order
pub mod Rounds
pub mod Handshake
pub mod Login
pub mod Tests
pub mod Failure
pub mod Ends
use mesh_commander.Prelude.{
  ◌-◌, ℕ, zero, suc, ◌+◌, not, ◌&&◌, ◌||◌, List, [], ◌∷◌, ◌++◌, Option, none, some, ltb, ◌==◌, Bool,
  true, false, if◌then◌else◌, length, get_or, drop,
}
use mesh_commander.Redir.Codec.{
  Qt, Protocol, sol, kvm, ider, build_selector, StartSessionReply, try_parse_start_session_reply,
  AuthReply, build_auth_query, build_digest_query, build_digest_response, try_parse_auth_reply,
  compute_digest,
}

pub data State : Type 0 where
  disconnected connecting selector_sent session_opened auth_querying auth_challenging
        auth_responding kvm_starting authenticated failed :
      State

-- The reasons that fail() is given.
pub data Reason : Type 0 where
  tunnel_failed descriptor_failed selector_not_written write_failed no_digest auth_rejected
        no_certificate connection_failed :
      Reason
  refused auth_failed unexpected_auth : ℕ → Reason
  unexpected_frame : ℕ → Reason

pub data Signal : Type 0 where
  state_changed : State → Signal
  session_opened_signal authenticated_signal remote_closed : Signal
  failed_signal : Reason → Signal
  raw_bytes : List ℕ → Signal
  trust_prompt_required verified_by_pin : List ℕ → Signal

-- What QAbstractSocket::write gives: the size, fewer bytes but some, or -1.
pub data Written : Type 0 where
  whole part error : Written

-- m_socket: null, or of which class, and whether abort() has been called on it.
pub data Socket : Type 0 where
  null : Socket
  tcp ssl : Bool → Socket

pub data Event : Type 0 where
  connect disconnect connected queued_connected trust : Event
  tunnel : Bool → Bool → Event
  encrypted : Option (List ℕ) → Event
  ready_read raw_write : List ℕ → Event
  socket_error : Bool → Event

pub record Settings : Type 0 where
  pub protocol : Protocol
  pub tls : Bool
  pub tunnel : Bool
  pub user : List ℕ
  pub pass : List ℕ
  pub auth_uri : List ℕ

pub record Client : Type 0 where
  pub state : State
  pub inbox : List ℕ
  pub socket : Socket
  pub start_status : ℕ
  pub oem_data : List ℕ
  pub trusted : List (List ℕ)
  pub pending_cert : List ℕ
  pub awaiting_trust : Bool
  pub queued : ℕ
  pub writes : ℕ
  pub sent : List (List ℕ)
  pub raw_sent : List (List ℕ)
  pub signals : List Signal

unfoldable pub state_code : State → ℕ
state_code disconnected = 0
state_code connecting = 1
state_code selector_sent = 2
state_code session_opened = 3
state_code auth_querying = 4
state_code auth_challenging = 5
state_code auth_responding = 6
state_code kvm_starting = 7
state_code authenticated = 8
state_code failed = 9

unfoldable pub set_state : State → Client → Client
unfolding state_code
set_state t s =
    if state_code s.state == state_code t
    then s
    else record s { state = t; signals = state_changed t ∷ s.signals }

unfoldable pub abort : Socket → Socket
abort null = null
abort (tcp aborted) = tcp true
abort (ssl aborted) = ssl true

unfoldable pub is_live : Socket → Bool
is_live null = false
is_live (tcp aborted) = not aborted
is_live (ssl aborted) = not aborted

unfoldable pub fail : Reason → Client → Client
unfolding set_state abort
fail reason s =
    let t : Client = set_state failed (record s { socket = abort s.socket }) in
    record t { signals = failed_signal reason ∷ t.signals }

unfoldable pub same_bytes : List ℕ → List ℕ → Bool
same_bytes [] [] = true
same_bytes [] (y ∷ ys) = false
same_bytes (x ∷ xs) [] = false
same_bytes (x ∷ xs) (y ∷ ys) = (x == y) && same_bytes xs ys

-- QStringList::contains.
unfoldable pub contains : List (List ℕ) → List ℕ → Bool
unfolding same_bytes
contains [] fingerprint = false
contains (x ∷ xs) fingerprint = same_bytes x fingerprint || contains xs fingerprint

-- The members that connectTo and connectViaSocketDescriptor clear, with a new socket.
unfoldable pub with_socket : Socket → Client → Client
with_socket socket s = record s {
  inbox = [];
  start_status = 0xFF;
  oem_data = [];
  pending_cert = [];
  awaiting_trust = false;
  socket = socket;
  sent = [];
  raw_sent = [];
}

module _ (set : Settings) where
  unfoldable pub new_socket : Socket
  new_socket = if set.tls then ssl false else tcp false

  -- With a tunnel opener the rest of the connection is left to its callback.
  unfoldable pub connect_to : Client → Client
  unfolding new_socket with_socket set_state
  connect_to s =
      if set.tunnel then set_state connecting s else set_state connecting (with_socket new_socket s)

  -- `adopted` is what setSocketDescriptor returns.
  unfoldable pub connect_via_socket_descriptor : Bool → Client → Client
  unfolding new_socket with_socket set_state fail
  connect_via_socket_descriptor adopted s =
      let t : Client = with_socket new_socket s in
      let u : Client = set_state connecting t in
      if not adopted
      then fail descriptor_failed t
      else if set.tls
      then u
      else record u { queued = u.queued + 1 }

unfoldable pub disconnect_from_host : Client → Client
unfolding set_state
disconnect_from_host s = set_state disconnected s

unfoldable pub wrote : List ℕ → Client → Client
wrote bytes s = record s { writes = s.writes + 1; sent = bytes ∷ s.sent }

unfoldable pub hand_over : List ℕ → Client → Client
hand_over leftover s =
    if length leftover == 0 then s else record s { signals = raw_bytes leftover ∷ s.signals }

-- setState(Authenticated), the signal, and what is left of the inbox, of which `skipped` bytes are not
-- the application's.
unfoldable pub become_authenticated : ℕ → Client → Client
unfolding set_state hand_over
become_authenticated skipped s =
    let t : Client = set_state authenticated (record s { inbox = [] }) in
    hand_over (drop skipped s.inbox) (record t { signals = authenticated_signal ∷ t.signals })

unfoldable pub on_kvm_reply : Client → Client × Bool
unfolding become_authenticated
on_kvm_reply s = if ltb (length s.inbox) 8 then (s, false) else (become_authenticated 8 s, false)

unfoldable pub is_kvm : Protocol → Bool
is_kvm sol = false
is_kvm kvm = true
is_kvm ider = false

unfoldable pub kvm_start : List ℕ
kvm_start = 0x40 ∷ 0x00 ∷ 0x00 ∷ 0x00 ∷ 0x00 ∷ 0x00 ∷ 0x00 ∷ 0x00 ∷ []

unfoldable pub is_ssl : Socket → Bool
is_ssl null = false
is_ssl (tcp aborted) = false
is_ssl (ssl aborted) = true

-- `closed_by_peer` is RemoteHostClosedError.
unfoldable pub handle_socket_error : Bool → Client → Client
unfolding set_state fail state_code
handle_socket_error closed_by_peer s =
    let t : Client = set_state disconnected s in
    if closed_by_peer && state_code s.state == state_code authenticated
    then record t { signals = remote_closed ∷ t.signals }
    else fail connection_failed s

module _ (qt : Qt) (set : Settings) where
  -- The digest response to a challenge; "auth" and "00000001" are its defaults.
  unfoldable pub digest_response : List ℕ → AuthReply → List ℕ
  digest_response cnonce reply =
      let auth : List ℕ = b'a' ∷ b'u' ∷ b't' ∷ b'h' ∷ [] in
      let qop : List ℕ = if length reply.qop == 0 then auth else reply.qop in
      let nc : List ℕ = b'0' ∷ b'0' ∷ b'0' ∷ b'0' ∷ b'0' ∷ b'0' ∷ b'0' ∷ b'1' ∷ [] in
      let response : List ℕ =
        compute_digest qt set.user reply.realm set.pass reply.nonce nc cnonce qop set.auth_uri in
      build_digest_response qt set.user reply.realm reply.nonce set.auth_uri cnonce nc response qop

module _ (qt : Qt) (set : Settings) (socket : ℕ → List ℕ → Written) (nonces : ℕ → List ℕ) where
  -- A write to the present socket.
  unfoldable pub write_result : List ℕ → Client → Written
  unfolding is_live
  write_result bytes s = if is_live s.socket then socket s.writes bytes else error

  unfoldable pub handle_connected : Client → Client
  unfolding write_result wrote fail set_state
  handle_connected s =
      let selector : List ℕ = build_selector set.protocol in
      elim (write_result selector s) [
        | whole ↦ set_state selector_sent (wrote selector s)
        | part ↦ fail selector_not_written (wrote selector s)
        | error ↦ fail selector_not_written (record s { writes = s.writes + 1 })
      ]

  -- A write after which the state changes, unless it gives -1.
  unfoldable pub write_then : List ℕ → State → Client → Client × Bool
  unfolding write_result wrote fail set_state
  write_then bytes t s = elim (write_result bytes s) [
    | whole ↦ (set_state t (wrote bytes s), true)
    | part ↦ (set_state t (wrote bytes s), true)
    | error ↦ (fail write_failed (record s { writes = s.writes + 1 }), false)
  ]

  unfoldable pub write_raw : List ℕ → Client → Client
  unfolding write_result
  write_raw bytes s = elim (write_result bytes s) [
    | whole ↦ record s { writes = s.writes + 1; raw_sent = bytes ∷ s.raw_sent }
    | part ↦ record s { writes = s.writes + 1; raw_sent = bytes ∷ s.raw_sent }
    | error ↦ record s { writes = s.writes + 1 }
  ]

  unfoldable pub on_start_reply : StartSessionReply → Client → Client × Bool
  unfolding fail set_state write_then
  on_start_reply reply s =
      let t : Client = record s { start_status = reply.status; oem_data = reply.oem_data } in
      let u : Client =
        set_state session_opened (record t { signals = session_opened_signal ∷ t.signals }) in
      if not (reply.status == 0)
      then (fail (refused reply.status) t, false)
      else if length set.user == 0
      then (u, true)
      else write_then build_auth_query auth_querying u

  unfoldable pub on_auth_caps : AuthReply → Client → Client × Bool
  unfolding fail write_then
  on_auth_caps reply s =
      if not (reply.caps.has_digest_with_qop)
      then (fail no_digest s, false)
      else write_then (build_digest_query qt set.user set.auth_uri) auth_challenging s

  unfoldable pub on_challenge : AuthReply → Client → Client × Bool
  unfolding fail write_then digest_response
  on_challenge reply s =
      if not (reply.status == 1) || (length reply.realm == 0 || length reply.nonce == 0)
      then (fail auth_rejected s, false)
      else write_then (digest_response qt set (nonces s.writes) reply) auth_responding s

  unfoldable pub on_auth_result : AuthReply → Client → Client × Bool
  unfolding fail write_then become_authenticated is_kvm kvm_start
  on_auth_result reply s =
      if not (reply.status == 0)
      then (fail (auth_failed reply.status) s, false)
      else if is_kvm set.protocol
      then write_then kvm_start kvm_starting s
      else (become_authenticated 0 s, false)

  -- The states of the inner switch.
  unfoldable pub on_auth_reply : State → AuthReply → Client → Client × Bool
  unfolding on_auth_caps on_challenge on_auth_result fail state_code
  on_auth_reply auth_querying reply s = on_auth_caps reply s
  on_auth_reply auth_challenging reply s = on_challenge reply s
  on_auth_reply auth_responding reply s = on_auth_result reply s
  on_auth_reply disconnected reply s = (fail (unexpected_auth 0) s, false)
  on_auth_reply connecting reply s = (fail (unexpected_auth 1) s, false)
  on_auth_reply selector_sent reply s = (fail (unexpected_auth 2) s, false)
  on_auth_reply session_opened reply s = (fail (unexpected_auth 3) s, false)
  on_auth_reply kvm_starting reply s = (fail (unexpected_auth 7) s, false)
  on_auth_reply authenticated reply s = (fail (unexpected_auth 8) s, false)
  on_auth_reply failed reply s = (fail (unexpected_auth 9) s, false)

  -- A frame 0x11, and a frame 0x14.
  unfoldable pub start_round : Client → Client × Bool
  unfolding on_start_reply
  start_round s = elim (try_parse_start_session_reply s.inbox) [
    | none ↦ (s, false)
    | some (reply, consumed) ↦ on_start_reply reply (record s { inbox = drop consumed s.inbox })
  ]

  unfoldable pub auth_round : Client → Client × Bool
  unfolding on_auth_reply
  auth_round s = elim (try_parse_auth_reply qt s.inbox) [
    | none ↦ (s, false)
    | some (reply, consumed) ↦
        on_auth_reply s.state reply (record s { inbox = drop consumed s.inbox })
  ]

  -- One round of the loop of drainInbox. True means that it goes on.
  unfoldable pub round : Client → Client × Bool
  unfolding on_kvm_reply start_round auth_round fail state_code
  round s =
      let tag : ℕ = get_or s.inbox 0 0 in
      if (state_code s.state == state_code kvm_starting) && tag == 0x41
      then on_kvm_reply s
      else if tag == 0x11
      then start_round s
      else if tag == 0x14
      then auth_round s
      else (fail (unexpected_frame tag) s, false)

  -- The loop, on fuel; false says that the fuel ran out.
  unfoldable pub rounds : ℕ → Client → Client × Bool
  unfolding round
  rounds zero s = (s, false)
  rounds (suc n) s = elim (length s.inbox == 0) [
    | true ↦ (s, true)
    | false ↦ elim (round s).1 [ true ↦ rounds n (round s).0 | false ↦ ((round s).0, true) ]
  ]

  -- Each round that goes on takes a byte, so the length of the inbox is enough.
  unfoldable pub drain_inbox : Client → Client
  unfolding rounds
  drain_inbox s = (rounds (length s.inbox + 1) s).0

  unfoldable pub handle_ready_read : List ℕ → Client → Client
  unfolding drain_inbox state_code
  handle_ready_read chunk s =
      if state_code s.state == state_code authenticated
      then record s { signals = raw_bytes chunk ∷ s.signals }
      else drain_inbox (record s { inbox = s.inbox ++ chunk })

  -- The certificate is known by its fingerprint; `none` is a null certificate.
  unfoldable pub handle_encrypted : Option (List ℕ) → Client → Client
  unfolding contains handle_connected fail
  handle_encrypted none s = fail no_certificate s
  handle_encrypted (some fingerprint) s =
      if contains s.trusted fingerprint
      then handle_connected (record s { signals = verified_by_pin fingerprint ∷ s.signals })
      else record s {
        pending_cert = fingerprint;
        awaiting_trust = true;
        signals = trust_prompt_required fingerprint ∷ s.signals;
      }

  unfoldable pub trust_pending_peer_cert : Client → Client
  unfolding is_ssl contains handle_connected
  trust_pending_peer_cert s =
      let known : Bool = length s.pending_cert == 0 || contains s.trusted s.pending_cert in
      let trusted : List (List ℕ) =
        if known then s.trusted else s.trusted ++ (s.pending_cert ∷ []) in
      if not (is_ssl s.socket) || not s.awaiting_trust
      then s
      else handle_connected (record s { trusted = trusted; awaiting_trust = false })

  -- The callback of the tunnel opener, whether a tunnel is there and its descriptor is taken.
  unfoldable pub on_tunnel : Bool → Bool → Client → Client
  unfolding fail connect_via_socket_descriptor
  on_tunnel opened adopted s =
      if opened then connect_via_socket_descriptor set adopted s else fail tunnel_failed s

  -- What is called from outside, in any order. A signal of the socket needs one that is not aborted, and
  -- the queued call of handleConnected one that was made.
  unfoldable pub on_event : Event → Client → Client
  unfolding connect_to on_tunnel disconnect_from_host is_live is_ssl handle_connected
      handle_encrypted handle_ready_read handle_socket_error trust_pending_peer_cert write_raw
  on_event connect s = connect_to set s
  on_event (tunnel opened adopted) s = on_tunnel opened adopted s
  on_event disconnect s = disconnect_from_host s
  on_event connected s = if is_live s.socket && not (is_ssl s.socket) then handle_connected s else s
  on_event queued_connected s =
      if ltb 0 s.queued then handle_connected (record s { queued = s.queued - 1 }) else s
  on_event (encrypted certificate) s =
      if is_live s.socket && is_ssl s.socket then handle_encrypted certificate s else s
  on_event (ready_read chunk) s = if is_live s.socket then handle_ready_read chunk s else s
  on_event (socket_error closed_by_peer) s =
      if is_live s.socket then handle_socket_error closed_by_peer s else s
  on_event trust s = trust_pending_peer_cert s
  on_event (raw_write bytes) s = write_raw bytes s

  unfoldable pub on_events : List Event → Client → Client
  unfolding on_event
  on_events [] s = s
  on_events (e ∷ es) s = on_events es (on_event e s)
