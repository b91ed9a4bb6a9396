-- ===== src/Redir/Client/Fields.antt =====
-- redir/src/redir_client.cpp: what the small operations do to the state and to what was sent.
use mesh_commander.Redir.Client.{
  State, disconnected, connecting, selector_sent, session_opened, auth_querying, auth_challenging,
  auth_responding, kvm_starting, authenticated, failed, state_code, Reason, Client, Socket, null,
  tcp, ssl, abort, is_live, set_state, fail,
}
use mesh_commander.Prelude.{
  ℕ, ◌≡◌, refl, sym, ap, ◌∙◌, inl, inr, false, ◌==◌, if◌then◌else◌, Bool-cases, arith, ==_iff,
}

of_code : ℕ → State
of_code n =
    if n == 0
    then disconnected
    else if n == 1
    then connecting
    else if n == 2
    then selector_sent
    else if n == 3
    then session_opened
    else if n == 4
    then auth_querying
    else if n == 5
    then auth_challenging
    else if n == 6
    then auth_responding
    else if n == 7
    then kvm_starting
    else if n == 8
    then authenticated
    else failed

of_code-state_code : (t : State) → of_code (state_code t) ≡ t
unfolding of_code state_code
of_code-state_code disconnected = refl
of_code-state_code connecting = refl
of_code-state_code selector_sent = refl
of_code-state_code session_opened = refl
of_code-state_code auth_querying = refl
of_code-state_code auth_challenging = refl
of_code-state_code auth_responding = refl
of_code-state_code kvm_starting = refl
of_code-state_code authenticated = refl
of_code-state_code failed = refl

pub state_code_inj : (t u : State) → state_code t ≡ state_code u → t ≡ u
state_code_inj t u e = sym (of_code-state_code t) ∙ ap of_code e ∙ of_code-state_code u

pub set_state_lem : (t : State) (s : Client) → (set_state t s).state ≡ t
unfolding set_state
set_state_lem t s = elim (Bool-cases (state_code s.state == state_code t)) [
  | inl e ↦ rw (e, set_state) (state_code_inj s.state t ((==_iff _ _).0 e))
  | inr e ↦ rw (e, set_state) refl
]

-- All but the state and the signals.
pub record Keeps (s t : Client) : Type 0 where
  pub inbox_eq : t.inbox ≡ s.inbox
  pub socket_eq : t.socket ≡ s.socket
  pub trusted_eq : t.trusted ≡ s.trusted
  pub awaiting_eq : t.awaiting_trust ≡ s.awaiting_trust
  pub queued_eq : t.queued ≡ s.queued
  pub writes_eq : t.writes ≡ s.writes
  pub sent_eq : t.sent ≡ s.sent
  pub raw_eq : t.raw_sent ≡ s.raw_sent

pub set_state-Keeps : (t : State) (s : Client) → Keeps s (set_state t s)
unfolding set_state
set_state-Keeps t s = elim (Bool-cases (state_code s.state == state_code t)) [
  | inl e ↦ rw (e, set_state) (ground arith)
  | inr e ↦ rw (e, set_state) (ground arith)
]

pub fail_lem : (reason : Reason) (s : Client) → (fail reason s).state ≡ failed
unfolding fail
fail_lem reason s = set_state_lem failed (record s { socket = abort s.socket })

pub fail-sent : (reason : Reason) (s : Client) → (fail reason s).sent ≡ s.sent
unfolding fail
fail-sent reason s = (set_state-Keeps failed (record s { socket = abort s.socket })).sent_eq

pub fail-raw : (reason : Reason) (s : Client) → (fail reason s).raw_sent ≡ s.raw_sent
unfolding fail
fail-raw reason s = (set_state-Keeps failed (record s { socket = abort s.socket })).raw_eq

abort-dead : (x : Socket) → is_live (abort x) ≡ false
unfolding abort is_live
abort-dead null = refl
abort-dead (tcp aborted) = refl
abort-dead (ssl aborted) = refl

pub fail-dead : (reason : Reason) (s : Client) → is_live (fail reason s).socket ≡ false
unfolding fail
fail-dead reason s =
    ap is_live (set_state-Keeps failed (record s { socket = abort s.socket })).socket_eq
    ∙ abort-dead s.socket
