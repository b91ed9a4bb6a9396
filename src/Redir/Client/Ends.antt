-- ===== src/Redir/Client/Ends.antt =====
-- redir/src/redir_client.cpp: the loop of drainInbox ends.
use mesh_commander.Redir.Client.{
  digest_response, kvm_start, State, disconnected, connecting, selector_sent, session_opened,
  auth_querying, auth_challenging, auth_responding, kvm_starting, authenticated, failed, state_code,
  Client, Settings, Written, whole, part, error, set_state, write_result, wrote, write_then,
  on_kvm_reply, on_start_reply, on_auth_caps, on_challenge, on_auth_result, on_auth_reply,
  start_round, auth_round, round, rounds, is_kvm, session_opened_signal,
}
use mesh_commander.Redir.Client.Fields.{set_state-Keeps}
use mesh_commander.Redir.Codec.{
  build_auth_query, build_digest_query, Qt, StartSessionReply, AuthReply,
  try_parse_start_session_reply, try_parse_auth_reply,
}
use mesh_commander.Redir.Codec.Stream.{try_parse_auth_reply_bounds}
use mesh_commander.Prelude.{
  ℕ, zero, suc, ◌≤◌, ◌<◌, ◌≡◌, refl, inl, inr, Bool, true, false, not, ◌&&◌, ◌||◌, List, ◌∷◌, some,
  ltb, ◌==◌, if◌then◌else◌, length, get_or, Bool-cases, Option-cases, arith, drop, length-drop,
}

-- A round that goes on leaves fewer than `n` bytes.
abbrev Shorter : ℕ → Client × Bool → Type 0
Shorter n r = r.1 ≡ true → length (r.0).inbox < n

if-Shorter :
    (n : ℕ) (b : Bool) (r t : Client × Bool)
    → Shorter n r
    → Shorter n t
    → Shorter n (if b then r else t)
if-Shorter n true r t h k = h
if-Shorter n false r t h k = k

over : (n : ℕ) (s : Client) → Shorter n (s, false)
over n s e = absurd (cc)

start_reply_bounds :
    (buffer : List ℕ) (reply : StartSessionReply) (consumed : ℕ)
    → try_parse_start_session_reply buffer ≡ some (reply, consumed)
    → (consumed ≤ length buffer) × (1 ≤ consumed)
unfolding try_parse_start_session_reply
start_reply_bounds buffer reply consumed e = ground arith

module _ (qt : Qt) (set : Settings) (socket : ℕ → List ℕ → Written) (nonces : ℕ → List ℕ) where
  write_then-Shorter :
      (n : ℕ) (bytes : List ℕ) (t : State) (s : Client)
      → length s.inbox < n
      → Shorter n (write_then qt set socket nonces bytes t s)
  unfolding write_then wrote
  write_then-Shorter n bytes t s h = by_result (write_result qt set socket nonces bytes s) refl
    where
      by_result :
          (r : Written)
          → write_result qt set socket nonces bytes s ≡ r
          → Shorter n (write_then qt set socket nonces bytes t s)
      by_result whole e =
          rw (e, write_then) (λ k. rw (set_state-Keeps t (wrote bytes s)).inbox_eq h)
      by_result part e = rw (e, write_then) (λ k. rw (set_state-Keeps t (wrote bytes s)).inbox_eq h)
      by_result error e = rw (e, write_then) (λ k. absurd (cc))

  on_start_reply-Shorter :
      (n : ℕ) (reply : StartSessionReply) (s : Client)
      → length s.inbox < n
      → Shorter n (on_start_reply qt set socket nonces reply s)
  unfolding on_start_reply
  on_start_reply-Shorter n reply s h =
      let t : Client = record s { start_status = reply.status; oem_data = reply.oem_data } in
      let u : Client = record t { signals = session_opened_signal ∷ t.signals } in
      let keeps = (set_state-Keeps session_opened u).inbox_eq in
      if-Shorter n (not (reply.status == 0)) _ _ (λ k. absurd (cc))
        (if-Shorter n (length set.user == 0) _ _ (λ k. rw keeps h)
          (write_then-Shorter n build_auth_query auth_querying (set_state session_opened u)
            (rw keeps h)))

  on_auth_reply-Shorter :
      (n : ℕ) (t : State) (reply : AuthReply) (s : Client)
      → length s.inbox < n
      → Shorter n (on_auth_reply qt set socket nonces t reply s)
  unfolding on_auth_reply on_auth_caps on_challenge on_auth_result
  on_auth_reply-Shorter n auth_querying reply s h =
      if-Shorter n (not reply.caps.has_digest_with_qop) _ _ (λ k. absurd (cc))
        (write_then-Shorter n (build_digest_query qt set.user set.auth_uri) auth_challenging s h)
  on_auth_reply-Shorter n auth_challenging reply s h =
      if-Shorter n (not (reply.status == 1) || (length reply.realm == 0 || length reply.nonce == 0))
        _ _ (λ k. absurd (cc))
        (write_then-Shorter n (digest_response qt set (nonces s.writes) reply) auth_responding s h)
  on_auth_reply-Shorter n auth_responding reply s h =
      if-Shorter n (not (reply.status == 0)) _ _ (λ k. absurd (cc))
        (if-Shorter n (is_kvm set.protocol) _ _ (write_then-Shorter n kvm_start kvm_starting s h)
          (λ k. absurd (cc)))
  on_auth_reply-Shorter n disconnected reply s h = λ k. absurd (cc)
  on_auth_reply-Shorter n connecting reply s h = λ k. absurd (cc)
  on_auth_reply-Shorter n selector_sent reply s h = λ k. absurd (cc)
  on_auth_reply-Shorter n session_opened reply s h = λ k. absurd (cc)
  on_auth_reply-Shorter n kvm_starting reply s h = λ k. absurd (cc)
  on_auth_reply-Shorter n authenticated reply s h = λ k. absurd (cc)
  on_auth_reply-Shorter n failed reply s h = λ k. absurd (cc)

  start_round-Shorter : (s : Client) → Shorter (length s.inbox) (start_round qt set socket nonces s)
  unfolding start_round
  start_round-Shorter s = elim (Option-cases (try_parse_start_session_reply s.inbox)) [
    | inl e ↦ rw (e, start_round) (over (length s.inbox) s)
    | inr ((reply, consumed), e) ↦
        rw (e, start_round)
          (on_start_reply-Shorter (length s.inbox) reply
            (record s { inbox = drop consumed s.inbox })
            (omega
              (arith, start_reply_bounds s.inbox reply consumed e, length-drop consumed s.inbox)))
  ]

  auth_round-Shorter : (s : Client) → Shorter (length s.inbox) (auth_round qt set socket nonces s)
  unfolding auth_round
  auth_round-Shorter s = elim (Option-cases (try_parse_auth_reply qt s.inbox)) [
    | inl e ↦ rw (e, auth_round) (over (length s.inbox) s)
    | inr ((reply, consumed), e) ↦
        rw (e, auth_round)
          (on_auth_reply-Shorter (length s.inbox) s.state reply
            (record s { inbox = drop consumed s.inbox })
            (omega (
              arith,
              try_parse_auth_reply_bounds qt s.inbox reply consumed e,
              length-drop consumed s.inbox,
            )))
  ]

  round-Shorter : (s : Client) → Shorter (length s.inbox) (round qt set socket nonces s)
  unfolding round on_kvm_reply
  round-Shorter s =
      let n : ℕ = length s.inbox in
      let tag : ℕ = get_or s.inbox 0 0 in
      if-Shorter n ((state_code s.state == state_code kvm_starting) && tag == 0x41) _ _
        (if-Shorter n (ltb n 8) _ _ (over n s) (λ k. absurd (cc)))
        (if-Shorter n (tag == 0x11) _ _ (start_round-Shorter s)
          (if-Shorter n (tag == 0x14) _ _ (auth_round-Shorter s) (λ k. absurd (cc))))

  -- Whatever the socket does, the loop of drainInbox comes to its end with any fuel above the
  -- length of the inbox.
  pub rounds_end :
      (n : ℕ) (s : Client) → length s.inbox < n → (rounds qt set socket nonces n s).1 ≡ true
  unfolding rounds
  rounds_end zero s h = absurd (omega arith)
  rounds_end (suc n) s h = elim (Bool-cases (length s.inbox == 0)) [
    | inl e ↦ rw (e, rounds) refl
    | inr e ↦ elim (Bool-cases (round qt set socket nonces s).1) [
      | inl e' ↦
          rw (e, e', rounds)
            (rounds_end n (round qt set socket nonces s).0 (omega (arith, round-Shorter s e')))
      | inr e' ↦ rw (e, e', rounds) refl
    ]
  ]
