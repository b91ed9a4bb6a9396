-- ===== src/Redir/Client/Login.antt =====
-- redir/src/redir_client.cpp: the whole login in one read, and the same while the certificate waits for
-- the user.
use mesh_commander.Redir.Client.{
  session_opened_signal, auth_querying, auth_challenging, state_changed, State, connecting,
  selector_sent, session_opened, auth_responding, authenticated, state_code, Client, Settings,
  Written, whole, set_state, become_authenticated, hand_over, on_auth_reply, on_auth_result, round,
  rounds, drain_inbox, handle_ready_read, is_kvm, is_live, digest_response, authenticated_signal,
  Signal, raw_bytes,
}
use mesh_commander.Redir.Client.Handshake.{three_rounds, responded}
use mesh_commander.Redir.Client.Rounds.{IsStart, IsAuth, auth_frame, rounds_last, some_bytes}
use mesh_commander.Redir.Codec.{
  Qt, StartSessionReply, AuthReply, build_auth_query, build_digest_query,
}
use mathlib.Core.List.{append-nil}
use mesh_commander.Prelude.{
  ℕ, zero, suc, ◌+◌, ◌-◌, ◌≤◌, ◌≡◌, refl, sym, ap, ◌∙◌, inl, inr, Bool, true, false, ◌||◌, List, [],
  ◌∷◌, ◌++◌, ◌==◌, if◌then◌else◌, length, get_or, Bool-cases, arith, length-append,
}

nonempty : (frame : List ℕ) (tag : ℕ) → get_or frame 0 0 ≡ suc tag → 1 ≤ length frame
nonempty [] tag h = absurd (omega arith)
nonempty (b ∷ frame) tag h = omega arith

module _ (qt : Qt) (set : Settings) (socket : ℕ → List ℕ → Written) (nonces : ℕ → List ℕ)
    (takes : (n : ℕ) (bytes : List ℕ) → socket n bytes ≡ whole)
    (named : (length set.user == 0) ≡ false) (opened : StartSessionReply)
    (offer challenge : AuthReply) (b0 b1 b2 : List ℕ) (is0 : IsStart b0 opened)
    (is1 : IsAuth qt b1 offer) (is2 : IsAuth qt b2 challenge) (ok0 : opened.status ≡ 0)
    (ok1 : offer.caps.has_digest_with_qop ≡ true) (ok2 : challenge.status ≡ 1)
    (ok3 : (length challenge.realm == 0 || length challenge.nonce == 0) ≡ false) where
  rounds_empty :
      (n : ℕ) (s : Client)
      → (rounds qt set socket nonces n (record s { inbox = [] })).0 ≡ record s { inbox = [] }
  unfolding rounds
  rounds_empty zero s = refl
  rounds_empty (suc n) s = refl

  -- Three frames at least, so there is fuel for three rounds.
  fuel : (rest : List ℕ) → 3 ≤ length (b0 ++ (b1 ++ (b2 ++ rest)))
  fuel rest = omega (
    arith,
    length-append b0 (b1 ++ (b2 ++ rest)),
    length-append b1 (b2 ++ rest),
    length-append b2 rest,
    nonempty b0 0x10 is0.0,
    nonempty b1 0x13 is1.0,
    nonempty b2 0x13 is2.0,
  )

  read_three :
      (t : State) (s : Client)
      → is_live s.socket ≡ true
      → (state_code t == state_code session_opened) ≡ false
      → drain_inbox qt set socket nonces (record s { state = t; inbox = b0 ++ (b1 ++ b2) })
        ≡ responded qt set nonces opened challenge [] s
  unfolding drain_inbox responded
  read_three t s live other =
      let all : List ℕ = b0 ++ (b1 ++ (b2 ++ [])) in
      let same : b0 ++ (b1 ++ b2) ≡ all =
        ap (λ (b : List ℕ). b0 ++ (b1 ++ b)) (sym (append-nil b2)) in
      let k : ℕ = length all - 2 in
      let e : length all + 1 ≡ suc (suc (suc k)) = omega (arith, fuel []) in
      let v3 : Client = responded qt set nonces opened challenge [] s in
      ap (λ (b : List ℕ). drain_inbox qt set socket nonces (record s { state = t; inbox = b })) same
      ∙ ap (λ (n : ℕ). (rounds qt set socket nonces n (record s { state = t; inbox = all })).0) e
      ∙ ap (λ (r : Client × Bool). r.0)
          (three_rounds qt set socket nonces takes named opened offer challenge b0 b1 b2 is0 is1 is2
            ok0 ok1 ok2 ok3 k t [] s live other)
      ∙ rounds_empty k v3

  -- On a socket that takes every write, with a user name, while the certificate of the peer
  -- awaits the user's trust: a start reply of success, an offer of digest with qop and a
  -- challenge, one behind the other in one read, make the client send the query for the types,
  -- the digest query with the user name and the digest response, in the state of connecting and
  -- with the trust still awaited.
  pub handle_ready_read_untrusted :
      (s : Client)
      → is_live s.socket ≡ true
      → let r =
          handle_ready_read qt set socket nonces
            (b0 ++ (b1 ++ b2))
            (record s { state = connecting; inbox = []; awaiting_trust = true }) in
        (r.awaiting_trust ≡ true)
        × (r.state ≡ auth_responding)
        × (r.sent
            ≡ digest_response qt set (nonces (s.writes + 1 + 1)) challenge
              ∷ build_digest_query qt set.user set.auth_uri
              ∷ build_auth_query
              ∷ s.sent)
  unfolding handle_ready_read responded
  handle_ready_read_untrusted s live =
      let t : Client = record s { awaiting_trust = true } in
      rw (read_three connecting t live refl, handle_ready_read) (refl, refl, refl)

  login_round :
      (b3 leftover : List ℕ) (verdict : AuthReply) (s : Client)
      → IsAuth qt b3 verdict
      → verdict.status ≡ 0
      → is_kvm set.protocol ≡ false
      → round qt set socket nonces (record s { state = auth_responding; inbox = b3 ++ leftover })
        ≡ (become_authenticated 0 (record s { state = auth_responding; inbox = leftover }), false)
  unfolding on_auth_reply on_auth_result
  login_round b3 leftover verdict s is3 ok4 plain =
      let ok : (verdict.status == 0) ≡ true = ground arith in
      let u : Client = record s { state = auth_responding } in
      auth_frame qt set socket nonces b3 leftover verdict u is3 ∙ rw (ok, plain, on_auth_reply) refl

  -- Bytes that are left are handed over behind the rest.
  abbrev handed : List ℕ → List Signal → List Signal
  handed leftover signals = if length leftover == 0 then signals else raw_bytes leftover ∷ signals

  -- On a socket that takes every write, with a user name and a protocol other than KVM, after
  -- the selector: a start reply of success, an offer of digest with qop, a challenge and a
  -- verdict of success, in one read with any further bytes behind them, authenticate the
  -- client; it has sent the three frames of the handshake in order, has an empty inbox, and
  -- signals its states, the authentication and then the further bytes when there are any.
  pub handle_ready_read_login :
      (b3 leftover : List ℕ) (verdict : AuthReply) (s : Client)
      → IsAuth qt b3 verdict
      → verdict.status ≡ 0
      → is_kvm set.protocol ≡ false
      → is_live s.socket ≡ true
      → let r =
          handle_ready_read qt set socket nonces
            (b0 ++ (b1 ++ (b2 ++ (b3 ++ leftover))))
            (record s { state = selector_sent; inbox = [] }) in
        (r.state ≡ authenticated)
        × (r.inbox ≡ [])
        × (r.sent
            ≡ digest_response qt set (nonces (s.writes + 1 + 1)) challenge
              ∷ build_digest_query qt set.user set.auth_uri
              ∷ build_auth_query
              ∷ s.sent)
        × (r.signals
            ≡ handed leftover (
                authenticated_signal
                ∷ state_changed authenticated
                ∷ state_changed auth_responding
                ∷ state_changed auth_challenging
                ∷ state_changed auth_querying
                ∷ state_changed session_opened
                ∷ session_opened_signal
                ∷ s.signals))
  unfolding handle_ready_read drain_inbox responded become_authenticated hand_over set_state
  handle_ready_read_login b3 leftover verdict s is3 ok4 plain live =
      let rest : List ℕ = b3 ++ leftover in
      let all : List ℕ = b0 ++ (b1 ++ (b2 ++ rest)) in
      let k : ℕ = length all - 3 in
      let e : length all + 1 ≡ suc (suc (suc (suc k))) = omega (arith, fuel rest) in
      let v : Client = record s { state = selector_sent; inbox = all } in
      let v3 : Client = responded qt set nonces opened challenge rest s in
      let u : Client = become_authenticated 0 (record v3 { inbox = leftover }) in
      let drained : drain_inbox qt set socket nonces v ≡ u =
        ap (λ (n : ℕ). (rounds qt set socket nonces n v).0) e
        ∙ ap (λ (r : Client × Bool). r.0)
            (three_rounds qt set socket nonces takes named opened offer challenge b0 b1 b2 is0 is1
                is2 ok0 ok1 ok2 ok3 (suc k) selector_sent rest s live refl
              ∙ rounds_last qt set socket nonces k v3 u (some_bytes b3 leftover 0x13 is3.0)
                  (login_round b3 leftover verdict v3 is3 ok4 plain)) in
      elim (Bool-cases (length leftover == 0)) [
        | inl none_left ↦ rw (drained, handle_ready_read, none_left) (refl, refl, refl, refl)
        | inr left ↦ rw (drained, handle_ready_read, left) (refl, refl, refl, refl)
      ]
