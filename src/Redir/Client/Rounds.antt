-- ===== src/Redir/Client/Rounds.antt =====
-- redir/src/redir_client.cpp: a frame of the device at the head of the inbox.
use mesh_commander.Redir.Client.{
  State, kvm_starting, state_code, Client, Settings, Written, whole, set_state, write_result, wrote,
  write_then, on_start_reply, on_auth_reply, start_round, auth_round, round, rounds,
}
use mesh_commander.Redir.Codec.{
  Qt, StartSessionReply, AuthReply, try_parse_start_session_reply, try_parse_auth_reply,
}
use mesh_commander.Redir.Codec.Stream.{redir_parsers_stream}
use mesh_commander.Prelude.{
  ℕ, suc, ◌≡◌, refl, ap, ◌∙◌, inl, inr, Bool, true, false, List, [], ◌∷◌, ◌++◌, some, ◌==◌, length,
  get_or, Bool-cases, arith, drop, drop-append,
}

-- A whole frame, and the reply in it.
abbrev pub IsStart : List ℕ → StartSessionReply → Type 0
IsStart frame reply =
    (get_or frame 0 0 ≡ 0x11) × (try_parse_start_session_reply frame ≡ some (reply, length frame))

module _ (qt : Qt) where
  abbrev pub IsAuth : List ℕ → AuthReply → Type 0
  IsAuth frame reply =
      (get_or frame 0 0 ≡ 0x14) × (try_parse_auth_reply qt frame ≡ some (reply, length frame))

  pub start_found :
      (frame rest : List ℕ) (reply : StartSessionReply)
      → IsStart frame reply
      → try_parse_start_session_reply (frame ++ rest) ≡ some (reply, length frame)
  start_found frame rest reply h =
      ((redir_parsers_stream qt).0 frame rest reply (length frame) h.1).1

  pub auth_found :
      (frame rest : List ℕ) (reply : AuthReply)
      → IsAuth frame reply
      → try_parse_auth_reply qt (frame ++ rest) ≡ some (reply, length frame)
  auth_found frame rest reply h =
      ((redir_parsers_stream qt).1 frame rest reply (length frame) h.1).1

pub first_byte-append :
    (frame rest : List ℕ) (tag : ℕ)
    → get_or frame 0 0 ≡ suc tag
    → get_or (frame ++ rest) 0 0 ≡ suc tag
first_byte-append [] rest tag h = absurd (omega arith)
first_byte-append (b ∷ frame) rest tag h = h

pub some_bytes :
    (frame rest : List ℕ) (tag : ℕ)
    → get_or frame 0 0 ≡ suc tag
    → (length (frame ++ rest) == 0) ≡ false
some_bytes [] rest tag h = absurd (omega arith)
some_bytes (b ∷ frame) rest tag h = ground arith

module _ (qt : Qt) (set : Settings) (socket : ℕ → List ℕ → Written) (nonces : ℕ → List ℕ) where
  -- A round that goes on.
  pub rounds_next :
      (n : ℕ) (s t : Client)
      → (length s.inbox == 0) ≡ false
      → round qt set socket nonces s ≡ (t, true)
      → rounds qt set socket nonces (suc n) s ≡ rounds qt set socket nonces n t
  unfolding rounds
  rounds_next n s t h e =
      rw (h, ap (λ (r : Client × Bool). r.1) e, rounds)
        (ap (rounds qt set socket nonces n) (ap (λ (r : Client × Bool). r.0) e))

  -- A round that is the last.
  pub rounds_last :
      (n : ℕ) (s t : Client)
      → (length s.inbox == 0) ≡ false
      → round qt set socket nonces s ≡ (t, false)
      → rounds qt set socket nonces (suc n) s ≡ (t, true)
  unfolding rounds
  rounds_last n s t h e =
      rw (h, ap (λ (r : Client × Bool). r.1) e, rounds) (ap (λ (r : Client × Bool). (r.0, true)) e)

  pub round-start_round :
      (s : Client)
      → get_or s.inbox 0 0 ≡ 0x11
      → round qt set socket nonces s ≡ start_round qt set socket nonces s
  unfolding round
  round-start_round s tag = elim (Bool-cases (state_code s.state == state_code kvm_starting)) [
    | inl e ↦ rw (e, tag, round) refl
    | inr e ↦ rw (e, tag, round) refl
  ]

  pub round-auth_round :
      (s : Client)
      → get_or s.inbox 0 0 ≡ 0x14
      → round qt set socket nonces s ≡ auth_round qt set socket nonces s
  unfolding round
  round-auth_round s tag = elim (Bool-cases (state_code s.state == state_code kvm_starting)) [
    | inl e ↦ rw (e, tag, round) refl
    | inr e ↦ rw (e, tag, round) refl
  ]

  pub start_frame :
      (frame rest : List ℕ) (reply : StartSessionReply) (s : Client)
      → IsStart frame reply
      → round qt set socket nonces (record s { inbox = frame ++ rest })
        ≡ on_start_reply qt set socket nonces reply (record s { inbox = rest })
  unfolding start_round
  start_frame frame rest reply s h =
      let t : Client = record s { inbox = frame ++ rest } in
      let left : drop (length frame) (frame ++ rest) ≡ rest =
        drop-append frame rest (length frame) refl in
      round-start_round t (first_byte-append frame rest 0x10 h.0)
      ∙ rw (start_found qt frame rest reply h, start_round)
          (ap (λ (b : List ℕ). on_start_reply qt set socket nonces reply (record s { inbox = b }))
            left)

  pub auth_frame :
      (frame rest : List ℕ) (reply : AuthReply) (s : Client)
      → IsAuth qt frame reply
      → round qt set socket nonces (record s { inbox = frame ++ rest })
        ≡ on_auth_reply qt set socket nonces s.state reply (record s { inbox = rest })
  unfolding auth_round
  auth_frame frame rest reply s h =
      let t : Client = record s { inbox = frame ++ rest } in
      let left : drop (length frame) (frame ++ rest) ≡ rest =
        drop-append frame rest (length frame) refl in
      round-auth_round t (first_byte-append frame rest 0x13 h.0)
      ∙ rw (auth_found qt frame rest reply h, auth_round)
          (ap
            (λ (b : List ℕ).
              on_auth_reply qt set socket nonces s.state reply (record s { inbox = b }))
            left)

  -- A write that the socket takes whole.
  pub taken :
      (bytes : List ℕ) (t : State) (s : Client)
      → write_result qt set socket nonces bytes s ≡ whole
      → write_then qt set socket nonces bytes t s ≡ (set_state t (wrote bytes s), true)
  unfolding write_then
  taken bytes t s e = rw (e, write_then) refl
