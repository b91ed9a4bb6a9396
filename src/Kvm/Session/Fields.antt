-- ===== src/Kvm/Session/Fields.antt =====
-- kvm/src/kvm_session.cpp: what the small operations leave as it is.
use mesh_commander.Kvm.Session.{
  write_failed, State, idle, version, security, auth_result, server_init, frame_loop, failed,
  state_code, Reason, KvmSession, set_state, fail, write_frame,
}
use mesh_commander.Prelude.{
  ℕ, ◌+◌, ◌≡◌, refl, sym, ap, ◌∙◌, ◌⊎◌, inl, inr, Bool, List, ◌==◌, if◌then◌else◌, Bool-cases,
  arith, ==_iff,
}

of_code : ℕ → State
of_code n =
    if n == 0
    then idle
    else if n == 1
    then version
    else if n == 2
    then security
    else if n == 3
    then auth_result
    else if n == 4
    then server_init
    else if n == 5
    then frame_loop
    else failed

of_code-state_code : (t : State) → of_code (state_code t) ≡ t
unfolding of_code state_code
of_code-state_code idle = refl
of_code-state_code version = refl
of_code-state_code security = refl
of_code-state_code auth_result = refl
of_code-state_code server_init = refl
of_code-state_code frame_loop = refl
of_code-state_code failed = refl

pub state_code_inj : (t u : State) → state_code t ≡ state_code u → t ≡ u
state_code_inj t u e = sym (of_code-state_code t) ∙ ap of_code e ∙ of_code-state_code u

-- The desktop, the format and what waits are the same.
pub record Keeps {Stream : Type 0} (s t : KvmSession Stream) : Type 0 where
  pub inbox_eq : t.inbox ≡ s.inbox
  pub width_eq : t.width ≡ s.width
  pub height_eq : t.height ≡ s.height
  pub format_eq : t.format ≡ s.format
  pub preferred_eq : t.preferred_format ≡ s.preferred_format
  pub pending_eq : t.pending_rects ≡ s.pending_rects
  pub compression_eq : t.compression_enabled ≡ s.compression_enabled
  pub stream_eq : t.stream ≡ s.stream
  pub queued_eq : t.queued ≡ s.queued

module _ {Stream : Type 0} where
  pub set_state_lem : (t : State) (s : KvmSession Stream) → (set_state t s).state ≡ t
  unfolding set_state
  set_state_lem t s = elim (Bool-cases (state_code t == state_code s.state)) [
    | inl e ↦ rw (e, set_state) (sym (state_code_inj t s.state ((==_iff _ _).0 e)))
    | inr e ↦ rw (e, set_state) refl
  ]

  pub set_state-Keeps : (t : State) (s : KvmSession Stream) → Keeps s (set_state t s)
  unfolding set_state
  set_state-Keeps t s = elim (Bool-cases (state_code t == state_code s.state)) [
    | inl e ↦ rw (e, set_state) (ground arith)
    | inr e ↦ rw (e, set_state) (ground arith)
  ]

  pub fail_lem : (reason : Reason) (s : KvmSession Stream) → (fail reason s).state ≡ failed
  unfolding fail
  fail_lem reason s = set_state_lem failed s

  pub fail-Keeps : (reason : Reason) (s : KvmSession Stream) → Keeps s (fail reason s)
  unfolding fail
  fail-Keeps reason s = ground (arith, set_state-Keeps failed s)

  module _ (accepts : ℕ → List ℕ → Bool) where
    -- A frame that is taken changes no state, and one that is not ends the session.
    pub write_frame_cases :
        (frame : List ℕ) (s : KvmSession Stream)
        → ((write_frame accepts frame s).state ≡ s.state)
          ⊎ ((write_frame accepts frame s).state ≡ failed)
    unfolding write_frame
    write_frame_cases frame s = elim (Bool-cases (accepts s.writes frame)) [
      | inl e ↦ rw (e, write_frame) (inl refl)
      | inr e ↦
          rw (e, write_frame) (inr (fail_lem write_failed (record s { writes = s.writes + 1 })))
    ]

    pub write_frame-Keeps :
        (frame : List ℕ) (s : KvmSession Stream) → Keeps s (write_frame accepts frame s)
    unfolding write_frame
    write_frame-Keeps frame s = elim (Bool-cases (accepts s.writes frame)) [
      | inl e ↦ rw (e, write_frame) (ground arith)
      | inr e ↦
          rw (e, write_frame)
            (ground (arith, fail-Keeps write_failed (record s { writes = s.writes + 1 })))
    ]
