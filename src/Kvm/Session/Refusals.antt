-- ===== src/Kvm/Session/Refusals.antt =====
-- kvm/src/kvm_session.cpp: writes that are refused, and a session that has failed.
use mesh_commander.Kvm.Session.{
  State, version, security, failed, state_code, Reason, state_changed, closed, write_failed,
  client_error, KvmSession, set_state, fail, write_frame, step_version, step_security, step_in,
  drain_rounds, drain_inbox, on_raw_bytes, on_queued, if_looping, frame_loop, send_key,
  send_pointer, send_ctrl_alt_del, request_full_refresh, request_full, on_event, on_events, Event,
  started, raw_bytes, queued_drain, client_failed, ctrl_alt_del, refresh, prefer, key, pointer,
}
use mesh_commander.Kvm.Session.Fields.{fail_lem}
use mesh_commander.Kvm.Session.Handshake.{drain_next, drain_stop}
use mesh_commander.Kvm.Session.Opening.{drop-length}
use mesh_commander.Kvm.Codec.{
  build_key_event, build_pointer_event, build_version_response, try_parse_security_types,
}
use mesh_commander.Prelude.{
  ℕ, ◌+◌, ◌-◌, ◌≡◌, refl, sym, ap, ◌∙◌, inl, inr, Bool, true, false, List, [], ◌∷◌, ◌++◌, ltb, ◌==◌,
  length, Bool-cases, arith, drop,
}

-- An event other than a new start.
abbrev pub IsLater : Event → Type 0
IsLater (started authenticated compression) = ⊥
IsLater (raw_bytes chunk) = Unit {0}
IsLater queued_drain = Unit {0}
IsLater client_failed = Unit {0}
IsLater (prefer f) = Unit {0}
IsLater (key keysym down) = Unit {0}
IsLater (pointer button_mask x y) = Unit {0}
IsLater ctrl_alt_del = Unit {0}
IsLater refresh = Unit {0}

abbrev pub AreLater : List Event → Type 0
AreLater [] = Unit {0}
AreLater (e ∷ events) = IsLater e × AreLater events

module _ {Stream : Type 0} (accepts : ℕ → List ℕ → Bool)
    (inflate : Stream → List ℕ → Bool × List ℕ × Stream) where
  refused_step :
      (s : KvmSession Stream) (banner : List ℕ)
      → length banner ≡ 12
      → accepts s.writes build_version_response ≡ false
      → step_version accepts (record s { state = version; inbox = banner }) ≡ (
        record s {
          state = security;
          inbox = [];
          writes = s.writes + 1;
          signals = state_changed security ∷ closed write_failed ∷ state_changed failed ∷ s.signals;
        },
        true,
      )
  unfolding step_version write_frame fail set_state state_code
  refused_step s banner h e =
      let enough : ltb (length banner) 12 ≡ false = ground arith in
      let left : drop 12 banner ≡ [] = ap (λ (n : ℕ). drop n banner) (sym h) ∙ drop-length banner in
      rw (enough, left, e, step_version, write_frame) refl

  -- When the connection refuses the version response, a session that receives 12 bytes of
  -- version with an empty inbox signals that it has failed and is closed, and then goes on to
  -- the security state all the same, with nothing sent.
  pub on_raw_bytes_refused :
      (s : KvmSession Stream) (banner : List ℕ)
      → length banner ≡ 12
      → accepts s.writes build_version_response ≡ false
      → ((on_raw_bytes accepts inflate banner (record s { state = version; inbox = [] })).state
          ≡ security)
        × ((on_raw_bytes accepts inflate banner (record s { state = version; inbox = [] })).signals
            ≡ state_changed security ∷ closed write_failed ∷ state_changed failed ∷ s.signals)
        × ((on_raw_bytes accepts inflate banner (record s { state = version; inbox = [] })).sent
            ≡ s.sent)
  unfolding on_raw_bytes drain_inbox step_in step_security try_parse_security_types
  on_raw_bytes_refused s banner h e =
      let v0 : KvmSession Stream = record s { state = version; inbox = banner } in
      let v1 : KvmSession Stream = record s {
        state = security;
        inbox = [];
        writes = s.writes + 1;
        signals = state_changed security ∷ closed write_failed ∷ state_changed failed ∷ s.signals;
      } in
      let rounds : drain_rounds accepts inflate 16 v0 ≡ (v1, false) =
        drain_next accepts inflate 15 v0 v1 (refused_step s banner h e)
        ∙ drain_stop accepts inflate 14 v1 refl in
      rw (rounds, drain_inbox) (refl, refl, refl)

  -- Failed, and nothing more sent than in `s`.
  abbrev IsSilent : KvmSession Stream → KvmSession Stream → Type 0
  IsSilent s t = (t.state ≡ failed) × (t.sent ≡ s.sent)

  drain_inbox-failed :
      (s : KvmSession Stream) → s.state ≡ failed → IsSilent s (drain_inbox accepts inflate s)
  unfolding drain_inbox step_in
  drain_inbox-failed s h =
      let stuck = ap (λ (t : State). step_in accepts inflate t s) h in
      let rounds : drain_rounds accepts inflate 16 s ≡ (s, false) =
        drain_stop accepts inflate 15 s stuck in
      rw (rounds, drain_inbox) (h, refl)

  if_looping-failed :
      (act : KvmSession Stream → KvmSession Stream) (s : KvmSession Stream)
      → s.state ≡ failed
      → if_looping act s ≡ s
  unfolding if_looping state_code
  if_looping-failed act s h =
      let e : (state_code s.state == state_code frame_loop) ≡ false =
        ap (λ t. state_code t == state_code frame_loop) h in
      rw (e, if_looping) refl

  fail-sent : (reason : Reason) (s : KvmSession Stream) → (fail reason s).sent ≡ s.sent
  unfolding fail set_state
  fail-sent reason s = elim (Bool-cases (state_code failed == state_code s.state)) [
    | inl e ↦ rw (e, fail, set_state) refl
    | inr e ↦ rw (e, fail, set_state) refl
  ]

  send_key-failed :
      (keysym : ℕ) (down : Bool) (s : KvmSession Stream)
      → s.state ≡ failed
      → send_key accepts keysym down s ≡ s
  unfolding send_key
  send_key-failed keysym down s h =
      if_looping-failed (write_frame accepts (build_key_event keysym down)) s h

  ctrl_alt_del-failed : (s : KvmSession Stream) → s.state ≡ failed → send_ctrl_alt_del accepts s ≡ s
  unfolding send_ctrl_alt_del
  ctrl_alt_del-failed s h =
      rw
        (
          send_ctrl_alt_del,
          send_key-failed 0xFFE3 true s h,
          send_key-failed 0xFFE9 true s h,
          send_key-failed 0xFFFF true s h,
          send_key-failed 0xFFFF false s h,
          send_key-failed 0xFFE9 false s h,
          send_key-failed 0xFFE3 false s h,
        )
        refl

  on_event-failed :
      (reset : Stream → Stream) (e : Event) (s : KvmSession Stream)
      → IsLater e
      → s.state ≡ failed
      → IsSilent s (on_event accepts inflate reset e s)
  unfolding on_event on_raw_bytes on_queued send_pointer request_full_refresh
  on_event-failed reset (started authenticated compression) s l h = absurd l
  on_event-failed reset (raw_bytes chunk) s l h =
      drain_inbox-failed (record s { inbox = s.inbox ++ chunk }) h
  on_event-failed reset queued_drain s l h = elim (Bool-cases (s.queued == 0)) [
    | inl e ↦ rw (e, on_event, on_queued) (h, refl)
    | inr e ↦
        rw (e, on_event, on_queued) (drain_inbox-failed (record s { queued = s.queued - 1 }) h)
  ]
  on_event-failed reset client_failed s l h = (fail_lem client_error s, fail-sent client_error s)
  on_event-failed reset (prefer f) s l h = (h, refl)
  on_event-failed reset (key keysym down) s l h =
      rw (send_key-failed keysym down s h, on_event) (h, refl)
  on_event-failed reset (pointer button_mask x y) s l h =
      rw
        (
          if_looping-failed (write_frame accepts (build_pointer_event button_mask x y)) s h,
          on_event,
          send_pointer,
        )
        (h, refl)
  on_event-failed reset ctrl_alt_del s l h = rw (ctrl_alt_del-failed s h, on_event) (h, refl)
  on_event-failed reset refresh s l h =
      rw (if_looping-failed (request_full accepts) s h, on_event, request_full_refresh) (h, refl)

  -- A session that has failed stays failed and sends nothing more, whatever events follow,
  -- until it is started again.
  pub on_events-failed :
      (reset : Stream → Stream) (events : List Event) (s : KvmSession Stream)
      → AreLater events
      → s.state ≡ failed
      → ((on_events accepts inflate reset events s).state ≡ failed)
        × ((on_events accepts inflate reset events s).sent ≡ s.sent)
  unfolding on_events
  on_events-failed reset [] s l h = (h, refl)
  on_events-failed reset (e ∷ events) s l h =
      let here = on_event-failed reset e s l.0 h in
      let rest = on_events-failed reset events (on_event accepts inflate reset e s) l.1 here.0 in
      (rest.0, rest.1 ∙ here.1)
