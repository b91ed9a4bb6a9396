-- ===== src/Kvm/Session/Handshake.antt =====
-- kvm/src/kvm_session.cpp: the handshake, whole and with a write that is refused, and a session that has
-- failed.
use mesh_commander.Kvm.Session.Opening.{
  version_step, security_step, auth_step, initialised, server_step,
}
use mesh_commander.Kvm.Session.{
  step_frame_loop, drain_inbox, on_raw_bytes, step_in, drain_rounds, value_or, frame_loop, version,
  security, auth_result, server_init, state_changed, KvmSession,
}
use mesh_commander.Kvm.Codec.{
  max_display_buffer_bytes, choose_format_for, build_set_encodings, display_buffer_bytes,
  build_kvm_ext_cmd, try_parse_server_init, build_framebuffer_update_request, ServerInit,
  build_set_pixel_format, PixelFormat, build_version_response, build_security_choice,
  build_client_init,
}
use mesh_commander.Prelude.{
  ℕ, suc, ◌+◌, ◌≤◌, ◌≡◌, refl, ap, ◌∙◌, Bool, true, false, ◌||◌, List, [], ◌∷◌, ◌++◌, some, ◌==◌,
  if◌then◌else◌, length,
}

-- `t` is `s` in the frame loop on the desktop of `info`, in the format `f`, with exactly the seven
-- frames of the handshake sent.
pub record IsReady {Stream : Type 0} (s t : KvmSession Stream) (f : PixelFormat) (info : ServerInit)
    : Type 0 where
  pub in_loop : t.state ≡ frame_loop
  pub read_all : t.inbox ≡ []
  pub on_width : t.width ≡ info.width
  pub on_height : t.height ≡ info.height
  pub in_format : t.format ≡ f
  pub none_queued : t.queued ≡ s.queued
  pub sent_seven :
      t.sent
      ≡ build_framebuffer_update_request false 0 0 info.width info.height
        ∷ build_kvm_ext_cmd 4 (if s.compression_enabled then 1 else 0)
        ∷ build_set_encodings
        ∷ build_set_pixel_format f
        ∷ build_client_init
        ∷ build_security_choice
        ∷ build_version_response
        ∷ s.sent

module _ {Stream : Type 0} (accepts : ℕ → List ℕ → Bool)
    (inflate : Stream → List ℕ → Bool × List ℕ × Stream) where
  pub drain_next :
      (n : ℕ) (s t : KvmSession Stream)
      → step_in accepts inflate s.state s ≡ (t, true)
      → drain_rounds accepts inflate (suc n) s ≡ drain_rounds accepts inflate n t
  unfolding drain_rounds
  drain_next n s t e =
      rw (ap (λ (r : KvmSession Stream × Bool). r.1) e, drain_rounds)
        (ap (drain_rounds accepts inflate n) (ap (λ (r : KvmSession Stream × Bool). r.0) e))

  pub drain_stop :
      (n : ℕ) (s : KvmSession Stream)
      → step_in accepts inflate s.state s ≡ (s, false)
      → drain_rounds accepts inflate (suc n) s ≡ (s, false)
  unfolding drain_rounds
  drain_stop n s e =
      rw (ap (λ (r : KvmSession Stream × Bool). r.1) e, drain_rounds)
        (ap (λ (r : KvmSession Stream × Bool). (r.0, false)) e)

  -- On a connection that takes every frame, a session that waits for the version with an empty
  -- inbox and no pending rectangle, and receives in one chunk 12 bytes of version, a list of
  -- security types behind its length, four zero bytes and a ServerInit of a non-empty desktop
  -- that fits, is in the frame loop with that desktop and the chosen format, has read
  -- everything, and has sent exactly the seven frames of the handshake in order.
  pub on_raw_bytes_handshake :
      ((n : ℕ) (frame : List ℕ) → accepts n frame ≡ true)
      → (s : KvmSession Stream) (banner types init : List ℕ) (info : ServerInit)
      → length banner ≡ 12
      → try_parse_server_init init ≡ some (info, length init)
      → (info.width == 0 || info.height == 0) ≡ false
      → display_buffer_bytes
          (value_or s.preferred_format (choose_format_for info.width info.height))
          info.width
          info.height
        ≤ max_display_buffer_bytes
      → IsReady s
          (on_raw_bytes accepts inflate
            (banner ++ ((length types ∷ types) ++ (0 ∷ 0 ∷ 0 ∷ 0 ∷ init)))
            (record s { state = version; inbox = []; pending_rects = 0 }))
          (value_or s.preferred_format (choose_format_for info.width info.height))
          info
  unfolding on_raw_bytes drain_inbox step_in step_frame_loop initialised
  on_raw_bytes_handshake all s banner types init info twelve parsed some_pixel fits =
      let s0 : KvmSession Stream = record s { pending_rects = 0 } in
      let s1 : KvmSession Stream = record s0 {
        writes = s.writes + 1;
        sent = build_version_response ∷ s.sent;
        signals = state_changed security ∷ s.signals;
      } in
      let s2 : KvmSession Stream = record s1 {
        writes = s.writes + 1 + 1;
        sent = build_security_choice ∷ s1.sent;
        signals = state_changed auth_result ∷ s1.signals;
      } in
      let s3 : KvmSession Stream = record s2 {
        writes = s.writes + 1 + 1 + 1;
        sent = build_client_init ∷ s2.sent;
        signals = state_changed server_init ∷ s2.signals;
      } in
      let wanted : PixelFormat =
        value_or s.preferred_format (choose_format_for info.width info.height) in
      let rest3 : List ℕ = init in
      let rest2 : List ℕ = 0 ∷ 0 ∷ 0 ∷ 0 ∷ rest3 in
      let rest1 : List ℕ = (length types ∷ types) ++ rest2 in
      let t : KvmSession Stream = initialised accepts all wanted info s3 in
      let v0 : KvmSession Stream = record s0 { state = version; inbox = banner ++ rest1 } in
      let v1 : KvmSession Stream = record s1 { state = security; inbox = rest1 } in
      let v2 : KvmSession Stream = record s2 { state = auth_result; inbox = rest2 } in
      let v3 : KvmSession Stream = record s3 { state = server_init; inbox = rest3 } in
      let rounds : drain_rounds accepts inflate 16 v0 ≡ (t, false) =
        drain_next 15 v0 v1
          (version_step accepts s0 banner rest1 twelve (all s0.writes build_version_response))
        ∙ drain_next 14 v1 v2
            (security_step accepts s1 types rest2 (all s1.writes build_security_choice))
        ∙ drain_next 13 v2 v3 (auth_step accepts s2 rest3 (all s2.writes build_client_init))
        ∙ drain_next 12 v3 t (server_step accepts all s3 init info parsed some_pixel fits)
        ∙ drain_stop 11 t refl in
      rw (rounds, drain_inbox)
        (record {
          in_loop = refl;
          read_all = refl;
          on_width = refl;
          on_height = refl;
          in_format = refl;
          none_queued = refl;
          sent_seven = refl;
        })
