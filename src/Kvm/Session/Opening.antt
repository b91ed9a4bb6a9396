-- ===== src/Kvm/Session/Opening.antt =====
-- kvm/src/kvm_session.cpp: the states of the handshake, one by one.
use mesh_commander.Kvm.Session.{
  desktop_resized, value_or, pixel_format_changed, negotiate_pixel_format, frame_loop, same_format,
  on_server_init, request_full, step_server_init, configure, pin_format, version, security,
  auth_result, server_init, state_code, state_changed, KvmSession, set_state, write_frame,
  step_version, step_security, step_auth_result,
}
use mesh_commander.Kvm.Codec.{
  max_display_buffer_bytes, choose_format_for, build_set_encodings, display_buffer_bytes,
  build_kvm_ext_cmd, try_parse_server_init, build_framebuffer_update_request, ServerInit,
  build_set_pixel_format, PixelFormat, read32_be, build_version_response, build_security_choice,
  build_client_init, try_parse_security_types, try_parse_security_result,
}
use mesh_commander.Prelude.{
  ℕ, suc, ◌+◌, ◌≤◌, ◌≡◌, refl, sym, ap, inl, inr, Bool, true, false, ◌||◌, List, [], ◌∷◌, ◌++◌,
  some, ltb, ◌==◌, if◌then◌else◌, length, Bool-cases, arith, length-append, drop, drop-append,
}

pub drop-length : (xs : List ℕ) → drop (length xs) xs ≡ []
drop-length [] = refl
drop-length (x ∷ xs) = drop-length xs

pub types_found :
    (types rest : List ℕ)
    → try_parse_security_types ((length types ∷ types) ++ rest) ≡ 1 + length types
unfolding try_parse_security_types
types_found types rest =
    let enough : ltb (suc (length (types ++ rest))) (1 + length types) ≡ false =
      ground (arith, length-append types rest) in
    rw (enough, try_parse_security_types) (ground arith)

pub auth_found : (rest : List ℕ) → try_parse_security_result (0 ∷ 0 ∷ 0 ∷ 0 ∷ rest) ≡ (true, 4)
unfolding try_parse_security_result read32_be
auth_found rest = ground arith

module _ {Stream : Type 0} (accepts : ℕ → List ℕ → Bool) where
  pub taken :
      (frame : List ℕ) (s : KvmSession Stream)
      → accepts s.writes frame ≡ true
      → write_frame accepts frame s ≡ record s { writes = s.writes + 1; sent = frame ∷ s.sent }
  unfolding write_frame
  taken frame s e = rw (e, write_frame) refl

  pub version_step :
      (s : KvmSession Stream) (banner rest : List ℕ)
      → length banner ≡ 12
      → accepts s.writes build_version_response ≡ true
      → step_version accepts (record s { state = version; inbox = banner ++ rest }) ≡ (
        record s {
          state = security;
          inbox = rest;
          writes = s.writes + 1;
          sent = build_version_response ∷ s.sent;
          signals = state_changed security ∷ s.signals;
        },
        true,
      )
  unfolding step_version set_state state_code
  version_step s banner rest h e =
      let enough : ltb (length (banner ++ rest)) 12 ≡ false =
        ground (arith, length-append banner rest) in
      let left : drop 12 (banner ++ rest) ≡ rest = drop-append banner rest 12 (sym h) in
      rw
        (
          enough,
          left,
          taken build_version_response (record s { state = version; inbox = rest }) e,
          step_version,
        )
        refl

  pub security_step :
      (s : KvmSession Stream) (types rest : List ℕ)
      → accepts s.writes build_security_choice ≡ true
      → step_security accepts
          (record s { state = security; inbox = (length types ∷ types) ++ rest })
        ≡ (
          record s {
            state = auth_result;
            inbox = rest;
            writes = s.writes + 1;
            sent = build_security_choice ∷ s.sent;
            signals = state_changed auth_result ∷ s.signals;
          },
          true,
        )
  unfolding step_security set_state state_code
  security_step s types rest e =
      let some_type : (1 + length types == 0) ≡ false = ground arith in
      let left : drop (1 + length types) ((length types ∷ types) ++ rest) ≡ rest =
        drop-append (length types ∷ types) rest (1 + length types) (omega arith) in
      rw
        (
          types_found types rest,
          some_type,
          left,
          taken build_security_choice (record s { state = security; inbox = rest }) e,
          step_security,
        )
        refl

  pub auth_step :
      (s : KvmSession Stream) (rest : List ℕ)
      → accepts s.writes build_client_init ≡ true
      → step_auth_result accepts (record s { state = auth_result; inbox = 0 ∷ 0 ∷ 0 ∷ 0 ∷ rest })
        ≡ (
          record s {
            state = server_init;
            inbox = rest;
            writes = s.writes + 1;
            sent = build_client_init ∷ s.sent;
            signals = state_changed server_init ∷ s.signals;
          },
          true,
        )
  unfolding step_auth_result set_state state_code
  auth_step s rest e =
      rw
        (
          auth_found rest,
          taken build_client_init (record s { state = auth_result; inbox = rest }) e,
          step_auth_result,
        )
        refl

  pub pinned :
      (wanted : PixelFormat) (s : KvmSession Stream)
      → accepts s.writes (build_set_pixel_format wanted) ≡ true
      → pin_format accepts wanted s ≡ record s {
        format = wanted;
        writes = s.writes + 1;
        sent = build_set_pixel_format wanted ∷ s.sent;
        signals =
            if same_format wanted s.format
            then s.signals
            else pixel_format_changed wanted ∷ s.signals;
      }
  unfolding pin_format
  pinned wanted s e = elim (Bool-cases (same_format wanted s.format)) [
    | inl same ↦
        rw
          (taken (build_set_pixel_format wanted) (record s { format = wanted }) e, same, pin_format)
          refl
    | inr other ↦
        rw
          (
            taken (build_set_pixel_format wanted) (record s { format = wanted }) e,
            other,
            pin_format,
          )
          refl
  ]

module _ {Stream : Type 0} (accepts : ℕ → List ℕ → Bool)
    (all : (n : ℕ) (frame : List ℕ) → accepts n frame ≡ true) where
  pub configured :
      (s : KvmSession Stream)
      → configure accepts (record s { state = server_init }) ≡ record s {
        state = frame_loop;
        writes = s.writes + 1 + 1 + 1;
        sent =
            build_framebuffer_update_request false 0 0 s.width s.height
            ∷ build_kvm_ext_cmd 4 (if s.compression_enabled then 1 else 0)
            ∷ build_set_encodings
            ∷ s.sent;
        signals = state_changed frame_loop ∷ s.signals;
      }
  unfolding configure request_full set_state state_code
  configured s =
      let a : KvmSession Stream = record s {
        state = server_init;
        writes = s.writes + 1;
        sent = build_set_encodings ∷ s.sent;
      } in
      let ext : List ℕ = build_kvm_ext_cmd 4 (if s.compression_enabled then 1 else 0) in
      let b : KvmSession Stream = record a { writes = s.writes + 1 + 1; sent = ext ∷ a.sent } in
      rw
        (
          taken accepts build_set_encodings (record s { state = server_init }) (all _ _),
          taken accepts ext a (all _ _),
          taken accepts (build_framebuffer_update_request false 0 0 s.width s.height) b (all _ _),
          configure,
        )
        refl

  -- The session behind a ServerInit whose desktop fits.
  unfoldable pub initialised : PixelFormat → ServerInit → KvmSession Stream → KvmSession Stream
  initialised wanted info s = record s {
    inbox = [];
    state = frame_loop;
    width = info.width;
    height = info.height;
    format = wanted;
    writes = s.writes + 1 + 1 + 1 + 1;
    sent =
        build_framebuffer_update_request false 0 0 info.width info.height
        ∷ build_kvm_ext_cmd 4 (if s.compression_enabled then 1 else 0)
        ∷ build_set_encodings
        ∷ build_set_pixel_format wanted
        ∷ s.sent;
    signals =
        state_changed frame_loop
        ∷ (if same_format wanted s.format
            then desktop_resized info.width info.height ∷ s.signals
            else pixel_format_changed wanted ∷ desktop_resized info.width info.height ∷ s.signals);
  }

  pub server_step :
      (s : KvmSession Stream) (init : List ℕ) (info : ServerInit)
      → try_parse_server_init init ≡ some (info, length init)
      → (info.width == 0 || info.height == 0) ≡ false
      → display_buffer_bytes
          (value_or s.preferred_format (choose_format_for info.width info.height))
          info.width
          info.height
        ≤ max_display_buffer_bytes
      → step_server_init accepts (record s { state = server_init; inbox = init }) ≡ (
        initialised (value_or s.preferred_format (choose_format_for info.width info.height)) info s,
        true,
      )
  unfolding step_server_init on_server_init negotiate_pixel_format initialised
  server_step s init info parsed some_pixel fits =
      let wanted : PixelFormat =
        value_or s.preferred_format (choose_format_for info.width info.height) in
      let t : KvmSession Stream = record s {
        state = server_init;
        inbox = [];
        width = info.width;
        height = info.height;
        signals = desktop_resized info.width info.height ∷ s.signals;
      } in
      let empty : drop (length init) init ≡ [] = drop-length init in
      let u : KvmSession Stream = record t {
        format = wanted;
        writes = s.writes + 1;
        sent = build_set_pixel_format wanted ∷ s.sent;
        signals =
            if same_format wanted s.format
            then desktop_resized info.width info.height ∷ s.signals
            else pixel_format_changed wanted ∷ desktop_resized info.width info.height ∷ s.signals;
      } in
      let small : ltb max_display_buffer_bytes (display_buffer_bytes wanted info.width info.height)
          ≡ false =
        ground arith in
      rw (parsed, empty, some_pixel, small, pinned accepts wanted t (all _ _), step_server_init)
        (ap (λ (c : KvmSession Stream). (c, true)) (configured u))
