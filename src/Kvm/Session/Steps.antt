-- ===== src/Kvm/Session/Steps.antt =====
-- kvm/src/kvm_session.cpp: each step leaves a desktop that fits the display buffer.
use mesh_commander.Kvm.Session.{
  request_full, if_looping, tile_updated, encoding, subencoding, malformed_rect, cut_text_length,
  unknown_message, auth_failed, set_state, step_version, step_security, step_auth_result,
  step_server_init, step_message, step_cut_text, step_update, drop, desktop_resized, State, idle,
  version, security, auth_result, server_init, frame_loop, failed, Reason, KvmSession, state_code,
  fail, write_frame, pin_format, negotiate_pixel_format, request_incremental, request_full,
  configure, on_server_init, finish_rect, on_desktop_size, on_outcome, if_looping, value_or,
  same_format, display_too_big,
}
use mesh_commander.Kvm.Session.Fields.{
  set_state_lem, Keeps, set_state-Keeps, fail_lem, write_frame_cases, write_frame-Keeps,
}
use mesh_commander.Kvm.Codec.{
  build_version_response, build_security_choice, build_client_init, try_parse_server_init,
  try_parse_security_result, try_parse_security_types, try_parse_frame_update, read32_be,
  ServerInit, RectHeader, build_set_encodings, build_kvm_ext_cmd, PixelFormat,
  max_display_buffer_bytes, display_buffer_bytes, choose_format_for,
}
use mesh_commander.Kvm.Rects.{
  ok, need_more, unsupported_encoding, unsupported_subencoding, malformed, Outcome, decoded,
  desktop_size, nothing, undefined, failed_with,
}
use mesh_commander.Prelude.{
  ℕ, ◌+◌, ◌-◌, ◌*◌, ◌≤◌, ◌≡◌, refl, ◌⊎◌, inl, inr, Bool, true, false, not, ◌||◌, List, ◌∷◌, ltb,
  ◌==◌, if◌then◌else◌, length, Bool-cases, Option-cases, arith,
}

-- The firmware's limit, which an empty desktop is not checked for.
abbrev pub FitsBuffer : PixelFormat → ℕ → ℕ → Type 0
FitsBuffer f w h =
    ((w == 0 || h == 0) ≡ true) ⊎ (display_buffer_bytes f w h ≤ max_display_buffer_bytes)

abbrev pub InLoop : State → Type 0 → Type 0
InLoop idle P = Unit {0}
InLoop version P = Unit {0}
InLoop security P = Unit {0}
InLoop auth_result P = Unit {0}
InLoop server_init P = Unit {0}
InLoop frame_loop P = P
InLoop failed P = Unit {0}

pub InLoop_any : (t : State) {P : Type 0} → P → InLoop t P
InLoop_any idle h = tt
InLoop_any version h = tt
InLoop_any security h = tt
InLoop_any auth_result h = tt
InLoop_any server_init h = tt
InLoop_any frame_loop h = h
InLoop_any failed h = tt

module _ {Stream : Type 0} where
  abbrev pub Fits : KvmSession Stream → Type 0
  Fits s = FitsBuffer s.format s.width s.height

  -- In the frame loop the desktop fits.
  abbrev pub IsWithin : KvmSession Stream → Type 0
  IsWithin s = InLoop s.state (Fits s)

  pub Keeps-Fits : (s t : KvmSession Stream) → Keeps s t → Fits s → Fits t
  Keeps-Fits s t k h = rw (k.format_eq, k.width_eq, k.height_eq) h

  -- The state stays or is `failed`.
  pub Keeps-IsWithin :
      (s t : KvmSession Stream)
      → Keeps s t
      → (t.state ≡ s.state) ⊎ (t.state ≡ failed)
      → IsWithin s
      → IsWithin t
  Keeps-IsWithin s t k (inl e) h = rw (e, k.format_eq, k.width_eq, k.height_eq) h
  Keeps-IsWithin s t k (inr e) h = rw e tt

  pub fail-IsWithin : (reason : Reason) (s : KvmSession Stream) → IsWithin (fail reason s)
  fail-IsWithin reason s = rw (fail_lem reason s) tt

  pub if-IsWithin :
      (b : Bool) (r t : KvmSession Stream × Bool)
      → IsWithin r.0
      → IsWithin t.0
      → IsWithin (if b then r else t).0
  if-IsWithin true r t h k = h
  if-IsWithin false r t h k = k

  pub if_looping-IsWithin :
      (act : KvmSession Stream → KvmSession Stream) (s : KvmSession Stream)
      → IsWithin s
      → IsWithin (act s)
      → IsWithin (if_looping act s)
  unfolding if_looping
  if_looping-IsWithin act s h k = elim (Bool-cases (state_code s.state == state_code frame_loop)) [
    | inl e ↦ rw (e, if_looping) k
    | inr e ↦ rw (e, if_looping) h
  ]

  module _ (accepts : ℕ → List ℕ → Bool) where
    pub write_frame-IsWithin :
        (frame : List ℕ) (s : KvmSession Stream)
        → IsWithin s
        → IsWithin (write_frame accepts frame s)
    write_frame-IsWithin frame s h =
        Keeps-IsWithin s _ (write_frame-Keeps accepts frame s) (write_frame_cases accepts frame s) h

    pub pin_format-Fits :
        (wanted : PixelFormat) (s : KvmSession Stream)
        → FitsBuffer wanted s.width s.height
        → Fits (pin_format accepts wanted s)
    unfolding pin_format
    pin_format-Fits wanted s h =
        let t : KvmSession Stream = record s { format = wanted } in
        let w = Keeps-Fits t _ (write_frame-Keeps accepts _ t) h in
        elim (Bool-cases (same_format wanted s.format)) [
          | inl e ↦ rw (e, pin_format) w
          | inr e ↦ rw (e, pin_format) w
        ]

    -- When it says true the desktop fits, and else the session has failed.
    pub negotiate_cases :
        (s : KvmSession Stream)
        → (((negotiate_pixel_format accepts s).1 ≡ true)
            × Fits (negotiate_pixel_format accepts s).0)
          ⊎ (((negotiate_pixel_format accepts s).1 ≡ false)
              × ((negotiate_pixel_format accepts s).0.state ≡ failed))
    unfolding negotiate_pixel_format
    negotiate_cases s =
        let wanted : PixelFormat =
          value_or s.preferred_format (choose_format_for s.width s.height) in
        elim (Bool-cases (s.width == 0 || s.height == 0)) [
          | inl e ↦ rw (e, negotiate_pixel_format) (inl (refl, inl e))
          | inr e ↦
              elim (Bool-cases
                (ltb max_display_buffer_bytes (display_buffer_bytes wanted s.width s.height))) [
                  | inl e' ↦
                      rw (e, e', negotiate_pixel_format) (inr (refl, fail_lem display_too_big s))
                  | inr e' ↦
                      rw (e, e', negotiate_pixel_format)
                        (inl (refl, pin_format-Fits wanted s (inr (ground (arith, e')))))
                ]
        ]

    pub configure-IsWithin : (s : KvmSession Stream) → Fits s → IsWithin (configure accepts s)
    unfolding configure request_full
    configure-IsWithin s h =
        let a = write_frame accepts build_set_encodings s in
        let b =
          write_frame accepts (build_kvm_ext_cmd 4 (if a.compression_enabled then 1 else 0)) a in
        let c = request_full accepts b in
        let fits_a = Keeps-Fits s a (write_frame-Keeps accepts _ s) h in
        let fits_b = Keeps-Fits a b (write_frame-Keeps accepts _ a) fits_a in
        let fits_c = Keeps-Fits b c (write_frame-Keeps accepts _ b) fits_b in
        InLoop_any _ (Keeps-Fits c _ (set_state-Keeps frame_loop c) fits_c)

    pub on_server_init-IsWithin :
        (info : ServerInit) (consumed : ℕ) (s : KvmSession Stream)
        → IsWithin (on_server_init accepts info consumed s).0
    unfolding on_server_init
    on_server_init-IsWithin info consumed s =
        let t : KvmSession Stream = record s {
          inbox = drop consumed s.inbox;
          width = info.width;
          height = info.height;
          signals = desktop_resized info.width info.height ∷ s.signals;
        } in
        elim (negotiate_cases t) [
          | inl (e, fits) ↦ rw (e, on_server_init) (configure-IsWithin _ fits)
          | inr (e, over) ↦ rw (e, on_server_init) (rw over tt)
        ]

    pub finish_rect-IsWithin :
        (consumed : ℕ) (s : KvmSession Stream)
        → IsWithin s
        → IsWithin (finish_rect accepts consumed s)
    unfolding finish_rect request_incremental
    finish_rect-IsWithin consumed s h = elim (Bool-cases (s.pending_rects - 1 == 0)) [
      | inl e ↦
          rw (e, finish_rect)
            (write_frame-IsWithin _
              (record s { inbox = drop consumed s.inbox; pending_rects = s.pending_rects - 1 }) h)
      | inr e ↦ rw (e, finish_rect) h
    ]

    pub on_desktop_size-IsWithin :
        (rect : RectHeader) (consumed : ℕ) (s : KvmSession Stream)
        → IsWithin (on_desktop_size accepts rect consumed s).0
    unfolding on_desktop_size request_full
    on_desktop_size-IsWithin rect consumed s =
        let u : KvmSession Stream = record s {
          width = rect.w;
          height = rect.h;
          signals = desktop_resized rect.w rect.h ∷ s.signals;
        } in
        let r : KvmSession Stream = (negotiate_pixel_format accepts u).0 in
        let t : KvmSession Stream = record r {
          inbox = drop consumed r.inbox;
          pending_rects = r.pending_rects - 1;
        } in
        elim (negotiate_cases u) [
          | inl (e, fits) ↦ elim (Bool-cases (r.pending_rects - 1 == 0)) [
            | inl last ↦
                rw (e, last, on_desktop_size) (write_frame-IsWithin _ t (InLoop_any r.state fits))
            | inr more ↦ rw (e, more, on_desktop_size) (InLoop_any r.state fits)
          ]
          | inr (e, over) ↦ rw (e, on_desktop_size) (rw over tt)
        ]

    pub on_outcome-IsWithin :
        (rect : RectHeader) (o : Outcome) (s : KvmSession Stream)
        → IsWithin s
        → IsWithin (on_outcome accepts rect o s).0
    unfolding on_outcome
    on_outcome-IsWithin rect (decoded image consumed) s h =
        finish_rect-IsWithin (12 + consumed)
          (record s { signals = tile_updated rect.x rect.y image ∷ s.signals }) h
    on_outcome-IsWithin rect desktop_size s h = on_desktop_size-IsWithin rect 12 s
    on_outcome-IsWithin rect nothing s h = finish_rect-IsWithin 12 s h
    on_outcome-IsWithin rect undefined s h = h
    on_outcome-IsWithin rect (failed_with ok) s h = h
    on_outcome-IsWithin rect (failed_with need_more) s h = h
    on_outcome-IsWithin rect (failed_with unsupported_encoding) s h =
        fail-IsWithin (encoding rect.encoding) s
    on_outcome-IsWithin rect (failed_with unsupported_subencoding) s h = fail-IsWithin subencoding s
    on_outcome-IsWithin rect (failed_with malformed) s h = fail-IsWithin malformed_rect s

    -- A change of state that is not to the frame loop needs nothing.
    pub entered :
        (t : State) (s : KvmSession Stream) → ((P : Type 0) → InLoop t P) → IsWithin (set_state t s)
    entered t s h = rw (set_state_lem t s) (h _)

    pub step_cut_text-IsWithin :
        (s : KvmSession Stream) → IsWithin s → IsWithin (step_cut_text accepts s).0
    unfolding step_cut_text
    step_cut_text-IsWithin s h =
        let len : ℕ = read32_be s.inbox 4 in
        if-IsWithin (ltb (length s.inbox) 8) _ _ h (
          if-IsWithin (ltb (1024 * 1024) len) _ _ (fail-IsWithin (cut_text_length len) s)
            (if-IsWithin (ltb (length s.inbox) (8 + len)) _ _ h h))

    pub step_update-IsWithin :
        (s : KvmSession Stream) → IsWithin s → IsWithin (step_update accepts s).0
    unfolding step_update
    step_update-IsWithin s h = elim (Option-cases (try_parse_frame_update s.inbox)) [
      | inl e ↦ rw (e, step_update) h
      | inr ((n, consumed), e) ↦ rw (e, step_update) h
    ]

    pub step_message-IsWithin :
        (tag : ℕ) (s : KvmSession Stream) → IsWithin s → IsWithin (step_message accepts tag s).0
    unfolding step_message
    step_message-IsWithin tag s h = if-IsWithin (tag == 0) _ _ (step_update-IsWithin s h) (
        if-IsWithin (tag == 2) _ _ h (
          if-IsWithin (tag == 3) _ _ (step_cut_text-IsWithin s h)
            (fail-IsWithin (unknown_message tag) s)))

    pub step_version-IsWithin :
        (s : KvmSession Stream) → IsWithin s → IsWithin (step_version accepts s).0
    unfolding step_version
    step_version-IsWithin s h = if-IsWithin (ltb (length s.inbox) 12) _ _ h (
        entered security
          (write_frame accepts build_version_response (record s { inbox = drop 12 s.inbox }))
          (λ P. tt))

    pub step_security-IsWithin :
        (s : KvmSession Stream) → IsWithin s → IsWithin (step_security accepts s).0
    unfolding step_security
    step_security-IsWithin s h = if-IsWithin (try_parse_security_types s.inbox == 0) _ _ h (
        entered auth_result
          (write_frame accepts build_security_choice
            (record s { inbox = drop (try_parse_security_types s.inbox) s.inbox }))
          (λ P. tt))

    pub step_auth_result-IsWithin :
        (s : KvmSession Stream) → IsWithin s → IsWithin (step_auth_result accepts s).0
    unfolding step_auth_result
    step_auth_result-IsWithin s h = if-IsWithin ((try_parse_security_result s.inbox).1 == 0) _ _ h (
        if-IsWithin (not (try_parse_security_result s.inbox).0) _ _ (fail-IsWithin auth_failed s) (
          entered server_init
            (write_frame accepts build_client_init
              (record s { inbox = drop (try_parse_security_result s.inbox).1 s.inbox }))
            (λ P. tt)))

    pub step_server_init-IsWithin :
        (s : KvmSession Stream) → IsWithin s → IsWithin (step_server_init accepts s).0
    unfolding step_server_init
    step_server_init-IsWithin s h = elim (Option-cases (try_parse_server_init s.inbox)) [
      | inl e ↦ rw (e, step_server_init) h
      | inr ((info, consumed), e) ↦
          rw (e, step_server_init) (on_server_init-IsWithin info consumed s)
    ]
