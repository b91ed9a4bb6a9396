-- ===== src/Redir/SolSession/Reading.antt =====
-- redir/src/sol_session.cpp: drainInbox on a stream that arrives in chunks.
use mesh_commander.Inbox.{IsReader}
use mesh_commander.Redir.Link.{Link}
use mesh_commander.Redir.SolSession.{
  refused, SolSession, Signal, session_opened, data_shown, closed, unexpected_frame, round,
  open_round, data_round, skip, append, reader, fail, on_open_reply, on_display_data, write,
  next_sequence,
}
use mesh_commander.Redir.Codec.Stream.{sol_open_reply-IsStreaming, sol_display_data-IsStreaming}
use mathlib.Core.List.{append-nil, append_assoc}
use mesh_commander.Redir.Serial.{
  build_sol_settings, try_parse_sol_open_reply, try_parse_sol_display_data,
}
use mesh_commander.Prelude.{
  get_or-append_left, ℕ, suc, ◌≤◌, ◌<◌, ◌≡◌, refl, ap, ◌⊎◌, inl, inr, Bool, true, false, not, List,
  [], ◌∷◌, ◌++◌, some, ltb, ◌==◌, if◌then◌else◌, length, get_or, Bool-cases, Option-cases, arith,
  length-drop, drop-append_left, drop, length-append,
}

unfoldable pub closings : List Signal → ℕ
closings [] = 0
closings (session_opened ∷ signals) = closings signals
closings (data_shown bytes ∷ signals) = closings signals
closings (closed reason ∷ signals) = suc (closings signals)

pub open_reply_bounds :
    (buffer : List ℕ) (status consumed : ℕ)
    → try_parse_sol_open_reply buffer ≡ some (status, consumed)
    → (consumed ≤ length buffer) × (1 ≤ consumed)
unfolding try_parse_sol_open_reply
open_reply_bounds buffer status consumed e = ground arith

pub display_data_bounds :
    (buffer payload : List ℕ) (consumed : ℕ)
    → try_parse_sol_display_data buffer ≡ some (payload, consumed)
    → (consumed ≤ length buffer) × (1 ≤ consumed)
unfolding try_parse_sol_display_data
display_data_bounds buffer payload consumed e = ground arith

module _ {C : Type 0} (link : Link C) where
  abbrev pub failures : SolSession C → ℕ
  failures s = closings s.signals

  -- What a round does to a session, and to the same session with more bytes.
  abbrev Turning : List ℕ → SolSession C → SolSession C × Bool → SolSession C × Bool → Type 0
  Turning more s r r' =
      (r ≡ (s, false))
      ⊎ ((t : SolSession C) × ((r ≡ (t, true)) × (r' ≡ (append link more t, true)))
          × (length t.inbox < length s.inbox)
          × (failures t ≡ failures s))
      ⊎ ((t : SolSession C) × ((r ≡ (t, false)) × (r' ≡ (append link more t, false)))
          × (failures s < failures t))

  if-Turning :
      (more : List ℕ) (s : SolSession C) (b : Bool) (r r' u u' : SolSession C × Bool)
      → Turning more s r r'
      → Turning more s u u'
      → Turning more s (if b then r else u) (if b then r' else u')
  if-Turning more s true r r' u u' h k = h
  if-Turning more s false r r' u u' h k = k

  skip-Turning :
      (more : List ℕ) (n : ℕ) (s : SolSession C)
      → 0 < n
      → Turning more s (skip link n s) (skip link n (append link more s))
  unfolding skip append
  skip-Turning more n s h = elim (Bool-cases (ltb (length s.inbox) n)) [
    | inl e ↦ inl (rw (e, skip) refl)
    | inr e ↦
        let e' : ltb (length (s.inbox ++ more)) n ≡ false =
          rw (length-append s.inbox more) (ground arith) in
        let cut : drop n (s.inbox ++ more) ≡ drop n s.inbox ++ more =
          drop-append_left n s.inbox more (ground arith) in
        inr (
          inl (
            record s { inbox = drop n s.inbox },
            (rw (e, skip) refl, rw (e', cut, skip) refl),
            rw (length-drop n s.inbox) (ground arith),
            refl,
          ))
  ]

  fail-Turning :
      (more : List ℕ) (s : SolSession C) (tag : ℕ)
      → Turning more s
          (fail link (unexpected_frame tag) s, false)
          (fail link (unexpected_frame tag) (append link more s), false)
  unfolding fail append closings
  fail-Turning more s tag =
      inr (inr (fail link (unexpected_frame tag) s, (refl, refl), omega arith))

  -- The session behind its first reply.
  abbrev pub opened : SolSession C → SolSession C
  opened s =
      let t : SolSession C = write link (build_sol_settings s.sequence) (next_sequence link s) in
      record t {
        settings_sent = true;
        is_open = true;
        keepalive = true;
        signals = session_opened ∷ t.signals;
      }

  -- What a reply makes of a session whose frame is taken off.
  on_open_reply-Turning :
      (more : List ℕ) (status : ℕ) (s t : SolSession C)
      → length t.inbox < length s.inbox
      → failures t ≡ failures s
      → Turning more s
          (on_open_reply link status t)
          (on_open_reply link status (append link more t))
  unfolding on_open_reply fail append closings write next_sequence
  on_open_reply-Turning more status s t less same =
      if-Turning more s (not (status == 0)) _ _ _ _
        (inr (inr (fail link (refused status) t, (refl, refl), omega (arith, same))))
        (if-Turning more s t.settings_sent _ _ _ _ (inr (inl (t, (refl, refl), less, same)))
          (inr (inl (opened t, (refl, refl), less, same))))

  on_display_data-Turning :
      (more payload : List ℕ) (s t : SolSession C)
      → length t.inbox < length s.inbox
      → failures t ≡ failures s
      → Turning more s
          (on_display_data link payload t)
          (on_display_data link payload (append link more t))
  unfolding on_display_data append closings
  on_display_data-Turning more payload s t less same = elim (Bool-cases (length payload == 0)) [
    | inl e ↦
        inr (inl (t, (rw (e, on_display_data) refl, rw (e, on_display_data) refl), less, same))
    | inr e ↦ inr (
        inl (
          record t { signals = data_shown payload ∷ t.signals },
          (rw (e, on_display_data) refl, rw (e, on_display_data) refl),
          less,
          same,
        ))
  ]

  cut :
      (consumed : ℕ) (more bytes : List ℕ)
      → consumed ≤ length bytes
      → drop consumed (bytes ++ more) ≡ drop consumed bytes ++ more
  cut consumed more bytes h = drop-append_left consumed bytes more h

  open_round-Turning :
      (more : List ℕ) (s : SolSession C)
      → Turning more s (open_round link s) (open_round link (append link more s))
  unfolding open_round append
  open_round-Turning more s = elim (Option-cases (try_parse_sol_open_reply s.inbox)) [
    | inl e ↦ inl (rw (e, open_round) refl)
    | inr ((status, consumed), e) ↦
        let bounds = open_reply_bounds s.inbox status consumed e in
        let e' = (sol_open_reply-IsStreaming s.inbox more status consumed e).1 in
        rw (e, e', cut consumed more s.inbox bounds.0, open_round)
          (on_open_reply-Turning more status s (record s { inbox = drop consumed s.inbox })
            (omega (arith, bounds, length-drop consumed s.inbox)) refl)
  ]

  data_round-Turning :
      (more : List ℕ) (s : SolSession C)
      → Turning more s (data_round link s) (data_round link (append link more s))
  unfolding data_round append
  data_round-Turning more s = elim (Option-cases (try_parse_sol_display_data s.inbox)) [
    | inl e ↦ inl (rw (e, data_round) refl)
    | inr ((payload, consumed), e) ↦
        let bounds = display_data_bounds s.inbox payload consumed e in
        let e' = (sol_display_data-IsStreaming s.inbox more payload consumed e).1 in
        rw (e, e', cut consumed more s.inbox bounds.0, data_round)
          (on_display_data-Turning more payload s (record s { inbox = drop consumed s.inbox })
            (omega (arith, bounds, length-drop consumed s.inbox)) refl)
  ]

  round-Turning :
      (more : List ℕ) (s : SolSession C)
      → (length s.inbox == 0) ≡ false
      → Turning more s (round link s) (round link (append link more s))
  unfolding round append
  round-Turning more s h =
      let tag : ℕ = get_or s.inbox 0 0 in
      let same : get_or (s.inbox ++ more) 0 0 ≡ tag =
        get_or-append_left s.inbox more 0 0 (ground arith) in
      rw (same, round)
        (if-Turning more s (tag == 0x21) _ _ _ _ (open_round-Turning more s) (
          if-Turning more s (tag == 0x2A) _ _ _ _ (data_round-Turning more s) (
            if-Turning more s (tag == 0x2B) _ _ _ _ (skip-Turning more 8 s (omega arith)) (
              if-Turning more s (tag == 0x29) _ _ _ _ (skip-Turning more 10 s (omega arith))
                (fail-Turning more s tag)))))

  pub reader-IsReader : IsReader (reader link) failures
  unfolding append
  reader-IsReader = record {
    inbox-append = λ more s. refl;
    append-append = λ more more' s.
        ap (λ (b : List ℕ). record s { inbox = b }) (append_assoc s.inbox more more');
    append_nothing = λ s. ap (λ (b : List ℕ). record s { inbox = b }) (append-nil s.inbox);
    count-append = λ more s. refl;
    turn = round-Turning;
  }
