-- ===== src/Redir/SolSession/Closed.antt =====
-- redir/src/sol_session.cpp: a session that has been open and has failed.
use mesh_commander.Inbox.{drain-keeps}
use mesh_commander.Redir.Link.{Link}
use mesh_commander.Redir.SolSession.{
  SolSession, Reason, client_error, refused, unexpected_frame, fail, round, open_round, data_round,
  skip, append, reader, on_open_reply, on_display_data, Event, started, client_failed,
  keepalive_due, input, raw_bytes, on_event, on_events, on_raw_bytes, drain_inbox, send_input,
  on_client_failed,
}
use mesh_commander.Redir.Serial.{try_parse_sol_open_reply, try_parse_sol_display_data}
use mesh_commander.Prelude.{
  drop, ℕ, ◌≡◌, refl, inl, inr, Bool, true, false, not, List, [], ◌∷◌, ◌++◌, ltb, ◌==◌,
  if◌then◌else◌, length, get_or, Bool-cases, Option-cases,
}

-- An event other than a new start.
abbrev pub IsLater : Event → Type 0
IsLater started = ⊥
IsLater client_failed = Unit {0}
IsLater keepalive_due = Unit {0}
IsLater (input bytes) = Unit {0}
IsLater (raw_bytes chunk) = Unit {0}

abbrev pub AreLater : List Event → Type 0
AreLater [] = Unit {0}
AreLater (e ∷ events) = IsLater e × AreLater events

module _ {C : Type 0} (link : Link C) where
  -- Shut, with the client as it was in `s`: nothing has been written since.
  pub record IsClosed (s t : SolSession C) : Type 0 where
    pub same_client : t.client ≡ s.client
    pub shut : t.is_open ≡ false
    pub silent : t.keepalive ≡ false
    pub settled : t.settings_sent ≡ true

  with_inbox-IsClosed :
      (s t : SolSession C) (bytes : List ℕ) → IsClosed s t → IsClosed s (record t { inbox = bytes })
  with_inbox-IsClosed s t bytes h = record {
    same_client = h.same_client;
    shut = h.shut;
    silent = h.silent;
    settled = h.settled;
  }

  fail-IsClosed :
      (reason : Reason) (s t : SolSession C) → IsClosed s t → IsClosed s (fail link reason t)
  unfolding fail
  fail-IsClosed reason s t h = record {
    same_client = h.same_client;
    shut = refl;
    silent = refl;
    settled = h.settled;
  }

  if-IsClosed :
      (s : SolSession C) (b : Bool) (t u : SolSession C × Bool)
      → IsClosed s t.0
      → IsClosed s u.0
      → IsClosed s (if b then t else u).0
  if-IsClosed s true t u h k = h
  if-IsClosed s false t u h k = k

  when_false-IsClosed :
      (s : SolSession C) (b : Bool) (t u : SolSession C)
      → b ≡ false
      → IsClosed s u
      → IsClosed s (if b then t else u)
  when_false-IsClosed s true t u e h = absurd (cc)
  when_false-IsClosed s false t u e h = h

  when_not-IsClosed :
      (s : SolSession C) (b : Bool) (t u : SolSession C)
      → b ≡ false
      → IsClosed s t
      → IsClosed s (if not b then t else u)
  when_not-IsClosed s true t u e h = absurd (cc)
  when_not-IsClosed s false t u e h = h

  open_round-IsClosed : (s t : SolSession C) → IsClosed s t → IsClosed s (open_round link t).0
  unfolding open_round on_open_reply
  open_round-IsClosed s t h = elim (Option-cases (try_parse_sol_open_reply t.inbox)) [
    | inl e ↦ rw (e, open_round) h
    | inr ((status, consumed), e) ↦
        let u : SolSession C = record t { inbox = drop consumed t.inbox } in
        let k = with_inbox-IsClosed s t (drop consumed t.inbox) h in
        rw (e, open_round)
          (if-IsClosed s (not (status == 0)) _ _ (fail-IsClosed (refused status) s u k) (
            rw (h.settled) (record {
              same_client = h.same_client;
              shut = h.shut;
              silent = h.silent;
              settled = refl;
            })))
  ]

  data_round-IsClosed : (s t : SolSession C) → IsClosed s t → IsClosed s (data_round link t).0
  unfolding data_round on_display_data
  data_round-IsClosed s t h = elim (Option-cases (try_parse_sol_display_data t.inbox)) [
    | inl e ↦ rw (e, data_round) h
    | inr ((payload, consumed), e) ↦ elim (Bool-cases (length payload == 0)) [
      | inl nothing ↦
          rw (e, nothing, data_round) (with_inbox-IsClosed s t (drop consumed t.inbox) h)
      | inr some_shown ↦
          rw (e, some_shown, data_round)
            (record {
              same_client = h.same_client;
              shut = h.shut;
              silent = h.silent;
              settled = h.settled;
            })
    ]
  ]

  skip-IsClosed : (n : ℕ) (s t : SolSession C) → IsClosed s t → IsClosed s (skip link n t).0
  unfolding skip
  skip-IsClosed n s t h =
      if-IsClosed s (ltb (length t.inbox) n) _ _ h (with_inbox-IsClosed s t (drop n t.inbox) h)

  round-IsClosed : (s t : SolSession C) → IsClosed s t → IsClosed s (round link t).0
  unfolding round
  round-IsClosed s t h =
      let tag : ℕ = get_or t.inbox 0 0 in
      if-IsClosed s (tag == 0x21) _ _ (open_round-IsClosed s t h) (
        if-IsClosed s (tag == 0x2A) _ _ (data_round-IsClosed s t h) (
          if-IsClosed s (tag == 0x2B) _ _ (skip-IsClosed 8 s t h) (
            if-IsClosed s (tag == 0x29) _ _ (skip-IsClosed 10 s t h)
              (fail-IsClosed (unexpected_frame tag) s t h))))

  on_event-IsClosed :
      (e : Event) (s t : SolSession C) → IsLater e → IsClosed s t → IsClosed s (on_event link e t)
  unfolding on_event on_client_failed send_input on_raw_bytes drain_inbox append
  on_event-IsClosed started s t l h = absurd l
  on_event-IsClosed client_failed s t l h = fail-IsClosed client_error s t h
  on_event-IsClosed keepalive_due s t l h = when_false-IsClosed s t.keepalive _ t h.silent h
  on_event-IsClosed (input bytes) s t l h = when_not-IsClosed s t.is_open t _ h.shut h
  on_event-IsClosed (raw_bytes chunk) s t l h =
      drain-keeps (reader link) (IsClosed s) (round-IsClosed s) (append link chunk t)
        (with_inbox-IsClosed s t (t.inbox ++ chunk) h)

  on_events-IsClosed :
      (events : List Event) (s t : SolSession C)
      → AreLater events
      → IsClosed s t
      → IsClosed s (on_events link events t)
  unfolding on_events
  on_events-IsClosed [] s t l h = h
  on_events-IsClosed (e ∷ events) s t l h =
      on_events-IsClosed events s (on_event link e t) l.1 (on_event-IsClosed e s t l.0 h)

  -- After a session that has sent its settings fails, whatever is received, typed or due, and
  -- until it is started again, nothing is written to the client, the session stays shut and the
  -- keepalive timer stands still.
  pub on_events-shut :
      (reason : Reason) (events : List Event) (s : SolSession C)
      → s.settings_sent ≡ true
      → AreLater events
      → IsClosed s (on_events link events (fail link reason s))
  unfolding fail
  on_events-shut reason events s settled l =
      on_events-IsClosed events s (fail link reason s) l
        (record { same_client = refl; shut = refl; silent = refl; settled = settled })
