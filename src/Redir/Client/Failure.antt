-- ===== src/Redir/Client/Failure.antt =====
-- redir/src/redir_client.cpp: a client that has failed.
use mesh_commander.Redir.Client.{
  Reason, failed, Client, Settings, Written, error, fail, write_result, write_raw, handle_connected,
  trust_pending_peer_cert, is_ssl, is_live, contains, Event, connect, disconnect, connected,
  queued_connected, trust, tunnel, encrypted, ready_read, raw_write, socket_error, on_event,
  on_events, selector_not_written,
}
use mesh_commander.Redir.Client.Fields.{fail_lem, fail-sent, fail-raw, fail-dead}
use mesh_commander.Redir.Codec.{Qt, build_selector}
use mesh_commander.Prelude.{
  ℕ, ◌+◌, ◌-◌, ◌≡◌, refl, ◌∙◌, Bool, true, false, not, ◌||◌, List, [], ◌∷◌, ◌++◌, ltb, ◌==◌,
  if◌then◌else◌, length,
}

-- An event that makes no new connection.
abbrev pub IsLater : Event → Type 0
IsLater connect = ⊥
IsLater disconnect = ⊥
IsLater connected = Unit {0}
IsLater queued_connected = Unit {0}
IsLater trust = Unit {0}
IsLater (tunnel opened adopted) = ⊥
IsLater (encrypted certificate) = Unit {0}
IsLater (ready_read chunk) = Unit {0}
IsLater (raw_write bytes) = Unit {0}
IsLater (socket_error closed_by_peer) = Unit {0}

abbrev pub AreLater : List Event → Type 0
AreLater [] = Unit {0}
AreLater (e ∷ events) = IsLater e × AreLater events

-- Failed, with its socket aborted, and with the same frames sent as `s`.
pub record IsClosed (s t : Client) : Type 0 where
  pub in_failed : t.state ≡ failed
  pub dead : is_live t.socket ≡ false
  pub same_sent : t.sent ≡ s.sent
  pub same_raw : t.raw_sent ≡ s.raw_sent

if-IsClosed :
    (s : Client) (b : Bool) (t u : Client)
    → IsClosed s t
    → IsClosed s u
    → IsClosed s (if b then t else u)
if-IsClosed s true t u h k = h
if-IsClosed s false t u h k = k

module _ (qt : Qt) (set : Settings) (socket : ℕ → List ℕ → Written) (nonces : ℕ → List ℕ) where
  dead_write :
      (bytes : List ℕ) (s : Client)
      → is_live s.socket ≡ false
      → write_result qt set socket nonces bytes s ≡ error
  unfolding write_result
  dead_write bytes s h = rw (h, write_result) refl

  handle_connected-IsClosed :
      (s t : Client) → IsClosed s t → IsClosed s (handle_connected qt set socket nonces t)
  unfolding handle_connected
  handle_connected-IsClosed s t h =
      let u : Client = record t { writes = t.writes + 1 } in
      rw (dead_write (build_selector set.protocol) t h.dead, handle_connected)
        (record {
          in_failed = fail_lem selector_not_written u;
          dead = fail-dead selector_not_written u;
          same_sent = fail-sent selector_not_written u ∙ h.same_sent;
          same_raw = fail-raw selector_not_written u ∙ h.same_raw;
        })

  on_event-IsClosed :
      (e : Event) (s t : Client)
      → IsLater e
      → IsClosed s t
      → IsClosed s (on_event qt set socket nonces e t)
  unfolding on_event trust_pending_peer_cert write_raw
  on_event-IsClosed connect s t l h = absurd l
  on_event-IsClosed disconnect s t l h = absurd l
  on_event-IsClosed (tunnel opened adopted) s t l h = absurd l
  on_event-IsClosed connected s t l h = rw (h.dead, on_event) h
  on_event-IsClosed queued_connected s t l h =
      let u : Client = record t { queued = t.queued - 1 } in
      if-IsClosed s (ltb 0 t.queued) _ t
        (handle_connected-IsClosed s u (record {
          in_failed = h.in_failed;
          dead = h.dead;
          same_sent = h.same_sent;
          same_raw = h.same_raw;
        }))
        h
  on_event-IsClosed trust s t l h =
      let known : Bool = length t.pending_cert == 0 || contains t.trusted t.pending_cert in
      let trusted : List (List ℕ) =
        if known then t.trusted else t.trusted ++ (t.pending_cert ∷ []) in
      let u : Client = record t { trusted = trusted; awaiting_trust = false } in
      if-IsClosed s (not (is_ssl t.socket) || not t.awaiting_trust) t _ h (
        handle_connected-IsClosed s u (record {
          in_failed = h.in_failed;
          dead = h.dead;
          same_sent = h.same_sent;
          same_raw = h.same_raw;
        }))
  on_event-IsClosed (encrypted certificate) s t l h = rw (h.dead, on_event) h
  on_event-IsClosed (ready_read chunk) s t l h = rw (h.dead, on_event) h
  on_event-IsClosed (raw_write bytes) s t l h =
      rw (dead_write bytes t h.dead, on_event, write_raw)
        (record {
          in_failed = h.in_failed;
          dead = h.dead;
          same_sent = h.same_sent;
          same_raw = h.same_raw;
        })
  on_event-IsClosed (socket_error closed_by_peer) s t l h = rw (h.dead, on_event) h

  on_events-IsClosed :
      (events : List Event) (s t : Client)
      → AreLater events
      → IsClosed s t
      → IsClosed s (on_events qt set socket nonces events t)
  unfolding on_events
  on_events-IsClosed [] s t l h = h
  on_events-IsClosed (e ∷ events) s t l h =
      on_events-IsClosed events s (on_event qt set socket nonces e t) l.1
        (on_event-IsClosed e s t l.0 h)

  -- After a failure, whatever is received, written, trusted or reported of the socket, and
  -- until a new connection, tunnel or disconnection, the client stays failed with its socket
  -- aborted, and has sent nothing more, neither frames of its own nor raw bytes.
  pub on_events-fail :
      (reason : Reason) (events : List Event) (s : Client)
      → AreLater events
      → IsClosed s (on_events qt set socket nonces events (fail reason s))
  on_events-fail reason events s l = on_events-IsClosed events s (fail reason s) l (record {
    in_failed = fail_lem reason s;
    dead = fail-dead reason s;
    same_sent = fail-sent reason s;
    same_raw = fail-raw reason s;
  })
