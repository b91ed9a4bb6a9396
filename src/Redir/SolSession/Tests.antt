-- ===== src/Redir/SolSession/Tests.antt =====
-- redir/src/sol_session.cpp on small inputs.
use mesh_commander.Inbox.{joined}
use mesh_commander.Wire.{read16_le}
use mesh_commander.Redir.Tests.{latin, hi}
use mesh_commander.Redir.Client.Tests.{sol_tls, takes_all, nonce_hi, encrypted_client}
use mesh_commander.Redir.Client.{whole, Client, authenticated, is_live, write_result, write_raw}
use mesh_commander.Redir.Link.{Link, client_link, client_link-IsLink}
use mesh_commander.Redir.Serial.{try_parse_sol_open_reply, try_parse_sol_display_data}
use mesh_commander.Redir.SolSession.{
  SolSession, client_error, keepalive_due, input, raw_bytes, fail, send_input, on_events,
}
use mesh_commander.Redir.SolSession.Frames.{
  open_reply, shown, Matches, receive_all, view, on_events-frames,
}
use mesh_commander.Redir.SolSession.Sending.{IsSentIn, send_input-pieces}
use mesh_commander.Redir.SolSession.Closed.{IsClosed, on_events-shut}
use mesh_commander.Prelude.{drop, replicate, ℕ, ◌≡◌, refl, true, false, List, [], ◌∷◌, ◌++◌, map}

-- A serial session behind the client, once it is authenticated.
abbrev pub sol_link : Link Client
sol_link = client_link latin sol_tls takes_all nonce_hi

abbrev pub sol_client : Client
sol_client = record encrypted_client { state = authenticated; awaiting_trust = false }

abbrev sol_session : SolSession Client
sol_session = record {
  client = sol_client;
  inbox = [];
  sequence = 2;
  is_open = false;
  settings_sent = false;
  keepalive = false;
  signals = [];
}

abbrev up_session : SolSession Client
up_session = record sol_session { is_open = true; settings_sent = true; keepalive = true }

abbrev open_bytes : List ℕ
open_bytes = 0x21 ∷ replicate 22 0

abbrev shown_bytes : List ℕ
shown_bytes = 0x2A ∷ 0 ∷ 0 ∷ 0 ∷ 0 ∷ 0 ∷ 0 ∷ 0 ∷ 2 ∷ 0 ∷ hi

-- The last frame is cut in two.
pub sol_takes :
    (frame : List ℕ) (c : Client)
    → is_live c.socket ≡ true
    → (sol_link.write_bytes frame c).1 ≡ whole
unfolding write_result
sol_takes frame c live = rw (live, write_result) refl

pub sol_stays :
    (frame : List ℕ) (c : Client)
    → is_live c.socket ≡ true
    → is_live (sol_link.write_bytes frame c).0.socket ≡ true
unfolding write_result write_raw
sol_stays frame c live = rw (live, write_result, write_raw) live

-- The last frame is cut in two.
on_events-frames_example :
    let r =
      on_events sol_link
        (map raw_bytes ((open_bytes ++ (0x2A ∷ [])) ∷ drop 1 shown_bytes ∷ []))
        (record sol_session { inbox = [] }) in
    (r.inbox ≡ [])
    × Matches sol_link
        (receive_all (open_reply ∷ shown hi ∷ []) (view sol_link sol_session))
        sol_session
        r
unfolding try_parse_sol_open_reply try_parse_sol_display_data read16_le joined
on_events-frames_example =
    on_events-frames sol_link (open_reply ∷ shown hi ∷ []) (open_bytes ∷ shown_bytes ∷ [])
      ((open_bytes ++ (0x2A ∷ [])) ∷ drop 1 shown_bytes ∷ []) sol_session
      ((refl, refl), ((refl, refl), tt)) refl refl refl

send_input-pieces_example :
    (pieces : List (List ℕ)) × IsSentIn
      (λ c. c.raw_sent)
      hi
      up_session
      (send_input sol_link hi up_session)
      pieces
unfolding is_live
send_input-pieces_example =
    send_input-pieces sol_link (λ c. c.raw_sent)
      (client_link-IsLink latin sol_tls takes_all nonce_hi) (λ c. is_live c.socket ≡ true) sol_takes
      sol_stays hi up_session refl refl

on_events-shut_example : IsClosed sol_link up_session (
    on_events sol_link
      (raw_bytes open_bytes ∷ input hi ∷ keepalive_due ∷ [])
      (fail sol_link client_error up_session))
on_events-shut_example =
    on_events-shut sol_link client_error (raw_bytes open_bytes ∷ input hi ∷ keepalive_due ∷ [])
      up_session refl (tt, (tt, (tt, tt)))
