-- ===== src/Ider/Session/Tests.antt =====
-- ider/src/ider_session.cpp on small inputs.
use mesh_commander.Redir.Tests.{latin}
use mesh_commander.Redir.Client.Tests.{sol_tls, takes_all, nonce_hi}
use mesh_commander.Redir.Client.{state_code, write_result, Client, is_live}
use mesh_commander.Redir.SolSession.Tests.{sol_link, sol_client, sol_takes, sol_stays}
use mesh_commander.Redir.Link.{client_link-IsLink, is_taken}
use mesh_commander.Inbox.{rounds}
use mesh_commander.Ider.Codec.{ScsiCommand}
use mesh_commander.Ider.State.{IderSession, Image, Settings, started, timer, raw_bytes}
use mesh_commander.Ider.Commands.{start_read, handle_scsi}
use mesh_commander.Ider.Session.{start, reader, on_events}
use mesh_commander.Ider.Session.Answered.{IsAnswered, handle_scsi-IsAnswered}
use mesh_commander.Ider.Session.Sound.{IsTimed, drain_rounds_end}
use mesh_commander.Ider.Session.Timer.{on_events-IsTimed}
use mesh_commander.Ider.Session.Reads.{IsDelivered, timers, start_read-delivers}
use mesh_commander.Prelude.{
  length-replicate, replicate, ℕ, zero, suc, ◌+◌, ◌≡◌, refl, ap, ◌∙◌, true, false, List, [], ◌∷◌,
  ◌++◌, arith,
}

zeros_add : (n m : ℕ) → replicate {A = ℕ} (n + m) 0 ≡ replicate {A = ℕ} n 0 ++ replicate {A = ℕ} m 0
zeros_add zero m = ap (λ (k : ℕ). replicate {A = ℕ} k 0) (omega arith)
zeros_add (suc n) m =
    let e : suc n + m ≡ suc (n + m) = omega arith in
    ap (λ (k : ℕ). replicate {A = ℕ} k 0) e ∙ ap (◌∷◌ 0) (zeros_add n m)

-- A file of zeros without an end.
abbrev zeros : Image
zeros = record {
  seek = λ p. true;
  read_at = λ p n. replicate n 0;
  length-read_at = λ p n. omega (arith, length-replicate {A = ℕ} n 0);
  read_at_add = λ p n m. zeros_add n m;
}

abbrev disc : Settings
disc = record { start_option = 0x10; has_path = true; can_open = true; file_size = 4096 }

abbrev disc_session : IderSession Client
disc_session = record {
  client = sol_client;
  is_open = true;
  iso_size = 4096;
  position = 0;
  info = record {
    major = 0;
    minor = 0;
    fw_major = 0;
    fw_minor = 0;
    read_buffer = 512;
    write_buffer = 512;
    proto = 0;
    iana = 0;
    oem_data = [];
  };
  inbox = [];
  out_sequence = 7;
  bytes_sent = 0;
  bytes_received = 0;
  opened = true;
  enabled = true;
  cd_ready = true;
  remaining = 0;
  chunk_dev = 0;
  chunk_feature = 0;
  chunk_size = 0;
  in_flight = false;
  armed = 0;
  signals = [];
}

disc_takes :
    (frame : List ℕ) (c : Client)
    → is_live c.socket ≡ true
    → is_taken (sol_link.write_bytes frame c).1 ≡ true
unfolding is_taken
disc_takes frame c live = ap is_taken (sol_takes frame c live)

-- Block 1 in four chunks.
start_read-delivers_example :
    (pieces : List (List ℕ)) × IsDelivered sol_link zeros disc
      (λ c. c.raw_sent)
      (record disc_session { chunk_dev = 0xB0; chunk_feature = 0; chunk_size = 512 })
      (replicate 2048 0)
      (on_events sol_link zeros disc
        (timers 2048)
        (start_read sol_link zeros 0xB0 0 1 1 disc_session))
      pieces
unfolding is_live
start_read-delivers_example =
    start_read-delivers sol_link zeros disc (λ c. c.raw_sent)
      (client_link-IsLink latin sol_tls takes_all nonce_hi) (λ c. is_live c.socket ≡ true)
      disc_takes sol_stays 2048 0xB0 0 1 1 disc_session refl refl refl refl (omega arith)
      (omega arith) (omega arith) refl (length-replicate {A = ℕ} 2048 0)

-- TEST UNIT READY.
abbrev test_ready : ScsiCommand
test_ready = record { device_flags = 0x10; feature_register = 0; cdb = replicate 12 0 }

handle_scsi-IsAnswered_example :
    IsAnswered (λ c. c.raw_sent) disc_session (handle_scsi sol_link zeros test_ready disc_session)
unfolding is_live
handle_scsi-IsAnswered_example =
    handle_scsi-IsAnswered sol_link zeros (λ c. c.raw_sent)
      (client_link-IsLink latin sol_tls takes_all nonce_hi) test_ready disc_session refl
      (λ frame. disc_takes frame sol_client refl)

-- A second start opens the image again; one that cannot closes it.
opened_again : (start sol_link zeros disc disc_session).is_open ≡ true
unfolding start is_live state_code is_taken write_result
opened_again = refl

not_opened_again :
    (start sol_link zeros (record disc { can_open = false }) disc_session).is_open ≡ false
unfolding start state_code
not_opened_again = refl

on_events-IsTimed_example : IsTimed (
    on_events sol_link zeros disc
      (started ∷ raw_bytes (0x44 ∷ replicate 7 0) ∷ timer ∷ [])
      disc_session)
on_events-IsTimed_example =
    on_events-IsTimed sol_link zeros disc (started ∷ raw_bytes (0x44 ∷ replicate 7 0) ∷ timer ∷ [])
      disc_session refl

drain_rounds_end_example :
    (rounds
      (reader sol_link zeros disc)
      10
      (record disc_session { inbox = 0x44 ∷ replicate 7 0 })).1
    ≡ true
drain_rounds_end_example =
    drain_rounds_end sol_link zeros disc 10 (record disc_session { inbox = 0x44 ∷ replicate 7 0 })
      (omega arith)
