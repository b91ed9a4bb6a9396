-- ===== src/Ider/Session/Answered.antt =====
-- ider/src/ider_session.cpp: every command is answered.
use mesh_commander.Redir.Link.{Link, IsLink, is_taken}
use mesh_commander.Ider.Codec.{ScsiCommand}
use mesh_commander.Ider.State.{IderSession, Image, fail, write_next, interleaved_reads}
use mesh_commander.Ider.Commands.{handle_scsi}
use mesh_commander.Ider.Commands.Branches.{IsAnswer, handle_scsi-P}
use mesh_commander.Ider.Session.Keeps.{write_next-Keeps, write_next-taken}
use mesh_commander.Prelude.{
  ℕ, ◌+◌, ◌≡◌, refl, ◌⊎◌, inl, inr, Bool, true, false, List, ◌∷◌, ◌==◌, length,
}

module _ {C : Type 0} (sent : C → List (List ℕ)) where
  -- One frame answers, or a read begins and the timer is set, or the session fails over a second read.
  abbrev pub IsAnswered : IderSession C → IderSession C → Type 0
  IsAnswered s t =
      ((frame : List ℕ) × IsAnswer frame
        × (sent t.client ≡ frame ∷ sent s.client)
        × (t.in_flight ≡ s.in_flight)
        × (t.armed ≡ s.armed))
      ⊎ ((t.client ≡ s.client)
          × (s.in_flight ≡ false)
          × (t.in_flight ≡ true)
          × (t.armed ≡ s.armed + 1))
      ⊎ ((s.in_flight ≡ true) × (t ≡ fail interleaved_reads s))

module _ {C : Type 0} (link : Link C) (image : Image) (sent : C → List (List ℕ))
    (laws : IsLink link sent) where
  replied :
      (build : ℕ → List ℕ) (ready : Bool) (s : IderSession C)
      → ((n : ℕ) → IsAnswer (build n))
      → ((frame : List ℕ) → is_taken (link.write_bytes frame s.client).1 ≡ true)
      → IsAnswered sent s (write_next link build (record s { cd_ready = ready }))
  replied build ready s answers takes =
      let u : IderSession C = record s { cd_ready = ready } in
      let keeps = write_next-Keeps link build u in
      inl (
        build s.out_sequence,
        answers s.out_sequence,
        (write_next-taken link sent laws build u (takes (build s.out_sequence))).3,
        keeps.flight_eq,
        keeps.armed_eq,
      )

  -- When the connection takes what is written, a SCSI command that has a byte is answered by
  -- exactly one frame, data or the end of the command, with no change to the read under way; or
  -- it starts a read and one timer while no read was under way, with nothing sent; or a read
  -- was under way and the session fails over the second.
  pub handle_scsi-IsAnswered :
      (cmd : ScsiCommand) (s : IderSession C)
      → (length cmd.cdb == 0) ≡ false
      → ((frame : List ℕ) → is_taken (link.write_bytes frame s.client).1 ≡ true)
      → IsAnswered sent s (handle_scsi link image cmd s)
  handle_scsi-IsAnswered =
      handle_scsi-P link image
        (λ s t.
          ((frame : List ℕ) → is_taken (link.write_bytes frame s.client).1 ≡ true)
          → IsAnswered sent s t)
        (λ build s answers takes. replied build s.cd_ready s answers takes)
        (λ build s answers takes. replied build true s answers takes)
        (λ position remaining dev feature size s free takes. inr (inl (refl, free, refl, refl)))
        (λ s busy takes. inr (inr (busy, refl)))
