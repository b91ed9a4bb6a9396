-- ===== src/Ider/Session/Reads.antt =====
-- ider/src/ider_session.cpp: a read is answered with the bytes of the image, chunk by chunk.
use mesh_commander.Inbox.{joined}
use mathlib.Core.Path.{subst}
use mesh_commander.Redir.Link.{IsLink, Link, is_taken}
use mesh_commander.Ider.Codec.{build_send_data_to_host}
use mesh_commander.Ider.State.{
  IderSession, Image, Settings, Event, timer, stats_changed, write_frame, write_next, send_data,
  is_dma,
}
use mesh_commander.Ider.Commands.{start_read, send_next_scsi_chunk}
use mesh_commander.Ider.Session.{max_read_cap, on_event, on_events, on_timer}
use mesh_commander.Prelude.{
  if-true, if-false, ℕ, zero, suc, ◌+◌, ◌-◌, ◌*◌, ◌/◌, ◌%◌, ◌^◌, ◌≤◌, min, ◌≡◌, refl, sym, ap, ◌∙◌,
  inl, inr, Bool, true, false, not, List, [], ◌∷◌, ◌++◌, ltb, ◌==◌, if◌then◌else◌, length,
  Bool-cases, arith, length-append,
}

-- The timer fires `n` times.
abbrev pub timers : ℕ → List Event
timers zero = []
timers (suc n) = timer ∷ timers n

abbrev pub AllFit : ℕ → List (List ℕ) → Type 0
AllFit size [] = Unit {0}
AllFit size (piece ∷ pieces) = (1 ≤ length piece) × (length piece ≤ size) × AllFit size pieces

-- The frames of a read in front of those sent before, the latest first: numbered one after the other,
-- and the last one with the completion.
abbrev pub read_frames : ℕ → ℕ → Bool → List (List ℕ) → List (List ℕ) → List (List ℕ)
read_frames sequence dev dma [] older = older
read_frames sequence dev dma (piece ∷ pieces) older =
    read_frames ((sequence + 1) % 2 ^ 32) dev dma pieces
      (build_send_data_to_host sequence dev (length pieces == 0) piece dma ∷ older)

no_bytes : (bytes : List ℕ) → length bytes ≡ 0 → bytes ≡ []
no_bytes [] e = refl
no_bytes (b ∷ bytes) e = absurd (omega arith)

chunk_pos : (size : ℕ) → 1 ≤ (if ltb 0 size then size else max_read_cap)
chunk_pos size = ground arith

not_empty : (piece : List ℕ) (pieces : List (List ℕ)) → (length (piece ∷ pieces) == 0) ≡ false
not_empty piece pieces = ground arith

some_bytes : (left : ℕ) → ltb 0 left ≡ true → (left == 0) ≡ false
some_bytes left h = ground arith

none_left : (left : ℕ) → ltb 0 left ≡ false → left ≡ 0
none_left left h = ground arith

no_more : (left : ℕ) → ltb 0 left ≡ false → (left == 0) ≡ true
no_more left h = ground arith

module _ {C : Type 0} (link : Link C) (image : Image) (set : Settings) where
  -- The session behind a write that is taken.
  abbrev wrote : (ℕ → List ℕ) → IderSession C → IderSession C
  wrote build s =
      let frame : List ℕ = build s.out_sequence in
      let sent : ℕ = (s.bytes_sent + length frame) % 2 ^ 64 in
      record s {
        client = (link.write_bytes frame s.client).0;
        out_sequence = (s.out_sequence + 1) % 2 ^ 32;
        bytes_sent = sent;
        signals = stats_changed sent s.bytes_received ∷ s.signals;
      }

  write_next-wrote :
      (build : ℕ → List ℕ) (s : IderSession C)
      → is_taken (link.write_bytes (build s.out_sequence) s.client).1 ≡ true
      → write_next link build s ≡ wrote build s
  unfolding write_next write_frame
  write_next-wrote build s e = if-true _ _ _ e

  -- A session that has `rem` bytes from `pos` on to send, with its timer set.
  abbrev reading : IderSession C → ℕ → ℕ → IderSession C
  reading s pos rem = record s {
    is_open = true;
    in_flight = true;
    armed = 1;
    position = pos;
    remaining = rem;
  }

  -- The session behind one chunk of `want` bytes.
  abbrev chunk_sent : IderSession C → ℕ → ℕ → ℕ → IderSession C
  chunk_sent s pos want left =
      wrote
        (λ n.
          build_send_data_to_host n s.chunk_dev (left == 0) (image.read_at pos want)
            (is_dma s.chunk_feature))
        s

  one_chunk :
      (s : IderSession C) (pos rem : ℕ)
      → let want = min rem s.chunk_size in
        let left = rem - want in
        let t = chunk_sent s pos want left in
        ((frame : List ℕ) → is_taken (link.write_bytes frame s.client).1 ≡ true)
        → 1 ≤ rem
        → length (image.read_at pos want) ≡ want
        → on_timer link image set (reading s pos rem) ≡ (
            if ltb 0 left
            then reading t (pos + length (image.read_at pos want)) left
            else record (reading t (pos + length (image.read_at pos want)) left) {
              in_flight = false;
              armed = 0;
            })
  unfolding on_timer send_next_scsi_chunk send_data
  one_chunk s pos rem takes some_left whole_chunk =
      let want : ℕ = min rem s.chunk_size in
      let bytes : List ℕ = image.read_at pos want in
      let left : ℕ = rem - want in
      let build : ℕ → List ℕ =
        λ n. build_send_data_to_host n s.chunk_dev (left == 0) bytes (is_dma s.chunk_feature) in
      let u : IderSession C = record (reading s (pos + length bytes) left) { armed = 0 } in
      let sent = write_next-wrote build u (takes (build s.out_sequence)) in
      if-false (rem == 0) _ _ (ground arith)
      ∙ if-false (not (length bytes == want)) _ _ (ground arith)
      ∙ ap
          (λ (t : IderSession C).
            if ltb 0 left then record t { armed = t.armed + 1 } else record t { in_flight = false })
          sent

  idle :
      (n : ℕ) (s : IderSession C)
      → on_events link image set (timers n) (record s { armed = 0 }) ≡ record s { armed = 0 }
  unfolding on_events on_event on_timer
  idle zero s = refl
  idle (suc n) s = idle n s

  -- The bytes from `pos` on, in pieces, each in a frame, behind which the session is at rest.
  abbrev pub IsDelivered :
      (C → List (List ℕ)) → IderSession C → List ℕ → IderSession C → List (List ℕ) → Type 0
  IsDelivered sent s bytes r pieces =
      (joined pieces ≡ bytes)
      × AllFit s.chunk_size pieces
      × (sent r.client
          ≡ read_frames s.out_sequence s.chunk_dev (is_dma s.chunk_feature) pieces (sent s.client))
      × (r.in_flight ≡ false)
      × (r.armed ≡ 0)

  abbrev Delivers : (C → List (List ℕ)) → IderSession C → List ℕ → IderSession C → Type 0
  Delivers sent s bytes r =
      (pieces : List (List ℕ)) × IsDelivered sent s bytes r pieces × ((length pieces == 0) ≡ false)

  -- A read of `rem` bytes is one of `want` and the rest.
  split_read :
      (pos rem want : ℕ)
      → want ≤ rem
      → image.read_at pos rem ≡ image.read_at pos want ++ image.read_at (pos + want) (rem - want)
  split_read pos rem want h =
      let e : rem ≡ want + (rem - want) = omega arith in
      ap (image.read_at pos) e ∙ image.read_at_add pos want (rem - want)

  whole_parts :
      (pos rem want : ℕ)
      → want ≤ rem
      → length (image.read_at pos rem) ≡ rem
      → (length (image.read_at pos want) ≡ want)
        × (length (image.read_at (pos + want) (rem - want)) ≡ rem - want)
  whole_parts pos rem want h whole_read =
      let first : List ℕ = image.read_at pos want in
      let rest : List ℕ = image.read_at (pos + want) (rem - want) in
      let sum : length first + length rest ≡ rem =
        sym (length-append first rest)
        ∙ sym (ap (λ (b : List ℕ). length b) (split_read pos rem want h))
        ∙ whole_read in
      let most = image.length-read_at pos want in
      let most' = image.length-read_at (pos + want) (rem - want) in (omega arith, omega arith)

  module _ (sent : C → List (List ℕ)) (laws : IsLink link sent) (Ready : C → Type 0)
      (takes : (frame : List ℕ) (c : C) → Ready c → is_taken (link.write_bytes frame c).1 ≡ true)
      (stays : (frame : List ℕ) (c : C) → Ready c → Ready (link.write_bytes frame c).0) where
    set_fields :
        (u : IderSession C) (pos rem : ℕ)
        → u.is_open ≡ true
        → u.armed ≡ 0
        → record u { position = pos; remaining = rem; in_flight = true; armed = u.armed + 1 }
          ≡ reading u pos rem
    set_fields u pos rem up unset =
        ap
          (λ (b : Bool). record u {
            is_open = b;
            position = pos;
            remaining = rem;
            in_flight = true;
            armed = u.armed + 1;
          })
          up
        ∙ ap
            (λ (k : ℕ). record u {
              is_open = true;
              position = pos;
              remaining = rem;
              in_flight = true;
              armed = k + 1;
            })
            unset

    abbrev framed : IderSession C → List ℕ → Bool → List (List ℕ)
    framed s piece completed =
        build_send_data_to_host s.out_sequence s.chunk_dev completed piece (is_dma s.chunk_feature)
        ∷ sent s.client

    delivers :
        (n : ℕ) (s : IderSession C) (pos rem : ℕ)
        → Ready s.client
        → 1 ≤ s.chunk_size
        → 1 ≤ rem
        → rem ≤ n
        → length (image.read_at pos rem) ≡ rem
        → Delivers sent s
            (image.read_at pos rem)
            (on_events link image set (timers n) (reading s pos rem))
    unfolding on_events on_event joined
    delivers zero s pos rem ready size some_left enough whole_read = absurd (omega arith)
    delivers (suc n) s pos rem ready size some_left enough whole_read =
        let want : ℕ = min rem s.chunk_size in
        let left : ℕ = rem - want in
        let piece : List ℕ = image.read_at pos want in
        let t : IderSession C = chunk_sent s pos want left in
        let frame : List ℕ =
          build_send_data_to_host s.out_sequence s.chunk_dev (left == 0) piece
            (is_dma s.chunk_feature) in
        let parts = whole_parts pos rem want (omega arith) whole_read in
        let split = split_read pos rem want (omega arith) in
        let A : IderSession C = reading t (pos + want) left in
        let B : IderSession C = record A { in_flight = false; armed = 0 } in
        let next : on_timer link image set (reading s pos rem) ≡ (if ltb 0 left then A else B) =
          one_chunk s pos rem (λ f. takes f s.client ready) some_left parts.0
          ∙ ap
              (λ (k : ℕ).
                if ltb 0 left
                then reading t (pos + k) left
                else record (reading t (pos + k) left) { in_flight = false; armed = 0 })
              parts.0 in
        let now = laws.sent-write frame s.client (takes frame s.client ready) in
        let run = on_events link image set (timers n) in
        let bytes : List ℕ = image.read_at pos rem in
        let fits : (1 ≤ length piece) × (length piece ≤ s.chunk_size) =
          (omega (arith, parts.0), omega (arith, parts.0)) in
        elim (Bool-cases (ltb 0 left)) [
          | inl more ↦
              let (pieces, (all, fit, later, off, quiet), some_pieces) =
                delivers n t (pos + want) left (stays frame s.client ready) size (ground arith)
                  (ground arith) parts.1 in
              let flag : (left == 0) ≡ (length pieces == 0) =
                some_bytes left more ∙ sym some_pieces in
              subst (Delivers sent s bytes) (sym (ap run (next ∙ if-true (ltb 0 left) A B more))) (
                piece ∷ pieces,
                (
                  ap (◌++◌ piece) all ∙ sym split,
                  (fits.0, fits.1, fit),
                  later
                      ∙ ap (read_frames t.out_sequence s.chunk_dev (is_dma s.chunk_feature) pieces)
                          (now ∙ ap (framed s piece) flag),
                  off,
                  quiet,
                ),
                not_empty piece pieces,
              )
          | inr done ↦
              let nothing : image.read_at (pos + want) left ≡ [] =
                no_bytes (image.read_at (pos + want) left)
                  (omega (arith, parts.1, none_left left done)) in
              subst (Delivers sent s bytes)
                (sym (
                  ap run (next ∙ if-false (ltb 0 left) A B done)
                  ∙ idle n (record A { in_flight = false })))
                (
                  piece ∷ [],
                  (
                    ap (◌++◌ piece) (sym nothing) ∙ sym split,
                    (fits.0, fits.1, tt),
                    now ∙ ap (framed s piece) (no_more left done),
                    refl,
                    refl,
                  ),
                  refl,
                )
        ]

    -- Over a link that takes every frame while it is ready and stays ready, in a session at
    -- rest with its file open, a read of at least one block inside the image, whose bytes the
    -- file has, is followed to its end by as many timer calls as it has bytes or more: the data
    -- frames sent, numbered one after the other, carry in order exactly the bytes of those
    -- blocks, in pieces of one byte at least and no more than the device's buffer (8192 when it
    -- named none), the last frame and no other is marked completed, and no read is under way
    -- and no timer pending behind them.
    pub start_read-delivers :
        (n dev feature lba len : ℕ) (s : IderSession C)
        → Ready s.client
        → s.is_open ≡ true
        → s.in_flight ≡ false
        → s.armed ≡ 0
        → lba + len ≤ s.iso_size / 2 ^ 11
        → 1 ≤ len
        → len * 2 ^ 11 ≤ n
        → image.seek (lba * 2 ^ 11) ≡ true
        → length (image.read_at (lba * 2 ^ 11) (len * 2 ^ 11)) ≡ len * 2 ^ 11
        → let size = s.info.read_buffer in
          (pieces : List (List ℕ)) × IsDelivered sent
            (record s {
              chunk_dev = dev;
              chunk_feature = feature;
              chunk_size = if ltb 0 size then size else max_read_cap;
            })
            (image.read_at (lba * 2 ^ 11) (len * 2 ^ 11))
            (on_events link image set (timers n) (start_read link image dev feature lba len s))
            pieces
    unfolding start_read
    start_read-delivers n dev feature lba len s ready up free unset inside some_blocks enough seeks
          whole_read =
        let size : ℕ = s.info.read_buffer in
        let u : IderSession C = record s {
          chunk_dev = dev;
          chunk_feature = feature;
          chunk_size = if ltb 0 size then size else max_read_cap;
        } in
        let pos : ℕ = lba * 2 ^ 11 in
        let rem : ℕ = len * 2 ^ 11 in
        let begun : start_read link image dev feature lba len s ≡ reading u pos rem =
          if-false (ltb (s.iso_size / 2 ^ 11) (lba + len)) _ _ (ground arith)
          ∙ if-false (len == 0) _ _ (ground arith)
          ∙ if-false s.in_flight _ _ free
          ∙ if-false (not (image.seek pos)) _ _ (ap not seeks)
          ∙ set_fields u pos rem up unset in
        let (pieces, delivered, some_pieces) =
          delivers n u pos rem ready (chunk_pos size) (omega arith) enough whole_read in
        subst
          (λ (t : IderSession C).
            (pieces : List (List ℕ)) × IsDelivered sent u (image.read_at pos rem)
              (on_events link image set (timers n) t) pieces)
          (sym begun) (pieces, delivered)
