-- ===== src/Redir/SolSession/Sending.antt =====
-- redir/src/sol_session.cpp: sendInput.
use mesh_commander.Inbox.{joined}
use mesh_commander.Redir.Link.{Link, IsLink, is_taken}
use mesh_commander.Redir.Client.{whole}
use mesh_commander.Redir.SolSession.{SolSession, write, send_chunks, send_input, max_chunk}
use mesh_commander.Redir.Serial.{build_sol_data_to_host}
use mathlib.Core.Path.{subst}
use mesh_commander.Prelude.{
  if-false, not, true, ℕ, zero, suc, ◌≤◌, ◌≡◌, refl, sym, ap, ◌∙◌, true, not, List, [], ◌∷◌, ◌++◌,
  length, arith, length-take, length-drop, drop, take,
}

-- Pieces of one byte at least, which fit a frame.
abbrev pub AllFit : List (List ℕ) → Type 0
AllFit [] = Unit {0}
AllFit (piece ∷ pieces) = (1 ≤ length piece) × (length piece ≤ 0xFFFF) × AllFit pieces

-- Their frames in front of those sent before, the latest first.
abbrev pub framed : List (List ℕ) → List (List ℕ) → List (List ℕ)
framed [] older = older
framed (piece ∷ pieces) older = framed pieces (build_sol_data_to_host piece ∷ older)

take-drop : (n : ℕ) (xs : List ℕ) → take n xs ++ drop n xs ≡ xs
take-drop zero xs = refl
take-drop (suc n) [] = refl
take-drop (suc n) (x ∷ xs) = ap (◌∷◌ x) (take-drop n xs)

module _ {C : Type 0} (sent : C → List (List ℕ)) where
  -- The bytes in pieces, each in a frame.
  abbrev pub IsSentIn : List ℕ → SolSession C → SolSession C → List (List ℕ) → Type 0
  IsSentIn bytes s t pieces =
      (joined pieces ≡ bytes) × AllFit pieces × (sent t.client ≡ framed pieces (sent s.client))

module _ {C : Type 0} (link : Link C) (sent : C → List (List ℕ)) (laws : IsLink link sent)
    (Ready : C → Type 0)
    (takes : (frame : List ℕ) (c : C) → Ready c → (link.write_bytes frame c).1 ≡ whole)
    (stays : (frame : List ℕ) (c : C) → Ready c → Ready (link.write_bytes frame c).0) where
  send_chunks_lem :
      (n : ℕ) (bytes : List ℕ) (s : SolSession C)
      → length bytes ≤ n
      → Ready s.client
      → (pieces : List (List ℕ)) × IsSentIn sent bytes s (send_chunks link n bytes s) pieces
  unfolding send_chunks joined write is_taken
  send_chunks_lem zero [] s h ready = ([], (refl, tt, refl))
  send_chunks_lem zero (b ∷ bytes) s h ready = absurd (omega arith)
  send_chunks_lem (suc n) [] s h ready = ([], (refl, tt, refl))
  send_chunks_lem (suc n) (b ∷ bytes) s h ready =
      let piece : List ℕ = take max_chunk (b ∷ bytes) in
      let rest : List ℕ = drop max_chunk (b ∷ bytes) in
      let frame : List ℕ = build_sol_data_to_host piece in
      let t : SolSession C = write link frame s in
      let now = laws.sent-write frame s.client (ap is_taken (takes frame s.client ready)) in
      let (pieces, (all, fit, later)) =
        send_chunks_lem n rest t (omega (arith, length-drop max_chunk (b ∷ bytes)))
          (stays frame s.client ready) in
      (
        piece ∷ pieces,
        (
          ap (◌++◌ piece) all ∙ take-drop max_chunk (b ∷ bytes),
          (
            omega (arith, length-take max_chunk (b ∷ bytes)),
            omega (arith, length-take max_chunk (b ∷ bytes)),
            fit,
          ),
          later ∙ ap (framed pieces) now,
        ),
      )

  -- Over a link that takes every frame while it is ready and stays ready, an open session sends
  -- what is typed in data frames of 1 to 65535 bytes each, whose payloads put together are
  -- exactly what was typed, in order.
  pub send_input-pieces :
      (bytes : List ℕ) (s : SolSession C)
      → s.is_open ≡ true
      → Ready s.client
      → (pieces : List (List ℕ)) × IsSentIn sent bytes s (send_input link bytes s) pieces
  unfolding send_input
  send_input-pieces bytes s up ready =
      let all : SolSession C = send_chunks link (length bytes) bytes s in
      subst (λ (t : SolSession C). (pieces : List (List ℕ)) × IsSentIn sent bytes s t pieces)
        (sym (if-false (not s.is_open) s all (ap not up)))
        (send_chunks_lem (length bytes) bytes s (omega arith) ready)
