-- ===== src/Inbox.antt =====
-- `while (!m_inbox.isEmpty())`, the loop over the bytes received that redir/src/sol_session.cpp and
-- ider/src/ider_session.cpp have, and how it meets a stream that arrives in chunks.
use mesh_commander.Prelude.{
  length-append, ℕ, zero, suc, ◌+◌, ◌<◌, ◌≡◌, refl, sym, ap, ◌∙◌, ◌⊎◌, inl, inr, Bool, true, false,
  List, [], ◌∷◌, ◌++◌, ◌==◌, length, Bool-cases, arith,
}

-- A state that holds the bytes received, and one round of its loop; true means that it goes on.
pub record Reader (S : Type 0) : Type 0 where
  pub inbox : S → List ℕ
  pub append : List ℕ → S → S
  pub round : S → S × Bool

module _ {S : Type 0} (r : Reader S) where
  -- The loop, on fuel; false says that the fuel ran out.
  unfoldable pub rounds : ℕ → S → S × Bool
  rounds zero s = (s, false)
  rounds (suc n) s = elim (length (r.inbox s) == 0) [
    | true ↦ (s, true)
    | false ↦ elim (r.round s).1 [ true ↦ rounds n (r.round s).0 | false ↦ ((r.round s).0, true) ]
  ]

  -- Each round that goes on takes a byte, so the length of the inbox is enough.
  unfoldable pub drain : S → S
  unfolding rounds
  drain s = (rounds (length (r.inbox s) + 1) s).0

  unfoldable pub feed : List ℕ → S → S
  unfolding drain
  feed chunk s = drain (r.append chunk s)

  unfoldable pub feed_all : List (List ℕ) → S → S
  unfolding feed
  feed_all [] s = s
  feed_all (chunk ∷ chunks) s = feed_all chunks (feed chunk s)

  -- A round that waits for more bytes.
  abbrev pub Waits : S → Type 0
  Waits s = r.round s ≡ (s, false)

  -- A round with the outcome `on`, the same with more bytes.
  abbrev pub Turns : List ℕ → Bool → S → S → Type 0
  Turns more on s t = (r.round s ≡ (t, on)) × (r.round (r.append more s) ≡ (r.append more t, on))

  -- The loop has nothing to do.
  abbrev pub IsSettled : S → Type 0
  IsSettled s = (r.inbox s ≡ []) ⊎ Waits s

unfoldable pub joined : List (List ℕ) → List ℕ
joined [] = []
joined (chunk ∷ chunks) = chunk ++ joined chunks

-- The laws of a reader, of which `count` counts the failures: a round waits, goes on with fewer
-- bytes, or fails, and does not mind more bytes behind those that it takes.
pub record IsReader {S : Type 0} (r : Reader S) (count : S → ℕ) : Type 0 where
  pub inbox-append : (more : List ℕ) (s : S) → r.inbox (r.append more s) ≡ r.inbox s ++ more
  pub append-append :
      (more more' : List ℕ) (s : S) → r.append more' (r.append more s) ≡ r.append (more ++ more') s
  pub append_nothing : (s : S) → r.append [] s ≡ s
  pub count-append : (more : List ℕ) (s : S) → count (r.append more s) ≡ count s
  pub turn :
      (more : List ℕ) (s : S)
      → (length (r.inbox s) == 0) ≡ false
      → Waits r s
        ⊎ ((t : S) × Turns r more true s t
            × (length (r.inbox t) < length (r.inbox s))
            × (count t ≡ count s))
        ⊎ ((t : S) × Turns r more false s t × (count s < count t))

module _ {S : Type 0} (r : Reader S) (count : S → ℕ) (laws : IsReader r count) where
  rounds_empty : (n : ℕ) (s : S) → r.inbox s ≡ [] → (rounds r n s).0 ≡ s
  unfolding rounds
  rounds_empty zero s e = refl
  rounds_empty (suc n) s e = rw (e, rounds) refl

  rounds_next :
      (n : ℕ) (s t : S)
      → (length (r.inbox s) == 0) ≡ false
      → r.round s ≡ (t, true)
      → rounds r (suc n) s ≡ rounds r n t
  unfolding rounds
  rounds_next n s t h e =
      rw (h, ap (λ (u : S × Bool). u.1) e, rounds) (ap (rounds r n) (ap (λ (u : S × Bool). u.0) e))

  rounds_last :
      (n : ℕ) (s t : S)
      → (length (r.inbox s) == 0) ≡ false
      → r.round s ≡ (t, false)
      → (rounds r (suc n) s).0 ≡ t
  unfolding rounds
  rounds_last n s t h e =
      rw (h, ap (λ (u : S × Bool). u.1) e, rounds) (ap (λ (u : S × Bool). u.0) e)

  no_bytes : (bytes : List ℕ) → (length bytes == 0) ≡ true → bytes ≡ []
  no_bytes [] e = refl
  no_bytes (b ∷ bytes) e = absurd (ground arith)

  -- Any fuel above the length gives the same.
  rounds-fuel :
      (n k : ℕ) (s : S)
      → length (r.inbox s) < n
      → length (r.inbox s) < k
      → (rounds r n s).0 ≡ (rounds r k s).0
  rounds-fuel zero k s h h' = absurd (omega arith)
  rounds-fuel (suc n) zero s h h' = absurd (omega arith)
  rounds-fuel (suc n) (suc k) s h h' = elim (Bool-cases (length (r.inbox s) == 0)) [
    | inl e ↦
        rounds_empty (suc n) s (no_bytes (r.inbox s) e)
        ∙ sym (rounds_empty (suc k) s (no_bytes (r.inbox s) e))
    | inr e ↦ elim (laws.turn [] s e) [
      | inl waits ↦ rounds_last n s s e waits ∙ sym (rounds_last k s s e waits)
      | inr (inl (t, turns, less, same)) ↦
          ap (λ (u : S × Bool). u.0) (rounds_next n s t e turns.0)
          ∙ rounds-fuel n k t (omega arith) (omega arith)
          ∙ sym (ap (λ (u : S × Bool). u.0) (rounds_next k s t e turns.0))
      | inr (inr (t, turns, more)) ↦ rounds_last n s t e turns.0 ∙ sym (rounds_last k s t e turns.0)
    ]
  ]

  drain-fuel : (n : ℕ) (s : S) → length (r.inbox s) < n → (rounds r n s).0 ≡ drain r s
  unfolding drain
  drain-fuel n s h = rounds-fuel n (length (r.inbox s) + 1) s h (omega arith)

  pub drain_empty : (s : S) → r.inbox s ≡ [] → drain r s ≡ s
  unfolding drain
  drain_empty s e = rounds_empty (length (r.inbox s) + 1) s e

  pub drain_next :
      (s t : S)
      → (length (r.inbox s) == 0) ≡ false
      → r.round s ≡ (t, true)
      → length (r.inbox t) < length (r.inbox s)
      → drain r s ≡ drain r t
  drain_next s t h e less =
      sym (drain-fuel (suc (length (r.inbox s))) s (omega arith))
      ∙ ap (λ (u : S × Bool). u.0) (rounds_next (length (r.inbox s)) s t h e)
      ∙ drain-fuel (length (r.inbox s)) t less

  pub drain_last :
      (s t : S) → (length (r.inbox s) == 0) ≡ false → r.round s ≡ (t, false) → drain r s ≡ t
  drain_last s t h e =
      sym (drain-fuel (suc (length (r.inbox s))) s (omega arith))
      ∙ rounds_last (length (r.inbox s)) s t h e

  drain_settled : (s : S) → IsSettled r s → drain r s ≡ s
  drain_settled s (inl e) = drain_empty s e
  drain_settled s (inr waits) = elim (Bool-cases (length (r.inbox s) == 0)) [
    | inl e ↦ drain_empty s (no_bytes (r.inbox s) e)
    | inr e ↦ drain_last s s e waits
  ]

  -- The loop with more bytes behind: it settles and then takes them up, or fails before them.
  abbrev Splits : List ℕ → S → S → Type 0
  Splits more s t =
      (IsSettled r t
        × (count t ≡ count s)
        × (drain r (r.append more s) ≡ drain r (r.append more t)))
      ⊎ ((count s < count t) × (drain r (r.append more s) ≡ r.append more t))

  nonempty-append :
      (more : List ℕ) (s : S)
      → (length (r.inbox s) == 0) ≡ false
      → (length (r.inbox (r.append more s)) == 0) ≡ false
  nonempty-append more s e =
      rw (laws.inbox-append more s, length-append (r.inbox s) more) (ground arith)

  next-append :
      (more : List ℕ) (s t : S)
      → (length (r.inbox s) == 0) ≡ false
      → r.round (r.append more s) ≡ (r.append more t, true)
      → length (r.inbox t) < length (r.inbox s)
      → drain r (r.append more s) ≡ drain r (r.append more t)
  next-append more s t e turns less =
      drain_next (r.append more s) (r.append more t) (nonempty-append more s e) turns (
        rw
          (
            laws.inbox-append more s,
            laws.inbox-append more t,
            length-append (r.inbox s) more,
            length-append (r.inbox t) more,
          )
          (omega arith))

  drain-Splits-below :
      (n : ℕ) (more : List ℕ) (s : S) → length (r.inbox s) < n → Splits more s (drain r s)
  drain-Splits-below zero more s h = absurd (omega arith)
  drain-Splits-below (suc n) more s h = elim (Bool-cases (length (r.inbox s) == 0)) [
    | inl e ↦
        let gone = no_bytes (r.inbox s) e in rw (drain_empty s gone) (inl (inl gone, refl, refl))
    | inr e ↦ elim (laws.turn more s e) [
      | inl waits ↦ rw (drain_last s s e waits) (inl (inr waits, refl, refl))
      | inr (inl (t, turns, less, same)) ↦
          let later = next-append more s t e turns.1 less in
          rw (drain_next s t e turns.0 less, later, sym same)
            (drain-Splits-below n more t (omega arith))
      | inr (inr (t, turns, more_failures)) ↦ rw (drain_last s t e turns.0) (
          inr (
            more_failures,
            drain_last (r.append more s) (r.append more t) (nonempty-append more s e) turns.1,
          ))
    ]
  ]

  -- Without a failure the chunks do not matter.
  pub feed_all-joined :
      (chunks : List (List ℕ)) (s : S)
      → IsSettled r s
      → count (feed r (joined chunks) s) ≡ count s
      → feed_all r chunks s ≡ feed r (joined chunks) s
  unfolding feed feed_all joined
  feed_all-joined [] s settled h =
      sym (ap (drain r) (laws.append_nothing s) ∙ drain_settled s settled)
  feed_all-joined (chunk ∷ chunks) s settled h =
      let u : S = r.append chunk s in
      let rest : List ℕ = joined chunks in
      let whole : r.append (chunk ++ rest) s ≡ r.append rest u =
        sym (laws.append-append chunk rest s) in
      elim (drain-Splits-below (length (r.inbox u) + 1) rest u (omega arith)) [
        | inl (settled', same, later) ↦
            let all = ap (drain r) whole ∙ later in
            let kept = same ∙ laws.count-append chunk s in
            feed_all-joined chunks (drain r u) settled' (sym (ap count all) ∙ h ∙ sym kept)
            ∙ sym all
        | inr (more_failures, later) ↦
            let all = ap (drain r) whole ∙ later in
            let fails = sym (ap count all) ∙ h in
            absurd (
              omega (
                arith,
                laws.count-append chunk s,
                laws.count-append rest (drain r u),
                more_failures,
                fails,
              ))
      ]

module _ {S : Type 0} (r : Reader S) (P : S → Type 0)
    (keeps : (s : S) → P s → P (r.round s).0) where
  rounds-keeps : (n : ℕ) (s : S) → P s → P (rounds r n s).0
  unfolding rounds
  rounds-keeps zero s h = h
  rounds-keeps (suc n) s h = elim (Bool-cases (length (r.inbox s) == 0)) [
    | inl e ↦ rw (e, rounds) h
    | inr e ↦ elim (Bool-cases (r.round s).1) [
      | inl on ↦ rw (e, on, rounds) (rounds-keeps n (r.round s).0 (keeps s h))
      | inr off ↦ rw (e, off, rounds) (keeps s h)
    ]
  ]

  -- What every round keeps.
  pub drain-keeps : (s : S) → P s → P (drain r s)
  unfolding drain
  drain-keeps s h = rounds-keeps (length (r.inbox s) + 1) s h

module _ {S : Type 0} (r : Reader S)
    (shorter : (s : S)
      → (length (r.inbox s) == 0) ≡ false
      → (r.round s).1 ≡ true
      → length (r.inbox (r.round s).0) < length (r.inbox s)) where
  -- The loop comes to its end.
  pub rounds_end : (n : ℕ) (s : S) → length (r.inbox s) < n → (rounds r n s).1 ≡ true
  unfolding rounds
  rounds_end zero s h = absurd (omega arith)
  rounds_end (suc n) s h = elim (Bool-cases (length (r.inbox s) == 0)) [
    | inl e ↦ rw (e, rounds) refl
    | inr e ↦ elim (Bool-cases (r.round s).1) [
      | inl on ↦ rw (e, on, rounds) (rounds_end n (r.round s).0 (omega (arith, shorter s e on)))
      | inr off ↦ rw (e, off, rounds) refl
    ]
  ]
