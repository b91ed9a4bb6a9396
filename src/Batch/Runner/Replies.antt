-- ===== src/Batch/Runner/Replies.antt =====
-- How a reply is taken in app/src/batchrunner.cpp, within the call of the dispatcher or later.
use mesh_commander.Prelude.{
  ℕ, ◌<◌, ◌≡◌, refl, ◌∙◌, inl, inr, true, false, List, Option, none, some, length, get_or,
  Bool-cases, arith,
}
use mesh_commander.Batch.Runner.{
  complete_one, find_running, ℤ, on_reply, answered, some, Dispatcher, Option, Reply, BatchRunner,
  no_job, is_running, emit_job_changed, store_reply,
}
use mesh_commander.Batch.Runner.Counts.{find_running_lem}
use mesh_commander.Batch.Runner.Moves.{IsCounted, Moves, Moves-trans, Moves-refl, store-Moves}

-- A call that gives a runner with a property.
abbrev pub Gives : Option BatchRunner → (BatchRunner → Type 0) → Type 0
Gives o P = (t : BatchRunner) × (o ≡ some t) × P t

pub Gives-same :
    {o o' : Option BatchRunner} {P : BatchRunner → Type 0} → o ≡ o' → Gives o' P → Gives o P
Gives-same e (t, given, p) = (t, e ∙ given, p)

pub Gives-map :
    {o : Option BatchRunner} {P Q : BatchRunner → Type 0}
    → Gives o P
    → ((t : BatchRunner) → P t → Q t)
    → Gives o Q
Gives-map (t, given, p) f = (t, given, f t p)

module _ (non_terminal : List ℕ) (dispatcher : Dispatcher) where
  -- `Q` holds after the pump, and where there is none.
  pub complete_one-Moves :
      {Q : BatchRunner → Type 0}
      → (pump : BatchRunner → Option BatchRunner) (reply : Reply) (s : BatchRunner) (o : Option ℕ)
      → IsCounted s
      → ((k : ℕ)
          → o ≡ some k
          → (k < length s.jobs) × (is_running (get_or s.jobs k no_job).status ≡ true))
      → Q s
      → ((u : BatchRunner) → Moves s u → u.running ≡ false → Q u)
      → ((u : BatchRunner) → Moves s u → Gives (pump u) (λ t. Moves u t × Q t))
      → Gives (complete_one non_terminal dispatcher pump reply s o) (λ t. Moves s t × Q t)
  unfolding complete_one store_reply emit_job_changed
  complete_one-Moves pump reply s none c found same stops h = (s, refl, (Moves-refl c, same))
  complete_one-Moves pump reply s (some k) c found same stops h =
      let stored : BatchRunner = store_reply non_terminal k reply s in
      let (l, r) = found k refl in
      let moves : Moves s stored = store-Moves non_terminal k reply s l r c in
      elim (Bool-cases stored.running) [
        | inl b ↦
            let (t, given, then_moves) = h stored moves in
            (t, rw b given, (Moves-trans moves then_moves.0, then_moves.1))
        | inr b ↦ (stored, rw b refl, (moves, stops stored moves b))
      ]

  pub on_reply-Moves :
      {Q : BatchRunner → Type 0}
      → (pump : BatchRunner → Option BatchRunner) (row : ℤ) (reply : Reply) (s : BatchRunner)
      → IsCounted s
      → Q s
      → ((u : BatchRunner) → Moves s u → u.running ≡ false → Q u)
      → ((u : BatchRunner) → Moves s u → Gives (pump u) (λ t. Moves u t × Q t))
      → Gives (on_reply non_terminal dispatcher pump row reply s) (λ t. Moves s t × Q t)
  unfolding on_reply
  on_reply-Moves {Q} pump row reply s c same stops h =
      complete_one-Moves {Q = Q} pump reply s (find_running row 0 s.jobs) c
        (λ k f.
          let (m, at, l, r) = find_running_lem row 0 s.jobs k f in
          let e : k ≡ m = omega (arith, at) in (rw e l, rw e r))
        same stops h

  pub answered-Moves :
      (pump : BatchRunner → Option BatchRunner) (row : ℤ) (o : Option Reply) (s : BatchRunner)
      → IsCounted s
      → ((u : BatchRunner) → Moves s u → Gives (pump u) (Moves u))
      → Gives (answered non_terminal dispatcher pump row o s) (Moves s)
  unfolding answered
  answered-Moves pump row none s c h = (s, refl, Moves-refl c)
  answered-Moves pump row (some reply) s c h =
      Gives-map
        (on_reply-Moves {Q = λ t. Unit {0}} pump row reply s c tt (λ u m stopped. tt)
          (λ u m. Gives-map (h u m) (λ t v. (v, tt))))
        (λ t v. v.0)
