-- ===== src/Batch/Runner/Ends.antt =====
-- The end of pumpQueue of app/src/batchrunner.cpp.
use mesh_commander.Prelude.{
  ◌⊎◌, ◌+◌, ◌≤◌, ◌≡◌, refl, ap, inl, inr, true, false, ◌∷◌, Bool-cases, arith,
}
use mesh_commander.Batch.Runner.{
  any_active, finish, batch_finished, running_changed, BatchRunner, is_pending, is_running,
}
use mesh_commander.Batch.Runner.Counts.{none_active, count-before, some_active, one}
use mesh_commander.Batch.Runner.Moves.{
  finished, pending_jobs, running_jobs, IsCounted, Moves, Moves-refl,
}

-- How a pump leaves the runner: no job waits while a slot is free, and it runs only with work left.
pub record IsSettled (t : BatchRunner) : Type 0 where
  pub drained : (pending_jobs t ≡ 0) ⊎ (t.max_concurrency ≤ t.inflight)
  pub has_work : t.running ≡ true → 1 ≤ pending_jobs t + running_jobs t

abbrev ended : BatchRunner → BatchRunner
ended s = record s { running = false; signals = batch_finished ∷ running_changed ∷ s.signals }

finish_cases :
    (s : BatchRunner)
    → ((finish s ≡ s) × ((any_active s.jobs ≡ true) ⊎ (s.running ≡ false)))
      ⊎ ((finish s ≡ ended s) × (any_active s.jobs ≡ false) × (s.running ≡ true))
unfolding finish
finish_cases s = elim (Bool-cases (any_active s.jobs)) [
  | inl a ↦ inl (rw a refl, inl a)
  | inr a ↦ elim (Bool-cases s.running) [
    | inl r ↦ inr (ground (arith, a, r), a, r)
    | inr r ↦ inl (ground (arith, a, r), inr r)
  ]
]

kept-IsSettled :
    (s : BatchRunner)
    → (pending_jobs s ≡ 0) ⊎ (s.max_concurrency ≤ s.inflight)
    → (any_active s.jobs ≡ true) ⊎ (s.running ≡ false)
    → IsSettled s
kept-IsSettled s d (inl a) = record {
  drained = d;
  has_work = λ r.
      omega (
        arith,
        some_active s.jobs a,
        count-before is_pending s.jobs,
        count-before is_running s.jobs,
      );
}
kept-IsSettled s d (inr n) = record {
  drained = d;
  has_work = λ r. absurd (omega (arith, ap one n, ap one r));
}

pub finish-Moves :
    (s : BatchRunner)
    → IsCounted s
    → (pending_jobs s ≡ 0) ⊎ (s.max_concurrency ≤ s.inflight)
    → Moves s (finish s) × IsSettled (finish s)
unfolding finished
finish-Moves s c d = elim (finish_cases s) [
  | inl (e, active) ↦ rw e (Moves-refl c, kept-IsSettled s d active)
  | inr (e, idle, runs) ↦ rw e (
    record {
      same_length = refl;
      same_max = refl;
      same_dispatcher = refl;
      fewer = λ i. omega arith;
      bounded = λ m a b. b;
      once = omega (arith, ap one runs);
      counted = c;
      rests = λ h r. omega (
        arith,
        none_active s.jobs idle,
        count-before is_pending s.jobs,
        count-before is_running s.jobs,
      );
    },
    record { drained = d; has_work = λ r. absurd (omega (arith, ap one r)) },
  )
]
