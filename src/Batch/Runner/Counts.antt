-- ===== src/Batch/Runner/Counts.antt =====
-- How the jobs of app/src/batchrunner.cpp are counted while their statuses change.
use mesh_commander.Prelude.{
  ap, ℕ, zero, suc, ◌+◌, ◌≤◌, ◌<◌, ◌≡◌, refl, inl, inr, Bool, true, false, ◌&&◌, List, [], ◌∷◌,
  some, length, get_or, Bool-cases, arith, set, ℤ,
}
use mesh_commander.Batch.Runner.{
  BatchStatus, Job, no_job, is_pending, is_running, same_row, count, any_active, find_running,
}

abbrev pub one : Bool → ℕ
one true = 1
one false = 0

-- The jobs among the first `i` that pass a test.
unfoldable pub count_before : (BatchStatus → Bool) → ℕ → List Job → ℕ
count_before test zero jobs = 0
count_before test (suc i) [] = 0
count_before test (suc i) (j ∷ jobs) = one (test j.status) + count_before test i jobs

pub count-before :
    (test : BatchStatus → Bool) (jobs : List Job)
    → count test jobs ≡ count_before test (length jobs) jobs
unfolding count count_before
count-before test [] = refl
count-before test (j ∷ jobs) = ground (arith, count-before test jobs)

pub count_before-le :
    (test : BatchStatus → Bool) (i : ℕ) (jobs : List Job) → count_before test i jobs ≤ length jobs
unfolding count_before
count_before-le test zero jobs = omega arith
count_before-le test (suc i) [] = omega arith
count_before-le test (suc i) (j ∷ jobs) = ground (arith, count_before-le test i jobs)

pub set_below :
    (test : BatchStatus → Bool) (i k : ℕ) (jobs : List Job) (j : Job)
    → k < i
    → k < length jobs
    → count_before test i (set jobs k j) + one (test (get_or jobs k no_job).status)
      ≡ count_before test i jobs + one (test j.status)
unfolding count_before
set_below test zero k jobs j h l = absurd (omega arith)
set_below test (suc i) k [] j h l = absurd (omega arith)
set_below test (suc i) zero (x ∷ jobs) j h l = omega arith
set_below test (suc i) (suc k) (x ∷ jobs) j h l =
    omega (arith, set_below test i k jobs j (omega arith) (omega arith))

pub set_above :
    (test : BatchStatus → Bool) (i k : ℕ) (jobs : List Job) (j : Job)
    → i ≤ k
    → count_before test i (set jobs k j) ≡ count_before test i jobs
unfolding count_before
set_above test zero k jobs j h = refl
set_above test (suc i) k [] j h = refl
set_above test (suc i) zero (x ∷ jobs) j h = absurd (omega arith)
set_above test (suc i) (suc k) (x ∷ jobs) j h =
    omega (arith, set_above test i k jobs j (omega arith))

pub before_suc :
    (test : BatchStatus → Bool) (i : ℕ) (jobs : List Job)
    → i < length jobs
    → count_before test (suc i) jobs
      ≡ count_before test i jobs + one (test (get_or jobs i no_job).status)
unfolding count_before
before_suc test i [] h = absurd (omega arith)
before_suc test zero (x ∷ jobs) h = omega arith
before_suc test (suc i) (x ∷ jobs) h = omega (arith, before_suc test i jobs (omega arith))

pub none_active :
    (jobs : List Job)
    → any_active jobs ≡ false
    → (count is_pending jobs ≡ 0) × (count is_running jobs ≡ 0)
unfolding any_active count
none_active [] h = (refl, refl)
none_active (j ∷ jobs) h = ground (arith, none_active jobs)

pub some_active :
    (jobs : List Job) → any_active jobs ≡ true → 1 ≤ count is_pending jobs + count is_running jobs
unfolding any_active count
some_active [] h = ground arith
some_active (j ∷ jobs) h = ground (arith, some_active jobs)

pub find_running_lem :
    (row : ℤ) (k : ℕ) (jobs : List Job) (found : ℕ)
    → find_running row k jobs ≡ some found
    → (m : ℕ) × (found ≡ k + m)
      × (m < length jobs)
      × (is_running (get_or jobs m no_job).status ≡ true)
unfolding find_running
find_running_lem row k [] found e = ground arith
find_running_lem row k (j ∷ jobs) found e =
    elim (Bool-cases (same_row j.row row && is_running j.status)) [
      | inl t ↦ (0, ground (arith, t), omega arith, ground (arith, t))
      | inr f ↦
          let (m, at, in_range, runs) =
            find_running_lem row (k + 1) jobs found (ground (arith, f)) in
          (suc m, omega arith, omega arith, runs)
    ]

-- A job that passes a test is counted.
pub count_before-pos :
    (test : BatchStatus → Bool) (i k : ℕ) (jobs : List Job)
    → k < i
    → k < length jobs
    → test (get_or jobs k no_job).status ≡ true
    → 1 ≤ count_before test i jobs
unfolding count_before
count_before-pos test zero k jobs h l t = absurd (omega arith)
count_before-pos test (suc i) k [] h l t = absurd (omega arith)
count_before-pos test (suc i) zero (j ∷ jobs) h l t = omega (arith, ap one t)
count_before-pos test (suc i) (suc k) (j ∷ jobs) h l t =
    omega (arith, count_before-pos test i k jobs (omega arith) (omega arith) t)
