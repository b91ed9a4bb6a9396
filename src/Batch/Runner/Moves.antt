-- ===== src/Batch/Runner/Moves.antt =====
-- What one step of pumpQueue of app/src/batchrunner.cpp may do to the runner.
use mesh_commander.Prelude.{
  sym, ℕ, ◌+◌, ◌-◌, ◌≤◌, ◌<◌, ◌≡◌, refl, ap, ◌∙◌, inl, inr, true, false, List, [], ◌∷◌, ltb, length,
  get_or, Bool-cases, arith, set, length-set,
}
use mesh_commander.Batch.Runner.{
  BatchStatus, Job, Reply, BatchSignal, job_changed, batch_finished, running_changed, jobs_changed,
  BatchRunner, no_job, is_pending, is_running, emit_job_changed, dispatch_job, normalize,
  store_reply,
}
use mesh_commander.Batch.Runner.Counts.{count_before-pos, one, count_before, set_below, set_above}

-- How often the end of a batch has been signalled.
unfoldable pub finished : List BatchSignal → ℕ
finished [] = 0
finished (batch_finished ∷ signals) = 1 + finished signals
finished (running_changed ∷ signals) = finished signals
finished (jobs_changed ∷ signals) = finished signals
finished (job_changed row status detail ∷ signals) = finished signals

abbrev pub pending_jobs : BatchRunner → ℕ
pending_jobs s = count_before is_pending (length s.jobs) s.jobs

abbrev pub running_jobs : BatchRunner → ℕ
running_jobs s = count_before is_running (length s.jobs) s.jobs

abbrev pub IsCounted : BatchRunner → Type 0
IsCounted s = s.inflight ≡ running_jobs s

-- A runner that does not run has no job that waits or runs.
abbrev pub RestsIdle : BatchRunner → Type 0
RestsIdle s = s.running ≡ false → pending_jobs s + running_jobs s ≡ 0

-- What a pump, or a part of one, may do.
pub record Moves (s t : BatchRunner) : Type 0 where
  pub same_length : length t.jobs ≡ length s.jobs
  pub same_max : t.max_concurrency ≡ s.max_concurrency
  pub same_dispatcher : t.has_dispatcher ≡ s.has_dispatcher
  pub fewer : (i : ℕ) → count_before is_pending i t.jobs ≤ count_before is_pending i s.jobs
  pub bounded : (m : ℕ) → s.max_concurrency ≤ m → s.inflight ≤ m → t.inflight ≤ m
  pub once : finished t.signals + one t.running ≡ finished s.signals + one s.running
  pub counted : IsCounted t
  pub rests : RestsIdle s → RestsIdle t

pub Moves-trans : {s t u : BatchRunner} → Moves s t → Moves t u → Moves s u
Moves-trans v w = record {
  same_length = w.same_length ∙ v.same_length;
  same_max = w.same_max ∙ v.same_max;
  same_dispatcher = w.same_dispatcher ∙ v.same_dispatcher;
  fewer = λ i. omega (arith, v.fewer i, w.fewer i);
  bounded = λ m a b. w.bounded m (omega (arith, v.same_max, a)) (v.bounded m a b);
  once = w.once ∙ v.once;
  counted = w.counted;
  rests = λ h. w.rests (v.rests h);
}

pub Moves-refl : {s : BatchRunner} → IsCounted s → Moves s s
Moves-refl c = record {
  same_length = refl;
  same_max = refl;
  same_dispatcher = refl;
  fewer = λ i. omega arith;
  bounded = λ m a b. b;
  once = refl;
  counted = c;
  rests = λ h. h;
}

-- A status that is not pending written at one place makes no job pending.
set_fewer :
    (i k : ℕ) (jobs : List Job) (j : Job)
    → k < length jobs
    → is_pending j.status ≡ false
    → count_before is_pending i (set jobs k j) ≤ count_before is_pending i jobs
set_fewer i k jobs j h n = elim (Bool-cases (ltb k i)) [
  | inl b ↦ omega (arith, set_below is_pending i k jobs j (ground (arith, b)) h, ap one n)
  | inr a ↦ omega (arith, set_above is_pending i k jobs j (ground (arith, a)))
]

-- The same runner, but for the jobs and the number in flight, and no batch ended.
record Differs (s t : BatchRunner) (jobs : List Job) (inflight : ℕ) : Type 0 where
  its_jobs : t.jobs ≡ jobs
  its_inflight : t.inflight ≡ inflight
  max_kept : t.max_concurrency ≡ s.max_concurrency
  dispatcher_kept : t.has_dispatcher ≡ s.has_dispatcher
  running_kept : t.running ≡ s.running
  none_finished : finished t.signals ≡ finished s.signals

emit-Differs :
    (i : ℕ) (s : BatchRunner) (jobs : List Job) (inflight : ℕ)
    → Differs s (emit_job_changed i (record s { jobs = jobs; inflight = inflight })) jobs inflight
unfolding emit_job_changed finished
emit-Differs i s jobs inflight = ground arith

dispatch-Differs :
    (i : ℕ) (s : BatchRunner)
    → Differs s
        (dispatch_job i s)
        (set s.jobs i (record (get_or s.jobs i no_job) { status = BatchStatus.running }))
        (s.inflight + 1)
unfolding dispatch_job
dispatch-Differs i s =
    let d =
      emit-Differs i s
        (set s.jobs i (record (get_or s.jobs i no_job) { status = BatchStatus.running }))
        (s.inflight + 1) in
    record {
      its_jobs = d.its_jobs;
      its_inflight = d.its_inflight;
      max_kept = d.max_kept;
      dispatcher_kept = d.dispatcher_kept;
      running_kept = d.running_kept;
      none_finished = d.none_finished;
    }

abbrev stored_job : List ℕ → Reply → Job → Job
stored_job text reply j = record j {
  status = (normalize text reply).status;
  detail = (normalize text reply).detail;
}

store-Differs :
    (text : List ℕ) (k : ℕ) (reply : Reply) (s : BatchRunner)
    → Differs s
        (store_reply text k reply s)
        (set s.jobs k (stored_job text reply (get_or s.jobs k no_job)))
        (s.inflight - 1)
unfolding store_reply
store-Differs text k reply s =
    emit-Differs k s (set s.jobs k (stored_job text reply (get_or s.jobs k no_job)))
      (s.inflight - 1)

normalize_final :
    (text : List ℕ) (reply : Reply)
    → (is_pending (normalize text reply).status ≡ false)
      × (is_running (normalize text reply).status ≡ false)
unfolding normalize
normalize_final text reply = ground arith

-- A pending job does not run.
not_running : (x : BatchStatus) → is_pending x ≡ true → is_running x ≡ false
not_running BatchStatus.pending h = refl
not_running BatchStatus.running h = cc
not_running BatchStatus.done_ok h = refl
not_running BatchStatus.done_failed h = refl
not_running BatchStatus.skipped h = refl

-- Writing one job, in terms of both counts.
written-Moves :
    {s t : BatchRunner} {n : ℕ} (k : ℕ) (j : Job)
    → Differs s t (set s.jobs k j) n
    → k < length s.jobs
    → is_pending j.status ≡ false
    → n + one (is_running (get_or s.jobs k no_job).status) ≡ s.inflight + one (is_running j.status)
    → ((m : ℕ) → s.max_concurrency ≤ m → s.inflight ≤ m → n ≤ m)
    → 1 ≤ pending_jobs s + running_jobs s
    → IsCounted s
    → Moves s t
written-Moves {s} {t} {n} k j d l p e b a c = record {
  same_length = same;
  same_max = d.max_kept;
  same_dispatcher = d.dispatcher_kept;
  fewer = λ i. rw (d.its_jobs) (set_fewer i k s.jobs j l p);
  bounded = λ m x y. omega (arith, d.its_inflight, b m x y);
  once = omega (arith, d.none_finished, ap one d.running_kept);
  counted = counted;
  rests = λ h r. absurd (omega (arith, a, h (sym d.running_kept ∙ r)));
}
  where
    same : length t.jobs ≡ length s.jobs
    same = ap length d.its_jobs ∙ length-set s.jobs k j

    counted : t.inflight ≡ count_before is_running (length t.jobs) t.jobs
    counted =
        rw (same, d.its_jobs)
          (omega (arith, d.its_inflight, e, c, set_below is_running (length s.jobs) k s.jobs j l l))

pub dispatch-Moves :
    (i : ℕ) (s : BatchRunner)
    → i < length s.jobs
    → s.inflight < s.max_concurrency
    → is_pending (get_or s.jobs i no_job).status ≡ true
    → IsCounted s
    → Moves s (dispatch_job i s)
      × ((n : ℕ)
          → i < n
          → count_before is_pending n (dispatch_job i s).jobs + 1
            ≡ count_before is_pending n s.jobs)
dispatch-Moves i s l m p c = (
  written-Moves i j d l refl (omega (arith, ap one idle)) (λ n a b. omega (arith, m, a)) active c,
  one_less,
)
  where
    j : Job
    j = record (get_or s.jobs i no_job) { status = BatchStatus.running }

    d : Differs s (dispatch_job i s) (set s.jobs i j) (s.inflight + 1)
    d = dispatch-Differs i s

    active : 1 ≤ pending_jobs s + running_jobs s
    active = omega (arith, count_before-pos is_pending (length s.jobs) i s.jobs l l p)

    idle : is_running (get_or s.jobs i no_job).status ≡ false
    idle = not_running (get_or s.jobs i no_job).status p

    one_less :
        (n : ℕ)
        → i < n
        → count_before is_pending n (dispatch_job i s).jobs + 1 ≡ count_before is_pending n s.jobs
    one_less n h = rw (d.its_jobs) (omega (arith, ap one p, set_below is_pending n i s.jobs j h l))

pub store-Moves :
    (text : List ℕ) (k : ℕ) (reply : Reply) (s : BatchRunner)
    → k < length s.jobs
    → is_running (get_or s.jobs k no_job).status ≡ true
    → IsCounted s
    → Moves s (store_reply text k reply s)
store-Moves text k reply s l r c =
    written-Moves k (stored_job text reply (get_or s.jobs k no_job)) (store-Differs text k reply s)
      l (normalize_final text reply).0
      (omega (
        arith,
        ap one r,
        ap one (normalize_final text reply).1,
        c,
        count_before-pos is_running (length s.jobs) k s.jobs l l r,
      ))
      (λ m a b. omega arith)
      (omega (arith, count_before-pos is_running (length s.jobs) k s.jobs l l r)) c
