-- ===== src/Batch/Runner.antt =====
-- app/src/batchrunner.h and app/src/batchrunner.cpp: one action on many machines, a bounded number
-- at a time. The dispatcher is a parameter: given the requests made so far, the latest first, it
-- says whether the latest is answered within the call, and how; every other answer is an event of
-- its own. The signals and the requests are lists, the latest first. The parameters of an action are
-- only passed on; they are a list of names and values.
pub mod Counts
pub mod Moves
pub mod Ends
pub mod Replies
pub mod Pump
pub mod Events
use mesh_commander.Prelude.{
  ℕ, zero, suc, ◌+◌, ◌-◌, ◌*◌, min, Bool, true, false, not, ◌&&◌, ◌||◌, List, [], ◌∷◌, Option, none,
  some, map, ltb, ◌==◌, if◌then◌else◌, length, get_or, set, ℤ, pos, negsuc,
}

pub data BatchStatus : Type 0 where
  pending running done_ok done_failed skipped : BatchStatus

pub record Reply : Type 0 where
  pub status : BatchStatus
  pub detail : List ℕ

pub record Job : Type 0 where
  pub row : ℤ
  pub status : BatchStatus
  pub detail : List ℕ

abbrev pub Params : Type 0
Params = List (List ℕ × List ℕ)

pub record Request : Type 0 where
  pub row : ℤ
  pub action : ℤ
  pub params : Params

pub data BatchSignal : Type 0 where
  job_changed : ℤ → BatchStatus → List ℕ → BatchSignal
  batch_finished running_changed jobs_changed : BatchSignal

pub record BatchRunner : Type 0 where
  pub has_dispatcher : Bool
  pub max_concurrency : ℕ
  pub jobs : List Job
  pub current_action : ℤ
  pub current_params : Params
  pub inflight : ℕ
  pub running : Bool
  pub signals : List BatchSignal
  pub requests : List Request

abbrev pub no_job : Job
no_job = record { row = negsuc 0; status = BatchStatus.pending; detail = [] }

abbrev pub is_pending : BatchStatus → Bool
is_pending BatchStatus.pending = true
is_pending BatchStatus.running = false
is_pending done_ok = false
is_pending done_failed = false
is_pending skipped = false

abbrev pub is_running : BatchStatus → Bool
is_running BatchStatus.pending = false
is_running BatchStatus.running = true
is_running done_ok = false
is_running done_failed = false
is_running skipped = false

abbrev pub is_failed : BatchStatus → Bool
is_failed BatchStatus.pending = false
is_failed BatchStatus.running = false
is_failed done_ok = false
is_failed done_failed = true
is_failed skipped = false

abbrev pub same_row : ℤ → ℤ → Bool
same_row (pos a) (pos b) = a == b
same_row (pos a) (negsuc b) = false
same_row (negsuc a) (pos b) = false
same_row (negsuc a) (negsuc b) = a == b

-- A new runner, with or without a dispatcher.
abbrev pub new_runner : Bool → BatchRunner
new_runner ready = record {
  has_dispatcher = ready;
  max_concurrency = 8;
  jobs = [];
  current_action = pos 1;
  current_params = [];
  inflight = 0;
  running = false;
  signals = [];
  requests = [];
}

-- setMaxConcurrency: std::clamp(n, 1, 64).
unfoldable pub clamp_concurrency : ℤ → ℕ
clamp_concurrency (pos n) = if ltb n 1 then 1 else min n 64
clamp_concurrency (negsuc n) = 1

unfoldable pub set_max_concurrency : ℤ → BatchRunner → BatchRunner
set_max_concurrency n s = record s { max_concurrency = clamp_concurrency n }

unfoldable pub emit_job_changed : ℕ → BatchRunner → BatchRunner
emit_job_changed i s =
    let j : Job = get_or s.jobs i no_job in
    if ltb i (length s.jobs)
    then record s { signals = jobs_changed ∷ job_changed j.row j.status j.detail ∷ s.signals }
    else s

-- A pending job becomes running and is handed to the dispatcher.
unfoldable pub dispatch_job : ℕ → BatchRunner → BatchRunner
dispatch_job i s =
    let j : Job = get_or s.jobs i no_job in
    let marked : BatchRunner = emit_job_changed i (record s {
      jobs = set s.jobs i (record j { status = BatchStatus.running });
      inflight = s.inflight + 1;
    }) in
    record marked {
      requests =
          record { row = j.row; action = s.current_action; params = s.current_params } ∷ s.requests;
    }

-- The first running job of a row.
unfoldable pub find_running : ℤ → ℕ → List Job → Option ℕ
find_running row k [] = none
find_running row k (j ∷ jobs) =
    if same_row j.row row && is_running j.status then some k else find_running row (k + 1) jobs

-- The words of `tr("dispatcher returned non-terminal status")`.
module _ (non_terminal : List ℕ) where
  -- A reply that is not final counts as a failure.
  unfoldable pub normalize : Reply → Reply
  normalize reply =
      if is_pending reply.status || is_running reply.status
      then record {
        status = done_failed;
        detail = if length reply.detail == 0 then non_terminal else reply.detail;
      }
      else reply

  -- completeOne up to its last test.
  unfoldable pub store_reply : ℕ → Reply → BatchRunner → BatchRunner
  store_reply k reply s =
      let r : Reply = normalize reply in
      let j : Job = get_or s.jobs k no_job in
      emit_job_changed k (record s {
        jobs = set s.jobs k (record j { status = r.status; detail = r.detail });
        inflight = s.inflight - 1;
      })

-- `anyActive`
unfoldable pub any_active : List Job → Bool
any_active [] = false
any_active (j ∷ jobs) = is_pending j.status || is_running j.status || any_active jobs

-- The end of pumpQueue.
unfoldable pub finish : BatchRunner → BatchRunner
unfolding any_active
finish s =
    if not (any_active s.jobs) && s.running
    then record s { running = false; signals = batch_finished ∷ running_changed ∷ s.signals }
    else s

unfoldable pub count : (BatchStatus → Bool) → List Job → ℕ
count test [] = 0
count test (j ∷ jobs) = (if test j.status then 1 else 0) + count test jobs

unfoldable pub is_done : BatchStatus → Bool
is_done BatchStatus.pending = false
is_done BatchStatus.running = false
is_done done_ok = true
is_done done_failed = false
is_done skipped = false

unfoldable pub is_skipped : BatchStatus → Bool
is_skipped BatchStatus.pending = false
is_skipped BatchStatus.running = false
is_skipped done_ok = false
is_skipped done_failed = false
is_skipped skipped = true

unfoldable pub done_count : BatchRunner → ℕ
done_count s = count is_done s.jobs

unfoldable pub failed_count : BatchRunner → ℕ
failed_count s = count is_failed s.jobs

unfoldable pub skipped_count : BatchRunner → ℕ
skipped_count s = count is_skipped s.jobs

abbrev pub new_job : ℤ → Job
new_job row = record { row = row; status = BatchStatus.pending; detail = [] }

abbrev pub retried : Job → Job
retried j = if is_failed j.status then record j { status = BatchStatus.pending; detail = [] } else j

-- The runner when a batch has been set up.
abbrev pub begun : List ℤ → ℤ → Params → BatchRunner → BatchRunner
begun rows action params s = record s {
  jobs = map new_job rows;
  current_action = action;
  current_params = params;
  inflight = 0;
  running = true;
  signals = jobs_changed ∷ running_changed ∷ s.signals;
}

abbrev pub begun_again : BatchRunner → BatchRunner
begun_again s = record s {
  jobs = map retried s.jobs;
  inflight = 0;
  running = true;
  signals = jobs_changed ∷ running_changed ∷ s.signals;
}

-- What the dispatcher does within the call.
abbrev pub Dispatcher : Type 0
Dispatcher = List Request → Option Reply

module _ (non_terminal : List ℕ) (dispatcher : Dispatcher) where
  -- completeOne at the job that has been found; it ends in a pump. Without one the reply is dropped.
  unfoldable pub complete_one :
      (BatchRunner → Option BatchRunner) → Reply → BatchRunner → Option ℕ → Option BatchRunner
  complete_one pump reply s none = some s
  complete_one pump reply s (some k) =
      let stored : BatchRunner = store_reply non_terminal k reply s in
      if stored.running then pump stored else some stored

  -- The callback that the dispatcher is given.
  unfoldable pub on_reply :
      (BatchRunner → Option BatchRunner) → ℤ → Reply → BatchRunner → Option BatchRunner
  on_reply pump row reply s = complete_one pump reply s (find_running row 0 s.jobs)

  -- What follows the call of the dispatcher, when it has answered or not.
  unfoldable pub answered :
      (BatchRunner → Option BatchRunner) → ℤ → Option Reply → BatchRunner → Option BatchRunner
  answered pump row none s = some s
  answered pump row (some reply) s = on_reply pump row reply s

  unfoldable pub then_on :
      Option BatchRunner → (BatchRunner → Option BatchRunner) → Option BatchRunner
  then_on none next = none
  then_on (some s) next = next s

  -- One turn of the loop of pumpQueue at job `i`; `again` is the rest of the loop.
  unfoldable pub turn :
      (ℕ → BatchRunner → Option BatchRunner) → ℕ → BatchRunner → Option BatchRunner
  turn again i s =
      let j : Job = get_or s.jobs i no_job in
      let sent : BatchRunner = dispatch_job i s in
      if ltb i (length s.jobs) && ltb s.inflight s.max_concurrency
      then if is_pending j.status
        then then_on (answered (again 0) j.row (dispatcher sent.requests) sent) (again (i + 1))
        else again (i + 1) s
      else some (finish s)

  -- pumpQueue from job `i` on; `none` when the fuel is spent.
  unfoldable pub pump_from : ℕ → ℕ → BatchRunner → Option BatchRunner
  unfolding turn answered then_on on_reply complete_one dispatch_job finish find_running store_reply
      normalize emit_job_changed
  pump_from zero i s = none
  pump_from (suc fuel) i s = turn (pump_from fuel) i s

  -- Every job may be pending, and each dispatch may start the loop again.
  unfoldable pub pump_queue : BatchRunner → Option BatchRunner
  unfolding pump_from
  pump_queue s = pump_from ((length s.jobs + 1) * (length s.jobs + 1)) 0 s

  -- The result is the pump's, or the runner as it was when the call is refused.
  unfoldable pub start : List ℤ → ℤ → Params → BatchRunner → Option BatchRunner × Bool
  start rows action params s =
      if s.running || not s.has_dispatcher || (length rows == 0)
      then (some s, false)
      else (pump_queue (begun rows action params s), true)

  unfoldable pub retry_failed : BatchRunner → Option BatchRunner × Bool
  retry_failed s =
      if s.running || not s.has_dispatcher || (count is_failed s.jobs == 0)
      then (some s, false)
      else (pump_queue (begun_again s), true)
