-- ===== src/Batch/Tests.antt =====
-- Batches of app/src/batchrunner.cpp on a few machines.
use mesh_commander.Prelude.{
  ◌≡◌, refl, ap, true, List, [], ◌∷◌, Option, none, some, map, arith, ℤ, pos,
}
use mesh_commander.Batch.Runner.{
  BatchStatus, done_ok, done_failed, skipped, Job, Reply, BatchRunner, Dispatcher, new_runner,
  begun, new_job, start, pump_queue, pump_from, turn, answered, then_on, on_reply, complete_one,
  store_reply, normalize, dispatch_job, emit_job_changed, find_running, finish, any_active,
  is_running,
}
use mesh_commander.Batch.Runner.Counts.{one, count_before}
use mesh_commander.Batch.Runner.Moves.{Moves}
use mesh_commander.Batch.Runner.Ends.{IsSettled}
use mesh_commander.Batch.Runner.Replies.{Gives}
use mesh_commander.Batch.Runner.Pump.{pump_queue-Moves}
use mesh_commander.Batch.Runner.Events.{
  start_batch, retry, reply_arrives, limit, IsSound, on_events, on_events-IsSound,
}

-- A dispatcher that answers later, and one that fails within the call.
abbrev later : Dispatcher
later requests = none

abbrev at_once : Dispatcher
at_once requests = some (record { status = done_failed; detail = [] })

abbrev rows : List ℤ
rows = pos 3 ∷ pos 4 ∷ pos 9 ∷ []

-- The third job waits for a slot.
abbrev two_slots : BatchRunner
two_slots = record (new_runner true) { max_concurrency = 2 }

abbrev fine : Reply
fine = record { status = done_ok; detail = [] }

statuses_of : Option BatchRunner → List BatchStatus
statuses_of none = []
statuses_of (some s) = map (λ (j : Job). j.status) s.jobs

one_waits :
    statuses_of (start [] later rows (pos 1) [] two_slots).0
    ≡ BatchStatus.running ∷ BatchStatus.running ∷ BatchStatus.pending ∷ []
unfolding statuses_of start pump_queue pump_from turn answered then_on on_reply complete_one
    store_reply normalize dispatch_job emit_job_changed find_running finish any_active
one_waits = refl

all_fail :
    statuses_of (start [] at_once rows (pos 1) [] two_slots).0
    ≡ done_failed ∷ done_failed ∷ done_failed ∷ []
unfolding statuses_of start pump_queue pump_from turn answered then_on on_reply complete_one
    store_reply normalize dispatch_job emit_job_changed find_running finish any_active
all_fail = refl

counted_at_start : 0 ≡ count_before is_running 3 (map new_job rows)
unfolding count_before
counted_at_start = refl

pump_queue-Moves_example :
    Gives
      (pump_queue [] at_once (begun rows (pos 1) [] two_slots))
      (λ t. Moves (begun rows (pos 1) [] two_slots) t × IsSettled t)
pump_queue-Moves_example =
    pump_queue-Moves [] at_once (begun rows (pos 1) [] two_slots) counted_at_start

on_events-IsSound_example :
    Gives
      (on_events [] later
        (start_batch rows (pos 1) [] ∷ limit (pos 1) ∷ reply_arrives (pos 4) fine ∷ retry ∷ [])
        (new_runner true))
      IsSound
on_events-IsSound_example =
    on_events-IsSound [] later
      (start_batch rows (pos 1) [] ∷ limit (pos 1) ∷ reply_arrives (pos 4) fine ∷ retry ∷ []) true

-- One job runs and one waits.
abbrev busy : BatchRunner
busy = record (new_runner true) {
  jobs = record { row = pos 3; status = BatchStatus.running; detail = [] } ∷ new_job (pos 4) ∷ [];
  max_concurrency = 1;
  inflight = 1;
  running = true;
}

busy-IsSound : IsSound busy
unfolding count_before
busy-IsSound = record {
  counted = refl;
  slots = omega arith;
  waiting = λ r. omega arith;
  at_rest = λ r. absurd (omega (arith, ap one r));
}

-- A batch that is over.
abbrev over : BatchRunner
over = record (new_runner true) {
  jobs =
      record { row = pos 3; status = done_ok; detail = [] }
      ∷ record { row = pos 4; status = skipped; detail = [] }
      ∷ [];
}

over-IsSound : IsSound over
unfolding count_before
over-IsSound = record {
  counted = refl;
  slots = omega arith;
  waiting = λ r. absurd (omega (arith, ap one r));
  at_rest = λ r. refl;
}
