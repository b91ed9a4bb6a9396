-- ===== src/Batch/Runner/Events.antt =====
-- A batch of app/src/batchrunner.cpp from event to event.
use mesh_commander.Prelude.{
  ℕ, zero, suc, ◌+◌, ◌≤◌, ◌≡◌, refl, ap, ◌∙◌, ◌⊎◌, inl, inr, true, false, not, ◌||◌, List, [], ◌∷◌,
  Option, some, map, ◌==◌, length, Bool-cases, arith, length-map, ℤ, pos, negsuc,
}
use mesh_commander.Batch.Runner.{
  then_on, new_runner, Bool, skipped_count, is_pending, failed_count, is_skipped, done_count,
  is_done, Job, Reply, Params, BatchRunner, is_running, is_failed, count, Dispatcher, on_reply,
  pump_queue, clamp_concurrency, set_max_concurrency, start, retry_failed, retried, new_job, begun,
  begun_again,
}
use mesh_commander.Batch.Runner.Counts.{count-before, one, count_before}
use mesh_commander.Batch.Runner.Moves.{pending_jobs, finished, IsCounted, RestsIdle, Moves}
use mesh_commander.Batch.Runner.Ends.{IsSettled}
use mesh_commander.Batch.Runner.Replies.{Gives, Gives-same, Gives-map, on_reply-Moves}
use mesh_commander.Batch.Runner.Pump.{then_on-Gives, pump_queue-Moves}

-- The calls that a runner gets: from the interface, and from a dispatcher that answers later.
pub data Event : Type 0 where
  start_batch : List ℤ → ℤ → Params → Event
  retry : Event
  reply_arrives : ℤ → Reply → Event
  limit : ℤ → Event

module _ (non_terminal : List ℕ) (dispatcher : Dispatcher) where
  unfoldable pub on_event : Event → BatchRunner → Option BatchRunner
  on_event (start_batch rows action params) s =
      (start non_terminal dispatcher rows action params s).0
  on_event retry s = (retry_failed non_terminal dispatcher s).0
  on_event (reply_arrives row reply) s =
      on_reply non_terminal dispatcher (pump_queue non_terminal dispatcher) row reply s
  on_event (limit n) s = some (set_max_concurrency n s)

  unfoldable pub on_events : List Event → BatchRunner → Option BatchRunner
  on_events [] s = some s
  on_events (e ∷ events) s = then_on non_terminal dispatcher (on_event e s) (on_events events)

-- Between two events.
pub record IsSound (s : BatchRunner) : Type 0 where
  pub counted : IsCounted s
  pub slots : 1 ≤ s.max_concurrency
  pub waiting : s.running ≡ true → 1 ≤ s.inflight
  pub at_rest : RestsIdle s

settled-IsSound :
    {s t : BatchRunner} → Moves s t → IsSettled t → 1 ≤ s.max_concurrency → RestsIdle s → IsSound t
settled-IsSound {s} {t} m d h r = record {
  counted = m.counted;
  slots = omega (arith, m.same_max, h);
  waiting = λ runs. elim d.drained [
    | inl none_left ↦ omega (arith, d.has_work runs, none_left, m.counted)
    | inr full ↦ omega (arith, full, m.same_max, h)
  ];
  at_rest = m.rests r;
}

clamp_concurrency_bounds : (n : ℤ) → (1 ≤ clamp_concurrency n) × (clamp_concurrency n ≤ 64)
unfolding clamp_concurrency
clamp_concurrency_bounds (pos n) = ground arith
clamp_concurrency_bounds (negsuc n) = ground arith

begun-IsCounted :
    (rows : List ℤ) → 0 ≡ count_before is_running (length (map new_job rows)) (map new_job rows)
unfolding count_before
begun-IsCounted [] = refl
begun-IsCounted (row ∷ rows) = omega (arith, begun-IsCounted rows)

-- Failed jobs become pending; none that was idle becomes running.
retried-idle :
    (i : ℕ) (jobs : List Job)
    → count_before is_running i (map retried jobs) ≤ count_before is_running i jobs
unfolding count_before
retried-idle zero jobs = omega arith
retried-idle (suc i) [] = omega arith
retried-idle (suc i) (j ∷ jobs) = ground (arith, retried-idle i jobs)

begun_again-IsCounted :
    (s : BatchRunner) → IsSound s → s.running ≡ false → IsCounted (begun_again s)
begun_again-IsCounted s v stopped =
    let same : length (map retried s.jobs) ≡ length s.jobs = length-map retried s.jobs in
    rw same (omega (arith, v.at_rest stopped, retried-idle (length s.jobs) s.jobs))

pub new_runner-IsSound : (ready : Bool) → IsSound (new_runner ready)
unfolding count_before
new_runner-IsSound ready = record {
  counted = refl;
  slots = omega arith;
  waiting = λ r. absurd (omega (arith, ap one r));
  at_rest = λ r. refl;
}

module _ (non_terminal : List ℕ) (dispatcher : Dispatcher) where
  -- A pump of a runner that has just been set to run.
  pumped-IsSound :
      (s : BatchRunner)
      → IsCounted s
      → 1 ≤ s.max_concurrency
      → RestsIdle s
      → Gives (pump_queue non_terminal dispatcher s) (λ t. Moves s t × IsSound t)
  pumped-IsSound s c h r =
      Gives-map (pump_queue-Moves non_terminal dispatcher s c)
        (λ t v. (v.0, settled-IsSound v.0 v.1 h r))

  start-IsSound :
      (rows : List ℤ) (action : ℤ) (params : Params) (s : BatchRunner)
      → IsSound s
      → Gives (start non_terminal dispatcher rows action params s).0 IsSound
  unfolding start
  start-IsSound rows action params s v =
      elim (Bool-cases (s.running || not s.has_dispatcher || (length rows == 0))) [
        | inl r ↦ Gives-same (rw r refl) (s, refl, v)
        | inr a ↦ Gives-same (rw a refl) (
            Gives-map
              (pumped-IsSound (begun rows action params s) (begun-IsCounted rows) v.slots
                (λ stopped. absurd (omega (arith, ap one stopped))))
              (λ t w. w.1))
      ]

  retry_failed-IsSound :
      (s : BatchRunner) → IsSound s → Gives (retry_failed non_terminal dispatcher s).0 IsSound
  unfolding retry_failed
  retry_failed-IsSound s v =
      elim (Bool-cases (s.running || not s.has_dispatcher || (count is_failed s.jobs == 0))) [
        | inl r ↦ Gives-same (rw r refl) (s, refl, v)
        | inr a ↦ Gives-same (rw a refl) (
            Gives-map
              (pumped-IsSound (begun_again s) (begun_again-IsCounted s v (ground (arith, a)))
                v.slots (λ stopped. absurd (omega (arith, ap one stopped))))
              (λ t w. w.1))
      ]

  -- A reply that arrives later is handled to its end: the runner stays sound, no job becomes
  -- pending, the number in flight stays below any bound that it and the limit were below, and
  -- the end of the batch is signalled exactly when it stops running.
  pub on_reply-IsSound :
      (row : ℤ) (reply : Reply) (s : BatchRunner)
      → IsSound s
      → Gives
          (on_event non_terminal dispatcher (reply_arrives row reply) s)
          (λ t. Moves s t × IsSound t)
  unfolding on_event
  on_reply-IsSound row reply s v =
      on_reply-Moves non_terminal dispatcher {Q = IsSound} (pump_queue non_terminal dispatcher) row
        reply s v.counted v
        (λ u m stopped. record {
          counted = m.counted;
          slots = omega (arith, m.same_max, v.slots);
          waiting = λ r. absurd (omega (arith, ap one stopped, ap one r));
          at_rest = m.rests v.at_rest;
        })
        (λ u m. pumped-IsSound u m.counted (omega (arith, m.same_max, v.slots)) (m.rests v.at_rest))

  pub on_event-IsSound :
      (e : Event) (s : BatchRunner)
      → IsSound s
      → Gives (on_event non_terminal dispatcher e s) IsSound
  unfolding on_event set_max_concurrency
  on_event-IsSound (start_batch rows action params) s v = start-IsSound rows action params s v
  on_event-IsSound retry s v = retry_failed-IsSound s v
  on_event-IsSound (reply_arrives row reply) s v =
      Gives-map (on_reply-IsSound row reply s v) (λ t w. w.1)
  on_event-IsSound (limit n) s v = (
    set_max_concurrency n s,
    refl,
    record {
      counted = v.counted;
      slots = (clamp_concurrency_bounds n).0;
      waiting = v.waiting;
      at_rest = v.at_rest;
    },
  )

  all_events-IsSound :
      (events : List Event) (s : BatchRunner)
      → IsSound s
      → Gives (on_events non_terminal dispatcher events s) IsSound
  unfolding on_events
  all_events-IsSound [] s v = (s, refl, v)
  all_events-IsSound (e ∷ events) s v =
      then_on-Gives non_terminal dispatcher (on_event non_terminal dispatcher e s)
        (on_events non_terminal dispatcher events) (on_event-IsSound e s v)
        (all_events-IsSound events)

  -- From a new runner, whatever batches are started and retried, whatever limits are set and
  -- whatever replies arrive, early within the dispatcher's call or late, every event is handled
  -- to its end, and between events the number in flight is the number of running jobs, a batch
  -- that runs has a reply to wait for, and a runner at rest has no waiting or running job.
  pub on_events-IsSound :
      (events : List Event) (ready : Bool)
      → Gives (on_events non_terminal dispatcher events (new_runner ready)) IsSound
  on_events-IsSound events ready =
      all_events-IsSound events (new_runner ready) (new_runner-IsSound ready)

  -- A start with rows on a sound runner that is at rest and has a dispatcher is accepted; the
  -- batch has a job for each row, no more in flight than the limit, no job waiting while a slot
  -- is free, and its end is signalled once or still to come.
  pub start_accepted :
      (rows : List ℤ) (action : ℤ) (params : Params) (s : BatchRunner)
      → IsSound s
      → s.running ≡ false
      → s.has_dispatcher ≡ true
      → 1 ≤ length rows
      → ((start non_terminal dispatcher rows action params s).1 ≡ true)
        × Gives (start non_terminal dispatcher rows action params s).0 (λ t.
          (length t.jobs ≡ length rows)
          × (t.inflight ≤ t.max_concurrency)
          × ((pending_jobs t ≡ 0) ⊎ (t.max_concurrency ≤ t.inflight))
          × (finished t.signals + one t.running ≡ finished s.signals + 1))
  unfolding start finished
  start_accepted rows action params s v stopped ready some_rows = (
    rw taken refl,
    Gives-same (rw taken refl) (
        Gives-map
          (pump_queue-Moves non_terminal dispatcher (begun rows action params s)
            (begun-IsCounted rows))
          (λ t w. (
            w.0.same_length ∙ length-map new_job rows,
            omega (arith, w.0.same_max, w.0.bounded s.max_concurrency (omega arith) (omega arith)),
            w.1.drained,
            w.0.once,
          ))),
  )
    where
      taken : (s.running || not s.has_dispatcher || (length rows == 0)) ≡ false
      taken = ground (arith, stopped, ready, some_rows)

-- Every status is one of five.
all_counted :
    (jobs : List Job)
    → count is_pending jobs
        + count is_running jobs
        + count is_done jobs
        + count is_failed jobs
        + count is_skipped jobs
      ≡ length jobs
unfolding count is_done is_skipped
all_counted [] = refl
all_counted (j ∷ jobs) = ground (arith, all_counted jobs)

-- When a sound runner is at rest, the done, failed and skipped jobs are all its jobs.
pub counts_at_rest :
    (s : BatchRunner)
    → IsSound s
    → s.running ≡ false
    → done_count s + failed_count s + skipped_count s ≡ length s.jobs
unfolding done_count failed_count skipped_count
counts_at_rest s v stopped = omega (
  arith,
  all_counted s.jobs,
  v.at_rest stopped,
  count-before is_pending s.jobs,
  count-before is_running s.jobs,
)
