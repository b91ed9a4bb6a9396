-- ===== src/Batch/Runner/Pump.antt =====
-- The loop of pumpQueue of app/src/batchrunner.cpp, with a dispatcher that may answer within its call.
use mesh_commander.Prelude.{
  ◌⊎◌, ℕ, ◌+◌, ◌-◌, ◌≤◌, ◌<◌, ◌≡◌, refl, ap, ◌∙◌, inl, inr, true, false, List, ltb, length, get_or,
  Bool-cases, arith, zero, ◌*◌, ◌&&◌, if◌then◌else◌,
}
use native.Mathlib.Nat.{mul-le-mul_right}
use mesh_commander.Batch.Runner.{
  pump_queue, Bool, then_on, ℤ, suc, pump_from, turn, answered, some, Dispatcher, Option, finish,
  Reply, BatchRunner, no_job, is_pending, dispatch_job,
}
use mesh_commander.Batch.Runner.Counts.{count_before-le, before_suc, one, count_before}
use mesh_commander.Batch.Runner.Moves.{
  pending_jobs, IsCounted, Moves, Moves-trans, Moves-refl, dispatch-Moves,
}
use mesh_commander.Batch.Runner.Ends.{IsSettled, finish-Moves}
use mesh_commander.Batch.Runner.Replies.{Gives, Gives-same, Gives-map, answered-Moves}

-- `again` is the rest of the loop.
module _ (non_terminal : List ℕ) (dispatcher : Dispatcher) where
  -- What is asked of the rest of the loop, for runners with less to do than `n`.
  abbrev todo : ℕ → BatchRunner → ℕ
  todo i s = pending_jobs s * (length s.jobs + 1) + (length s.jobs - i)

  abbrev Pumps : (ℕ → BatchRunner → Option BatchRunner) → ℕ → Type 0
  Pumps again n =
      (i : ℕ) (s : BatchRunner)
      → IsCounted s
      → i ≤ length s.jobs
      → count_before is_pending i s.jobs ≡ 0
      → todo i s < n
      → Gives (again i s) (λ t. Moves s t × IsSettled t)

  at_end :
      (i : ℕ) (s : BatchRunner)
      → i ≤ length s.jobs
      → count_before is_pending i s.jobs ≡ 0
      → (ltb i (length s.jobs) && ltb s.inflight s.max_concurrency) ≡ false
      → (pending_jobs s ≡ 0) ⊎ (s.max_concurrency ≤ s.inflight)
  at_end i s l z out = elim (Bool-cases (ltb i (length s.jobs))) [
    | inl a ↦ inr (ground (arith, a, out))
    | inr a ↦
        let e : length s.jobs ≡ i = ground (arith, a) in
        inl (ap (λ (x : ℕ). count_before is_pending x s.jobs) e ∙ z)
  ]

  -- The part of the budget that one dispatch frees.
  spent : (p q w : ℕ) → p + 1 ≤ q → p * (w + 1) + (w + 1) ≤ q * (w + 1)
  spent p q w h = omega (arith, mul-le-mul_right (w + 1) h)

  next_turn :
      (again : ℕ → BatchRunner → Option BatchRunner) (n i : ℕ) (s u : BatchRunner)
      → Pumps again n
      → i < length s.jobs
      → count_before is_pending (suc i) s.jobs ≡ 0
      → todo i s < suc n
      → Moves s u
      → Gives (again (i + 1) u) (λ t. Moves u t × IsSettled t)
  next_turn again n i s u h l z b m =
      h (i + 1) u m.counted (omega (arith, m.same_length))
        (ap (λ (x : ℕ). count_before is_pending x u.jobs) same_index
          ∙ omega (arith, m.fewer (suc i), z))
        (rw (m.same_length)
          (omega (arith, mul-le-mul_right (length s.jobs + 1) (m.fewer (length s.jobs)), b, l)))
    where
      same_index : i + 1 ≡ suc i
      same_index = omega arith

  pub then_on-Gives :
      (o : Option BatchRunner) (next : BatchRunner → Option BatchRunner)
      → {P Q : BatchRunner → Type 0} → Gives o P
      → ((u : BatchRunner) → P u → Gives (next u) Q)
      → Gives (then_on non_terminal dispatcher o next) Q
  unfolding then_on
  then_on-Gives o next (t, e, p) h =
      Gives-same (ap (λ (x : Option BatchRunner). then_on non_terminal dispatcher x next) e) (h t p)

  -- The turn that hands job `i` to the dispatcher.
  send_turn :
      (again : ℕ → BatchRunner → Option BatchRunner) (n i : ℕ) (s : BatchRunner)
      → Pumps again n
      → IsCounted s
      → i < length s.jobs
      → s.inflight < s.max_concurrency
      → is_pending (get_or s.jobs i no_job).status ≡ true
      → count_before is_pending i s.jobs ≡ 0
      → todo i s < suc n
      → Gives
          (then_on non_terminal dispatcher
            (answered non_terminal dispatcher
              (again 0)
              (get_or s.jobs i no_job).row
              (dispatcher (dispatch_job i s).requests)
              (dispatch_job i s))
            (again (i + 1)))
          (λ t. Moves s t × IsSettled t)
  unfolding count_before
  send_turn again n i s h c l free waits z b =
      then_on-Gives (answered non_terminal dispatcher (again 0) row answer sent) (again (i + 1))
        (answered-Moves non_terminal dispatcher (again 0) row answer sent m.counted nested)
        (λ mid reached.
          Gives-map
            (next_turn again n i sent mid h (omega (arith, l, m.same_length)) z_next in_budget
              reached)
            (λ t v. (Moves-trans m (Moves-trans reached v.0), v.1)))
    where
      row : ℤ
      row = (get_or s.jobs i no_job).row

      answer : Option Reply
      answer = dispatcher (dispatch_job i s).requests

      sent : BatchRunner
      sent = dispatch_job i s

      m : Moves s sent
      m = (dispatch-Moves i s l free waits c).0

      less :
          (k : ℕ)
          → i < k
          → count_before is_pending k sent.jobs + 1 ≡ count_before is_pending k s.jobs
      less = (dispatch-Moves i s l free waits c).1

      z_next : count_before is_pending (suc i) sent.jobs ≡ 0
      z_next =
          omega
            (arith, less (suc i) (omega arith), before_suc is_pending i s.jobs l, ap one waits, z)

      freed :
          (k : ℕ)
          → k ≤ count_before is_pending (length s.jobs) sent.jobs
          → k * (length s.jobs + 1) + (length s.jobs + 1) ≤ todo i s
      freed k h = omega (
        arith,
        spent k (pending_jobs s) (length s.jobs) (omega (arith, h, less (length s.jobs) l)),
      )

      in_budget : todo i sent < suc n
      in_budget = rw (m.same_length) (
          omega (arith, b, freed (count_before is_pending (length s.jobs) sent.jobs) (omega arith)))

      nested : (u : BatchRunner) → Moves sent u → Gives (again 0 u) (Moves u)
      nested u v =
          let same : length u.jobs ≡ length s.jobs = v.same_length ∙ m.same_length in
          let (t, e, w) = h 0 u v.counted (omega arith) refl (
            rw same (
              omega (
                arith,
                b,
                freed (count_before is_pending (length s.jobs) u.jobs) (v.fewer (length s.jobs)),
              ))) in
          (t, e, w.0)

  turn_at :
      (again : ℕ → BatchRunner → Option BatchRunner) (i : ℕ) (s : BatchRunner) (inside waits : Bool)
      → (ltb i (length s.jobs) && ltb s.inflight s.max_concurrency) ≡ inside
      → is_pending (get_or s.jobs i no_job).status ≡ waits
      → turn non_terminal dispatcher again i s ≡ (
          if inside
          then if waits
            then then_on non_terminal dispatcher
                (answered non_terminal dispatcher
                  (again 0)
                  (get_or s.jobs i no_job).row
                  (dispatcher (dispatch_job i s).requests)
                  (dispatch_job i s))
                (again (i + 1))
            else again (i + 1) s
          else some (finish s))
  unfolding turn
  turn_at again i s inside waits a b = rw (a, b) refl

  turn-Pumps :
      (again : ℕ → BatchRunner → Option BatchRunner) (n : ℕ)
      → Pumps again n
      → Pumps (turn non_terminal dispatcher again) (suc n)
  turn-Pumps again n h i s c l z b =
      elim (Bool-cases (ltb i (length s.jobs) && ltb s.inflight s.max_concurrency)) [
        | inr out ↦
            Gives-same (turn_at again i s false _ out refl)
              (finish s, refl, finish-Moves s c (at_end i s l z out))
        | inl inside ↦
            let here : i < length s.jobs = ground (arith, inside) in
            let free : s.inflight < s.max_concurrency = ground (arith, inside) in
            elim (Bool-cases (is_pending (get_or s.jobs i no_job).status)) [
              | inr other ↦
                  let z' : count_before is_pending (suc i) s.jobs ≡ 0 =
                    omega (arith, before_suc is_pending i s.jobs here, ap one other) in
                  Gives-same (turn_at again i s true false inside other)
                    (next_turn again n i s s h here z' b (Moves-refl c))
              | inl waits ↦
                  Gives-same (turn_at again i s true true inside waits)
                    (send_turn again n i s h c here free waits z b)
            ]
      ]

  pump_from-Pumps : (fuel : ℕ) → Pumps (pump_from non_terminal dispatcher fuel) fuel
  unfolding pump_from
  pump_from-Pumps zero i s c l z b = absurd (omega arith)
  pump_from-Pumps (suc fuel) i s c l z b =
      turn-Pumps (pump_from non_terminal dispatcher fuel) fuel (pump_from-Pumps fuel) i s c l z b

  -- When the number in flight is the number of running jobs, pumpQueue comes to its end within
  -- its fuel even if the dispatcher answers within its call, and leaves no job waiting while a
  -- slot is free; it keeps the job list's length and the limit, makes no job pending, keeps the
  -- number in flight below any bound that it and the limit were below, and signals the end of
  -- the batch exactly when it stops running.
  pub pump_queue-Moves :
      (s : BatchRunner)
      → IsCounted s
      → Gives (pump_queue non_terminal dispatcher s) (λ t. Moves s t × IsSettled t)
  unfolding pump_queue count_before
  pump_queue-Moves s c =
      pump_from-Pumps ((length s.jobs + 1) * (length s.jobs + 1)) 0 s c (omega arith) refl (
        omega (
          arith,
          mul-le-mul_right (length s.jobs + 1) (count_before-le is_pending (length s.jobs) s.jobs),
        ))
