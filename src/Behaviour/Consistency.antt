-- ===== src/Behaviour/Consistency.antt =====
-- src/behaviour/mod.rs, metrics.rs and gossip_timer.rs: what every poll keeps of the measurements
-- and of the timer.
use the_swarm.Common.{
  ℕ, suc, ◌≤◌, refl, Option, none, some, List, [], ◌∷◌, arith, Bool-cases, inl, inr,
}
use the_swarm.Types.{PeerId}
use the_swarm.Behaviour.Metrics.{Metrics, record_start, record_end, update_queue_size}
use the_swarm.Behaviour.Timer.{DynamicTimer}
use the_swarm.Behaviour.Deadline.{
  IsMonotone, IsExact, IsTimed, Restarts, Resets, start_next-Restarts, reset_full-Resets,
}
use the_swarm.Behaviour.Handlers.{
  poll_send, Modules, HandleResult, ok, abort, Polled, sent, closed, full,
}
use the_swarm.Behaviour.State.{
  Ready, Arrivals, Node, Outside, Polling, set_timer, to_consensus, to_processor, to_network,
  to_user, to_memory, measure_queue, reset_timer,
}
use the_swarm.Behaviour.Gossip.{create_standalone, request_sync, start_sync}
use the_swarm.Behaviour.Poll.{Observed, or_abort, poll, check_all, dial_or}
use the_swarm.Behaviour.Steps.{Ends, Rules}
use the_swarm.Behaviour.Stages.{with_consensus, check_all-Ends}
use the_swarm.Behaviour.Log.{
  IsLog, InOrder, IsLog-le, started-IsLog, ended-IsLog, InOrder-le, updated-InOrder,
}

module _ (outside : Outside) (monotone : IsMonotone outside.clock)
    (exact : IsExact outside.floats) where
  -- The log of the syncs and the sizes of the queue are in order and in the past, and the timer
  -- ends no later than its longest duration from now.
  pub record Steady (metrics : Metrics) (timer : DynamicTimer) (ticks : ℕ) : Type 0 where
    pub syncs : IsLog metrics.sync (outside.clock ticks)
    pub sizes : InOrder 0 metrics.consensus_queue_size.values (outside.clock ticks)
    pub timed : IsTimed outside.clock outside.floats monotone exact timer ticks

module _ {J : Type 0} (outside : Outside) (monotone : IsMonotone outside.clock)
    (exact : IsExact outside.floats) where
  abbrev pub IsConsistent : Node J → Type 0
  IsConsistent n = Steady outside monotone exact n.metrics n.timer n.ticks

  abbrev Stays : Ready J → Node J → Type 0
  Stays r n = IsConsistent n

  either : (n : Node J) (r : Option (Ready J)) → IsConsistent n → Ends IsConsistent Stays (n, r)
  either n none h = h
  either n (some r) h = h

  later-IsConsistent :
      (n : Node J) (k : ℕ) → n.ticks ≤ k → IsConsistent n → IsConsistent (record n { ticks = k })
  later-IsConsistent n k le h =
      let le' = monotone n.ticks k le in
      record {
        syncs = IsLog-le n.metrics.sync _ _ le' h.syncs;
        sizes = InOrder-le 0 n.metrics.consensus_queue_size.values _ _ le' h.sizes;
        timed = (h.timed.0, omega (arith, h.timed.1, le'));
      }

  abbrev Keeps : Polling J → Type 0
  Keeps = Ends IsConsistent Stays

  with_timer :
      (n : Node J) (t : DynamicTimer) (k : ℕ)
      → n.ticks ≤ k
      → IsTimed outside.clock outside.floats monotone exact t k
      → IsConsistent n
      → IsConsistent (record n { timer = t; ticks = k })
  with_timer n t k le timed h =
      let h' = later-IsConsistent n k le h in
      record { syncs = h'.syncs; sizes = h'.sizes; timed = timed }

  reset-Keeps :
      (n : Node J) (r : Option (DynamicTimer × ℕ))
      → IsConsistent n
      → Resets outside.clock outside.floats monotone exact n.timer n.ticks r
      → Keeps (set_timer outside n r)
  reset-Keeps n none h resets = absurd resets
  reset-Keeps n (some (t, k)) h (same, last, le, timed, when) = with_timer n t k le timed h

  started-Keeps :
      (n : Node J) (r : Option (DynamicTimer × ℕ))
      → IsConsistent n
      → Restarts outside.clock outside.floats monotone exact n.timer n.ticks r
      → Keeps (set_timer outside n r)
  started-Keeps n none h restarts = absurd restarts
  started-Keeps n (some (t, k)) h (same, le, after, before, last) =
      with_timer n t k le (ground (arith, h.timed)) h

  started_sync-Keeps :
      (n : Node J) (polled : Polled) → IsConsistent n → Keeps (start_sync outside n polled)
  unfolding record_start
  started_sync-Keeps n closed h = h
  started_sync-Keeps n full h = h
  started_sync-Keeps n sent h =
      let now = outside.clock n.ticks in
      let started = started-IsLog n.metrics.sync now n.metrics.sync.status refl h.syncs in
      let h' = later-IsConsistent n (suc n.ticks) (omega arith) h in
      record {
        syncs =
            IsLog-le (record_start now n.metrics.sync) now (outside.clock (suc n.ticks))
              (monotone n.ticks (suc n.ticks) (omega arith)) started;
        sizes = h'.sizes;
        timed = h'.timed;
      }

  measured-IsConsistent : (n : Node J) → IsConsistent n → IsConsistent (measure_queue outside n)
  unfolding measure_queue
  measured-IsConsistent n h =
      let now = outside.clock n.ticks in
      let h' = later-IsConsistent n (suc n.ticks) (omega arith) h in
      record {
        syncs = h'.syncs;
        sizes =
            InOrder-le 0
              (update_queue_size now n.consensus.max_capacity n.consensus.free
                n.metrics.consensus_queue_size).values
              now (outside.clock (suc n.ticks)) (monotone n.ticks (suc n.ticks) (omega arith))
              (updated-InOrder now n.consensus.max_capacity n.consensus.free
                n.metrics.consensus_queue_size h.sizes);
        timed = h'.timed;
      }

  aborted-Keeps :
      (n : Node J) (r : Modules × HandleResult) → IsConsistent n → Keeps (or_abort outside n r)
  aborted-Keeps n (m, ok) h = h
  aborted-Keeps n (m, abort) h = h

  rules : Rules IsConsistent Stays outside
  unfolding to_consensus to_processor to_network to_user to_memory reset_timer create_standalone
      request_sync poll_send
  rules = record {
    consensus_send = λ e n h. either n _ h;
    processor_send = λ e n h. either n _ h;
    network_send = λ e n h. either n _ h;
    user_send = λ e n h. either n _ h;
    memory_send = λ e n h. either n _ h;
    measured = measured-IsConsistent;
    timer_reset = λ n h.
        reset-Keeps n _ h
          (reset_full-Resets outside.clock outside.floats monotone exact n.timer n.ticks h.timed);
    timer_started = λ n h.
        started-Keeps n _ h (
          start_next-Restarts outside.clock outside.floats monotone exact n.timer n.ticks
            h.timed.0);
    requests_processed = λ m n h. h;
    response_pending = λ m n h. h;
    message_taken = λ ms n h. h;
    drawn = λ draws n h. h;
    overdrawn = λ draws n h e. h;
    ticked = λ n h. later-IsConsistent n (suc n.ticks) (omega arith) h;
    standalone = λ n h. either n _ h;
    sync_requested = λ to n h. started_sync-Keeps _ _ h;
    transaction = λ from tx hash n h. aborted-Keeps n _ h;
  }

  check_all-Keeps :
      (seen : Observed) (n : Node J) → IsConsistent n → Keeps (check_all outside seen n)
  unfolding record_end
  check_all-Keeps =
      check_all-Ends IsConsistent Stays outside rules
        (record { back = λ r n a e h. back r n a h; over = λ start n s h e. h })
        (record {
          synced = synced;
          consensus_back = λ r n es h. back r n (with_consensus es n).arrivals h;
        })
    where
      back :
          (r : Option (Ready J)) (n : Node J) (a : Arrivals J)
          → Keeps (n, r)
          → Keeps (record n { arrivals = a }, r)
      back none n a h = h
      back (some r) n a h = h

      synced :
          (to : PeerId) (sync : List J) (n : Node J)
          → IsConsistent n
          → IsConsistent (record n {
            metrics = record n.metrics { sync = record_end (outside.clock n.ticks) n.metrics.sync };
            ticks = suc n.ticks;
          })
      synced to sync n h =
          let now = outside.clock n.ticks in
          let h' = later-IsConsistent n (suc n.ticks) (omega arith) h in
          record {
            syncs =
                IsLog-le (record_end now n.metrics.sync) now (outside.clock (suc n.ticks))
                  (monotone n.ticks (suc n.ticks) (omega arith))
                  (ended-IsLog n.metrics.sync now n.metrics.sync.status refl h.syncs);
            sizes = h'.sizes;
            timed = h'.timed;
          }

  -- With a monotone clock and exact arithmetic, every poll, however it ends, keeps this: the
  -- syncs in the log and the sizes of the queue were recorded in order and before now, no sync
  -- starts before the one before it is over, and the timer of the gossip ends no later than its
  -- longest duration from now.
  pub poll-IsConsistent :
      (seen : Observed) (n : Node J) → IsConsistent n → IsConsistent (poll outside seen n).0
  unfolding poll
  poll-IsConsistent seen n h = elim (Bool-cases seen.shutdown) [
    | inl e ↦ rw e h
    | inr e ↦ rw e (dialled n.discovered_peers)
  ]
    where
      ends : (p : Polling J) → Keeps p → IsConsistent p.0
      ends (n', none) h = h
      ends (n', some r) h = h

      dialled :
          (peers : List PeerId)
          → IsConsistent (dial_or outside peers n (check_all outside seen n)).0
      dialled [] = ends (check_all outside seen n) (check_all-Keeps seen n h)
      dialled (peer ∷ peers) = h
