-- ===== src/Behaviour/Stages.antt =====
-- src/behaviour/mod.rs: what holds at the end of the loops of a poll, and of the poll.
use the_swarm.Common.{
  arith, ℕ, suc, ◌≡◌, refl, Bool, true, false, ◌||◌, Option, none, some, List, [], ◌∷◌, Bool-cases,
  inl, inr,
}
use the_swarm.Types.{PeerId}
use the_swarm.Module.{Shared, accepts_input}
use the_swarm.Processor.SingleThreaded.Run
use the_swarm.InstructionStorage
use the_swarm.Consensus.Graph
use the_swarm.Consensus.Graph.{
  generate_sync_response, known_peers_response, finalized_transaction, recognized_transaction,
}
use the_swarm.Behaviour.Metrics.{record_end}
use the_swarm.Behaviour.State.{
  Ready, notify_handler, unable_to_operate, Arrivals, Node, Outside, Polling, and_then, go_on,
  or_closed, reset_timer,
}
use the_swarm.Behaviour.Memory.{on_memory_event, check_memory}
use the_swarm.Behaviour.Exchange.{on_network_event, check_network}
use the_swarm.Behaviour.Gossip.{check_gossip}
use the_swarm.Behaviour.Poll.{
  Observed, check_oneshot, on_user_event, on_processor_event, check_user, check_processor,
  on_instruction_event, drain_instructions, check_instructions, on_consensus_event, check_consensus,
  check_all, before_consensus, after_consensus,
}
use the_swarm.Behaviour.Steps.{
  Ends, and_then-Ends, drain-Ends, Rules, schedule_tx-Ends, on_memory_event-Ends,
  on_network_event-Ends, on_user_event-Ends, on_processor_event-Ends, on_instruction_event-Ends,
  check_oneshot-Ends, check_gossip-Ends,
}

abbrev pub some_closed : {J : Type 0} → Arrivals J → Bool
some_closed a =
    a.data_memory.is_closed
    || (a.user.is_closed
        || (a.processor.is_closed
            || (a.instruction_memory.is_closed
                || (a.consensus.is_closed || a.request_response.is_closed))))

-- What no loop changes but that of the consensus.
abbrev pub kept : {J : Type 0} → Arrivals J → Bool × List (Graph.OutEvent J)
kept a = (some_closed a, a.consensus.waiting)

abbrev pub with_consensus : {J : Type 0} → List (Graph.OutEvent J) → Node J → Node J
with_consensus es n = record n {
  arrivals = record n.arrivals { consensus = record n.arrivals.consensus { waiting = es } };
}

module _ {ℓ} {J : Type 0} (P : Node J → Type ℓ) (Q : Ready J → Node J → Type ℓ) where
  -- What allows to put back the events that are left, and to return where a channel is closed.
  pub record Loops : Type ℓ where
    pub back :
        (r : Option (Ready J)) (n : Node J) (a : Arrivals J)
        → kept a ≡ kept n.arrivals
        → Ends P Q (n, r)
        → Ends P Q (record n { arrivals = a }, r)
    pub over :
        (start n : Node J)
        → P start
        → P n
        → some_closed start.arrivals ≡ true
        → Q unable_to_operate n

  -- What the loop of the consensus needs besides.
  pub record ConsensusLoop (outside : Outside) : Type ℓ where
    pub synced :
        (to : PeerId) (sync : List J) (n : Node J)
        → P n
        → Q (notify_handler to sync) (record n {
          metrics = record n.metrics { sync = record_end (outside.clock n.ticks) n.metrics.sync };
          ticks = suc n.ticks;
        })
    pub consensus_back :
        (r : Option (Ready J)) (n : Node J) (es : List (Graph.OutEvent J))
        → Ends P Q (n, r)
        → Ends P Q (with_consensus es n, r)

  module _ (outside : Outside) (rules : Rules P Q outside) where
    pub on_consensus_event-Ends :
        ((to : PeerId) (sync : List J) (n : Node J)
          → P n
          → Q (notify_handler to sync) (record n {
            metrics = record n.metrics { sync = record_end (outside.clock n.ticks) n.metrics.sync };
            ticks = suc n.ticks;
          }))
        → (e : Graph.OutEvent J) (n : Node J) → P n
        → Ends P Q (on_consensus_event outside e n)
    unfolding on_consensus_event
    on_consensus_event-Ends synced (generate_sync_response to sync) n h = synced to sync n h
    on_consensus_event-Ends synced (known_peers_response peers) n h =
        schedule_tx-Ends P Q outside rules _ n h
    on_consensus_event-Ends synced (recognized_transaction from event_hash tx) n h =
        and_then-Ends P Q (reset_timer outside n) _ (rules.timer_reset n h)
          (rules.transaction from tx event_hash)
    on_consensus_event-Ends synced (finalized_transaction from event_hash tx) n h = h

    module _ (loops : Loops) where
      or_closed-Ends :
          (start : Node J)
          → P start
          → (is_closed : Bool) (p : Polling J)
          → (is_closed ≡ true → some_closed start.arrivals ≡ true)
          → Ends P Q p
          → Ends P Q (or_closed is_closed p)
      or_closed-Ends start s is_closed (n, some r) c h = h
      or_closed-Ends start s true (n, none) c h = loops.over start n s h (c refl)
      or_closed-Ends start s false (n, none) c h = h

      check_memory-Ends : (n : Node J) → P n → Ends P Q (check_memory outside n)
      unfolding check_memory
      check_memory-Ends n h =
          or_closed-Ends n h n.arrivals.data_memory.is_closed _ (λ e. ground arith)
            (loops.back _ _ _ refl (
              drain-Ends P Q (on_memory_event outside) (on_memory_event-Ends P Q outside rules)
                n.arrivals.data_memory.waiting n h))

      check_network-Ends : (n : Node J) → P n → Ends P Q (check_network n)
      unfolding check_network
      check_network-Ends n h =
          or_closed-Ends n h n.arrivals.request_response.is_closed _ (λ e. ground arith)
            (loops.back _ _ _ refl (
              drain-Ends P Q on_network_event (on_network_event-Ends P Q outside rules)
                n.arrivals.request_response.waiting n h))

      check_user-Ends : (n : Node J) → P n → Ends P Q (check_user outside n)
      unfolding check_user
      check_user-Ends n h =
          or_closed-Ends n h n.arrivals.user.is_closed _ (λ e. ground arith)
            (loops.back _ _ _ refl (
              drain-Ends P Q (on_user_event outside) (on_user_event-Ends P Q outside rules)
                n.arrivals.user.waiting n h))

      check_processor-Ends : (n : Node J) → P n → Ends P Q (check_processor outside n)
      unfolding check_processor
      check_processor-Ends n h =
          or_closed-Ends n h n.arrivals.processor.is_closed _ (λ e. ground arith)
            (loops.back _ _ _ refl (
              drain-Ends P Q (on_processor_event outside)
                (on_processor_event-Ends P Q outside rules) n.arrivals.processor.waiting n h))

      drain_instructions-Ends :
          (start : Node J)
          → P start
          → (state : ℕ → Shared Run.ModuleState) (i : ℕ) (is_closed : Bool)
          → (is_closed ≡ true → some_closed start.arrivals ≡ true)
          → (es : List InstructionStorage.OutEvent) (n : Node J) → P n
          → Ends P Q (drain_instructions outside state i is_closed es n).0
      unfolding drain_instructions
      drain_instructions-Ends start s state i is_closed c [] n h =
          elim (Bool-cases (accepts_input Run.accepts (state i))) [
            | inl e ↦ rw e (or_closed-Ends start s is_closed (n, none) c h)
            | inr e ↦ rw e h
          ]
      drain_instructions-Ends start s state i is_closed c (e ∷ es) n h =
          elim (Bool-cases (accepts_input Run.accepts (state i))) [
            | inl accepts ↦ rw accepts (
                next (on_instruction_event outside e n)
                  (on_instruction_event-Ends P Q outside rules e n h)
                  (drain_instructions-Ends start s state (suc i) is_closed c es))
            | inr busy ↦ rw busy h
          ]
        where
          next :
              (p : Polling J)
              → Ends P Q p
              → ((n : Node J)
                  → P n
                  → Ends P Q (drain_instructions outside state (suc i) is_closed es n).0)
              → Ends P Q (go_on (drain_instructions outside state (suc i) is_closed es) es p).0
          next (n', none) h' later = later n' h'
          next (n', some r) h' later = h'

      check_instructions-Ends :
          (state : ℕ → Shared Run.ModuleState) (n : Node J)
          → P n
          → Ends P Q (check_instructions outside state n)
      unfolding check_instructions
      check_instructions-Ends state n h = loops.back _ _ _ refl (
          drain_instructions-Ends n h state 0 n.arrivals.instruction_memory.is_closed
            (λ e. ground arith) n.arrivals.instruction_memory.waiting n h)

      pub check_consensus-Ends :
          ConsensusLoop outside → (n : Node J) → P n → Ends P Q (check_consensus outside n)
      unfolding check_consensus
      check_consensus-Ends loop n h =
          or_closed-Ends n h n.arrivals.consensus.is_closed _ (λ e. ground arith)
            (loop.consensus_back _ _ _ (
              drain-Ends P Q (on_consensus_event outside) (on_consensus_event-Ends loop.synced)
                n.arrivals.consensus.waiting n h))

      chain-Ends :
          (P' : Node J → Type ℓ) (p : Polling J) (f : Node J → Polling J)
          → Ends P Q p
          → ((n : Node J) → P n → Ends P' Q (f n))
          → Ends P' Q (and_then p f)
      chain-Ends P' (n, none) f h g = g n h
      chain-Ends P' (n, some r) f h g = h

      -- The parts before the loop of the consensus, and those after it.
      pub before_consensus-Ends :
          (P' : Node J → Type ℓ) (seen : Observed) (f : Node J → Polling J) (n : Node J)
          → P n
          → ((n : Node J) → P n → Ends P' Q (f n))
          → Ends P' Q (before_consensus outside seen n f)
      unfolding before_consensus
      before_consensus-Ends P' seen f n h rest =
          chain-Ends P' (check_oneshot outside n.oneshot_messages n) _
            (check_oneshot-Ends P Q outside rules n.oneshot_messages n h)
            (λ n h. chain-Ends P' (check_memory outside n) _ (check_memory-Ends n h) (λ n h.
              chain-Ends P' (check_user outside n) _ (check_user-Ends n h) (λ n h.
                chain-Ends P' (check_processor outside n) _ (check_processor-Ends n h) (λ n h.
                  chain-Ends P' (check_instructions outside seen.processor_state n) _
                    (check_instructions-Ends seen.processor_state n h) rest))))

      pub after_consensus-Ends :
          (seen : Observed) (n : Node J) → P n → Ends P Q (after_consensus outside seen n)
      unfolding after_consensus
      after_consensus-Ends seen n h =
          and_then-Ends P Q (check_gossip outside seen.consensus_state n) _
            (check_gossip-Ends P Q outside rules seen.consensus_state n h) check_network-Ends

      pub check_all-Ends :
          ConsensusLoop outside
          → (seen : Observed) (n : Node J) → P n
          → Ends P Q (check_all outside seen n)
      unfolding check_all
      check_all-Ends loop seen n h = before_consensus-Ends P seen _ n h (λ n h.
          and_then-Ends P Q (check_consensus outside n) _ (check_consensus-Ends loop n h)
            (after_consensus-Ends seen))
