-- ===== src/Behaviour/Failure.antt =====
-- src/behaviour/mod.rs: why a poll fails.
use the_swarm.Common.{
  ℕ, ◌≤◌, ◌≡◌, refl, ◌⊎◌, inl, inr, Bool, true, false, Option, none, some, List, [], ◌∷◌, arith,
  Bool-cases, sym, ◌∙◌, ap, subst,
}
use the_swarm.Processor.SingleThreaded.Run
use the_swarm.InstructionStorage
use the_swarm.DataMemory.State
use the_swarm.Consensus.Graph
use the_swarm.Protocol
use the_swarm.Types.{PeerId, Hash}
use the_swarm.Processor.Program.{Instructions}
use the_swarm.Consensus.Transaction.{
  Transaction, initialize_storage, storage_request, stored, execute, executed,
}
use the_swarm.Behaviour.Timer.{DynamicTimer}
use the_swarm.Behaviour.Deadline.{Goes, start_next-Goes, reset_full-Goes}
use the_swarm.Behaviour.Peers.{IsRange, Chooses, get_random_peer-Chooses}
use the_swarm.Behaviour.Handlers.{
  Inbox, handle_tx, poll_send, to_data_memory, to_instruction_memory, handle_storage_request_tx,
  handle_stored_ts, handle_execute_tx, handle_executed_tx, handle_initialize_storage_tx,
}
use the_swarm.Behaviour.Delivery.{program-some}
use the_swarm.Behaviour.State.{
  OutEvent, Ready, dial, notify_handler, unable_to_operate, cancel_signal, panicked, Arrivals, Node,
  Outside, Polling, to_consensus, to_processor, to_network, to_user, to_memory, measure_queue,
  reset_timer, set_timer,
}
use the_swarm.Behaviour.Gossip.{create_standalone, request_sync}
use the_swarm.Behaviour.Poll.{Observed, or_abort, poll, check_all, dial_or}
use the_swarm.Behaviour.Steps.{Ends, Rules}
use the_swarm.Behaviour.Stages.{some_closed, with_consensus, check_all-Ends}

-- A send to the inbox would not be done.
abbrev pub Stuck : {E : Type 0} → Inbox E → Type 0
Stuck inbox = (inbox.open_still ≡ false) ⊎ (inbox.free ≡ 0)

module _ {J : Type 0} where
  abbrev pub SomeStuck : Node J → Type 0
  SomeStuck n =
      Stuck n.consensus
      ⊎ (Stuck n.processor
          ⊎ (Stuck n.request_response
              ⊎ (Stuck n.user_output
                  ⊎ (Stuck n.modules.data_memory ⊎ Stuck n.modules.instruction_memory))))

  module _ (was_closed : Bool) where
    -- The durations are in order.
    abbrev Fine : Node J → Type 0
    Fine n = (some_closed n.arrivals ≡ was_closed) × (n.timer.min_duration ≤ n.timer.max_duration)

    abbrev pub Explained : Ready J → Node J → Type 0
    Explained (dial _) n = Unit {0}
    Explained (notify_handler _ _) n = Unit {0}
    Explained cancel_signal n = Unit {0}
    Explained unable_to_operate n = SomeStuck n ⊎ (was_closed ≡ true)
    Explained panicked n = ⊥

    to_consensus-Ends :
        (e : Graph.InEvent J) (n : Node J) → Fine n → Ends Fine Explained (to_consensus e n)
    unfolding to_consensus poll_send
    to_consensus-Ends e n h = ground arith

    to_processor-Ends :
        (e : Run.InEvent) (n : Node J) → Fine n → Ends Fine Explained (to_processor e n)
    unfolding to_processor poll_send
    to_processor-Ends e n h = ground arith

    to_network-Ends :
        (e : Protocol.InEvent) (n : Node J) → Fine n → Ends Fine Explained (to_network e n)
    unfolding to_network poll_send
    to_network-Ends e n h = ground arith

    to_user-Ends : (e : OutEvent) (n : Node J) → Fine n → Ends Fine Explained (to_user e n)
    unfolding to_user poll_send
    to_user-Ends e n h = ground arith

    to_memory-Ends : (e : State.InEvent) (n : Node J) → Fine n → Ends Fine Explained (to_memory e n)
    unfolding to_memory poll_send
    to_memory-Ends e n h = ground arith

    create_standalone-Ends : (n : Node J) → Fine n → Ends Fine Explained (create_standalone n)
    unfolding create_standalone poll_send
    create_standalone-Ends n h = ground arith

    request_sync-Ends :
        (outside : Outside) (to : PeerId) (n : Node J)
        → Fine n
        → Ends Fine Explained (request_sync outside to n)
    unfolding request_sync poll_send
    request_sync-Ends outside to n h = ground arith

    set_timer-Ends :
        (outside : Outside) (n : Node J) (r : Option (DynamicTimer × ℕ))
        → Fine n
        → Goes outside.clock outside.floats n.timer n.ticks r
        → Ends Fine Explained (set_timer outside n r)
    set_timer-Ends outside n none h goes = goes
    set_timer-Ends outside n (some (t, ticks)) h goes = ground arith

    data-Ends :
        (outside : Outside) (e : State.InEvent) (n : Node J)
        → Fine n
        → Ends Fine Explained (or_abort outside n (to_data_memory e n.modules))
    unfolding to_data_memory poll_send
    data-Ends outside e n h = ground arith

    instruction-Ends :
        (outside : Outside) (e : InstructionStorage.InEvent) (n : Node J)
        → Fine n
        → Ends Fine Explained (or_abort outside n (to_instruction_memory e n.modules))
    unfolding to_instruction_memory poll_send
    instruction-Ends outside e n h = ground arith

    module _ (outside : Outside)
        (serializes : (instructions : Instructions)
          → (bytes : List ℕ) × (outside.serialize instructions ≡ some bytes))
        (range : IsRange outside.gen_range) where
      transaction-Ends :
          (from : PeerId) (tx : Transaction) (hash : Hash) (n : Node J)
          → Fine n
          → Ends Fine Explained (
              or_abort outside n
                (handle_tx outside.serialize outside.digest from tx hash n.modules))
      unfolding handle_tx handle_storage_request_tx handle_stored_ts handle_execute_tx
          handle_executed_tx handle_initialize_storage_tx
      transaction-Ends from (storage_request data_id) hash n h = data-Ends outside _ n h
      transaction-Ends from (stored data_id shard_id) hash n h = data-Ends outside _ n h
      transaction-Ends from (execute instructions) hash n h =
          let (program, e) =
            program-some outside.serialize outside.digest serializes instructions hash in
          rw e (instruction-Ends outside _ n h)
      transaction-Ends from (executed program_id) hash n h = instruction-Ends outside _ n h
      transaction-Ends from (initialize_storage distribution) hash n h = data-Ends outside _ n h

      rules : Rules Fine Explained outside
      unfolding measure_queue reset_timer
      rules = record {
        consensus_send = to_consensus-Ends;
        processor_send = to_processor-Ends;
        network_send = to_network-Ends;
        user_send = to_user-Ends;
        memory_send = to_memory-Ends;
        measured = λ n h. h;
        timer_reset = λ n h.
            set_timer-Ends outside n _ h
              (reset_full-Goes outside.clock outside.floats n.timer n.ticks h.1);
        timer_started = λ n h.
            set_timer-Ends outside n _ h
              (start_next-Goes outside.clock outside.floats n.timer n.ticks h.1);
        requests_processed = λ m n h. h;
        response_pending = λ m n h. h;
        message_taken = λ ms n h. h;
        drawn = λ draws n h. h;
        overdrawn = λ draws n h e.
            subst (Chooses n.connected_peers) e
              (get_random_peer-Chooses outside.gen_range n.connected_peers n.draws range);
        ticked = λ n h. h;
        standalone = create_standalone-Ends;
        sync_requested = request_sync-Ends outside;
        transaction = transaction-Ends;
      }

      put_back-Ends :
          (r : Option (Ready J)) (n : Node J) (a : Arrivals J)
          → some_closed a ≡ some_closed n.arrivals
          → Ends Fine Explained (n, r)
          → Ends Fine Explained (record n { arrivals = a }, r)
      put_back-Ends none n a e h = (e ∙ h.0, h.1)
      put_back-Ends (some (dial _)) n a e h = h
      put_back-Ends (some (notify_handler _ _)) n a e h = h
      put_back-Ends (some unable_to_operate) n a e h = h
      put_back-Ends (some cancel_signal) n a e h = h
      put_back-Ends (some panicked) n a e h = h

      pub check_all-Explained :
          (seen : Observed) (n : Node J) → Fine n → Ends Fine Explained (check_all outside seen n)
      check_all-Explained =
          check_all-Ends Fine Explained outside rules
            (record {
              back = λ r n a e h. put_back-Ends r n a (ap (λ k. k.0) e) h;
              over = λ start n s h e. inr (sym s.0 ∙ e);
            })
            (record {
              synced = λ to sync n h. tt;
              consensus_back = λ r n es h. put_back-Ends r n (with_consensus es n).arrivals refl h;
            })

-- The poll that goes on, or that returns as it should.
abbrev pub Returns : {J : Type 0} → Bool → Polling J → Type 0
Returns was_closed (n, none) = Unit {0}
Returns was_closed (n, some r) = Explained was_closed r n

-- Where every program can be serialized, random numbers are below their bound and the shortest
-- duration of the timer is not above the longest, a poll does not panic. It is unable to operate
-- only where one of the inputs to the modules, to the network or to the user is closed or full
-- after it, or where one of the channels that it receives from is closed.
pub poll-Explained :
    {J : Type 0} (outside : Outside) (seen : Observed) (n : Node J)
    → ((instructions : Instructions)
        → (bytes : List ℕ) × (outside.serialize instructions ≡ some bytes))
    → IsRange outside.gen_range
    → n.timer.min_duration ≤ n.timer.max_duration
    → Returns (some_closed n.arrivals) (poll outside seen n)
unfolding poll
poll-Explained {J} outside seen n serializes range ordered = elim (Bool-cases seen.shutdown) [
  | inl e ↦ rw e tt
  | inr e ↦ rw e (dialled n.discovered_peers)
]
  where
    returns :
        (p : Polling J)
        → Ends (Fine (some_closed n.arrivals)) (Explained (some_closed n.arrivals)) p
        → Returns (some_closed n.arrivals) p
    returns (n', none) h = tt
    returns (n', some r) h = h

    dialled :
        (peers : List PeerId)
        → Returns (some_closed n.arrivals) (dial_or outside peers n (check_all outside seen n))
    dialled [] = returns _ (
        check_all-Explained (some_closed n.arrivals) outside serializes range seen n
          (refl, ordered))
    dialled (peer ∷ peers) = tt
