-- ===== src/Behaviour/Steps.antt =====
-- src/behaviour/mod.rs: what holds at the end of a part of a poll, part by part.
use the_swarm.Common.{
  ℕ, suc, ◌≡◌, refl, Option, none, some, List, [], ◌∷◌, leb, Bool-cases, inl, inr,
}
use the_swarm.Common.Map.{Map}
use the_swarm.Types.{PeerId, Hash}
use the_swarm.Module.{Shared, accepts_input}
use the_swarm.Processor.SingleThreaded.Run
use the_swarm.InstructionStorage
use the_swarm.InstructionStorage.{next_program, finished_execution, peer_shards_actualized}
use the_swarm.DataMemory.State
use the_swarm.DataMemory.State.{
  initialized, prepared_service_response, serve_shard_request, serve_shard_response,
  assigned_store_success, distribution_sufficient, distribution_full, assigned_response,
  assigned_request, list_distributed, recollect_response,
}
use the_swarm.Consensus.Transaction.{Transaction}
use the_swarm.Consensus.Graph
use the_swarm.Consensus.Graph.{
  generate_sync_response, known_peers_response, finalized_transaction, recognized_transaction,
}
use the_swarm.Protocol
use the_swarm.Protocol.{
  Request, get_shard, serve_shard, Response, shard_got, shard_served, RequestId, ResponseChannel,
  assigned_request_id, response, incoming_request,
}
use the_swarm.Behaviour.Timer.{start_next}
use the_swarm.Behaviour.Handlers.{handle_tx}
use the_swarm.Behaviour.State.{
  OutEvent, InEvent, schedule_program, get, put, list_stored, get_metrics, Ready, panicked, Node,
  Outside, Polling, and_then, to_consensus, to_processor, to_network, to_user, to_memory,
  measure_queue, reset_timer, set_timer, schedule_tx, go_on, drain,
}
use the_swarm.Behaviour.Memory.{on_memory_event, respond_to, respond_all, take_waiters}
use the_swarm.Behaviour.Exchange.{on_network_event, accept_response, ask_memory, enlist}
use the_swarm.Behaviour.Gossip.{
  create_standalone, request_sync, gossip_with, start_gossip, gossip, get_random_peer, check_gossip,
}
use the_swarm.Behaviour.Poll.{
  check_oneshot, on_user_event, on_processor_event, on_instruction_event, or_abort,
}

module _ {ℓ} {J : Type 0} (P : Node J → Type ℓ) (Q : Ready J → Node J → Type ℓ) where
  -- `P` where the poll goes on, and `Q` where it returns.
  abbrev pub Ends : Polling J → Type ℓ
  Ends (n, none) = P n
  Ends (n, some r) = Q r n

  pub and_then-Ends :
      (p : Polling J) (f : Node J → Polling J)
      → Ends p
      → ((n : Node J) → P n → Ends (f n))
      → Ends (and_then p f)
  and_then-Ends (n, none) f h g = g n h
  and_then-Ends (n, some r) f h g = h

  pub drain-Ends :
      {E : Type 0} (handle : E → Node J → Polling J)
      → ((e : E) (n : Node J) → P n → Ends (handle e n))
      → (es : List E) (n : Node J) → P n
      → Ends (drain handle es n).0
  unfolding drain
  drain-Ends handle step [] n h = h
  drain-Ends {E} handle step (e ∷ es) n h =
      next (handle e n) (step e n h) (drain-Ends handle step es)
    where
      next :
          (p : Polling J)
          → Ends p
          → ((n : Node J) → P n → Ends (drain handle es n).0)
          → Ends (go_on (drain handle es) es p).0
      next (n', none) h' later = later n' h'
      next (n', some r) h' later = h'

  -- What keeps `P`, statement by statement, but for the sync that is passed on.
  pub record Rules (outside : Outside) : Type ℓ where
    pub consensus_send : (e : Graph.InEvent J) (n : Node J) → P n → Ends (to_consensus e n)
    pub processor_send : (e : Run.InEvent) (n : Node J) → P n → Ends (to_processor e n)
    pub network_send : (e : Protocol.InEvent) (n : Node J) → P n → Ends (to_network e n)
    pub user_send : (e : OutEvent) (n : Node J) → P n → Ends (to_user e n)
    pub memory_send : (e : State.InEvent) (n : Node J) → P n → Ends (to_memory e n)
    pub measured : (n : Node J) → P n → P (measure_queue outside n)
    pub timer_reset : (n : Node J) → P n → Ends (reset_timer outside n)
    pub timer_started :
        (n : Node J)
        → P n
        → Ends (set_timer outside n (start_next outside.clock outside.floats n.timer n.ticks))
    pub requests_processed :
        (m : Map Request (List (RequestId × ResponseChannel))) (n : Node J)
        → P n
        → P (record n { processed_requests = m })
    pub response_pending :
        (m : Map RequestId Request) (n : Node J) → P n → P (record n { pending_response = m })
    pub message_taken :
        (ms : List (PeerId × List J)) (n : Node J) → P n → P (record n { oneshot_messages = ms })
    pub drawn : (draws : ℕ) (n : Node J) → P n → P (record n { draws = draws })
    pub overdrawn :
        (draws : ℕ) (n : Node J)
        → P n
        → (get_random_peer outside.gen_range n.connected_peers n.draws).0 ≡ none
        → Q panicked (record n { draws = draws })
    pub ticked : (n : Node J) → P n → P (record n { ticks = suc n.ticks })
    pub standalone : (n : Node J) → P n → Ends (create_standalone n)
    pub sync_requested : (to : PeerId) (n : Node J) → P n → Ends (request_sync outside to n)
    pub transaction :
        (from : PeerId) (tx : Transaction) (hash : Hash) (n : Node J)
        → P n
        → Ends
            (or_abort outside n (handle_tx outside.serialize outside.digest from tx hash n.modules))

  module _ (outside : Outside) (rules : Rules outside) where
    pub schedule_tx-Ends : (e : Graph.InEvent J) (n : Node J) → P n → Ends (schedule_tx outside e n)
    unfolding schedule_tx
    schedule_tx-Ends e n h =
        and_then-Ends (to_consensus e n) _ (rules.consensus_send e n h)
          (λ n h. rules.timer_reset _ (rules.measured n h))

    respond_all-Ends :
        (answer : Response) (ws : List (RequestId × ResponseChannel)) (n : Node J)
        → P n
        → Ends (respond_all answer ws n)
    unfolding respond_all
    respond_all-Ends answer [] n h = h
    respond_all-Ends answer ((request_id, channel) ∷ ws) n h =
        and_then-Ends (to_network _ n) _ (rules.network_send _ n h) (respond_all-Ends answer ws)

    respond_to-Ends :
        (request : Request) (answer : Response) (n : Node J)
        → P n
        → Ends (respond_to request answer n)
    unfolding respond_to take_waiters
    respond_to-Ends request answer n h =
        respond_all-Ends answer _ _ (rules.requests_processed _ n h)

    pub on_memory_event-Ends :
        (e : State.OutEvent) (n : Node J) → P n → Ends (on_memory_event outside e n)
    unfolding on_memory_event
    on_memory_event-Ends (serve_shard_request full_shard_id location) n h = rules.network_send _ n h
    on_memory_event-Ends (serve_shard_response full_shard_id shard) n h = respond_to-Ends _ _ n h
    on_memory_event-Ends (assigned_store_success (data_id, shard_id)) n h = schedule_tx-Ends _ n h
    on_memory_event-Ends (assigned_response full_shard_id shard) n h = respond_to-Ends _ _ n h
    on_memory_event-Ends (distribution_sufficient data_id) n h = h
    on_memory_event-Ends (distribution_full data_id) n h = rules.user_send _ n h
    on_memory_event-Ends (list_distributed list) n h = rules.user_send _ n h
    on_memory_event-Ends (prepared_service_response data_id) n h = schedule_tx-Ends _ n h
    on_memory_event-Ends (assigned_request full_shard_id location) n h = rules.network_send _ n h
    on_memory_event-Ends (recollect_response answer) n h = rules.user_send _ n h
    on_memory_event-Ends initialized n h = rules.user_send _ n h

    accept_response-Ends :
        (request : Option Request) (answer : Response) (n : Node J)
        → P n
        → Ends (accept_response request answer n)
    unfolding accept_response
    accept_response-Ends (some (get_shard fid)) (shard_got s) n h = rules.memory_send _ n h
    accept_response-Ends (some (get_shard fid)) (shard_served s) n h = h
    accept_response-Ends (some (serve_shard fid)) (shard_got s) n h = h
    accept_response-Ends (some (serve_shard fid)) (shard_served s) n h = rules.memory_send _ n h
    accept_response-Ends none answer n h = h

    ask_memory-Ends : (request : Request) (n : Node J) → P n → Ends (ask_memory request n)
    unfolding ask_memory
    ask_memory-Ends (get_shard fid) n h = rules.memory_send _ n h
    ask_memory-Ends (serve_shard fid) n h = rules.memory_send _ n h

    pub on_network_event-Ends :
        (e : Protocol.OutEvent) (n : Node J) → P n → Ends (on_network_event e n)
    unfolding on_network_event enlist
    on_network_event-Ends (assigned_request_id request_id request) n h =
        rules.response_pending _ n h
    on_network_event-Ends (response request_id answer) n h = accept_response-Ends _ answer n h
    on_network_event-Ends (incoming_request request_id request channel) n h =
        and_then-Ends (ask_memory request n) _ (ask_memory-Ends request n h)
          (λ n h. rules.requests_processed _ n h)

    pub on_user_event-Ends : (e : InEvent) (n : Node J) → P n → Ends (on_user_event outside e n)
    unfolding on_user_event
    on_user_event-Ends (schedule_program instructions) n h =
        and_then-Ends (to_consensus _ n) _ (rules.consensus_send _ n h) (λ n h.
          and_then-Ends (to_user _ _) _ (rules.user_send _ _ (rules.measured n h))
            rules.timer_reset)
    on_user_event-Ends (get data_id) n h = rules.memory_send _ n h
    on_user_event-Ends (put data_id data_unit) n h = rules.memory_send _ n h
    on_user_event-Ends list_stored n h = rules.memory_send _ n h
    on_user_event-Ends InEvent.initialize_storage n h =
        and_then-Ends (to_consensus _ n) _ (rules.consensus_send _ n h) rules.measured
    on_user_event-Ends get_metrics n h = rules.user_send _ n h

    pub on_processor_event-Ends :
        (e : Run.OutEvent) (n : Node J) → P n → Ends (on_processor_event outside e n)
    unfolding on_processor_event
    on_processor_event-Ends (Run.OutEvent.finished_execution program_id results) n h =
        schedule_tx-Ends _ n h

    pub on_instruction_event-Ends :
        (e : InstructionStorage.OutEvent) (n : Node J)
        → P n
        → Ends (on_instruction_event outside e n)
    unfolding on_instruction_event
    on_instruction_event-Ends (next_program program) n h = rules.processor_send _ n h
    on_instruction_event-Ends (finished_execution program_id) n h = rules.user_send _ n h
    on_instruction_event-Ends (peer_shards_actualized _ peer ids) n h = rules.memory_send _ n h

    pub check_oneshot-Ends :
        (messages : List (PeerId × List J)) (n : Node J)
        → P n
        → Ends (check_oneshot outside messages n)
    unfolding check_oneshot
    check_oneshot-Ends [] n h = h
    check_oneshot-Ends ((from, sync) ∷ messages) n h =
        and_then-Ends (to_consensus _ _) _ (rules.consensus_send _ _ (rules.message_taken _ n h))
          (λ n h. check_oneshot-Ends messages _ (rules.measured n h))

    gossip_with-Ends : (peer : Option PeerId) (n : Node J) → P n → Ends (gossip_with outside peer n)
    unfolding gossip_with
    gossip_with-Ends none n h = h
    gossip_with-Ends (some peer) n h =
        and_then-Ends (create_standalone n) _ (rules.standalone n h) (λ n h.
          and_then-Ends (request_sync outside peer n) _ (rules.sync_requested peer n h)
            rules.measured)

    start_gossip-Ends :
        (draws : ℕ) (n : Node J) (peer : Option (Option PeerId))
        → P n
        → (get_random_peer outside.gen_range n.connected_peers n.draws).0 ≡ peer
        → Ends (start_gossip outside (record n { draws = draws }) peer)
    start_gossip-Ends draws n none h e = rules.overdrawn draws n h e
    start_gossip-Ends draws n (some peer) h e =
        and_then-Ends (set_timer outside _ _) _ (rules.timer_started _ (rules.drawn draws n h))
          (gossip_with-Ends peer)

    pub check_gossip-Ends :
        (consensus_state : Shared Graph.ModuleState) (n : Node J)
        → P n
        → Ends (check_gossip outside consensus_state n)
    unfolding check_gossip gossip
    check_gossip-Ends consensus_state n h =
        elim (Bool-cases (accepts_input Graph.accepts consensus_state)) [
          | inr e ↦ rw e h
          | inl e ↦ elim (Bool-cases (leb n.timer.deadline (outside.clock n.ticks))) [
            | inr e' ↦ rw (e, e') (rules.ticked n h)
            | inl e' ↦ rw (e, e') (start_gossip-Ends _ _ _ (rules.ticked n h) refl)
          ]
        ]
