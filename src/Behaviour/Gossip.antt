-- ===== src/Behaviour/Gossip.antt =====
-- src/behaviour/mod.rs: the peers that are connected, and the periodic gossip with one of them.
use the_swarm.Common.{
  ℕ, zero, suc, Option, none, some, List, [], ◌∷◌, ◌++◌, length, get_elem?, leb, if◌then◌else◌,
}
use the_swarm.Common.Map.{nat_key, add, remove_key}
use the_swarm.Types.{PeerId}
use the_swarm.Module.{Shared, accepts_input}
use the_swarm.Consensus.Graph
use the_swarm.Behaviour.Metrics.{record_start}
use the_swarm.Behaviour.Timer.{start_next}
use the_swarm.Behaviour.Handlers.{Polled, sent, closed, full, poll_send}
use the_swarm.Behaviour.State.{
  Ready, unable_to_operate, panicked, Node, Outside, Polling, and_then, measure_queue, set_timer,
}

-- The number of connections to the same peer, other than the one that the event is about.
pub data FromSwarm : Type 0 where
  connection_established : PeerId → ℕ → FromSwarm
  connection_closed : PeerId → ℕ → FromSwarm
  other_event : FromSwarm

-- The two branches of `on_swarm_event`, on the set of connected peers.
unfoldable pub update_connected : FromSwarm → List PeerId → List PeerId
unfolding add remove_key
update_connected (connection_established peer_id zero) peers = add peers peer_id
update_connected (connection_established peer_id (suc _)) peers = peers
update_connected (connection_closed peer_id zero) peers = remove_key peers peer_id
update_connected (connection_closed peer_id (suc _)) peers = peers
update_connected other_event peers = peers

-- `none` is a panic of `expect`.
unfoldable pub get_random_peer : (ℕ → ℕ → ℕ) → List PeerId → ℕ → Option (Option PeerId) × ℕ
get_random_peer gen_range [] draws = (some none, draws)
get_random_peer gen_range (peer ∷ peers) draws =
    let position = gen_range draws (length (peer ∷ peers)) in
    (elim (get_elem? (peer ∷ peers) position) [ none ↦ none | some p ↦ some (some p) ], suc draws)

-- `InnerMessage`, of which only a received message is kept.
pub data InnerMessage (M : Type 0) : Type 0 where
  rx : M → InnerMessage M
  sent_out : InnerMessage M

module _ {J : Type 0} where
  unfoldable pub on_swarm_event : FromSwarm → Node J → Node J
  unfolding update_connected
  on_swarm_event event n = record n { connected_peers = update_connected event n.connected_peers }

  -- The queues are pushed at the front and popped from the back; here the oldest is first.
  unfoldable pub on_connection_handler_event : PeerId → InnerMessage (List J) → Node J → Node J
  on_connection_handler_event peer_id (rx m) n = record n {
    oneshot_messages = n.oneshot_messages ++ ((peer_id, m) ∷ []);
  }
  on_connection_handler_event peer_id sent_out n = n

  unfoldable pub inject_peer_discovered : PeerId → Node J → Node J
  inject_peer_discovered new_peer n = record n {
    discovered_peers = n.discovered_peers ++ (new_peer ∷ []);
  }

  abbrev pub closed_only : Polled → Option (Ready J)
  closed_only sent = none
  closed_only closed = some unable_to_operate
  closed_only full = none

  -- A queue that is full is only logged.
  unfoldable pub create_standalone : Node J → Polling J
  unfolding poll_send
  create_standalone n =
      let (inbox, polled) = poll_send Graph.InEvent.create_standalone n.consensus in
      (record n { consensus = inbox }, closed_only polled)

  module _ (outside : Outside) where
    -- The clock counts as read even where an event is in progress.
    abbrev pub start_sync : Node J → Polled → Polling J
    start_sync n sent = (
      record n {
        metrics = record n.metrics { sync = record_start (outside.clock n.ticks) n.metrics.sync };
        ticks = suc n.ticks;
      },
      none,
    )
    start_sync n closed = (n, some unable_to_operate)
    start_sync n full = (n, none)

    unfoldable pub request_sync : PeerId → Node J → Polling J
    unfolding poll_send record_start
    request_sync peer n =
        let (inbox, polled) = poll_send (Graph.InEvent.generate_sync_request peer) n.consensus in
        start_sync (record n { consensus = inbox }) polled

    unfoldable pub gossip_with : Option PeerId → Node J → Polling J
    unfolding create_standalone request_sync measure_queue
    gossip_with none n = (n, none)
    gossip_with (some peer) n =
        and_then (create_standalone n)
          (λ n. and_then (request_sync peer n) (λ n. (measure_queue outside n, none)))

    abbrev pub start_gossip : Node J → Option (Option PeerId) → Polling J
    start_gossip n none = (n, some panicked)
    start_gossip n (some random_peer) =
        and_then (set_timer outside n (start_next outside.clock outside.floats n.timer n.ticks))
          (gossip_with random_peer)

    unfoldable pub gossip : Node J → Polling J
    unfolding get_random_peer start_next gossip_with
    gossip n =
        let (random_peer, draws) = get_random_peer outside.gen_range n.connected_peers n.draws in
        start_gossip (record n { draws = draws }) random_peer

    -- The timer is polled only where the consensus accepts input.
    unfoldable pub check_gossip : Shared Graph.ModuleState → Node J → Polling J
    unfolding accepts_input gossip
    check_gossip consensus_state n =
        if accepts_input Graph.accepts consensus_state
        then (if leb n.timer.deadline (outside.clock n.ticks)
            then gossip (record n { ticks = suc n.ticks })
            else (record n { ticks = suc n.ticks }, none))
        else (n, none)
