-- ===== src/Behaviour/Reachable.antt =====
-- src/behaviour/mod.rs: what is true of a behaviour whenever it runs.
use the_swarm.Common.{ℕ, ◌≤◌, List, arith}
use the_swarm.Types.{PeerId}
use the_swarm.Processor.SingleThreaded.Run
use the_swarm.Consensus.Graph
use the_swarm.Protocol
use the_swarm.Behaviour.Metrics.{new_metrics, new_event, new_gauge}
use the_swarm.Behaviour.Timer
use the_swarm.Behaviour.Deadline.{IsMonotone, IsExact}
use the_swarm.Behaviour.Handlers.{Inbox, Modules}
use the_swarm.Behaviour.State.{OutEvent, Arrivals, Node, Outside, new}
use the_swarm.Behaviour.Gossip.{
  FromSwarm, InnerMessage, on_swarm_event, on_connection_handler_event, inject_peer_discovered, rx,
  sent_out,
}
use the_swarm.Behaviour.Poll.{Observed, poll}
use the_swarm.Behaviour.Consistency.{IsConsistent, poll-IsConsistent}

module _ {J : Type 0} (outside : Outside) where
  -- The other halves of the channels were used meanwhile.
  abbrev pub exchange :
      Arrivals J
      → Inbox OutEvent
      → Inbox (Graph.InEvent J)
      → Inbox Run.InEvent
      → Inbox Protocol.InEvent
      → Modules
      → Node J
      → Node J
  exchange arrivals user_output consensus processor request_response modules n = record n {
    arrivals = arrivals;
    user_output = user_output;
    consensus = consensus;
    processor = processor;
    request_response = request_response;
    modules = modules;
  }

  -- The behaviours that a run can come to, from a new one whose durations are in order.
  pub data Reachable : Node J → Type 0 where
    created :
        (local_peer_id : PeerId) (min_timeout max_timeout : ℕ) (arrivals : Arrivals J)
        (user_output : Inbox OutEvent) (consensus : Inbox (Graph.InEvent J))
        (processor : Inbox Run.InEvent) (request_response : Inbox Protocol.InEvent)
        (modules : Modules)
        → min_timeout ≤ max_timeout
        → Reachable (
            new outside local_peer_id
              (min_timeout, max_timeout)
              arrivals
              user_output
              consensus
              processor
              request_response
              modules)
    polled : (seen : Observed) (n : Node J) → Reachable n → Reachable (poll outside seen n).0
    swarmed : (event : FromSwarm) (n : Node J) → Reachable n → Reachable (on_swarm_event event n)
    received :
        (from : PeerId) (message : InnerMessage (List J)) (n : Node J)
        → Reachable n
        → Reachable (on_connection_handler_event from message n)
    discovered :
        (peer : PeerId) (n : Node J) → Reachable n → Reachable (inject_peer_discovered peer n)
    exchanged :
        (arrivals : Arrivals J) (user_output : Inbox OutEvent) (consensus : Inbox (Graph.InEvent J))
        (processor : Inbox Run.InEvent) (request_response : Inbox Protocol.InEvent)
        (modules : Modules) (n : Node J)
        → Reachable n
        → Reachable (exchange arrivals user_output consensus processor request_response modules n)

  module _ (monotone : IsMonotone outside.clock) (exact : IsExact outside.floats) where
    created-IsConsistent :
        (local_peer_id : PeerId) (min_timeout max_timeout : ℕ) (arrivals : Arrivals J)
        (user_output : Inbox OutEvent) (consensus : Inbox (Graph.InEvent J))
        (processor : Inbox Run.InEvent) (request_response : Inbox Protocol.InEvent)
        (modules : Modules)
        → min_timeout ≤ max_timeout
        → IsConsistent outside monotone exact (
            new outside local_peer_id
              (min_timeout, max_timeout)
              arrivals
              user_output
              consensus
              processor
              request_response
              modules)
    unfolding new new_metrics Timer.new new_event new_gauge
    created-IsConsistent _ min_timeout max_timeout _ _ _ _ _ _ le = record {
      syncs = omega arith;
      sizes = omega arith;
      timed = (le, omega (arith, monotone 0 2 (omega arith), le));
    }

    received-IsConsistent :
        (from : PeerId) (message : InnerMessage (List J)) (n : Node J)
        → IsConsistent outside monotone exact n
        → IsConsistent outside monotone exact (on_connection_handler_event from message n)
    unfolding on_connection_handler_event
    received-IsConsistent from (rx message) n h = h
    received-IsConsistent from sent_out n h = h

    -- Every behaviour that a run can come to is consistent: with a monotone clock and exact
    -- arithmetic, its syncs and the sizes of its queue are logged in order and before now, and the
    -- timer of its gossip ends no later than the longest duration from now. The other tasks may
    -- use the channels in any way between the calls.
    pub Reachable-IsConsistent : (n : Node J) → Reachable n → IsConsistent outside monotone exact n
    unfolding on_swarm_event inject_peer_discovered
    Reachable-IsConsistent _ (created i lo hi a u c p r m le) =
        created-IsConsistent i lo hi a u c p r m le
    Reachable-IsConsistent _ (polled seen n h) =
        poll-IsConsistent outside monotone exact seen n (Reachable-IsConsistent n h)
    Reachable-IsConsistent _ (swarmed event n h) = Reachable-IsConsistent n h
    Reachable-IsConsistent _ (received from message n h) =
        received-IsConsistent from message n (Reachable-IsConsistent n h)
    Reachable-IsConsistent _ (discovered peer n h) = Reachable-IsConsistent n h
    Reachable-IsConsistent _ (exchanged a u c p r m n h) = Reachable-IsConsistent n h
