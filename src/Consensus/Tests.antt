-- ===== src/Consensus/Tests.antt =====
-- src/consensus/graph.rs: runs of the wrapper over small graphs.
use the_swarm.Common.{
  ℕ, ◌≡◌, refl, false, Option, none, some, List, [], ◌∷◌, ◌++◌, arith, ◌==◌, if◌then◌else◌,
}
use the_swarm.Types.{Hash}
use the_swarm.Consensus.Transaction.{Transaction, storage_request, stored}
use the_swarm.Consensus.Graph.{
  Event, GraphApi, pushed, TxBuffer, World, ready, apply_sync, sync_with, push_all,
}
use the_swarm.Consensus.Loop.{handle}
use the_swarm.Consensus.Buffer.{drain, drain-held}

abbrev hash_of : ℕ → Hash
hash_of n = record { inner = n ∷ [] }

abbrev events : List Event
events =
    record { author = 1; transactions = storage_request 7 ∷ stored 7 0 ∷ []; hash = hash_of 21 }
    ∷ record { author = 2; transactions = []; hash = hash_of 22 }
    ∷ record { author = 3; transactions = stored 7 1 ∷ stored 7 2 ∷ []; hash = hash_of 23 }
    ∷ []

abbrev take_event : List Event → List Event × Option Event
take_event [] = ([], none)
take_event (e ∷ es) = (es, some e)

abbrev buffer : TxBuffer
buffer = record { author = 9; txs = []; hash = hash_of 0 }

drain-held_example :
    drain take_event 4 5 events buffer
    ≡ some (
        (1, storage_request 7, hash_of 21)
        ∷ (1, stored 7 0, hash_of 0)
        ∷ (3, stored 7 1, hash_of 23)
        ∷ (3, stored 7 2, hash_of 0)
        ∷ [])
drain-held_example =
    drain-held take_event 4 5 events buffer events (_, refl, (_, refl, (_, refl, refl)))
      (omega arith) (omega arith)

-- A graph that knows the latest event of peer 1 only, and is the list of what it created.
abbrev small_graph : GraphApi (List Transaction) ℕ
small_graph = record {
  push_event = λ g job. (g, pushed);
  peer_latest_event = λ g peer. if peer == 1 then some (hash_of 5) else none;
  self_id = λ g. 1;
  create_event = λ g txs parent. some (g ++ txs);
  next_finalized_event = λ g. (g, none);
  next_recognized_event = λ g. (g, none);
  generate_sync_for = λ g peer. some [];
  peers = λ g. 1 ∷ 2 ∷ [];
}

abbrev world : World (List Transaction) ℕ
world = record {
  wrapper = record {
    inner = stored 7 0 ∷ [];
    state_updated = false;
    included_transaction_buffer = stored 7 1 ∷ stored 7 2 ∷ [];
    finalized_transaction_buffer = buffer;
    recognized_transaction_buffer = buffer;
  };
  output = record { sent = []; room = none };
  state = ready;
}

-- A sync from peer 2 loses the two transactions that wait.
lost_by_sync :
    (handle small_graph 4 (apply_sync 2 (3 ∷ [])) world).0.wrapper.included_transaction_buffer ≡ []
unfolding handle sync_with push_all
lost_by_sync = refl

kept_by_graph :
    (handle small_graph 4 (apply_sync 2 (3 ∷ [])) world).0.wrapper.inner ≡ stored 7 0 ∷ []
unfolding handle sync_with push_all
kept_by_graph = refl
