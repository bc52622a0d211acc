-- ===== src/Consensus/Graph.antt =====
-- src/consensus/graph.rs: `GraphWrapper`, over the hashgraph crate's `Graph`.
use the_swarm.Common.{ℕ, zero, suc, Bool, true, false, Option, none, some, List, [], ◌∷◌, ◌++◌}
use the_swarm.Common.Channel.{Channel}
use the_swarm.Types.{PeerId, Hash}
use the_swarm.Consensus.Transaction.{Transaction}

-- What the wrapper reads of the crate's `EventWrapper`.
pub record Event : Type 0 where
  pub author : PeerId
  pub transactions : List Transaction
  pub hash : Hash

pub data Pushed : Type 0 where
  pushed already_exists rejected : Pushed

-- The crate's `Graph`, with state `G` and sync jobs `J`. `none` is an error that a method returns,
-- or a value that is absent.
pub record GraphApi (G J : Type 0) : Type 0 where
  pub push_event : G → J → G × Pushed
  pub peer_latest_event : G → PeerId → Option Hash
  pub self_id : G → PeerId
  pub create_event : G → List Transaction → Hash → Option G
  pub next_finalized_event : G → G × Option Event
  pub next_recognized_event : G → G × Option Event
  pub generate_sync_for : G → PeerId → Option (List J)
  pub peers : G → List PeerId

-- The author, the transactions that are left, and the hash.
pub record TxBuffer : Type 0 where
  pub author : PeerId
  pub txs : List Transaction
  pub hash : Hash

pub record Wrapper (G : Type 0) : Type 0 where
  pub inner : G
  -- `notify_one` was called, and no one was woken by it since
  pub state_updated : Bool
  pub included_transaction_buffer : List Transaction
  pub finalized_transaction_buffer : TxBuffer
  pub recognized_transaction_buffer : TxBuffer

-- `from_graph`: the random peer ids and the hash of zeros are arguments.
abbrev empty_buffer : PeerId → Hash → TxBuffer
empty_buffer author zeros = record { author = author; txs = []; hash = zeros }

unfoldable pub from_graph : {G : Type 0} → G → PeerId → PeerId → Hash → Wrapper G
from_graph graph random1 random2 zeros = record {
  inner = graph;
  state_updated = false;
  included_transaction_buffer = [];
  finalized_transaction_buffer = empty_buffer random1 zeros;
  recognized_transaction_buffer = empty_buffer random2 zeros;
}

abbrev pub NextTxData : Type 0
NextTxData = PeerId × Transaction × Hash

pub data NextTx : Type 0 where
  recognized : NextTxData → NextTx
  finalized : NextTxData → NextTx

pub data ApplySyncError : Type 0 where
  push_error unknown_peer create_error : ApplySyncError

pub data OutEvent (J : Type 0) : Type 0 where
  generate_sync_response : PeerId → List J → OutEvent J
  known_peers_response : List PeerId → OutEvent J
  finalized_transaction : PeerId → Hash → Transaction → OutEvent J
  recognized_transaction : PeerId → Hash → Transaction → OutEvent J

pub data InEvent (J : Type 0) : Type 0 where
  generate_sync_request : PeerId → InEvent J
  known_peers_request : InEvent J
  apply_sync : PeerId → List J → InEvent J
  schedule_tx : Transaction → InEvent J
  create_standalone : InEvent J

pub data ModuleState : Type 0 where
  ready busy : ModuleState

-- `accepts_input` of the state.
abbrev pub accepts : ModuleState → Bool
accepts ready = true
accepts busy = false

-- The loop of `next_tx`, for so many rounds; `none` if they are not enough.
module _ {G : Type 0} (get_next_event : G → G × Option Event) where
  abbrev pub feed :
      {R : Type 0}
      → (G → TxBuffer → R)
      → (G → TxBuffer → Option NextTxData → R)
      → TxBuffer
      → G × Option Event
      → R
  feed again return buffer (g, none) = return g buffer none
  feed again return buffer (g, some event) = elim (event.transactions) [
    | [] ↦ again g (record buffer { author = event.author; txs = [] })
    | tx ∷ txs ↦
        return g (record buffer { author = event.author; txs = txs })
          (some (event.author, tx, event.hash))
  ]

  unfoldable pub next_tx : ℕ → G → TxBuffer → Option (G × TxBuffer × Option NextTxData)
  next_tx zero g buffer = none
  next_tx (suc rounds) g buffer = elim (buffer.txs) [
    | tx ∷ txs ↦ some (g, record buffer { txs = txs }, some (buffer.author, tx, buffer.hash))
    | [] ↦ feed (next_tx rounds) (λ g b r. some (g, b, r)) buffer (get_next_event g)
  ]

-- The wrapper, its output channel and its shared state.
pub record World (G J : Type 0) : Type 0 where
  pub wrapper : Wrapper G
  pub output : Channel (OutEvent J)
  pub state : ModuleState

module _ {G J : Type 0} (api : GraphApi G J) where
  -- The loop of `apply_sync`, and whether it went through.
  unfoldable pub push_all : List J → G → G × Bool
  push_all [] g = (g, true)
  push_all (job ∷ jobs) g =
      let (g', r) = api.push_event g job in
      elim r [
        | rejected ↦ (g', false)
        | pushed ↦ push_all jobs g'
        | already_exists ↦ push_all jobs g'
      ]

  abbrev pub notify_if_any : List J → Bool → Bool
  notify_if_any [] updated = updated
  notify_if_any (job ∷ jobs) updated = true

  -- The buffer is taken out before the event is created, so it is empty however this ends.
  abbrev pub create : Wrapper G → List Transaction → Option Hash → Wrapper G × Option ApplySyncError
  create w txs none = (w, some unknown_peer)
  create w txs (some other_parent) = elim (api.create_event w.inner txs other_parent) [
    | none ↦ (w, some create_error)
    | some g ↦ (record w { inner = g }, none)
  ]

  abbrev pub after_push : PeerId → Wrapper G → G × Bool → Wrapper G × Option ApplySyncError
  after_push from w (g, false) = (record w { inner = g }, some push_error)
  after_push from w (g, true) =
      create (record w { inner = g; included_transaction_buffer = [] })
        w.included_transaction_buffer (api.peer_latest_event g from)

  unfoldable pub sync_with : PeerId → List J → Wrapper G → Wrapper G × Option ApplySyncError
  unfolding push_all
  sync_with from jobs w =
      after_push from (record w { state_updated = notify_if_any jobs w.state_updated })
        (push_all jobs w.inner)

  -- `none` is the panic where the peer does not know itself.
  abbrev pub create_own :
      Wrapper G → List Transaction → Option Hash → Option (Wrapper G × Option ApplySyncError)
  create_own w txs none = none
  create_own w txs (some self_parent) = some (create w txs (some self_parent))

  unfoldable pub create_standalone_event : Wrapper G → Option (Wrapper G × Option ApplySyncError)
  create_standalone_event w =
      create_own (record w { state_updated = true; included_transaction_buffer = [] })
        w.included_transaction_buffer (api.peer_latest_event w.inner (api.self_id w.inner))

  unfoldable pub push_tx : Transaction → Wrapper G → Wrapper G
  push_tx tx w = record w {
    included_transaction_buffer = w.included_transaction_buffer ++ (tx ∷ []);
  }
