-- ===== src/Consensus/Inclusion.antt =====
-- src/consensus/graph.rs: what becomes of the transactions that are scheduled.
use the_swarm.Common.{◌≡◌, Bool, true, false, Option, none, some, List, [], ◌∷◌, ◌++◌}
use the_swarm.Types.{PeerId, Hash}
use the_swarm.Consensus.Transaction.{Transaction}
use the_swarm.Consensus.Graph.{
  GraphApi, Wrapper, InEvent, generate_sync_request, known_peers_request, apply_sync, schedule_tx,
  create_standalone, push_all,
}

-- The transactions of the events that the graph created are those it was given.
pub record IsLedger {G J : Type 0} (api : GraphApi G J) (created : G → List Transaction)
    : Type 0 where
  pub push_lem : (g : G) (job : J) → created (api.push_event g job).0 ≡ created g
  pub create_lem :
      (g : G) (txs : List Transaction) (parent : Hash) (g' : G)
      → api.create_event g txs parent ≡ some g'
      → created g' ≡ created g ++ txs

-- What an event schedules.
abbrev pub scheduled_by : {J : Type 0} → InEvent J → List Transaction
scheduled_by (generate_sync_request to) = []
scheduled_by known_peers_request = []
scheduled_by (apply_sync from sync) = []
scheduled_by (schedule_tx tx) = tx ∷ []
scheduled_by create_standalone = []

-- What comes of asking for an event.
pub data Creation (G : Type 0) : Type 0 where
  idle failed : Creation G
  made : G → Creation G

module _ {G J : Type 0} (api : GraphApi G J) (created : G → List Transaction)
    (law : IsLedger api created) where
  -- The event that an input makes the graph create: it asks for none, or for one that cannot be
  -- created, or for one that is, with which the graph goes on.
  abbrev created_by : List Transaction → G → Option Hash → Creation G
  created_by txs g none = failed
  created_by txs g (some parent) = elim (api.create_event g txs parent) [
    | none ↦ failed
    | some g' ↦ made g'
  ]

  -- A sync asks for an event once all its jobs are accepted.
  abbrev after_jobs : PeerId → List Transaction → G × Bool → Creation G
  after_jobs from txs (g, false) = idle
  after_jobs from txs (g, true) = created_by txs g (api.peer_latest_event g from)

  -- The peer that has no event of its own panics before it asks for one.
  abbrev on_own : List Transaction → G → Option Hash → Creation G
  on_own txs g none = idle
  on_own txs g (some parent) = created_by txs g (some parent)

  abbrev pub creation : InEvent J → Wrapper G → Creation G
  unfolding push_all
  creation (generate_sync_request to) w = idle
  creation known_peers_request w = idle
  creation (apply_sync from sync) w =
      after_jobs from w.included_transaction_buffer (push_all api sync w.inner)
  creation (schedule_tx tx) w = idle
  creation create_standalone w =
      on_own w.included_transaction_buffer w.inner
        (api.peer_latest_event w.inner (api.self_id w.inner))

  -- The created transactions and the waiting ones, after that many more were scheduled.
  abbrev pub Outcome : List Transaction → Creation G → Wrapper G → Wrapper G → Type 0
  Outcome txs idle w w' =
      (created w'.inner ≡ created w.inner)
      × (w'.included_transaction_buffer ≡ w.included_transaction_buffer ++ txs)
  Outcome txs failed w w' =
      (created w'.inner ≡ created w.inner) × (w'.included_transaction_buffer ≡ [])
  Outcome txs (made g) w w' =
      (w'.inner ≡ g)
      × (created w'.inner ≡ created w.inner ++ w.included_transaction_buffer)
      × (w'.included_transaction_buffer ≡ [])
