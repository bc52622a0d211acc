-- ===== src/Behaviour/Peers.antt =====
-- src/behaviour/mod.rs: the set of connected peers, and the peer that is chosen from it.
use the_swarm.Common.{
  ℕ, zero, suc, ◌-◌, ◌<◌, ◌≤◌, ◌≡◌, refl, ◌↔◌, ite, if_pos, true, Option, none, some, List, [], ◌∷◌,
  arith, length, get_elem?, ℕ_discrete, cond,
}
use the_swarm.Common.Map.{nat_key, contains, add, remove_key}
use the_swarm.Types.{PeerId}
use the_swarm.Behaviour.Gossip.{
  FromSwarm, connection_established, connection_closed, other_event, update_connected,
  get_random_peer,
}

-- The numbers are below the bound.
abbrev pub IsRange : (ℕ → ℕ → ℕ) → Type 0
IsRange gen_range = (draws n : ℕ) → 0 < n → gen_range draws n < n

get_elem?-contains :
    (peers : List PeerId) (i : ℕ)
    → i < length peers
    → (peer : PeerId) × (get_elem? peers i ≡ some peer) × (contains peers peer ≡ true)
unfolding contains
get_elem?-contains [] i h = absurd (omega arith)
get_elem?-contains (p ∷ peers) zero h = (p, refl, if_pos (ℕ_discrete p p) refl _ _)
get_elem?-contains (p ∷ peers) (suc i) h =
    let (peer, e, c) = get_elem?-contains peers i (omega arith) in (peer, e, ground arith)

-- The choice is no peer where none is connected, and else one that is.
abbrev pub Chooses : List PeerId → Option (Option PeerId) → Type 0
Chooses peers none = ⊥
Chooses peers (some none) = peers ≡ []
Chooses peers (some (some peer)) = contains peers peer ≡ true

-- With random numbers below their bound, the choice of a peer does not panic: it is one of the
-- connected peers, and none exactly where there are none.
pub get_random_peer-Chooses :
    (gen_range : ℕ → ℕ → ℕ) (peers : List PeerId) (draws : ℕ)
    → IsRange gen_range
    → Chooses peers (get_random_peer gen_range peers draws).0
unfolding get_random_peer
get_random_peer-Chooses gen_range [] draws range = refl
get_random_peer-Chooses gen_range (p ∷ peers) draws range =
    let (peer, e, c) =
      get_elem?-contains (p ∷ peers) (gen_range draws (length (p ∷ peers)))
        (range draws (length (p ∷ peers)) (omega arith)) in
    rw (Chooses, get_random_peer, e) c

-- How many of the connections are to a peer.
abbrev pub count : PeerId → List PeerId → ℕ
count peer [] = 0
count peer (p ∷ ps) = ite (ℕ_discrete p peer) (suc (count peer ps)) (count peer ps)

-- The events of a swarm with these connections, and the connections after it. The event of a
-- connection says how many others there are to the same peer.
pub data Connects : List PeerId → FromSwarm → List PeerId → Type 0 where
  opens :
      (peer : PeerId) (ps : List PeerId)
      → Connects ps (connection_established peer (count peer ps)) (peer ∷ ps)
  closes :
      (peer : PeerId) (ps : List PeerId)
      → 0 < count peer ps
      → Connects ps (connection_closed peer (count peer (remove_key ps peer))) (remove_key ps peer)
  changes : (ps : List PeerId) → Connects ps other_event ps

pub data History : List PeerId → List FromSwarm → List PeerId → Type 0 where
  starts : (ps : List PeerId) → History ps [] ps
  goes_on :
      (ps ps' ps'' : List PeerId) (e : FromSwarm) (es : List FromSwarm)
      → Connects ps e ps'
      → History ps' es ps''
      → History ps (e ∷ es) ps''

abbrev pub update_all : List FromSwarm → List PeerId → List PeerId
update_all [] peers = peers
update_all (e ∷ es) peers = update_all es (update_connected e peers)

-- No peer is in the set twice, and a peer is in it exactly where there is a connection to it.
abbrev pub Mirrors : List PeerId → List PeerId → Type 0
Mirrors ps peers =
    (peer : PeerId) → (count peer peers ≤ 1) × ((contains peers peer ≡ true) ↔ (0 < count peer ps))

count-contains :
    (ps : List PeerId) (peer : PeerId) → (contains ps peer ≡ true) ↔ (0 < count peer ps)
unfolding contains
count-contains [] peer = ground arith
count-contains (p ∷ ps) peer = ground (arith, count-contains ps peer)

count-add :
    (s : List PeerId) (k peer : PeerId)
    → count peer (add s k)
      ≡ cond
          (contains s k)
          (count peer s)
          (ite (ℕ_discrete k peer) (suc (count peer s)) (count peer s))
unfolding add
count-add s k peer = ground arith

count-remove :
    (s : List PeerId) (k peer : PeerId)
    → count peer (remove_key s k) ≡ ite (ℕ_discrete k peer) (count peer s - 1) (count peer s)
unfolding remove_key
count-remove [] k peer = ground arith
count-remove (p ∷ s) k peer = ground (arith, count-remove s k peer)

opened-Mirrors :
    (ps peers : List PeerId) (peer : PeerId) (others : ℕ)
    → others ≡ count peer ps
    → Mirrors ps peers
    → Mirrors (peer ∷ ps) (update_connected (connection_established peer others) peers)
unfolding update_connected
opened-Mirrors ps peers peer zero e m q = ground (
  arith,
  count-add peers peer q,
  count-contains peers q,
  count-contains (add peers peer) q,
  m q,
  m peer,
)
opened-Mirrors ps peers peer (suc others) e m q = ground (arith, m q, m peer)

closed-Mirrors :
    (ps peers : List PeerId) (peer : PeerId) (remaining : ℕ)
    → remaining ≡ count peer (remove_key ps peer)
    → 0 < count peer ps
    → Mirrors ps peers
    → Mirrors (remove_key ps peer) (update_connected (connection_closed peer remaining) peers)
unfolding update_connected
closed-Mirrors ps peers peer zero e one m q = ground (
  arith,
  count-remove peers peer q,
  count-remove ps peer q,
  count-remove ps peer peer,
  count-contains peers q,
  count-contains (remove_key peers peer) q,
  m q,
  m peer,
)
closed-Mirrors ps peers peer (suc remaining) e one m q =
    ground (arith, count-remove ps peer q, count-remove ps peer peer, m q, m peer)

update_connected-Mirrors :
    (ps ps' peers : List PeerId) (e : FromSwarm)
    → Connects ps e ps'
    → Mirrors ps peers
    → Mirrors ps' (update_connected e peers)
unfolding update_connected
update_connected-Mirrors _ _ peers _ (opens peer ps) m = opened-Mirrors ps peers peer _ refl m
update_connected-Mirrors _ _ peers _ (closes peer ps one) m =
    closed-Mirrors ps peers peer _ refl one m
update_connected-Mirrors _ _ peers _ (changes ps) m = m

-- Over any history of a swarm's connections that starts with none, the set of connected peers has
-- each peer at most once, and has a peer exactly where a connection to it is left.
pub update_all-Mirrors :
    (ps : List PeerId) (es : List FromSwarm) → History [] es ps → Mirrors ps (update_all es [])
update_all-Mirrors ps es history = from [] ps [] es history none_yet
  where
    none_yet : Mirrors [] []
    none_yet peer = (omega arith, count-contains [] peer)

    from :
        (ps ps' peers : List PeerId) (es : List FromSwarm)
        → History ps es ps'
        → Mirrors ps peers
        → Mirrors ps' (update_all es peers)
    from _ _ peers _ (starts ps) m = m
    from _ _ peers _ (goes_on ps ps' ps'' e es step later) m =
        from ps' ps'' (update_connected e peers) es later
          (update_connected-Mirrors ps ps' peers e step m)
