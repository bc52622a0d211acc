-- ===== src/Consensus/Buffer.antt =====
-- src/consensus/graph.rs: in which order, and with which hash, `next_tx` hands out the
-- transactions of the events.
use the_swarm.Common.{
  ℕ, zero, suc, ◌<◌, ◌≤◌, ◌≡◌, refl, sym, ap, ◌∙◌, Option, none, some, List, [], ◌∷◌, ◌++◌, map,
  arith, length,
}
use the_swarm.Types.{PeerId, Hash}
use the_swarm.Consensus.Transaction.{Transaction}
use the_swarm.Consensus.Graph.{Event, TxBuffer, NextTxData, next_tx, feed}

-- A graph that has these events to give, in turn, and then none.
abbrev pub Gives : {G : Type 0} → (G → G × Option Event) → G → List Event → Type 0
Gives next g [] = next g ≡ (g, none)
Gives {G} next g (e ∷ es) = (g' : G) × (next g ≡ (g', some e)) × Gives next g' es

abbrev tagged : PeerId → Hash → Transaction → NextTxData
tagged author hash tx = (author, tx, hash)

-- The first transaction of an event carries the hash of the event, and the others carry `hash`.
abbrev pub of_event : Hash → PeerId → Hash → List Transaction → List NextTxData
of_event hash author first [] = []
of_event hash author first (tx ∷ txs) = (author, tx, first) ∷ map (tagged author hash) txs

abbrev pub of_events : Hash → List Event → List NextTxData
of_events hash [] = []
of_events hash (e ∷ es) = of_event hash e.author e.hash e.transactions ++ of_events hash es

-- What a buffer and the events behind it hold.
abbrev pub held : TxBuffer → List Event → List NextTxData
held b es = map (tagged b.author b.hash) b.txs ++ of_events b.hash es

-- The calls of `next_tx`, so many times or until one returns nothing.
unfoldable pub drain :
    {G : Type 0} → (G → G × Option Event) → ℕ → ℕ → G → TxBuffer → Option (List NextTxData)
unfolding next_tx
drain next rounds zero g b = some []
drain next rounds (suc calls) g b = elim (next_tx next rounds g b) [
  | none ↦ none
  | some r ↦ elim (r.2) [
    | none ↦ some []
    | some tx ↦ elim (drain next rounds calls r.0 r.1) [ none ↦ none | some txs ↦ some (tx ∷ txs) ]
  ]
]

abbrev prepend : Option NextTxData → List NextTxData → List NextTxData
prepend none rest = []
prepend (some tx) rest = tx ∷ rest

module _ {G : Type 0} (next : G → G × Option Event) where
  -- One call: what it returns is the head of what is held, and the tail is held after it.
  abbrev Steps : ℕ → G → TxBuffer → List Event → Type 0
  Steps rounds g b es =
      (g' : G) × (b' : TxBuffer) × (es' : List Event) × (r : Option NextTxData) × (next_tx next
          rounds g b
        ≡ some (g', b', r))
      × Gives next g' es'
      × (length es' ≤ length es)
      × (held b es ≡ prepend r (held b' es'))

  next_tx-Steps :
      (rounds : ℕ) (g : G) (author : PeerId) (txs : List Transaction) (hash : Hash)
      (es : List Event)
      → Gives next g es
      → length es < rounds
      → Steps rounds g (record { author = author; txs = txs; hash = hash }) es
  unfolding next_tx
  next_tx-Steps zero g author txs hash es gives enough = absurd (omega arith)
  next_tx-Steps (suc rounds) g author (tx ∷ txs) hash es gives enough = (
    g,
    record { author = author; txs = txs; hash = hash },
    es,
    some (author, tx, hash),
    refl,
    gives,
    omega arith,
    refl,
  )
  next_tx-Steps (suc rounds) g author [] hash [] gives enough = (
    g,
    record { author = author; txs = []; hash = hash },
    [],
    none,
    ap
        (feed next (next_tx next rounds) (λ g b r. some (g, b, r))
          (record { author = author; txs = []; hash = hash }))
        gives,
    gives,
    omega arith,
    refl,
  )
  next_tx-Steps (suc rounds) g author [] hash (e ∷ es) (g', found, gives) enough =
      fed (next_tx-Steps rounds g' e.author [] hash es gives (omega arith)) e.transactions refl
    where
      start : TxBuffer
      start = record { author = author; txs = []; hash = hash }

      fetched :
          next_tx next (suc rounds) g start
          ≡ feed next (next_tx next rounds) (λ g b r. some (g, b, r)) start (g', some e)
      fetched = ap (feed next (next_tx next rounds) (λ g b r. some (g, b, r)) start) found

      fed :
          Steps rounds g' (record { author = e.author; txs = []; hash = hash }) es
          → (txs : List Transaction) → e.transactions ≡ txs
          → Steps (suc rounds) g start (e ∷ es)
      fed later [] same =
          let (g'', b', es', r, ran, gives', less, contents) = later in
          (g'', b', es', r, fetched ∙ rw same ran, gives', omega (arith, less), rw same contents)
      fed later (tx ∷ txs) same = (
        g',
        record { author = e.author; txs = txs; hash = hash },
        es,
        some (e.author, tx, e.hash),
        fetched ∙ rw same refl,
        gives,
        omega arith,
        rw same refl,
      )

  -- From a graph that has finitely many events to give, `next_tx` hands out every transaction of
  -- the buffer and then of each event, once and in order, with the author of its event, and ends;
  -- where it is given more rounds than there are events. The first transaction of an event comes
  -- with the hash of that event, and every other one with the hash that the buffer had at the
  -- start, whichever event it is from.
  pub drain-held :
      (rounds calls : ℕ) (g : G) (b : TxBuffer) (es : List Event)
      → Gives next g es
      → length es < rounds
      → length (held b es) < calls
      → drain next rounds calls g b ≡ some (held b es)
  unfolding drain
  drain-held rounds zero g b es gives enough more = absurd (omega arith)
  drain-held rounds (suc calls) g b es gives enough more =
      let (g', b', es', r, ran, gives', less, contents) =
        next_tx-Steps rounds g b.author b.txs b.hash es gives enough in
      finish (drain-held rounds calls) g' b' es' r ran gives' less contents
    where
      finish :
          ((g : G) (b : TxBuffer) (es : List Event)
            → Gives next g es
            → length es < rounds
            → length (held b es) < calls
            → drain next rounds calls g b ≡ some (held b es))
          → (g' : G) (b' : TxBuffer) (es' : List Event) (r : Option NextTxData)
          → next_tx next rounds g b ≡ some (g', b', r)
          → Gives next g' es'
          → length es' ≤ length es
          → held b es ≡ prepend r (held b' es')
          → drain next rounds (suc calls) g b ≡ some (held b es)
      finish later g' b' es' none ran gives' less contents = rw (drain, ran, contents) refl
      finish later g' b' es' (some tx) ran gives' less contents =
          let count : suc (length (held b' es')) ≡ length (held b es) = ap length (sym contents) in
          let rest = later g' b' es' gives' (omega (arith, less)) (omega (arith, count)) in
          rw (drain, ran, contents, rest) refl
