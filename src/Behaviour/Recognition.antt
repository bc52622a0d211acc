-- ===== src/Behaviour/Recognition.antt =====
-- src/behaviour/mod.rs and handlers.rs: how the transactions that the consensus recognizes reach
-- the modules.
use the_swarm.Common.{ℕ, ◌≡◌, refl, sym, ap, ◌∙◌, Option, none, some, List, [], ◌∷◌, ◌++◌}
use mathlib.Core.List.{append-nil}
use the_swarm.Types.{PeerId, Hash}
use the_swarm.Consensus.Transaction.{Transaction}
use the_swarm.Consensus.Graph
use the_swarm.Consensus.Graph.{
  generate_sync_response, known_peers_response, finalized_transaction, recognized_transaction,
}
use the_swarm.Behaviour.Timer.{DynamicTimer}
use the_swarm.Behaviour.Handlers.{Modules, HandleResult, ok, abort, handle_tx}
use the_swarm.Behaviour.Delivery.{
  OrderedTx, Queues, queues, join, join_assoc, events_of, events_of_all, Delivers,
  handle_tx-Delivers,
}
use the_swarm.Behaviour.State.{
  Ready, Node, Outside, Polling, and_then, set_timer, to_consensus, measure_queue, reset_timer,
  schedule_tx, drain,
}
use the_swarm.Behaviour.Poll.{on_consensus_event, or_abort}
use the_swarm.Behaviour.Trace.{OneStep, Drained, drain-Drained}

join-nothing : (q : Queues) → q ≡ join q ([], [])
join-nothing q =
    ap (λ l. (l, q.1)) (sym (append-nil q.0)) ∙ ap (λ l. (q.0 ++ [], l)) (sym (append-nil q.1))

module _ {J : Type 0} where
  -- The transactions that were recognized, in order.
  abbrev pub recognized : List (Graph.OutEvent J) → List OrderedTx
  recognized [] = []
  recognized (generate_sync_response to sync ∷ es) = recognized es
  recognized (known_peers_response peers ∷ es) = recognized es
  recognized (finalized_transaction from hash tx ∷ es) = recognized es
  recognized (recognized_transaction from hash tx ∷ es) = (from, tx, hash) ∷ recognized es

  module _ (outside : Outside) where
    -- The modules have received what the recognized transactions mean to them.
    abbrev pub Applied : Node J → List (Graph.OutEvent J) → Node J → Type 0
    Applied n es n' =
        queues n'.modules
        ≡ join (queues n.modules) (events_of_all outside.serialize outside.digest (recognized es))

    start : (n : Node J) → Applied n [] n
    start n = join-nothing (queues n.modules)

    -- An event that is no transaction adds nothing.
    skip :
        (n n' n'' : Node J) (es : List (Graph.OutEvent J))
        → Applied n [] n'
        → Applied n' es n''
        → Applied n es n''
    skip n n' n'' es first later =
        later
        ∙ ap (λ q. join q (events_of_all outside.serialize outside.digest (recognized es)))
            (first ∙ sym (join-nothing (queues n.modules)))

    continued :
        (n n' n'' : Node J) (e : Graph.OutEvent J) (es : List (Graph.OutEvent J))
        → Applied n (e ∷ []) n'
        → Applied n' es n''
        → Applied n (e ∷ es) n''
    continued n n' n'' (generate_sync_response to sync) es first later =
        skip n n' n'' es first later
    continued n n' n'' (known_peers_response peers) es first later = skip n n' n'' es first later
    continued n n' n'' (finalized_transaction from hash tx) es first later =
        skip n n' n'' es first later
    continued n n' n'' (recognized_transaction from hash tx) es first later =
        let one = events_of outside.serialize outside.digest (from, tx, hash) in
        let rest = events_of_all outside.serialize outside.digest (recognized es) in
        later
        ∙ ap (λ q. join q rest) (first ∙ ap (join (queues n.modules)) (sym (join-nothing one)))
        ∙ join_assoc outside.serialize outside.digest (queues n.modules) one rest

    -- A part of a poll that leaves the modules as they are.
    abbrev Same : Node J → Polling J → Type 0
    Same n p = p.0.modules ≡ n.modules

    Same-OneStep :
        (n : Node J) (e : Graph.OutEvent J) (p : Polling J)
        → recognized (e ∷ []) ≡ []
        → Same n p
        → OneStep (on_consensus_event outside) Applied n e p
    Same-OneStep n e (n', none) other same =
        ap queues same
        ∙ join-nothing (queues n.modules)
        ∙ ap (λ txs. join (queues n.modules) (events_of_all outside.serialize outside.digest txs))
            (sym other)
    Same-OneStep n e (n', some r) other same = ap queues same ∙ join-nothing (queues n.modules)

    reset-Same : (n : Node J) (r : Option (DynamicTimer × ℕ)) → Same n (set_timer outside n r)
    reset-Same n none = refl
    reset-Same n (some (t, k)) = refl

    schedule_tx-Same : (e : Graph.InEvent J) (n : Node J) → Same n (schedule_tx outside e n)
    unfolding schedule_tx to_consensus measure_queue reset_timer
    schedule_tx-Same e n = next (to_consensus e n).0 (to_consensus e n).1
      where
        next :
            (n' : Node J) (r : Option (Ready J))
            → Same n' (and_then (n', r) (λ n. reset_timer outside (measure_queue outside n)))
        next n' (some r) = refl
        next n' none = reset-Same (measure_queue outside n') _

    handled-OneStep :
        (n n' : Node J) (from : PeerId) (tx : Transaction) (hash : Hash)
        (r : Modules × HandleResult)
        → n'.modules ≡ n.modules
        → Delivers outside.serialize outside.digest
            (events_of outside.serialize outside.digest (from, tx, hash))
            n'.modules
            r
        → OneStep
            (on_consensus_event outside)
            Applied
            n
            (recognized_transaction from hash tx)
            (or_abort outside n' r)
    handled-OneStep n n' from tx hash (m, ok) same h =
        h
        ∙ ap (λ m. join (queues m) (events_of outside.serialize outside.digest (from, tx, hash)))
            same
        ∙ ap (join (queues n.modules)) (join-nothing _)
    handled-OneStep n n' from tx hash (m, abort) same h =
        ap queues (h ∙ same) ∙ join-nothing (queues n.modules)

    timed-OneStep :
        (n : Node J) (from : PeerId) (tx : Transaction) (hash : Hash) (p : Polling J)
        → Same n p
        → OneStep (on_consensus_event outside) Applied n (recognized_transaction from hash tx) (
            and_then p (λ n.
              or_abort outside n
                (handle_tx outside.serialize outside.digest from tx hash n.modules)))
    timed-OneStep n from tx hash (n', some r) same =
        ap queues same ∙ join-nothing (queues n.modules)
    timed-OneStep n from tx hash (n', none) same =
        handled-OneStep n n' from tx hash _ same
          (handle_tx-Delivers outside.serialize outside.digest from tx hash n'.modules)

    event-OneStep :
        (n : Node J) (e : Graph.OutEvent J)
        → OneStep (on_consensus_event outside) Applied n e (on_consensus_event outside e n)
    unfolding on_consensus_event reset_timer
    event-OneStep n (generate_sync_response to sync) = start n
    event-OneStep n (known_peers_response peers) =
        Same-OneStep n (known_peers_response peers) (schedule_tx outside _ n) refl
          (schedule_tx-Same _ n)
    event-OneStep n (finalized_transaction from hash tx) = start n
    event-OneStep n (recognized_transaction from hash tx) =
        timed-OneStep n from tx hash (reset_timer outside n) (reset-Same n _)

    -- The loop over the events of the consensus passes on every transaction that it recognizes,
    -- in their order and behind what was queued before, each as the one event that it means to
    -- the data memory or the instruction memory; the finalized ones and all else add nothing
    -- there. If an event stops the loop, this is so for those before it, and those behind it are
    -- left to the next poll.
    pub drain-Applied :
        (es : List (Graph.OutEvent J)) (n : Node J)
        → Drained
            (on_consensus_event outside)
            Applied
            n
            es
            (drain (on_consensus_event outside) es n)
    drain-Applied = drain-Drained (on_consensus_event outside) Applied start continued event-OneStep
