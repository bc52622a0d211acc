-- ===== src/Behaviour/Quiet.antt =====
-- src/behaviour/mod.rs: the parts of a poll other than the loop of the consensus neither discover
-- peers nor receive from the consensus, and have no message for a peer.
use the_swarm.Common.{ℕ, ◌≡◌, ap, ◌∙◌, Option, none, some, List}
use the_swarm.Types.{PeerId}
use the_swarm.Consensus.Graph
use the_swarm.Behaviour.Timer.{DynamicTimer}
use the_swarm.Behaviour.Handlers.{
  Modules, HandleResult, ok, abort, Polled, sent, closed, full, poll_send,
}
use the_swarm.Behaviour.State.{
  Ready, dial, notify_handler, unable_to_operate, cancel_signal, panicked, Arrivals, Node, Outside,
  Polling, fail_fast, set_timer, to_consensus, to_processor, to_network, to_user, to_memory,
  measure_queue, reset_timer,
}
use the_swarm.Behaviour.Gossip.{create_standalone, request_sync, start_sync, closed_only}
use the_swarm.Behaviour.Poll.{or_abort}
use the_swarm.Behaviour.Steps.{Ends, Rules}
use the_swarm.Behaviour.Stages.{kept, Loops}

module _ {J : Type 0} where
  -- Nothing was discovered meanwhile, and the consensus has these events left.
  abbrev pub Untouched : List PeerId → List (Graph.OutEvent J) → Node J → Type 0
  Untouched ds ws n = (n.discovered_peers ≡ ds) × (n.arrivals.consensus.waiting ≡ ws)

  -- What holds where a message is for a peer; there is nobody to dial.
  abbrev pub Answers : (Node J → Type 0) → Ready J → Node J → Type 0
  Answers W (dial _) n = ⊥
  Answers W (notify_handler _ _) n = W n
  Answers W unable_to_operate n = Unit {0}
  Answers W cancel_signal n = Unit {0}
  Answers W panicked n = Unit {0}

  module _ (ds : List PeerId) (ws : List (Graph.OutEvent J)) (W : Node J → Type 0) where
    abbrev Going : Polling J → Type 0
    Going = Ends (Untouched ds ws) (Answers W)

    sent_fast : (n : Node J) (polled : Polled) → Untouched ds ws n → Going (n, fail_fast polled)
    sent_fast n sent h = h
    sent_fast n closed h = tt
    sent_fast n full h = tt

    sent_or_full :
        (n : Node J) (polled : Polled) → Untouched ds ws n → Going (n, closed_only polled)
    sent_or_full n sent h = h
    sent_or_full n closed h = tt
    sent_or_full n full h = h

    sync_started :
        (outside : Outside) (n : Node J) (polled : Polled)
        → Untouched ds ws n
        → Going (start_sync outside n polled)
    sync_started outside n sent h = h
    sync_started outside n closed h = tt
    sync_started outside n full h = h

    timer_set :
        (outside : Outside) (n : Node J) (r : Option (DynamicTimer × ℕ))
        → Untouched ds ws n
        → Going (set_timer outside n r)
    timer_set outside n none h = tt
    timer_set outside n (some (t, k)) h = h

    aborted :
        (outside : Outside) (n : Node J) (r : Modules × HandleResult)
        → Untouched ds ws n
        → Going (or_abort outside n r)
    aborted outside n (m, ok) h = h
    aborted outside n (m, abort) h = tt

    pub quiet-Rules : (outside : Outside) → Rules (Untouched ds ws) (Answers W) outside
    unfolding to_consensus to_processor to_network to_user to_memory measure_queue reset_timer
        create_standalone request_sync poll_send
    quiet-Rules outside = record {
      consensus_send = λ e n h. sent_fast (to_consensus e n).0 _ h;
      processor_send = λ e n h. sent_fast (to_processor e n).0 _ h;
      network_send = λ e n h. sent_fast (to_network e n).0 _ h;
      user_send = λ e n h. sent_fast (to_user e n).0 _ h;
      memory_send = λ e n h. sent_fast (to_memory e n).0 _ h;
      measured = λ n h. h;
      timer_reset = λ n h. timer_set outside n _ h;
      timer_started = λ n h. timer_set outside n _ h;
      requests_processed = λ m n h. h;
      response_pending = λ m n h. h;
      message_taken = λ ms n h. h;
      drawn = λ draws n h. h;
      overdrawn = λ draws n h e. tt;
      ticked = λ n h. h;
      standalone = λ n h. sent_or_full (create_standalone n).0 _ h;
      sync_requested = λ to n h.
          sync_started outside
            (record n {
              consensus = (poll_send (Graph.InEvent.generate_sync_request to) n.consensus).0;
            })
            _ h;
      transaction = λ from tx hash n h. aborted outside n _ h;
    }

    pub quiet-Loops :
        (outside : Outside)
        → ((n : Node J) (a : Arrivals J)
            → kept a ≡ kept n.arrivals
            → W n
            → W (record n { arrivals = a }))
        → Loops (Untouched ds ws) (Answers W)
    quiet-Loops outside keeps = record { back = back; over = λ start n s h e. tt }
      where
        back :
            (r : Option (Ready J)) (n : Node J) (a : Arrivals J)
            → kept a ≡ kept n.arrivals
            → Going (n, r)
            → Going (record n { arrivals = a }, r)
        back none n a e h = (h.0, ap (λ k. k.1) e ∙ h.1)
        back (some (notify_handler to sync)) n a e h = keeps n a e h
        back (some (dial peer)) n a e h = h
        back (some unable_to_operate) n a e h = h
        back (some cancel_signal) n a e h = h
        back (some panicked) n a e h = h
