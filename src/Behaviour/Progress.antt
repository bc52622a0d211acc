-- ===== src/Behaviour/Progress.antt =====
-- src/behaviour/mod.rs: polling again and again comes to an end.
use the_swarm.Common.{
  ℕ, zero, suc, ◌+◌, ◌<◌, ◌≡◌, refl, sym, ap, subst, Bool, true, false, Option, none, some, List,
  [], ◌∷◌, arith, length, Bool-cases, inl, inr,
}
use the_swarm.Types.{PeerId}
use the_swarm.Consensus.Graph
use the_swarm.Behaviour.State.{
  dial, notify_handler, unable_to_operate, cancel_signal, panicked, Arrivals, Node, Outside,
  Polling, and_then, go_on, drain, or_closed,
}
use the_swarm.Behaviour.Poll.{
  Observed, poll, check_all, check_consensus, on_consensus_event, after_consensus, dial_or,
  put_back_consensus,
}
use the_swarm.Behaviour.Steps.{Ends, drain-Ends}
use the_swarm.Behaviour.Stages.{
  kept, on_consensus_event-Ends, before_consensus-Ends, after_consensus-Ends,
}
use the_swarm.Behaviour.Quiet.{Untouched, Answers, quiet-Rules, quiet-Loops}

module _ {J : Type 0} where
  -- A message was for a peer, and one event of the consensus is gone.
  abbrev Fewer : List PeerId → List (Graph.OutEvent J) → Node J → Type 0
  Fewer ds ws n = (n.discovered_peers ≡ ds) × (length n.arrivals.consensus.waiting < length ws)

  abbrev Shorter : {E : Type 0} → List E → Polling J × List E → Type 0
  Shorter es ((n, none), rest) = Unit {0}
  Shorter es ((n, some r), rest) = length rest < length es

  drain-Shorter :
      {E : Type 0} (handle : E → Node J → Polling J) (es : List E) (n : Node J)
      → Shorter es (drain handle es n)
  unfolding drain
  drain-Shorter handle [] n = tt
  drain-Shorter {E} handle (e ∷ es) n = next (handle e n) (drain-Shorter handle es)
    where
      longer : (d : Polling J × List E) → Shorter es d → Shorter (e ∷ es) d
      longer ((n', none), rest) h = tt
      longer ((n', some r), rest) h = omega arith

      next :
          (p : Polling J)
          → ((n : Node J) → Shorter es (drain handle es n))
          → Shorter (e ∷ es) (go_on (drain handle es) es p)
      next (n', none) later = longer (drain handle es n') (later n')
      next (n', some r) later = omega arith

  module _ (outside : Outside) (ds : List PeerId) (ws : List (Graph.OutEvent J)) where
    abbrev Whole : Polling J → Type 0
    Whole = Ends (λ n. n.discovered_peers ≡ ds) (Answers (Fewer ds ws))

    consensus-Whole :
        (is_closed : Bool) (d : Polling J × List (Graph.OutEvent J))
        → Ends (Untouched ds ws) (Answers (λ n. n.discovered_peers ≡ ds)) d.0
        → Shorter ws d
        → Whole (or_closed is_closed (put_back_consensus outside d))
    consensus-Whole true ((n, none), rest) h shorter = tt
    consensus-Whole false ((n, none), rest) h shorter = h.0
    consensus-Whole is_closed ((n, some (notify_handler to sync)), rest) h shorter = (h, shorter)
    consensus-Whole is_closed ((n, some (dial peer)), rest) h shorter = h
    consensus-Whole is_closed ((n, some unable_to_operate), rest) h shorter = h
    consensus-Whole is_closed ((n, some cancel_signal), rest) h shorter = h
    consensus-Whole is_closed ((n, some panicked), rest) h shorter = h

    check_consensus-Whole : (n : Node J) → Untouched ds ws n → Whole (check_consensus outside n)
    unfolding check_consensus
    check_consensus-Whole n h =
        consensus-Whole n.arrivals.consensus.is_closed
          (drain (on_consensus_event outside) n.arrivals.consensus.waiting n)
          (drain-Ends (Untouched ds ws) (Answers (λ n. n.discovered_peers ≡ ds))
            (on_consensus_event outside)
            (on_consensus_event-Ends (Untouched ds ws) (Answers (λ n. n.discovered_peers ≡ ds))
              outside (quiet-Rules ds ws (λ n. n.discovered_peers ≡ ds) outside)
              (λ to sync n h. h.0))
            n.arrivals.consensus.waiting n h)
          (subst
            (λ l. Shorter l (drain (on_consensus_event outside) n.arrivals.consensus.waiting n)) h.1
            (drain-Shorter (on_consensus_event outside) n.arrivals.consensus.waiting n))

    after_consensus-Whole :
        (seen : Observed) (n : Node J)
        → n.discovered_peers ≡ ds
        → Whole (after_consensus outside seen n)
    after_consensus-Whole seen n h = widened (after_consensus outside seen n) (
        after_consensus-Ends (Untouched ds ws') (Answers (λ n. ⊥)) outside
          (quiet-Rules ds ws' (λ n. ⊥) outside) (quiet-Loops ds ws' (λ n. ⊥) outside (λ n a e h. h))
          seen n (h, refl))
      where
        ws' : List (Graph.OutEvent J)
        ws' = n.arrivals.consensus.waiting

        widened : (p : Polling J) → Ends (Untouched ds ws') (Answers (λ n. ⊥)) p → Whole p
        widened (n', none) h = h.0
        widened (n', some (dial peer)) h = h
        widened (n', some (notify_handler to sync)) h = absurd h
        widened (n', some unable_to_operate) h = h
        widened (n', some cancel_signal) h = h
        widened (n', some panicked) h = h

    check_all-Whole :
        (seen : Observed) (n : Node J) → Untouched ds ws n → Whole (check_all outside seen n)
    unfolding check_all
    check_all-Whole seen n h =
        before_consensus-Ends (Untouched ds ws) (Answers (Fewer ds ws)) outside
          (quiet-Rules ds ws (Fewer ds ws) outside) (quiet-Loops ds ws (Fewer ds ws) outside fewer)
          (λ n. n.discovered_peers ≡ ds) seen
          (λ n. and_then (check_consensus outside n) (after_consensus outside seen)) n h
          (λ n h. chain (check_consensus outside n) (check_consensus-Whole n h))
      where
        fewer :
            (n : Node J) (a : Arrivals J)
            → kept a ≡ kept n.arrivals
            → Fewer ds ws n
            → Fewer ds ws (record n { arrivals = a })
        fewer n a e h = (h.0, subst (λ l. length l < length ws) (sym (ap (λ k. k.1) e)) h.1)

        chain : (p : Polling J) → Whole p → Whole (and_then p (after_consensus outside seen))
        chain (n', none) h = after_consensus-Whole seen n' h
        chain (n', some r) h = h

  -- The peers to dial and the events of the consensus that are left.
  abbrev pub left : Node J → ℕ
  left n = length n.discovered_peers + length n.arrivals.consensus.waiting

  abbrev Smaller : Node J → Polling J → Type 0
  Smaller n (n', some (dial peer)) = left n' < left n
  Smaller n (n', some (notify_handler to sync)) = left n' < left n
  Smaller n (n', some unable_to_operate) = Unit {0}
  Smaller n (n', some cancel_signal) = Unit {0}
  Smaller n (n', some panicked) = Unit {0}
  Smaller n (n', none) = Unit {0}

  poll-Smaller :
      (outside : Outside) (seen : Observed) (n : Node J) → Smaller n (poll outside seen n)
  unfolding poll
  poll-Smaller outside seen n = elim (Bool-cases seen.shutdown) [
    | inl e ↦ rw e tt
    | inr e ↦ rw e (dialled n.discovered_peers refl)
  ]
    where
      smaller :
          (p : Polling J)
          → Whole outside n.discovered_peers n.arrivals.consensus.waiting p
          → Smaller n p
      smaller (n', none) h = tt
      smaller (n', some (dial peer)) h = absurd h
      smaller (n', some (notify_handler to sync)) h =
          omega (arith, ap (length {A = PeerId}) h.0, h.1)
      smaller (n', some unable_to_operate) h = tt
      smaller (n', some cancel_signal) h = tt
      smaller (n', some panicked) h = tt

      dialled :
          (peers : List PeerId)
          → n.discovered_peers ≡ peers
          → Smaller n (dial_or outside peers n (check_all outside seen n))
      dialled [] e = smaller (check_all outside seen n) (
          check_all-Whole outside n.discovered_peers n.arrivals.consensus.waiting seen n
            (refl, refl))
      dialled (peer ∷ peers) e = omega (arith, ap (length {A = PeerId}) e)

  -- How the swarm drives the behaviour: it polls again where the poll is ready with somebody to
  -- dial or a message for a peer, so many times at most.
  abbrev pub again : (Node J → Option (Polling J)) → Polling J → Option (Polling J)
  again next (n, none) = some (n, none)
  again next (n, some (dial peer)) = next n
  again next (n, some (notify_handler to sync)) = next n
  again next (n, some unable_to_operate) = some (n, some unable_to_operate)
  again next (n, some cancel_signal) = some (n, some cancel_signal)
  again next (n, some panicked) = some (n, some panicked)

  unfoldable pub drive : Outside → (ℕ → Observed) → ℕ → Node J → Option (Polling J)
  unfolding poll
  drive outside seen zero n = none
  drive outside seen (suc polls) n = again (drive outside seen polls) (poll outside (seen polls) n)

  -- While nothing new arrives, polling the behaviour again and again comes to an end: after at
  -- most one poll more than there are peers to dial and events of the consensus, a poll has
  -- nothing to be ready with, or the behaviour has failed or was cancelled.
  pub drive-ends :
      (outside : Outside) (seen : ℕ → Observed) (polls : ℕ) (n : Node J)
      → left n < polls
      → (p : Polling J) × (drive outside seen polls n ≡ some p)
  unfolding drive
  drive-ends outside seen zero n enough = absurd (omega arith)
  drive-ends outside seen (suc polls) n enough =
      next (poll outside (seen polls) n) (poll-Smaller outside (seen polls) n)
        (drive-ends outside seen polls)
    where
      next :
          (p : Polling J)
          → Smaller n p
          → ((n : Node J)
              → left n < polls
              → (p : Polling J) × (drive outside seen polls n ≡ some p))
          → (q : Polling J) × (again (drive outside seen polls) p ≡ some q)
      next (n', none) h later = ((n', none), refl)
      next (n', some (dial peer)) h later = later n' (omega arith)
      next (n', some (notify_handler to sync)) h later = later n' (omega arith)
      next (n', some unable_to_operate) h later = ((n', some unable_to_operate), refl)
      next (n', some cancel_signal) h later = ((n', some cancel_signal), refl)
      next (n', some panicked) h later = ((n', some panicked), refl)
