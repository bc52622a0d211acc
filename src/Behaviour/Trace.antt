-- ===== src/Behaviour/Trace.antt =====
-- src/behaviour/mod.rs: what the events that a loop receives leave in the state.
use the_swarm.Common.{◌≡◌, refl, ap, none, some, List, [], ◌∷◌, ◌++◌}
use the_swarm.Behaviour.State.{Node, Polling, go_on, drain}

module _ {J E : Type 0} (handle : E → Node J → Polling J)
    (Leaves : Node J → List E → Node J → Type 0) where
  -- An event is handled, or stops the loop and leaves nothing.
  abbrev pub OneStep : Node J → E → Polling J → Type 0
  OneStep n e (n', none) = Leaves n (e ∷ []) n'
  OneStep n e (n', some r) = Leaves n [] n'

  -- All events were handled; or one stopped the loop, those before it were handled, and those
  -- behind it are left.
  abbrev pub Drained : Node J → List E → Polling J × List E → Type 0
  Drained n es ((n', none), rest) = (rest ≡ []) × Leaves n es n'
  Drained n es ((n', some r), rest) =
      (before : List E) × (e : E) × (es ≡ before ++ (e ∷ rest)) × Leaves n before n'

  pub drain-Drained :
      ((n : Node J) → Leaves n [] n)
      → ((n n' n'' : Node J) (e : E) (es : List E)
          → Leaves n (e ∷ []) n'
          → Leaves n' es n''
          → Leaves n (e ∷ es) n'')
      → ((n : Node J) (e : E) → OneStep n e (handle e n))
      → (es : List E) (n : Node J) → Drained n es (drain handle es n)
  unfolding drain
  drain-Drained start join step [] n = (refl, start n)
  drain-Drained start join step (e ∷ es) n =
      next (handle e n) (step n e) (drain-Drained start join step es)
    where
      behind :
          (n' : Node J) (d : Polling J × List E)
          → Leaves n (e ∷ []) n'
          → Drained n' es d
          → Drained n (e ∷ es) d
      behind n' ((n'', none), rest) first (nothing, later) =
          (nothing, join n n' n'' e es first later)
      behind n' ((n'', some r), rest) first (before, stop, split, later) =
          (e ∷ before, stop, ap (◌∷◌ e) split, join n n' n'' e before first later)

      next :
          (p : Polling J)
          → OneStep n e p
          → ((n : Node J) → Drained n es (drain handle es n))
          → Drained n (e ∷ es) (go_on (drain handle es) es p)
      next (n', none) first later = behind n' (drain handle es n') first (later n')
      next (n', some r) first later = ([], e, refl, first)
