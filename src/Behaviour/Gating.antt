-- ===== src/Behaviour/Gating.antt =====
-- src/behaviour/mod.rs: programs reach the processor in order, and only while it accepts them.
use the_swarm.Common.{
  ℕ, zero, suc, ◌≤◌, ◌≡◌, refl, sym, ap, ◌∙◌, inl, inr, Bool, true, false, Option, none, some, List,
  [], ◌∷◌, ◌++◌, arith, length, Bool-cases,
}
use mathlib.Core.List.{append_assoc, append-nil}
use the_swarm.Module.{Shared, accepts_input}
use the_swarm.Processor.SingleThreaded.Run
use the_swarm.InstructionStorage
use the_swarm.InstructionStorage.{next_program, finished_execution, peer_shards_actualized}
use the_swarm.DataMemory.State
use the_swarm.Behaviour.Handlers.{deliver, poll_send}
use the_swarm.Behaviour.State.{
  program_executed, Ready, Node, Outside, Polling, fail_fast, to_processor, to_user, to_memory,
  go_on, or_closed,
}
use the_swarm.Behaviour.Poll.{on_instruction_event, drain_instructions}

-- The programs in some events of the instruction memory.
abbrev pub programs_of : InstructionStorage.OutEvent → List Run.InEvent
programs_of (next_program program) = Run.InEvent.execute_program program ∷ []
programs_of (finished_execution program_id) = []
programs_of (peer_shards_actualized program_id peer ids) = []

abbrev pub programs : List InstructionStorage.OutEvent → List Run.InEvent
programs [] = []
programs (e ∷ es) = programs_of e ++ programs es

module _ (state : ℕ → Shared Run.ModuleState) where
  abbrev pub accepting : ℕ → Bool
  accepting i = accepts_input Run.accepts (state i)

  -- The processor accepted input before each of the events.
  abbrev pub Accepted : ℕ → List InstructionStorage.OutEvent → Type 0
  Accepted i [] = Unit {0}
  Accepted i (e ∷ es) = (accepting i ≡ true) × Accepted (suc i) es

module _ {J : Type 0} (outside : Outside) (state : ℕ → Shared Run.ModuleState) where
  -- The programs of the events that were handled are queued; the event that stopped the loop, if
  -- one did, was received too, and the others are left.
  pub record Received (i : ℕ) (n : Node J) (es : List InstructionStorage.OutEvent) (n' : Node J)
      (rest : List InstructionStorage.OutEvent) : Type 0 where
    pub handled : List InstructionStorage.OutEvent
    pub stopping : List InstructionStorage.OutEvent
    pub at_most_one : length stopping ≤ 1
    pub split : es ≡ handled ++ (stopping ++ rest)
    pub queued : n'.processor.queued ≡ n.processor.queued ++ programs handled
    pub accepted : Accepted state i (handled ++ stopping)

  -- What one event adds to the input of the processor.
  abbrev Adds : Node J → List Run.InEvent → Polling J → Type 0
  Adds n l (n', none) = n'.processor.queued ≡ n.processor.queued ++ l
  Adds n l (n', some r) = n'.processor.queued ≡ n.processor.queued

  same-Adds :
      (n n' : Node J) (r : Option (Ready J))
      → n'.processor.queued ≡ n.processor.queued
      → Adds n [] (n', r)
  same-Adds n n' none e = e ∙ sym (append-nil n.processor.queued)
  same-Adds n n' (some r) e = e

  to_processor-Adds : (e : Run.InEvent) (n : Node J) → Adds n (e ∷ []) (to_processor e n)
  unfolding to_processor poll_send
  to_processor-Adds e n = polled n.processor.open_still n.processor.free
    where
      polled :
          (open_still : Bool) (free : ℕ)
          → Adds n (e ∷ []) (
              let (inbox, p) = deliver e n.processor open_still free in
              (record n { processor = inbox }, fail_fast p))
      polled false free = refl
      polled true zero = refl
      polled true (suc free) = refl

  event-Adds :
      (e : InstructionStorage.OutEvent) (n : Node J)
      → Adds n (programs_of e) (on_instruction_event outside e n)
  unfolding on_instruction_event to_user to_memory poll_send
  event-Adds (next_program program) n = to_processor-Adds _ n
  event-Adds (finished_execution program_id) n =
      same-Adds n (to_user (program_executed program_id) n).0 _ refl
  event-Adds (peer_shards_actualized _ peer ids) n =
      same-Adds n (to_memory (State.InEvent.peer_shards_actualized peer ids) n).0 _ refl

  nothing-Received :
      (i : ℕ) (n n' : Node J) (es : List InstructionStorage.OutEvent)
      → n'.processor.queued ≡ n.processor.queued
      → Received i n es n' es
  nothing-Received i n n' es e = record {
    handled = [];
    stopping = [];
    at_most_one = omega arith;
    split = refl;
    queued = e ∙ sym (append-nil n.processor.queued);
    accepted = tt;
  }

  one-Received :
      (i : ℕ) (n n' n'' : Node J) (e : InstructionStorage.OutEvent)
      (es rest : List InstructionStorage.OutEvent)
      → accepting state i ≡ true
      → n'.processor.queued ≡ n.processor.queued ++ programs_of e
      → Received (suc i) n' es n'' rest
      → Received i n (e ∷ es) n'' rest
  one-Received i n n' n'' e es rest a first later = record {
    handled = e ∷ later.handled;
    stopping = later.stopping;
    at_most_one = later.at_most_one;
    split = ap (◌∷◌ e) later.split;
    queued =
        later.queued
        ∙ ap (λ l. l ++ programs later.handled) first
        ∙ append_assoc n.processor.queued (programs_of e) (programs later.handled);
    accepted = (a, later.accepted);
  }

  closed-Received :
      (i : ℕ) (is_closed : Bool) (n : Node J) → Received i n [] (or_closed is_closed (n, none)).0 []
  closed-Received i true n = nothing-Received i n n [] refl
  closed-Received i false n = nothing-Received i n n [] refl

  -- The loop over the events of the instruction memory receives them in order, and each only
  -- after the processor was seen to accept input. The programs of those that are handled are put
  -- into the processor's input, in their order, behind what was queued there and with nothing
  -- else; at most one event is received without being handled, and all behind it are left.
  pub drain_instructions-Received :
      (i : ℕ) (is_closed : Bool) (es : List InstructionStorage.OutEvent) (n : Node J)
      → let (p, rest) = drain_instructions outside state i is_closed es n in
        Received i n es p.0 rest
  unfolding drain_instructions
  drain_instructions-Received i is_closed [] n = elim (Bool-cases (accepting state i)) [
    | inl e ↦ rw e (closed-Received i is_closed n)
    | inr e ↦ rw e (nothing-Received i n n [] refl)
  ]
  drain_instructions-Received i is_closed (e ∷ es) n = elim (Bool-cases (accepting state i)) [
    | inl a ↦ rw a (
        next (on_instruction_event outside e n) a (event-Adds e n)
          (drain_instructions-Received (suc i) is_closed es))
    | inr busy ↦ rw busy (nothing-Received i n n (e ∷ es) refl)
  ]
    where
      next :
          (p : Polling J)
          → accepting state i ≡ true
          → Adds n (programs_of e) p
          → ((n : Node J)
              → let (p, rest) = drain_instructions outside state (suc i) is_closed es n in
                Received (suc i) n es p.0 rest)
          → let (p', rest) = go_on (drain_instructions outside state (suc i) is_closed es) es p in
            Received i n (e ∷ es) p'.0 rest
      next (n', none) a first later = one-Received i n n' _ e es _ a first (later n')
      next (n', some r) a first later = record {
        handled = [];
        stopping = e ∷ [];
        at_most_one = omega arith;
        split = refl;
        queued = first ∙ sym (append-nil n.processor.queued);
        accepted = (a, tt);
      }
