-- ===== src/Processor/SingleThreaded/Queue.antt =====
-- src/processor/single_threaded.rs: programs whose writes wait in the channel to the memory.
use the_swarm.Common.{true, ℕ, ◌≡◌, Option, none, some, List, [], ◌∷◌, ◌++◌}
use the_swarm.Common.Map.{Map, nat_key, get, Distinct}
use the_swarm.Common.Result.{Result}
use the_swarm.Types.{Vid, Shard}
use the_swarm.Processor.Program.{Program}
use the_swarm.Processor.SingleThreaded.{Bus}
use the_swarm.Processor.SingleThreaded.Reference.{IsReadable, ref_run, or_else}
use the_swarm.Processor.SingleThreaded.Run.{
  OutEvent, finished_execution, InEvent, execute_program, World, ready,
}

-- The channel of the writes is apart from the one of the reads: a write joins the queue, and the
-- memory, which has not come to it yet, answers reads from what it holds.
pub record IsQueue {S : Type 0} (bus : Bus S) (contents : S → Vid → Option Shard)
    (queued : S → List (Vid × Shard)) : Type 0 where
  pub readable : IsReadable bus contents
  pub write_lem :
      (s : S) (id : Vid) (shard : Shard)
      → (s' : S) × (bus.write s id shard ≡ some s')
        × (contents s' ≡ contents s)
        × (queued s' ≡ queued s ++ ((id, shard) ∷ []))

-- The processor between two programs, its output channel open.
abbrev pub idle : {S : Type 0} → S → List OutEvent → World S
idle s sent = record {
  memory = s;
  output = record { sent = sent; room = none };
  state = ready;
  running = true;
}

abbrev pub to_event : Program → Option InEvent
to_event program = some (execute_program program)

module _ (galois_add : ℕ → ℕ → ℕ) (held : Vid → Option Shard) where
  -- The response to a program whose operands are what is held.
  abbrev pub response : Program → OutEvent
  response p = finished_execution p.identifier (ref_run galois_add p.instructions held).1

  -- The writes are those of the programs in turn: for each one shard for an id, which, over what is
  -- held, are what its sequential meaning leaves.
  abbrev pub Writes : List Program → List (Vid × Shard) → Type 0
  Writes [] writes = writes ≡ []
  Writes (p ∷ programs) writes =
      (own : Map Vid Shard) × (rest : List (Vid × Shard)) × (writes ≡ own ++ rest)
      × Distinct own
      × ((id : Vid)
          → or_else (get own id) (held id) ≡ (ref_run galois_add p.instructions held).0 id)
      × Writes programs rest
