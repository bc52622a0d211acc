-- ===== src/Processor/Tests.antt =====
-- src/processor: runs of the processors on small programs. Addition stands for the addition of the
-- field.
use the_swarm.Common.{◌++◌, List, ℕ, ◌+◌, ◌≡◌, refl, Option, none, some, [], ◌∷◌, ℕ_discrete}
use the_swarm.Common.Map.{Map, nat_key, get, insert}
use the_swarm.Types.{Vid, Shard, Data}
use the_swarm.Processor.Instruction.{Operation, sub, plus, nand, nor, map_operation}
use the_swarm.Processor.Program.{Instructions, Program}
use the_swarm.Processor.SingleThreaded.Queue.{response}
use the_swarm.Processor.SingleThreaded
use the_swarm.Processor.SingleThreaded.{Bus}
use the_swarm.Processor.SingleThreaded.Execute.{execute}
use the_swarm.Processor.SingleThreaded.Reference.{IsMemory, update, ref_run}
use the_swarm.Processor.SingleThreaded.Refinement.{execute-ref_run}
use the_swarm.Processor.Mock.{calculate, retrieve_operands, execute_all}
use the_swarm.Processor.Mock.Agreement.{part, parts, calculate-part, execute_all-parts}

-- A memory that is a function from ids to shards.
abbrev function_bus : Bus (Vid → Option Shard)
function_bus = record {
  request = λ s id. some s;
  response = λ s id. (s, some (s id));
  write = λ s id shard. some (update s id shard);
}

function_bus-IsMemory : IsMemory function_bus (λ s. s)
function_bus-IsMemory = record {
  readable = record { request_lem = λ s id. refl; response_lem = λ s id. refl };
  write_lem = λ s id shard. (update s id shard, refl, refl);
}

abbrev start : Vid → Option Shard
start id = get ((1, 1 ∷ 2 ∷ []) ∷ (2, 0 ∷ 7 ∷ []) ∷ []) id

abbrev add_galois : ℕ → ℕ → ℕ
add_galois x y = x + y

-- The third instruction lacks an operand.
abbrev program : Instructions
program =
    record { operation = plus (record { first = 1; second = 2 }); result = 3 }
    ∷ record { operation = nand (record { first = 3; second = 2 }); result = 1 }
    ∷ record { operation = sub (record { first = 1; second = 9 }); result = 4 }
    ∷ []

execute-ref_run_example :
    (s : Vid → Option Shard) × (execute function_bus add_galois program start
      ≡ (s, (ref_run add_galois program start).1))
    × (s ≡ (ref_run add_galois program start).0)
execute-ref_run_example =
    execute-ref_run function_bus (λ s. s) function_bus-IsMemory add_galois program start

abbrev operation : Operation Data
operation = nor (record { first = 0 ∷ 1 ∷ 0 ∷ 5 ∷ []; second = 0 ∷ 0 ∷ 3 ∷ 5 ∷ [] })

calculate-part_example :
    part 1 2 (calculate add_galois operation)
    ≡ SingleThreaded.calculate add_galois (map_operation (part 1 2) operation)
calculate-part_example = calculate-part add_galois 1 2 operation

abbrev storage : Map Vid Data
storage = (1, 1 ∷ 2 ∷ 3 ∷ 4 ∷ []) ∷ (2, 0 ∷ 7 ∷ 0 ∷ 7 ∷ []) ∷ []

abbrev last : Map Vid Data
last = (1, 1 ∷ 0 ∷ 1 ∷ 0 ∷ []) ∷ (2, 0 ∷ 7 ∷ 0 ∷ 7 ∷ []) ∷ (3, 1 ∷ 9 ∷ 3 ∷ 11 ∷ []) ∷ []

abbrev short : Instructions
short =
    record { operation = plus (record { first = 1; second = 2 }); result = 3 }
    ∷ record { operation = nor (record { first = 2; second = 2 }); result = 1 }
    ∷ []

short_run : execute_all add_galois short storage ≡ (last, none)
unfolding execute_all retrieve_operands calculate get insert ℕ_discrete
short_run = refl

execute_all-parts_example :
    (ref_run add_galois short (parts add_galois 2 2 storage)).0 ≡ parts add_galois 2 2 last
execute_all-parts_example = execute_all-parts add_galois 2 2 short storage last short_run

abbrev request : ℕ → Instructions → Program
request n instructions = record {
  instructions = instructions;
  identifier = record { hash = record { inner = n ∷ [] }; event_hash = record { inner = [] } };
}

-- A memory that comes to no write: what it holds, and the writes that wait.
abbrev queue_bus : Bus ((Vid → Option Shard) × List (Vid × Shard))
queue_bus = record {
  request = λ s id. some s;
  response = λ s id. (s, some (s.0 id));
  write = λ s id shard. some (s.0, s.1 ++ ((id, shard) ∷ []));
}

abbrev queued_programs : List Program
queued_programs = request 1 program ∷ request 2 short ∷ []
