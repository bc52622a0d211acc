-- ===== src/Processor/Program.antt =====
-- src/processor/mod.rs: programs and their identifiers. `bincode` and the hash function are
-- arguments.
use the_swarm.Common.{ℕ, Option, none, some, List}
use the_swarm.Common.Map.{Key}
use the_swarm.Types.{Vid, Hash}
use the_swarm.Processor.Instruction.{Instruction}
use native.Mathlib.Decide.{ℕ_discrete}

abbrev pub Instructions : Type 0
Instructions = List (Instruction Vid Vid)

pub record ProgramIdentifier : Type 0 where
  pub hash : Hash
  pub event_hash : Hash

pub record Program : Type 0 where
  pub instructions : Instructions
  pub identifier : ProgramIdentifier

pub identifier_discrete : Discrete ProgramIdentifier
identifier_discrete = hlevel ℕ_discrete

instance abbrev pub identifier_key : Key ProgramIdentifier
identifier_key = record { eq = identifier_discrete }

-- `none` is an error of the serializer.
module _ (serialize : Instructions → Option (List ℕ)) (digest : List ℕ → List ℕ) where
  abbrev hashed : Option (List ℕ) → Option Hash
  hashed none = none
  hashed (some bytes) = some (record { inner = digest bytes })

  unfoldable pub calculate_hash : Instructions → Option Hash
  calculate_hash value = hashed (serialize value)

  abbrev identified : Instructions → Hash → Option Hash → Option Program
  identified instructions event_hash none = none
  identified instructions event_hash (some hash) = some (record {
    instructions = instructions;
    identifier = record { hash = hash; event_hash = event_hash };
  })

  -- `Program::new`.
  unfoldable pub program_new : Instructions → Hash → Option Program
  unfolding calculate_hash
  program_new instructions event_hash =
      identified instructions event_hash (calculate_hash instructions)
