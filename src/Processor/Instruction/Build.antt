-- ===== src/Processor/Instruction/Build.antt =====
-- src/processor/instruction.rs: the constructors that `impl_binary_constructor` and `impl_unary`
-- generate.
use the_swarm.Processor.Instruction.{Instruction, Operation}

module _ {O R : Type 0} where
  unfoldable pub sub : O → O → R → Instruction O R
  sub first second result = record {
    operation = Operation.sub (record { first = first; second = second });
    result = result;
  }

  unfoldable pub plus : O → O → R → Instruction O R
  plus first second result = record {
    operation = Operation.plus (record { first = first; second = second });
    result = result;
  }

  unfoldable pub inv : O → R → Instruction O R
  inv operand result = record {
    operation = Operation.inv (record { operand = operand });
    result = result;
  }

  unfoldable pub nand : O → O → R → Instruction O R
  nand first second result = record {
    operation = Operation.nand (record { first = first; second = second });
    result = result;
  }

  unfoldable pub nor : O → O → R → Instruction O R
  nor first second result = record {
    operation = Operation.nor (record { first = first; second = second });
    result = result;
  }
