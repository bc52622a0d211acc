-- ===== src/Processor.antt =====
-- src/processor: programs, and the two processors that execute them.
pub mod Program
pub mod Instruction
pub mod SingleThreaded
pub mod Mock
mod Tests
