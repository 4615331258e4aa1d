-- ===== src/X86.antt =====
-- The simulator ostep-homework-master/threads-locks/x86.py: a processor with threads.
--
-- An instruction, which the source keeps in memory as the text of a call and evaluates, is a value of
-- `Instr`. Registers are their numbers in the source, which `getarg` alone makes. What is traced and
-- printed is left out, and so is the text of a program: a line is given with its arguments read.
pub mod Reg
pub mod Cpu
pub mod Assembler
pub mod Threads
pub mod Run
pub mod Turns
pub mod Start
pub mod Stack
pub mod Loaded
mod Tests
