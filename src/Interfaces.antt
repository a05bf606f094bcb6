-- ===== src/Interfaces.antt =====
-- lib/Interfaces: from a QASM program to a kernel. `GatesMap` and `Decomposed` are the table of
-- gates, `Qasm` is the part of the parsed program that is read, `QasmToQuake` and `Program` are
-- the functions that insert it, `Pass` is QASM3ToQuake. `Arity`, `Measured` and `Allocated` are
-- about them.
pub mod GatesMap
pub mod Decomposed
pub mod Qasm
pub mod QasmToQuake
pub mod Program
pub mod Arity
pub mod Measured
pub mod Allocated
pub mod Pass
pub mod Examples
