-- ===== src/LinAlg.antt =====
-- The translation of kernels to tensors: lib/Interfaces/InlineGatesToArithLinAlg.cpp (`Tensors`
-- has the products, `Convert` the calls) and lib/Passes/CodeGen/QuakeToLinAlg.cpp (`Convert`).
-- `Typed` is about the types of the instructions, `Declared` and `Lookup` about the functions
-- that they call, `Module` about both.
pub mod Tensors
pub mod Convert
pub mod Typed
pub mod Declared
pub mod Lookup
pub mod Module
mod Examples
