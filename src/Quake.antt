-- ===== src/Quake.antt =====
-- Kernels of the Quake dialect, as far as the passes read them. `Ops` has the operations of a
-- block, `Floats`, `Query` and `Classical` the functions of
-- lib/Support/CodeGen/Quake/QuakeOperations.cpp.
pub mod Ops
pub mod Floats
pub mod Query
pub mod Count
pub mod Classical
pub mod Lookup
pub mod Examples
