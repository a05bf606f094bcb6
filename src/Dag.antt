-- ===== src/Dag.antt =====
-- lib/Support/DAG/QuakeDAG.cpp and include/Support/DAG/Quake-DAG.hpp: the graph of a kernel.
-- `Graph` builds it; `Forward`, `Names` and `Whole` are about its edges and vertices,
-- `Wires`, `Edges`, `Chain`, `Links` and `Covered` about the paths of the qubits;
-- `Print` prints it.
pub mod Graph
pub mod Forward
pub mod Names
pub mod Whole
pub mod Wires
pub mod Edges
pub mod Chain
pub mod Links
pub mod Covered
pub mod Print
mod Examples
