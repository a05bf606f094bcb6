-- ===== src/Semantics/Tableau.antt =====
-- A model of the laws: the conjugation of Pauli strings by Clifford gates, up to a global phase.
-- `Local` and `Fuse` have operators on one and on two qubits, `Gates` the gates, `Identities` the
-- laws, `Idle` the gates that change nothing.
pub mod Local
pub mod Fuse
pub mod Gates
pub mod Identities
pub mod Idle
