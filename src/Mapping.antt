-- ===== src/Mapping.antt =====
-- lib/Passes/Transforms/QuakeQMap.cpp: `Load` makes a circuit of QMAP from a kernel, `Rebuild` a
-- kernel from the mapped circuit; `Loaded`, `Keys`, `Counted` and `MissingKey` are about the first,
-- `Qubits`, `Circuit` and `RoundTrip` about the two together.
pub mod Load
pub mod Rebuild
pub mod Loaded
pub mod Keys
pub mod Counted
pub mod MissingKey
pub mod Circuit
pub mod RoundTrip
pub mod Qubits
mod Examples
