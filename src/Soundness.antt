-- ===== src/Soundness.antt =====
-- The passes against the meaning of a kernel. `Shape` reads the tests on one gate, `Search` what
-- the search for the previous operation finds, `Walk` lifts a callback's proof to the kernel,
-- `Pipeline` to kernels that several passes run on; the other modules are named for the passes.
pub mod Shape
pub mod Search
pub mod Nearest
pub mod Walk
pub mod Pair
pub mod Callback
pub mod Switch
pub mod PauliH
pub mod Conjugate
pub mod Control
pub mod Decompose
pub mod Commute
pub mod NullHandle
pub mod Cancel
pub mod Reduction
pub mod Unsound
pub mod Turns
pub mod Nonzero
pub mod Rotations
pub mod Kernels
pub mod Steps
pub mod Pipeline
pub mod Eliminated
pub mod Module
pub mod Optimizer
pub mod Examples
pub mod CallExamples
mod RotationExamples
mod PipelineExamples
