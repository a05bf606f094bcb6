-- ===== src/Passes.antt =====
-- The passes of lib/Passes that rewrite a kernel. `Walk` has the walk over a kernel, `Patterns`
-- the templates of include/Support/Transforms, `Transforms`, `Decompositions`, `Rotations` and
-- `Custom` the passes, `Module` a pass on a module, and `Levels` the levels of optimization.
pub mod Walk
pub mod Patterns
pub mod Transforms
pub mod Decompositions
pub mod Module
pub mod Rotations
pub mod Custom
pub mod Levels
