-- ===== src/Tools.antt =====
-- The command line tools of tools/: qasm-to-quake.cpp, cpp-to-only-quake.cpp, quake-to-tikz.cpp.
-- `Texts` and `Files` are what they share, `Main` has the function `main` of each. `Stages` is
-- about their parts, `Selected` about the functions that are written, `Outputs` and `Failed` about
-- the ends of the tools, `Names` about the names of kernels.
pub mod Texts
pub mod Files
pub mod Main
pub mod Stages
pub mod Selected
pub mod Outputs
pub mod Failed
pub mod Names
mod Examples
