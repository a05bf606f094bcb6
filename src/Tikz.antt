-- ===== src/Tikz.antt =====
-- lib/Passes/CodeGen/QuakeToTikz.cpp: a kernel as a picture. `Draw` makes a row of cells for each
-- qubit, `Print` the text; `Grid`, `Picture`, `Rectangle` and `Swap` are about the
-- widths of the rows, `RoundTrip` about the text.
pub mod Draw
pub mod Print
pub mod RoundTrip
pub mod Grid
pub mod Picture
pub mod Rectangle
pub mod Swap
mod Examples
