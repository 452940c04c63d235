-- ===== src/Examples.antt =====
-- Tests of the definitions on concrete inputs, and the theorems applied at such inputs.
pub mod Asm
pub mod Pattern
pub mod Flow
pub mod Graph
pub mod Blocks
pub mod Bounds
pub mod Clobbered
pub mod Phi
pub mod Demangle
pub mod File
pub mod Data
