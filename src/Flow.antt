-- ===== src/Flow.antt =====
-- m2c/flow_graph.py: the graph of basic blocks and what is computed over it.
pub mod RefSet
pub mod LocationRefs
pub mod Uses
pub mod Dominators
pub mod Reach
pub mod Clobbered
pub mod Phi
pub mod Labels
pub mod Blocks
