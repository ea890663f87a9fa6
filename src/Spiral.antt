-- ===== src/Spiral.antt =====
-- workflow/spiral.py: the gated project spiral. `State` has the state and the router, `Node` the
-- node functions, `Runtime` the LangGraph interface that walks them; the proofs are in the others.
pub mod State
pub mod Node
pub mod Quiet
pub mod Runtime
pub mod Reference
pub mod Order
pub mod Run
pub mod Steps
