-- ===== src/Brain.antt =====
-- brain.py: the facade over the components, of which the branches and the history are modelled.
pub mod History
pub mod Branching
pub mod Pruning
