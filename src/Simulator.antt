-- ===== src/Simulator.antt =====
-- simulator/simulator.py: the synthetic device under test.
pub mod Nesting
pub mod Decode
pub mod Connection
pub mod Framing
pub mod Faults
pub mod Protocol
pub mod Startup
