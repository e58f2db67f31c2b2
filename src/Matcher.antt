-- ===== src/Matcher.antt =====
-- apps/matcher/src: the choice of parts and their wiring.
pub mod Types
pub mod Power
pub mod Constraints
pub mod Ports
pub mod Wiring
pub mod Plans
pub mod Solver
pub mod Solve
