-- ===== src/Intake.antt =====
-- apps/intake/src, with the spec of packages/schema/src/spec.ts.
pub mod Spec
pub mod Shapes
pub mod Replies
pub mod Questions
pub mod Merge
pub mod Decide
pub mod Turn
pub mod Handler
