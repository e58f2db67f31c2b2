-- ===== src/Llm.antt =====
-- packages/llm/src: calls of the model and their price.
pub mod Types
pub mod Call
pub mod Pricing
pub mod Tools
pub mod Egress
pub mod Meter
