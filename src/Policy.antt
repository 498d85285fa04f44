-- ===== src/Policy.antt =====
-- src/objects/policy.cpp: the Boolean attributes of an object and the rules of a creation template.
pub mod Values
pub mod Creation
mod Tests
