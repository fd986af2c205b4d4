-- ===== src/Json/Fuel.antt =====
-- The fuel of `JSON.parse`: what some fuel reads, that of `parse` reads too.
pub mod Tokens
pub mod Steps
pub mod Loops
pub mod Whole
