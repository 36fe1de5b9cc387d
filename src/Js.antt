-- ===== src/Js.antt =====
-- The parts of JavaScript's own library that the source computes with.
pub mod Number
pub mod Arith
pub mod Parse
