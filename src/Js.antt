-- ===== src/Js.antt =====
-- What the program uses of JavaScript's texts and numbers.
pub mod Text
pub mod Decimal
pub mod Split
pub mod Json
