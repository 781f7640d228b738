-- ===== src/Js.antt =====
-- What the web client uses of JavaScript: text methods, numbers, and objects as ordered maps.
pub mod Text
pub mod Number
pub mod Object
pub mod Bits
pub mod Params
pub mod Sort
pub mod Replace
