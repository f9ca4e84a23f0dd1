-- ===== src/Js.antt =====
-- The values of the source language that the control plane computes with: strings as UTF-16 code
-- units, numbers, and JSON-like values with objects whose fields may be `undefined`.
pub mod Text
pub mod TextLaws
pub mod Number
pub mod Double
pub mod Rounding
pub mod Json
