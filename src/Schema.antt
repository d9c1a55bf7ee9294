-- ===== src/Schema.antt =====
-- internal/domain/schema: the messages that the components exchange. A string type with named
-- constants is a data type of the constants and one constructor for any other string.
pub mod Order
pub mod Book
pub mod Route
pub mod Instrument
pub mod RouteLetters
mod Examples
pub mod Symbol
pub mod SymbolLaws
pub mod Payload
