-- ===== src/OrderBook.antt =====
-- internal/infra/adapters/shared/orderbook_assembler.go: the order book of one instrument, put together
-- from a REST snapshot and a stream of differences.
pub mod Side
pub mod Lookup
pub mod Ordering
pub mod Positive
pub mod Assembler
pub mod Examples
