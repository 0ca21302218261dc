-- ===== src/Book.antt =====
-- src/orderbook and src/bookbuilder: price levels, the orders of a book, and the handlers of events.
pub mod Levels
pub mod OrderBook
pub mod Builder
