-- ===== src/Common.antt =====
-- src/common: the queue between threads, the pool of objects, the hash table and the histogram.
pub mod Spsc
pub mod Pool
pub mod Table
pub mod Histogram
