-- ===== src/Lib.antt =====
-- fastbook: a market-data pipeline that turns the datagrams of an exchange feed into order books,
-- modelled part by part.
--
-- How the parts interact. A datagram goes to the MoldUDP64 framer, which checks its sequence number
-- and hands each new message to the ITCH parser; the length-prefix framer does so for files and TCP.
-- The parser makes an event of it, and events go through a queue between two threads to the book, which
-- keeps its price levels in two arrays, a small hot one and a sorted cold one, and finds
-- its orders by a hash table. A gap in the sequence numbers is filled by requests to a server before
-- the datagram behind it is fed again.
--
-- Files and code:
-- - Prelude: names of the libraries, Boolean tests, arrays as lists (Prelude/Lists), masks
--   (Prelude/Bits).
-- - Feed/Bytes: src/feed/buf_reader.hpp and src/feed/buf_writer.hpp. A reader is a function from the
--   bytes left to a value and the bytes behind it, `none` where the code's assertion fails
--   or a read goes past the end of the span; `read_timestamp` has no assertion of its own.
-- - Feed/Event: Side, EventType, MboEvent, Exchange and `str_to_exchange` of src/common/types.hpp.
-- - Feed/Itch: src/feed/itch_parser.hpp. `parse_msg` and its helpers read the messages of
--   Feed/Itch/Message; Feed/Itch/Wire is an independent description of the layouts, by field tables.
-- - Feed/Mold: src/feed/mold_udp64.hpp and src/feed/mold_udp64_framer.hpp. `feed` is
--   MoldUDP64Framer::feed; what the sink receives is a result. Feed/Mold/Packet writes packets and
--   Feed/Mold/Stream cuts a stream of messages into datagrams.
-- - Book/Levels: src/orderbook/two_tier_levels.hpp. A record `Levels` is one side; a pointer to a level
--   is a `Place`. The searches of the standard library are written out for sorted arrays.
--   Book/Levels/Valid says when a side is valid and gives its view as a map from prices to levels.
-- - Common/Spsc: src/common/spsc_queue.hpp. `push` and `pop` are those of the class;
--   Common/Spsc/Threads has the two threads as a step relation, with every shared access a step, and an
--   acquire load may return any value of the other index since the one cached last.
-- - Feed/LengthPrefix: src/feed/length_prefix_framer.hpp. `feed` is LengthPrefixFramer::feed, with
--   `straddle` the template's flag; the bytes held back are the first `leftover` ones of the buffer.
-- - Common/Pool: src/common/object_pool.hpp. A pointer to an object is its number; `get`, `restore` and
--   `add_chunk` are those of the class.
-- - Common/Table: src/common/linear_probing_table.hpp. A pointer is its address, 0 for null and 1 for the
--   mark of a deleted slot; the operations carry the code's names, for both ways to erase. Common/Table/Store
--   says when a table is valid, Common/Table/Ring measures the way round the slots.
-- - Feed/Recover: src/feed/retransmit_recoverer.hpp and the errors of src/feed/recovery.hpp. `recover` is
--   that of the class, its inner loop is `listen`; `World` holds the answers of the clock and the socket.
-- - Feed/Venue: src/feed/venue_feed.hpp and the number of shards of src/common/event_queue.hpp. The framer
--   and the recoverer are the interface `Framing`, which Feed/Venue/OverMold fills with those of
--   MoldUDP64; `run` is the loop of VenueFeed::run.
-- - Common/Histogram: the class Histogram of src/common/profiling.hpp; `record_value` is its `record`, and
--   a percentile is given as a bucket's value.
-- - Book/Builder: src/bookbuilder/book_builder.hpp. The handlers carry the code's names; each event comes
--   with the answers of the requests for memory, which the books share. Book/Builder/Views reads the
--   builder as a map from instruments to books, Book/Builder/Replay replays the events of one instrument.
-- - Book/OrderBook: src/orderbook/order_book.hpp over the levels, the pool and the table.
--   Book/OrderBook/Queue puts an order into the queue of its level and takes it out; Book/OrderBook/Calls
--   has the public members. `none` is a failed assertion, `std::terminate` or a pointer to no order.
--
-- Bounds and fuel. Loops over arrays are recursion on the list; the loop of the MoldUDP64 framer
-- is recursion on the message count of the packet, that of the length-prefix framer has as many rounds
-- as there are bytes, and a round reads two or more. Its differences of `size_t` and its `uint32_t`
-- wrap.
-- The loop of `erase` that moves keys back has as much fuel as there are slots, and each round comes one
-- slot closer to an empty one. The loops of `recover` have fuel for the readings of the clock up to the
-- deadline, and each round reads it; the wait for room in a queue has fuel for the calls of `push`.
-- Sequence numbers wrap at 2 ^ 64, and the size of the queue is a power of two as its static assertion
-- demands.
--
-- Not modelled: the sockets, files and AF_XDP rings, the logger, clocks and threads of the operating
-- system, the command line, benchmarks and tests, which are input and output; the sampling of clocks and
-- counters, and the buffer pool, whose answers the events bring.
pub mod Prelude
pub mod Common
pub mod Feed
pub mod Book
