-- ===== src/Lib.antt =====
-- A market maker for one contract of the BitMEX exchange (bitmex_mm/). It runs three threads, which
-- BitMEXMarketMaker::run starts. The order book stream keeps a local copy of both sides of the book
-- and places a bid and an offer beside it. The order update stream hears of the fills and
-- cancellations of these orders and answers with further orders. Both push the texts of orders on
-- two queues, from which the REST thread takes them to sign and send them. The queues are guarded
-- by a semaphore that is built from a mutex, a condition variable and a flag.
--
-- Book (with Book/Bid, Book/Ask): bitmex_mm/OrderBook.hpp. A `Level` is `orderBookLevel`, an
-- `OrderBook` is the array `price_array` with the levels in it, the levels that the caller of
-- `ob_snapshot_insert` allocates, and the head. A side is a doubly linked list through the array;
-- the book's theorems read it as the list of the indices of its prices. A price is counted in half
-- dollars, so that it is the index of its level, as `OrderBook()` fills them in. A `Ptr` is null, a
-- level of the array, or an allocated one. A dereference of null and an access outside the array
-- are undefined behaviour, and give `none`. The `while` of `ob_insert` is a recursion on the part
-- of the array that is left, whose end is such an access, so it needs no other bound.
--
-- Text: `std::to_string` and `std::stoi`, as far as the program calls them. The fuel of the loop in
-- `to_string` is the number plus one, more than it has digits.
--
-- Auth: bitmex_mm/Auth.hpp. HMAC-SHA256 is OpenSSL's, so it is a parameter. The key is the `apiSecLen` bytes,
-- 48, that are passed to it.
--
-- RestSync: bitmex_mm/REST_Sync.hpp. One round of the loop of `run` is given what is outside of it:
-- the readings of the clocks, what the other threads have pushed before it gets the lock, and
-- whether the sendings return or throw. The counters are plain numbers: an `int` overflows only after
-- more sendings than a minute has time for.
--
-- Semaphore: bitmex_mm/Semaphore.hpp. Any number of threads take the steps of `_get_lock`,
-- `_try_lock` and `_unlock` in any order; spurious wake-ups and failures of `try_to_lock` included.
--
-- OrderMessage: bitmex_mm/OrderMessage.hpp, the texts as lists of bytes. Prices are whole numbers of
-- half dollars here too, so `std::to_string` prints them exactly.
--
-- Bitwise: bitmex_mm/BitwiseOperations.hpp, on the 32 bits of an `int`.
--
-- TradeLogic: bitmex_mm/TradeLogic.hpp. `TradeVariables` are the variables that the two streams share,
-- `Trading` adds the two queues. The product of a price and an amount of bitcoins is rounded as a
-- double is. What the platform makes of a double that does not fit `int` is a parameter. One event
-- is one step.
--
-- OrderUpdates: bitmex_mm/OrderUpdateStream.hpp. A report is what simdjson finds in it; a field that it
-- cannot read throws an exception that is caught. What `std::stoi` throws is not caught, and is `none`.
-- OrderUpdates/Login puts the stream on its connection, with simdjson's parser as a parameter.
--
-- BookStream: bitmex_mm/OrderBookStream.hpp, from the snapshot on. Here no exception is caught.
-- BookStream/Connection puts the stream on its connection, with simdjson's parser as a parameter.
--
-- WebSocket: bitmex_mm/WebSocketSecure.hpp. A connection logs the calls that it makes on the network. The
-- endpoint's port, the arriving messages and whether a call throws are given.
--
-- Http: the request objects of the two clients. What Boost.Beast's `set` and `insert` do is an interface.
--
-- Rest: bitmex_mm/REST.hpp, an earlier asynchronous client that nothing includes any more. A handler is a
-- function on the state; the operations that it starts are pending until a step of the environment
-- completes them. Its lock is an interface, since Semaphore.hpp does not have the members that
-- it calls any more; it is taken to do what `_get_lock`, `_try_lock` and `_unlock` do there, and so its
-- `_write_try_lock` may fail although the lock is free. One thread runs the handlers. The handler of a
-- rejected order releases the lock and takes it again, so it is three steps, between which other threads
-- may send. The handlers ignore their error codes, so these are left out.
--
-- Maker (with Growth, what a handler of a stream adds to the orders): bitmex_mm/BitMEXMarketMaker.hpp. The
-- handlers of the two streams and the rounds of the REST thread interleave in any order, each as
-- one step on the shared queues and variables. In `start_maker` the order update stream hears nothing
-- before the first two orders are pushed.
--
-- Accesses: the program guards the queues by its semaphore but not the shared variables, which are
-- atomic one by one, so here the handlers of the streams are programs (`Code`) that do one access to
-- such a variable, to the lock or to a queue at a time, and the accesses of the threads interleave in any
-- order (Accesses/Threads). The rounds of the REST thread hold the lock from their first access to
-- the queues to their last, so they are one step. The part of a handler that a thread does on data of its
-- own, such as the book, is not repeated there; a change of the best prices brings any prices. The
-- runs begin after the first two orders, so the accesses of `init_bid_order` and `init_ask_order` are not
-- among them. Accesses/Alone has the lemma that the accesses of a handler, with nothing in between, do
-- what the function for the whole handler does.
--
-- Not modelled: simdjson.h and simdjson.cpp, which are a copy of another project's library; what the
-- calls of Boost.Asio, Boost.Beast and OpenSSL do on the network, apart from whether they return; main.cpp,
-- which only constructs the market maker and calls its `run`.
pub mod Base
pub mod Text
pub mod Book
pub mod Auth
pub mod RestSync
pub mod Semaphore
pub mod OrderMessage
pub mod Bitwise
pub mod TradeLogic
pub mod OrderUpdates
pub mod BookStream
pub mod WebSocket
pub mod Rest
pub mod Http
pub mod Growth
pub mod Accesses
pub mod Maker
