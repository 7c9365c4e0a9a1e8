-- ===== src/Lib.antt =====
-- The coroutine and web library uco: the parts of core/ and http/ that compute.
--
-- The program is a coroutine runtime (core/) with an HTTP server on top of it (http/) and a
-- sample service (server/). This library models the parts that decide what the program does with
-- its data. Sources are named by their path from the root of the repository; a definition carries
-- the name of the function it models, in lower case with underscores.
--
-- - Prelude: shared names and lemmas on lists, byte strings, 64-bit words, association lists and
--   decimal texts.
-- - Buffer: uco::buffer of core/ubuffer.h. The vector is a list of bytes, a pointer into it is an
--   offset, size_t arithmetic wraps at 2 ^ 64. Buffer.Content reads a buffer as the bytes between
--   its two positions.
-- - RateLimit: the fixed-window counter and the middleware of http/ratelimit.cpp. The counter's
--   map is an association list, the clock is an argument, and a history is the list of calls in
--   the order in which they take the mutex. The rest of a handler chain is a function from the
--   response to the response and the way it ended.
-- - Text: core/ustring.cpp, and decode_component of http/httpserver.cpp. A failure is none. The
--   loops of Split and ReplaceAll run on fuel, one more than the length of the text; the theorems
--   show that this is enough.
-- - Request: HttpRequest of http/httprequest.cpp over Buffer. m_sCurLine is an offset into the
--   vector, and what it points to is read up to the first zero byte. An int is its 32-bit
--   pattern. The loop of Parse runs on fuel, one more than the number of unread bytes, which is
--   enough since each line taken out removes a line end (Request.Progress). from_chars leaves the
--   variable as it was when there is no number in range; atoi clamps to long and keeps the low 32
--   bits.
-- - Connection: the computing functions of http/httpconnection.cpp: isSafePath against the
--   router's segments (SafePath), parse_range (Range), advance_iov and advance_ts (Write),
--   split_path_and_query (Query), and parse_urlencoded of http/httpserver.cpp (Form). stoull
--   follows strtoull: blanks, a sign that may negate, digits, and an exception out of range. An
--   iovec is the bytes that are left of it.
-- - RwLock: ushared_mutex of core/usync.cpp as the header selects it. Each atomic access is a
--   step; the coroutines are counted by the place in the code where they stand, and the writer's
--   place is a phase, since its mutex lets one writer at a time go on. A semaphore is its number
--   of permits. Fewer than 2 ^ 30 readers at a time are assumed, as the code does.
-- - Redis: the client of core/uredis.cpp. Redis.Parse is the reply parser over the text that is
--   left, on fuel for the depth of arrays, one more than the length of the text, which is enough
--   since each call reads a byte (Redis.Fuel); a signed overflow and the exception of
--   vector::resize are outcomes. Redis.Wire describes the texts of the protocol. Redis.Exchange
--   runs a command over lists of what the socket and the deadline did. Redis.Pool is upool, each
--   critical section a step. Redis.Lock is ulock against any server that obeys GET, SET NX, DEL
--   and PEXPIRE as documented, a parameter; a command whose call has given up stays behind, and
--   the server may run it at any later time.
-- - Session: http/session.cpp and http/csrf.cpp. An operation gives the session and the list of
--   what it asks of Redis and of the response; what Redis answers is an argument. The map is an
--   association list in the order of its entries. HMAC is a parameter, and so are random bytes
--   and, where a session is saved and loaded again, the server. The loops of the JSON parser run
--   on fuel, the length of the text; the round trips show that this is enough for every text that
--   is dumped.
-- - Semaphore: usema of core/usync.cpp. The coroutines are counted by the place in the code where
--   they stand; the parts of wait under the spin lock, during which a signal may still raise the
--   count, are phases of the lock's holder. The wait queue is its length.
-- - SharedMutex: the other implementation of ushared_mutex in that file, with a spin lock and two
--   queues. Each critical section is a step. A round of the loops of lock and lock_shared is one
--   step too, so that the 32 rounds of a coroutine may be interleaved with those of others.
-- - ThreadPool: core/thread_pool.h. Threads are counted by the place in the code where they
--   stand, and tasks are numbers; each part under the mutex is a step, and so is a notification.
--   A thread may also wake up without one.
-- - Response: HttpResponse of http/httpresponce.cpp. Its buffers are the bytes in them, an open
--   file is its size, and numbers are not negative. Response.Lines is a client that reads lines,
--   the yardstick for the header. Response.Send is the loop of http/httpconnection.cpp's Write
--   around usendfile, over a list of what the calls did.
-- - Context: HttpContext::Next of http/httpserver.cpp. A handler is the list of what it does in
--   order: something to the state, which may throw, or a call of Next. The loop runs on fuel, two
--   more than there are handlers, which is enough since each round raises the index.
-- - Router: the prefix tree, splitPath and the route groups of http/httpserver.cpp and
--   http/httpserver.h. A null pointer is an absent branch. Handlers are of any type. The theorems
--   compare the tree with the list of routes that were registered.
--
-- Characters are numbers below 256. The map of parameters of a match is an association list; what
-- is said of it does not depend on its order.
--
-- Not modelled: opening and closing connections, time itself, the other synchronisation
-- primitives, sockets, io_uring and the coroutine switch itself, logging, the SQL client, files
-- on disk, and the rendering of templates.
pub mod Prelude
pub mod Buffer
pub mod RateLimit
pub mod Text
pub mod Request
pub mod Connection
pub mod Response
pub mod Context
pub mod Redis
pub mod Session
pub mod Semaphore
pub mod RwLock
pub mod SharedMutex
pub mod ThreadPool
pub mod Router
