-- ===== src/Lib.antt =====
-- A verification library for muduo-learning, a TCP network library in C++ around one event loop per
-- thread.
--
-- The program. A `TcpServer` accepts connections in a main loop and gives each to one of the loops of
-- an `EventLoopThreadPool`. An `EventLoop` waits in its `Poller` for events, has each active `Channel`
-- dispatch its events, and then calls the functors that any thread has queued. A `TcpConnection` owns a
-- channel and two `Buffer`s: its handlers read into the one, write out of the other, and tell the loop
-- through the channel what to wait for.
--
-- The files.
-- - Prelude: the names that all share. Prelude/Tests has Boolean tests on numbers, Prelude/Lists lists
--   measured by native numbers, Prelude/Slices the copies that std::copy and vector::resize make, and
--   Prelude/Exits the type Outcome: LOG_FATAL and uncaught exceptions end the process (`fatal`).
-- - Buffer: include/Buffer.h; Buffer/Fd: src/Buffer.cc. A buffer is its vector and its two indices; a
--   `size_t` is a native number with its wrap-around at 2 ^ 64 written out. Buffer/Invariant and
--   Buffer/Contents are the lemmas, Buffer/Queue the queue of bytes that a buffer stands for.
-- - Channel: include/Channel.h and src/Channel.cc, with Channel/Masks on the bits of `events_` and
--   Channel/Dispatch on `handleEvent`.
-- - Loop: what channels and connections use of `EventLoop::updateChannel` and `removeChannel`, an
--   interface of operations and laws. Poller/Registry fills it (`poller_loop`).
--   Loop/Beside is the loop as one channel sees it while the books of another are watched.
-- - Poller: include/Poller.h, src/Poller.cc and src/EPollPoller.cc. Poller/Poll is `poll` and
--   `fillActiveChannels`. The kernel's epoll instance is a parameter with the documented behaviour of
--   epoll_ctl: ADD succeeds on a descriptor that is not registered, MOD and DEL on one that is.
-- - TcpConnection: include/TcpConnection.h and src/TcpConnection.cc. TcpConnection/Base has the state,
--   /Send has send and sendFile, /Handle the handlers of the channel's events and the connection's
--   beginning and end. /Invariant, /Sending, /SendFile, /Stream, /Lifecycle, /Events and /Closing prove;
--   /Echo is about the callbacks of example/testserver.cc, /Owned about the constructor and the
--   destructor, with the connection's socket, and /Life about all that happens to a connection; /Forward
--   and /Onward are about its state. /Tasks runs what the connection queued in its loop; /Frame,
--   /Running, /Delivery, /Unclosed and /HalfClose prove what comes of that, /Threads among the steps of
--   EventLoop/Steps. /Neighbours and /Together have any number of connections in one loop.
--   /Answering and /Conversation are about a connection of the echo server over any number of events.
-- - EventLoop: include/EventLoop.h and src/EventLoop.cc, the functor queue and the eventfd.
--   EventLoop/Steps interleaves the loop's thread with any number of others: each locked block, each
--   write to the eventfd and each part of `loop` is one step. /Invariant, /Wakeup and /Turn prove.
-- - EventLoopThread: include/EventLoopThread.h and src/EventLoopThread.cc, `startLoop` and the thread's
--   function; EventLoopThread/Handshake interleaves the two, EventLoopThread/Stopping the destructor
--   and the thread.
-- - EventLoopThreadPool: include/EventLoopThreadPool.h and src/EventLoopThreadPool.cc.
-- - TcpServer: include/TcpServer.h and src/TcpServer.cc, the map of connections and what is handed to
--   the loops. TcpServer/Ledger counts, TcpServer/Balance proves. TcpServer/Serving puts the server and
--   its acceptor together, and TcpServer/Starting proves; TcpServer/Names has the connections' names.
--   TcpServer/Loops has the main loop and the connections' loops call what the server hands to them;
--   TcpServer/Bookkeeping, TcpServer/Lifetimes and TcpServer/Settling prove; TcpServer/Ending has the
--   destructor meanwhile.
--   TcpServer/Callbacks has the user's callbacks and those that a connection is given.
-- - EchoServer: the constructor and start of example/testserver.cc; EchoServer/Main: `main`, up to its
--   call of `loop`.
-- - Acceptor: include/Acceptor.h and src/Acceptor.cc, the channel and the callback; Acceptor/Listening
--   proves. Acceptor/Opening adds the socket that the acceptor opens.
-- - Text: character arrays as C strings, and what sprintf and snprintf write there. Text/Decimal is
--   their conversions of numbers, Text/Reading reads the numbers of a text, independently of them.
-- - InetAddress: include/InetAddress.h and src/InetAddress.cc; InetAddress/Printing proves.
-- - Timestamp: include/Timestamp.h and src/Timestamp.cc; Timestamp/Printing proves.
-- - CurrentThread: include/CurrentThread.h and src/CurrentThread.cc; CurrentThread/Caching proves.
-- - Thread: include/Thread.h and src/Thread.cc. Thread/Start interleaves the creating thread with the
--   new one; Thread/Names is about the default names.
-- - Logger: include/Logger.h and src/Logger.cc; Logger/Lines proves.
-- - Socket: include/Socket.h and src/Socket.cc, as the system calls that are made.
-- - EventLoop/Dispatch: a turn of `loop` with `poll` and the active channels; EventLoop/Looping: its
--   turns one after another.
-- - EventLoop/Lifetime: the constructor and the destructor of EventLoop, and src/DefaultPoller.cc.
-- - The Tests modules, and TcpConnection/TaskTests, hold concrete runs of the theorems.
--
-- How code becomes definitions. A method takes the object's state and gives it back changed; a
-- guard is an if-then-else on the code's condition; system calls, the user's callbacks and the
-- loops that threads publish are parameters, and what is asked of them is a named hypothesis
-- (Documented: write takes at most the bytes offered, readv gives at most the room offered;
-- SendsFile: sendfile gives the file's bytes from the offset on; Careful: a callback returns and
-- keeps the connection's invariant; Discreet: it leaves the sending side alone; LeavesOpen: it
-- leaves the write end alone; Neighbourly: it leaves other channels alone; NeverFaults: no write
-- fails with EPIPE or ECONNRESET; StaysOpen: the peer does not close, and a read gives a bounded
-- number of bytes). A connection records the bytes that its socket took (`sent`), so that the
-- theorems can speak of the stream towards the peer. `EventLoop::loop` runs until it is told to
-- quit and is a step relation, or a run over what its polls give; all other loops of the modelled
-- code run over a list or a count. The conversions of numbers give at most ten digits, what 32 bits
-- need; no definition needs other fuel.
--
-- What is not modelled. Log lines outside of Logger; allocation is taken to succeed, and buffers to
-- stay below 2 ^ 63 bytes, which the theorems name. `handleError` only logs. The callbacks that a
-- connection queues are parameters where its tasks are run. inet_addr, time, localtime, gettid,
-- getenv and the answers of the kernel to system calls are parameters; of the C library, the byte
-- order functions, inet_ntop and the conversions of snprintf are written out, on a machine that
-- stores the low byte first. Connection numbers and thread numbers are taken not to overflow an
-- int. A null pointer that the code follows ends the process.
pub mod Prelude
pub mod Buffer
pub mod Channel
pub mod Loop
pub mod Poller
pub mod TcpConnection
pub mod EventLoop
pub mod EventLoopThread
pub mod EventLoopThreadPool
pub mod Acceptor
pub mod TcpServer
pub mod Text
pub mod InetAddress
pub mod Timestamp
pub mod CurrentThread
pub mod Thread
pub mod Logger
pub mod Socket
pub mod EchoServer
