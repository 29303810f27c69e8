-- ===== src/Lib.antt =====
-- libiak: a network library on epoll (net/), a logging library (log/), their base (base/)
-- and a heap (util/).
--
-- Parts and files:
--   Net/Buffer: net/Buffer.h. A block of memory that is read and written round its end, and the
--   pool. A pointer into a block is an offset, memcpy is `slice` and `put`. A chain of blocks (the
--   `next` pointers) is a list with its last block apart.
--   Net/ReadBuffers: PeekData, ReadData and onRead of net/TcpConnection.cpp, on the blocks from
--     readHead_ to readTail_. What readv returns is an argument.
--   Net/WriteBuffers: send, writeData and onWrite of net/TcpConnection.cpp, on the blocks from
--     writeHead_ to writeTail_. What write and writev return are arguments.
--   Net/Channel: net/Channel.cpp, the flags of a descriptor; its calls into the loop are returned as
--     requests. Net/EPollPoller: the dispatch of what epoll_wait reports. Net/EventLoop:
--     net/EventLoop.cpp, which queues functors and active channels and runs them.
--     Net/Wakeup: the same loop with the threads that post to it and wake it, step by step.
--   Net/Connection: establish, shutdown, close and destroy of net/TcpConnection.cpp.
--   Net/Connector: net/Connector.cpp; what connect() and SO_ERROR say is an argument.
--   Net/TcpClient: net/TcpClient.cpp, with its connector and the connector's tasks in the loop.
--   Net/TcpServer: net/TcpServer.cpp and net/EventLoopThreadPool.cpp, the loops that connections are
--     given to, and the map of the connections.
--   Net/Acceptor: net/Acceptor.cpp; listen() and close() give tasks to the loop.
--   Log/AsyncLogger: log/AsyncLogger.cpp, the buffers between the threads that log and the thread
--     that writes, and its files (child Rolls); Log/AsyncLogging: log/AsyncLogging.cpp, which loggers
--     have lines for that thread, and (Stopping) the stop of that thread.
--   Log/Rolling: log/LogFile.h and log/Logger.cpp, files that follow one another.
--   Log/LogStream: log/LogStream.cpp, the text of integers and pointers and the buffer of a line.
--   Log/LogMessage: log/LogMessage.cpp, a line from its constructor to its destructor, which gives it
--     to a logger. What localtime_r, snprintf and strerror_r print is an argument.
--   Log/Logging: log/Logging.h, the directory of the log files.
--   Base/BlockingQueue, Base/CountDownLatch: base/BlockingQueue.h and base/CountDownLatch.h, with the
--     threads that sleep, were woken or go on; what a thread does under the mutex is one step.
--   Base/Atomic: base/Atomic.h, for both widths.
--   Base/FileUtil: base/FileUtil.cpp; what read() does to the file is a parameter. Base/ProcessInfo:
--     base/ProcessInfo.cpp, what is made of the texts and names that the system gives.
--   Base/Date: base/Date.cpp, Julian day numbers.
--   Base/TimeZone: base/TimeZone.cpp, UTC times by those numbers, the local time in force, and the
--     parse of a zone file.
--   Util/MinHeap: util/MinHeap.h, a binary heap in a vector, as a priority queue.
--
-- Numbers: uint32_t and size_t wrap round (Prelude/Words: u32, add32, sub32, add64, sub64); the
-- theorems carry the bounds under which the code does not. An int or a time_t is a number without a
-- bound, natural where the code keeps it from being negative, and else an integer (Prelude/Integers),
-- whose `quot` and `rem` are the / and % of C.
-- Fuel: write_more has a round for each byte to write and one more, write_rest a round for each
-- byte; each round writes at least one. readToString has a round for each byte
-- that is asked for and one more. convert and convertHex have a round more than the number,
-- which each round divides; siftup a round for each node, as a round halves the index, and siftdown
-- one more, as the index grows. The other loops are recursion on a list: of blocks, or of
-- what the system calls return.
--
-- Not modelled: system calls (of epoll_ctl none, nor its errors), threads as such (an interleaving is
-- a list of steps), the start of the logging thread, the threads of the pool, the names of the log
-- files and the bytes that a file has when it is opened (a LogFile is what is appended through it),
-- the bounded queue of base/, which does not compile when it is used, base/Singleton.h, and files that
-- only wrap a system call.
pub mod Prelude
pub mod Base
pub mod Net
pub mod Log
pub mod Util
