-- ===== src/Lib.antt =====
-- Models of the network servers of practice-code-c-cpp, with what makes them correct.
--
-- The repository is a collection of C++ programs on one subject each. Those with logic of their own
-- are the echo servers and their clients under linux_io/ and linux_event/libevent/, which grow from
-- blocking sockets over poll to edge triggered epoll with a reactor and a pool of worker threads, the
-- reading of files by kernel aio, and the threads that meet at a lock or a condition variable.
--
-- The system's side. The programs call the kernel and the C library, which are no code of the
-- repository. Posix.antt makes them a parameter: a program is run against a script, the list of the
-- replies to the calls whose results it reads, in order, and it writes a log of all its calls,
-- newest first. A reply is a result of at least 0 with what the call wrote to memory, or -1 with
-- errno. Nothing is assumed of replies, so that a theorem over scripts holds whatever the system
-- answers. A run that needs a reply beyond the script stops there (`blocked`): its log shows the
-- program at that point. exit, a failed assert and spent fuel are the other ways to stop early.
--
-- Loops. Posix/Flow.antt has the while loop: its body says whether the loop goes on and with which
-- variables. Its fuel is one more than the replies that are left. Every loop of the programs takes
-- a reply in each round, so that the fuel is enough, but for the nonblocking client when it has no
-- socket left; Posix/Uses.antt has the rules for that, and Posix/Keeps.antt the rules for
-- invariants of the log.
--
-- Kernel aio. libaio and the kernel are the parameter Aio of KernelAio.antt: a record of contexts
-- and calls, with the laws of their manual pages as fields. What the program relies on in a context
-- is a View: tasks submitted, in flight and completed, the memory, and the number of tasks that
-- ended with an error or a short read. The kernel may end any task in flight at any time. Which tasks
-- an io_submit takes is in its answer: in BatchRead any number of those it is given, and others where
-- it reads behind its array of pointers; the theorems on whole calls are on those where it takes
-- what was prepared, and say so. The readers of five tasks are modelled where it takes them all.
--
-- The parts, with their sources:
--   EpollServer         linux_io/3.io_multiplexing/epoll_demo/epoll_server.cpp, class EpollTcpServer.
--                       A method that changes members returns the new record. A descriptor of -1 is
--                       the number of its 32 bits. loop_flag_, which another thread may clear, is
--                       read from the script in each round of EpollLoop.
--   SafeQueue           linux_event/libevent/3.1single_reactor_multi_worker/SafeQueue.h
--   WorkerPool          WorkerPool.h beside it
--   PoolServer          server.cpp beside it: the threads as interleaved steps, one for each stretch
--                       between two accesses to what they share. It uses the queue and the pool.
--                       PoolServer/Lifetime: the same with connections that come and go
--   ConditionPool       linux_event/libevent/3.single_reactor_multi_worker/WorkerPool.h
--   TaskServer          server.cpp beside it: the workers receive and send themselves; a step is one
--                       stretch between two calls on a descriptor
--   BlockingServer      linux_io/1.blocking/server.cpp
--   BlockingClient      linux_io/1.blocking/client.cpp
--   NonblockingServer   linux_io/2.nonblocking/server.cpp
--   PollServer          linux_io/3.io_multiplexing/poll/server.cpp
--   SelectServer        linux_io/3.io_multiplexing/select/server.cpp and utils.h beside it
--   EdgeServer          linux_io/3.io_multiplexing/epoll/server.cpp
--   EpollClient         linux_io/3.io_multiplexing/epoll_demo/epoll_client.cpp, class EpollTcpClient
--                       and main, in the way of EpollServer.
--   ReactorServer       linux_event/libevent/2.single_reactor_single_worker/server.cpp, with the heap
--                       of the records that events point to
--   LevelServer         linux_event/libevent/1.common_epoll/server.cpp
--   PlainClients        the clients of linux_io/3.io_multiplexing/{select,poll,epoll}/client.cpp and of
--                       linux_io/2.nonblocking/client.cpp; OnSelect uses the fd sets of SelectServer
--   SelectServer/Printing   PrintBits and PrintSet of utils.h; SelectServer/Contract: the fd sets
--                       against the set that they stand for
--   KernelAio           linux_io/4.aio/kernel_aio/libaio_read.h: the readers that submit five tasks;
--                       KernelAio/Eventfd: the one that watches eventfds with epoll
--   BatchRead           BatchReadByLibAIO in the same file: a step is one of the kernel or one round
--                       of the loop, and floats are written out as the rounding of a size_t
--   SpinLock            thread/condition_variable/condition_variable_test.h, class SpinLock: a step is
--                       one access to the flag
--   Provider            provider and consumer in the same file: a step is a stretch under the lock
--   Posix/Sockets       the listener that PollServer, SelectServer, EdgeServer, LevelServer and
--                       ReactorServer set up in the same words
--   Posix/Views, Posix/Echoing, Posix/Reading   what a log says of descriptors and messages
--   Serving, Stopping   the programs of one thread together, and the fuel of their loops
--   EpollDemo           the server and the client of
--                       linux_io/3.io_multiplexing/epoll_demo
--   Tests               runs of the programs, and each theorem at one of them
--
-- Function names are those of the source in snake case. What is printed is left out everywhere. A
-- message is the list of its bytes. In PoolServer no connection is closed outside of Lifetime, the
-- eventfd counts up to 2^64 - 2 as the kernel does, and any number of connections, workers and
-- steps is covered. Where a program uses memory that it must not, it calls `stray` and the run
-- ends: in PollServer where push_back has to move the vector, whose capacity is a parameter, under
-- the iterator of the pass; in SelectServer and the select client where FD_SET is given a
-- descriptor of FD_SETSIZE or more; in the nonblocking client where it uses the iterator of an
-- erased element or of the end. What main of EpollServer and EpollClient reads from its arguments
-- is a parameter. In ReactorServer malloc gives each record an address of its own, which is not
-- used again.
--
-- Not modelled: the libevent clients, eventfd and timers, the reader of
-- libaio_read.h whose tasks point to a variable that is gone, the other file io, the
-- demonstrations of mutexes and futures, and the exercises on single language features, which have
-- no state of their own.
pub mod Prelude
pub mod Posix
pub mod EpollServer
pub mod SafeQueue
pub mod WorkerPool
pub mod PoolServer
pub mod ConditionPool
pub mod TaskServer
pub mod BlockingServer
pub mod BlockingClient
pub mod NonblockingServer
pub mod PollServer
pub mod LevelServer
pub mod ReactorServer
pub mod EdgeServer
pub mod SelectServer
pub mod EpollClient
pub mod PlainClients
pub mod Stopping
pub mod Serving
pub mod EpollDemo
pub mod KernelAio
pub mod BatchRead
pub mod SpinLock
pub mod Provider
mod Tests
