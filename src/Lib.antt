-- ===== src/Lib.antt =====
-- A model of tinyco, a C++ framework of coroutine servers and HTTP clients over libevent.
--
-- Prelude: the names the other files share: tests on numbers, lists, signed integers, `std::string` as
-- a list of bytes, and the maps as association lists, whose order stands for the order of iteration.
--
-- Text (util/string.h, util/string.cc): Text/Split has `Split`, with the rule of `std::getline` for the
-- text behind the last delimiter; Text/Trim has the trims.
--
-- Mutex (mutex.h, mutex.cc): Mutex/Defs has AtomicMtx on one shared word in both builds of the
-- compare-and-set, and FileMtx and DummyMtx over the system's answers. Mutex/Workers has the processes
-- that use the lock as a step relation, one access of a processor a step, on one processor, where an
-- instruction is a step, and on several; Mutex/Exclusion has what holds then.
--
-- Frame (thread.h, thread.cc, frame.h, frame.cc): Frame/State has the scheduler's static members as one
-- record, threads as identities, and a function for each operation. A context switch is the change of
-- who runs: a context that a thread saves is resumed behind the switch that follows the save.
-- Frame/Heap is the interface of the heap of sleeping threads, `std::push_heap` and its kin, and
-- Frame/SortedTimers is an instance of it. Frame/Waits has the map of waits, Frame/Pending the timers,
-- Frame/Timeout the timeout of the event loop, Frame/Wakeup the loop that wakes sleepers, Frame/Wrapper
-- what `CreateThread` gives its caller. Frame/Steps has the main loop, its callbacks and the coroutines as
-- a step relation; Frame/Ownership and Frame/Invariant say where a thread can be, Frame/Turns and
-- Frame/Sleepers when it runs, and Frame/Dropped when not. The state of libevent is not modelled.
--
-- Socket (frame.cc): the calls of a coroutine on a descriptor, against the system's answers, which
-- are a list and may run out (`none`). Socket/Kernel has the answers, Socket/Transfer `send`, `recv` and
-- `recvfrom`, Socket/Connect `accept` and `connect`, Socket/Exchange `UdpSendAndRecv` and
-- `TcpSendAndRecv`. The waits between are counted; what the scheduler does in them is in Frame.
--
-- Http (http/): Http/Decimal has numbers in text; Http/Headers the header lines, which Http/Request
-- and Http/Response write, with a reader of them; Http/Url `ParseUrl`; Http/Parser and Http/Check the
-- rest of http_tool.cc; Http/Messages and Http/Bodies what a parse leaves in a message. http-parser
-- and curl are parameters (`ParserLib`): the callbacks in order, how many bytes were taken and
-- whether a message is complete. Http/Server has `HttpSrvWork`, over the results of `Frame::recv`;
-- Http/Buffer, Http/Run, Http/Stream and Http/Reply have its properties. `Run` is a loop on fuel: a
-- round that goes on uses at least one byte received, so as many rounds as the request has bytes are
-- enough. Http/Conn has `TcpConn`, Http/ConnInit, Http/Delivery and Http/Received its properties;
-- Http/Client is `HttpClient`; Http/Https and Http/Secure are `HttpsClient`, with OpenSSL as a
-- parameter, and Http/Tls has its properties; Http/ConnExchange and Http/TlsExchange have the
-- exchange of each client with a peer that answers in the pieces of Http/Pieces; Http/Op is `HttpOp`,
-- and Http/Exchanged and Http/Outcome what it gives. The loops that send have the length of the text
-- as fuel, since every round takes a byte; those that receive can go on for ever, which is `none`,
-- and end within as many rounds as the peer sends pieces of a message.
--
-- Dns (dns/dns_resolve_impl.h, dns/dns_resolve_impl.cc): the resolver with its cache, over c-ares.
--
-- Listener (listener.h, listener.cc, util/network.cc): Listener/Network has the wrappers of system calls,
-- over a record of the system's answers, Listener/Listen the two classes, with each error by its line,
-- Listener/Opened what they leave, and Listener/Bound the sockets on a system as it is documented.
--
-- Log (util/log.h, util/log.cc): Log/Files is a directory whose names lead to inodes, so that a stream
-- keeps its file when the file is renamed; Log/Item the lines, Log/Local `LocalLog`. Log/Names has the
-- names of the files, Log/Sound the directories in which each name has an inode of its own, Log/Rotation
-- the loop that renames. Log/History is the specification, a text for each number, which Log/Refinement
-- and Log/Master show of the master. The numbers of files are those below 10^20, which `to_decimal` writes.
--
-- Rpc (rpc/): Rpc/Protobuf is the interface of protobuf, a parameter, with what it documents as named
-- hypotheses. Rpc/Serve is `TinycoRpc`, an `HttpSrvWork` over the map of Server/Services, Rpc/Channel
-- the client's side over `HttpOp`. Rpc/Status has the status of replies; Rpc/Reply, Rpc/Roundtrip and
-- Rpc/Parsed a call from end to end, with the texts of Http/Request and Http/Response between the two
-- sides.
--
-- Server (server.h, server.cc): the master's restarts of workers, with the answers of `waitpid` and
-- `fork` as arguments; Server/Services has `AddRpcService`, `ParseConfig` over a JSON reader, and
-- `ListenItem::Parse`; Server/Loops has ConnTracker and a round of each of the loops that accept and
-- receive, over the lock of Mutex/Defs, and Server/Tracking the connections that a tracker counts.
-- Server/Start is `Initialize` with all that it calls, over Listener, with the results of `fork` as a list
-- that may run out (the loop fails then); Server/Workers is `WorkerRun`, `TcpSrv` and `UdpSrv`, and
-- Server/Signals the signals and a round of the master's loop. Server/Restart, Server/Listeners and
-- Server/Initialized have the properties of the restarts and of the start.
--
-- Not modelled: the masks and handlers of signals, the streams of a process in the background, the titles
-- of processes (setproctitle is another project's), util/defer.h, and the examples. The texts that go to
-- the log are left out where the code only logs. Memory is not modelled: null
-- pointers are `Option` arguments where a function tests for them, and reads and writes outside a buffer
-- are results of their own.
pub mod Prelude
pub mod Text
pub mod Mutex
pub mod Frame
pub mod Socket
pub mod Http
pub mod Dns
pub mod Listener
pub mod Log
pub mod Rpc
pub mod Server
