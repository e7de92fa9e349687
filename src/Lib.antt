-- ===== src/Lib.antt =====
-- JNet is a C++ network library in the manner of muduo (net/), with protobuf frames and RPC on top of
-- it (rpc/) and the beginnings of Raft (raft/). This library models the parts whose logic is their
-- own and proves what they promise; where the code does not keep a promise, it proves what happens.
--
-- The parts and their files:
--   Base        shared notation: lists, options, words, dictionaries over any keys, and the integers of
--               the log, over the native numbers, with the lemmas that the parts share.
--   Buffer      net/buffer.h, net/buffer.cc. A buffer is its allocation (`buf`, a list of bytes), the
--               positions `b` and `e`, `cap` and `exp`; `size_t` arithmetic wraps round at 2 ^ 64. A
--               write that leaves the allocation is `none`. `Buffer.Layout` has the well-formedness
--               and the split of the allocation; `Contents`, `Words`, `Growth` and `Space` have the
--               operations' laws.
--   Rpc.Codec   rpc/protobuf/protobuf_codec.h and .cc: the frames, four bytes of length and then a
--               message. The serializer and the parser of protobuf are parameters; where one law
--               needs them to be inverse, it says so.
--   Rpc.Delivery  `Send` and `OnMessage` of the codec on the connections of net/, from a message at one
--               end to the callback at the other.
--   Rpc.Channel rpc/protorpc/rpc_channel.h, rpc_channel.cc, rpc_server.cc and rpc.proto: the calls that
--               wait for an answer and the requests that a server starts. `Rpc.Channel.Promise`
--               has what a client is promised, and `Refine` that the channel implements it; `Race` has
--               two threads in `CallMethod`. The services and the parsing of requests are parameters.
--   Raft        raft/raft_log.h and .cc (`Raft.Log`), raft/raft.h and .cc (`Raft.Node`), the messages
--               of raft/raft.proto and raft/state.proto (`Raft.Entry`). The file of raft/storage.cc
--               is a parameter (`Raft.Storage`): its `IsReliable` states what `pread` and `pwrite`
--               document of a disk that does not fail.
--   Raft.Cluster  raft/node.h, node.cc, raft_peer.h, raft_peer.cc, raft_service.h and .cc: a node as a
--               server and a client of RPCs, on the channels of `Rpc.Channel`. `Election` has what an
--               election over RPC comes to, `Outcome` who wins it. What protobuf generates of
--               raft/raft.proto is the parameter `Protobuf`; `IsProtobuf` states that messages are
--               parsed as they were serialised.
--   Net.Channel net/channel.h and .cc: the events of a descriptor and the callbacks they start.
--   Net.TcpConn net/tcpconn.h and .cc: one connection. The kernel's answers come in as lists, so that
--               a loop over a system call is recursion on its answers; `wire` is what the kernel has
--               taken. It stands on `Buffer` and `Net.Channel`.
--   Net.TimerQueue  net/timer.h, net/timer.cc, net/timerqueue.h and .cc: the timers, on a heap where a
--               read of freed memory is `none`. What a callback does is a parameter.
--   Net.EventLoop   net/eventloop.h and .cc: the functors queued by this and other threads, the
--               wakeup descriptor, and the rounds of the loop as a step relation. Another thread's
--               call is two steps, of which the second one is its `WakeUp`.
--   Net.EventLoopPool  net/eventloop_pool.h and .cc: the turns of the loops.
--   Net.TcpServer   net/tcpserver.h and .cc: the accepted descriptors and the loops they go to.
--   Net.Connector  net/connector.h and .cc: starts and stops. Net.Any  net/any.h: casts, copies, moves.
--   Net.PollPoller  net/poller.h and .cc, net/pollpoller.h and .cc: the table for `poll`. Channels are
--               known by their addresses, since the table writes to them.
--   Net.EpollPoller  net/epollpoller.h and .cc: the channels and the kernel's interest list, which is
--               a parameter; `EpollCtl` states what `epoll_ctl` documents.
--   Net.Http    net/http.h and .cc: decoding, encoding, the exchanges on a connection, and a server's
--               callbacks. A call of the decoder returns, throws, hangs, or reads outside a text. Nothing
--               in the repository sets the context that the exchanges read, without which they throw.
--               `Net.Http.Text` has what the code uses of strings, on bytes.
--   Net.LineCode  net/codec.h and .cc: messages between line feeds.
--   Net.Status  net/status.h and .cc: the packed code and message.
--   Net.TimeStamp  net/timestamp.h and .cc; Net.Address  the address type of net/net.h and net/net.cc.
--   Net.File    net/file.h and .cc: whole files. Net.Daemon  net/daemon.h and .cc: the pid file, start
--               and stop of a daemon. The system calls are parameters, with what they document of
--               regular files in `IsFiles` and `IsRegular`. A call whose answer a branch does not use
--               is not made there.
--   Net.ProcessInfo  net/processinfo.h and .cc: what is read out of the texts of /proc.
--   Net.Logger  net/log.h and .cc: levels, lines and the rotation of the file, one call at a time.
--   Net.EventLoopThread  net/eventloop_thread.h and .cc, net/countdownlatch.h: the owner and the thread
--               of a loop, as a step relation; the destructor's call of `Quit` is two steps.
--   Net.ThreadPool  net/threadpool.h: the workers and callers of a pool, as a step relation with every
--               order of the threads and every wake-up.
--
-- How they interact: a loop waits in its poller and calls the channels' callbacks; those of a
-- connection read into its input buffer, from which the codec takes frames, and flush its output
-- buffer, into which the codec's frames go when the kernel does not take them; the timers' channel is
-- one more, and other threads reach a loop by its functors. A node of Raft keeps its log in a file
-- and is called through the frames: its vote requests are calls of its peers' channels, and the
-- answers come back to it. The closure of such a call points to a request that has ended; the model
-- has that pointer as `ended_request`, which nothing reads.
--
-- Bounds and fuel. The buffer laws take allocations of at most 2 ^ 61 bytes, below which doubling
-- does not wrap. `Load` of the log runs on as much fuel as the file has bytes, of which each round
-- uses at least the header's. `OnMessage` is run a given number of times, once for each read event.
-- Terms and indices of the log are integers that do not overflow.
--
-- `FATALIF` writes to the log and the code goes on behind it, in the model too. Callbacks of the
-- application are not modelled: a handler's result says which callbacks it calls, and a callback that
-- calls the object again makes operations of its own, which are no part of the handler.
--
-- The decoder of requests and responses has its places in a text as `int`s: the model is of texts of
-- less than 2 ^ 31 bytes, and the laws say so. The decoder of headers runs on as much fuel as the
-- text has bytes, and each of its rounds starts further on; the arguments of a request are read in as
-- many rounds as the query has bytes, which is shown to be enough. The numbers of RPC calls stay
-- below 2 ^ 32, the range of the table's keys.
--
-- `GetContent` ends within one round more than the file has bytes, and `DaemonStop` within a thousand
-- rounds, as in the code. The decimal numbers of `printf` have twenty digits of fuel, as many as 64
-- bits need.
--
-- Not modelled: the sockets of net/ and the functions of its process information that are single
-- system calls; the setters and getters. The functions of net/tcpclient.cc and PreVote of raft/ have
-- empty bodies. The test and example programs are no part of the library, and net/slice.h is a copy
-- of LevelDB's.
pub mod Base
pub mod Buffer
pub mod Rpc
pub mod Raft
pub mod Net
