-- ===== src/Net.antt =====
-- net/: the reactor. Event masks, the event loop, timers and connections.
pub mod Channel
pub mod TcpConn
pub mod TimerQueue
pub mod EventLoop
pub mod EventLoopPool
pub mod PollPoller
pub mod Http
pub mod TcpServer
pub mod ProcessInfo
pub mod Any
pub mod Connector
pub mod EpollPoller
pub mod LineCode
pub mod Status
pub mod File
pub mod Daemon
pub mod Logger
pub mod EventLoopThread
pub mod Address
pub mod TimeStamp
pub mod ThreadPool
