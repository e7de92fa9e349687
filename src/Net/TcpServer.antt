-- ===== src/Net/TcpServer.antt =====
-- net/tcpserver.h and net/tcpserver.cc: the connections that a server accepts and the loops they go
-- to. A connection is known by the number of its turn. `none` is a failed assertion of the pool;
-- `FATALIF` only writes to the log.
pub mod Accepts
mod Tests
use jnet.Base.{
  ℕ, zero, suc, ◌+◌, Bool, true, false, not, ◌&&◌, Option, none, some, List, [], ◌∷◌, ◌++◌, ◌==◌,
  if◌then◌else◌,
}
use jnet.Net.EventLoopPool.{EventLoopPool, get_next_loop}

-- `attached` are the calls of `Attach` that the loops are given, each with its loop and descriptor;
-- `leaked` are the descriptors that nothing holds or closes. Of the callbacks the model has whether
-- they are set, the connections that `createcb_` was called with, and, for every connection, whether
-- it was given `statecb_` and `readcb_`; what `createcb_` itself does is the application's.
pub record TcpServer : Type 0 where
  pub listening : Bool
  pub pool : EventLoopPool
  pub conns : List ℕ
  pub created : ℕ
  pub attached : List (ℕ × ℕ)
  pub leaked : List ℕ
  pub create_cb : Bool
  pub state_cb : Bool
  pub read_cb : Bool
  pub announced : List ℕ
  pub callbacks : List (ℕ × Bool × Bool)

-- A descriptor that `accept` returns, and whether `getpeername`, `getsockname` and `fcntl` succeed.
pub record Accepted : Type 0 where
  pub fd : ℕ
  pub peer_known : Bool
  pub local_known : Bool
  pub close_on_exec : Bool

-- A new connection of the next loop.
abbrev pub attach : ℕ → Option (ℕ × EventLoopPool) → TcpServer → Option TcpServer
attach fd none s = none
attach fd (some (loop, pool)) s = some (record s {
  pool = pool;
  conns = s.conns ++ (s.created ∷ []);
  created = s.created + 1;
  attached = s.attached ++ ((loop, fd) ∷ []);
  announced = s.announced ++ (if s.create_cb then s.created ∷ [] else []);
  callbacks = s.callbacks ++ ((s.created, s.state_cb, s.read_cb) ∷ []);
})

-- One round of the loop. Whether `fcntl` succeeds changes the log only.
unfoldable pub accept_one : Accepted → TcpServer → Option TcpServer
unfolding get_next_loop
accept_one a s =
    if a.peer_known && a.local_known
    then attach a.fd (get_next_loop s.pool) s
    else some (record s { leaked = s.leaked ++ (a.fd ∷ []) })

-- `HandleAccept` with what `accept` returns before it fails.
unfoldable pub accept_all : List Accepted → TcpServer → Option TcpServer
unfolding accept_one
accept_all [] s = some s
accept_all (a ∷ more) s = elim (accept_one a s) [ none ↦ none | some t ↦ accept_all more t ]

unfoldable pub handle_accept : List Accepted → TcpServer → Option TcpServer
handle_accept more s = if s.listening then accept_all more s else some s

abbrev pub without_conn : ℕ → List ℕ → List ℕ
without_conn conn [] = []
without_conn conn (c ∷ cs) = if c == conn then without_conn conn cs else c ∷ without_conn conn cs

-- `RemoveConnInLoop(conn)` up to the call of `Close` that it queues. Nothing calls `RemoveConn`.
unfoldable pub remove_conn_in_loop : ℕ → TcpServer → TcpServer
remove_conn_in_loop conn s = record s { conns = without_conn conn s.conns }
