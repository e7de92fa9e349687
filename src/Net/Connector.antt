-- ===== src/Net/Connector.antt =====
-- net/connector.h and net/connector.cc, on the loop's thread: a connector, whose `Connect` makes a
-- socket and leaves it. `none` is a failed assertion.
pub mod Restarts
mod Tests
use jnet.Base.{ℕ, ◌+◌, Bool, true, false, Option, none, some, List, [], ◌∷◌, if◌then◌else◌}

pub data State : Type 0 where
  disconnected connecting connected : State

-- `sockets` counts the sockets that `Connect` made, and `handed` those that the callback was given.
pub record Connector : Type 0 where
  pub is_connected : Bool
  pub state : State
  pub sockets : ℕ
  pub handed : ℕ

unfoldable pub new : Connector
new = record { is_connected = false; state = disconnected; sockets = 0; handed = 0 }

-- `Connect()`; the answers of the calls are not looked at.
unfoldable pub connect : Connector → Connector
connect c = record c { sockets = c.sockets + 1 }

-- `StartInLoop()`.
unfoldable pub start_in_loop : Connector → Option Connector
unfolding connect
start_in_loop c = elim c.state [
  | disconnected ↦ some (if c.is_connected then connect c else c)
  | other ↦ none
]

-- `Start()`.
unfoldable pub start : Connector → Option Connector
unfolding start_in_loop
start c = start_in_loop (record c { is_connected = true })

-- `Stop()`; the branch of `StopInLoop` is empty.
unfoldable pub stop : Connector → Connector
stop c = record c { is_connected = false }

-- A run of starts (true) and stops (false).
unfoldable pub run : List Bool → Connector → Option Connector
unfolding start stop
run [] c = some c
run (true ∷ calls) c = elim (start c) [ none ↦ none | some d ↦ run calls d ]
run (false ∷ calls) c = run calls (stop c)
