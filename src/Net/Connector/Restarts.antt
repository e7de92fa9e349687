-- ===== src/Net/Connector/Restarts.antt =====
-- Starts and stops of a connector (net/connector.cc).
use jnet.Base.{ℕ, suc, ◌+◌, ◌≡◌, refl, Bool, true, false, some, List, [], ◌∷◌, arith}
use jnet.Net.Connector.{Connector, disconnected, new, start, start_in_loop, connect, stop, run}

abbrev pub starts : List Bool → ℕ
starts [] = 0
starts (true ∷ calls) = suc (starts calls)
starts (false ∷ calls) = starts calls

run_lem :
    (calls : List Bool) (c : Connector)
    → c.state ≡ disconnected
    → (d : Connector) × (run calls c ≡ some d)
      × (d.state ≡ disconnected)
      × (d.sockets ≡ c.sockets + starts calls)
      × (d.handed ≡ c.handed)
unfolding run start start_in_loop connect stop
run_lem [] c e = (c, refl, e, omega arith, refl)
run_lem (true ∷ calls) c e =
    let d = record c { is_connected = true; sockets = c.sockets + 1 } in
    let (f, done, state, sockets, handed) = run_lem calls d e in
    (f, ground (arith, e, done), state, omega (arith, sockets), handed)
run_lem (false ∷ calls) c e =
    let (f, done, state, sockets, handed) = run_lem calls (record c { is_connected = false }) e in
    (f, done, state, omega (arith, sockets), handed)

-- A new connector, after any starts and stops: no assertion has failed, every start has made a socket
-- of its own, no socket was given to the callback, and the state is still that of no connection.
pub run-starts :
    (calls : List Bool)
    → (d : Connector) × (run calls new ≡ some d)
      × (d.state ≡ disconnected)
      × (d.sockets ≡ starts calls)
      × (d.handed ≡ 0)
unfolding new
run-starts calls =
    let (d, done, state, sockets, handed) = run_lem calls new refl in
    (d, done, state, omega (arith, sockets), handed)
