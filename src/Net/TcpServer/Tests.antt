-- ===== src/Net/TcpServer/Tests.antt =====
-- A server of net/tcpserver.cc with two loops.
use jnet.Base.{ℕ, ◌≡◌, refl, true, false, some, [], ◌∷◌}
use jnet.Net.EventLoopPool.{EventLoopPool, get_next_loop, next_loops}
use jnet.Net.TcpServer.{TcpServer, Accepted, handle_accept}
use jnet.Net.TcpServer.Accepts.{Accepts, handle_accept-Accepts}

abbrev two : EventLoopPool
two = record { base_loop = 9; num_threads = 2; started = true; next = 0; loops = 4 ∷ 5 ∷ [] }

abbrev server : TcpServer
server = record {
  listening = true;
  pool = two;
  conns = [];
  created = 0;
  attached = [];
  leaked = [];
  create_cb = true;
  state_cb = false;
  read_cb = true;
  announced = [];
  callbacks = [];
}

abbrev fine : ℕ → Accepted
fine fd = record { fd = fd; peer_known = true; local_known = true; close_on_exec = false }

abbrev gone : ℕ → Accepted
gone fd = record { fd = fd; peer_known = false; local_known = true; close_on_exec = true }

two-turns : next_loops 2 two ≡ some (4 ∷ 5 ∷ [], two)
unfolding next_loops get_next_loop
two-turns = refl

handle_accept-Accepts_example :
    (t : TcpServer) × (handle_accept (fine 20 ∷ gone 21 ∷ fine 22 ∷ []) server ≡ some t)
    × Accepts server t (fine 20 ∷ gone 21 ∷ fine 22 ∷ []) (4 ∷ 5 ∷ []) two
handle_accept-Accepts_example =
    handle_accept-Accepts (fine 20 ∷ gone 21 ∷ fine 22 ∷ []) server (4 ∷ 5 ∷ []) two refl two-turns
