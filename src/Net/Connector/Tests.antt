-- ===== src/Net/Connector/Tests.antt =====
-- A connector of net/connector.cc that is started twice.
use jnet.Base.{◌≡◌, true, false, some, [], ◌∷◌}
use jnet.Net.Connector.{Connector, new, run}
use jnet.Net.Connector.Restarts.{run-starts}

run-starts-test : (d : Connector) × (run (true ∷ false ∷ true ∷ []) new ≡ some d) × (d.sockets ≡ 2)
run-starts-test =
    let (d, done, state, sockets, handed) = run-starts (true ∷ false ∷ true ∷ []) in
    (d, done, sockets)
