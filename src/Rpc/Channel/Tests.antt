-- ===== src/Rpc/Channel/Tests.antt =====
-- Calls of rpc/protorpc/rpc_channel.cc on concrete channels.
use jnet.Base.{
  ℕ, ◌+◌, ◌≡◌, refl, Option, none, some, List, [], ◌∷◌, ◌++◌, arith, ◌==◌, if◌then◌else◌,
}
use jnet.Base.Assoc.{nat_key, lookup, put, erase}
use jnet.Rpc.Channel.{
  RpcMessage, response, OutstandingCall, Invocation, RpcChannel, new, take_id, store_call, send,
  call_method, on_response, on_rpc_message, done_callback, register_service, on_connection,
}
use jnet.Rpc.Channel.Promise.{Event, calls, answers, step, run, Matches, spec_run, no_calls}
use jnet.Rpc.Channel.Refine.{run-Matches-new}
use jnet.Rpc.Channel.Race.{both_take, both_take-lost}
use jnet.Rpc.Channel.Trip.{call_method-done_callback}

abbrev out : OutstandingCall
out = record { response = some 3; done = 8 }

abbrev answer : ℕ → RpcMessage
answer id = record {
  type = response;
  id = id;
  service = [];
  method = [];
  body = [];
  reply = 1 ∷ [];
}

abbrev events : List Event
events = calls [] [] [] out ∷ calls [] [] [] out ∷ answers (answer 1) ∷ answers (answer 1) ∷ []

-- The second answer to the same call fails.
answered_twice : run events (new 0) ≡ none
unfolding run step new call_method take_id store_call send put on_response lookup erase
answered_twice = refl

run-Matches-new_example : Matches (run events (new 0)) (spec_run events (no_calls 0))
run-Matches-new_example = run-Matches-new events 0 (omega arith) (omega arith, (omega arith, tt))

nothing-waits : lookup (new 0).id (new 0).outstandings ≡ none
unfolding new lookup
nothing-waits = refl

new-id : (new 0).id ≡ 0
unfolding new
new-id = refl

both_take-lost_example :
    (lookup ((new 0).id + 1) (both_take out out (new 0)).outstandings ≡ some out)
    × (on_response (answer (new 0).id) (both_take out out (new 0)) ≡ none)
both_take-lost_example =
    both_take-lost out out (new 0) (answer (new 0).id) (omega (arith, new-id)) nothing-waits refl

abbrev find_method : ℕ → List ℕ → Option ℕ
find_method service name = some (service + 1)

abbrev parse : ℕ → List ℕ → Option (List ℕ)
parse method [] = none
parse method (x ∷ xs) = some (x ∷ xs)

call_method-done_callback_example :
    let server = on_connection (register_service (1 ∷ []) 5 []) 0 in
    let call : Invocation = record { service = 5; method = 6; request = 2 ∷ []; id = (new 0).id } in
    (question : RpcMessage) × (reply : RpcMessage) × (started : RpcChannel)
    × (finished : RpcChannel) × ((call_method (1 ∷ []) (9 ∷ []) (2 ∷ []) out (new 0)).sent
        ≡ (new 0).sent ++ (question ∷ []))
    × (on_rpc_message find_method parse question server ≡ some started)
    × (started.invoked ≡ server.invoked ++ (call ∷ []))
    × ((done_callback (7 ∷ []) call.id started).sent ≡ started.sent ++ (reply ∷ []))
    × (on_rpc_message find_method parse reply (call_method (1 ∷ []) (9 ∷ []) (2 ∷ []) out (new 0))
        ≡ some finished)
    × (finished.runs ≡ (new 0).runs ++ (record { done = 8; object = 3; reply = 7 ∷ [] } ∷ []))
    × ((i : ℕ)
        → lookup i finished.outstandings
          ≡ (if (new 0).id == i then none else lookup i (new 0).outstandings))
call_method-done_callback_example =
    call_method-done_callback find_method parse (1 ∷ []) (9 ∷ []) (2 ∷ []) (7 ∷ []) (2 ∷ []) 5 6 3 8
      0 [] (new 0) (omega (arith, new-id)) refl refl
