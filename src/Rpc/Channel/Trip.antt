-- ===== src/Rpc/Channel/Trip.antt =====
-- A call from a client's channel to a server's and back (rpc/protorpc/rpc_channel.cc).
use jnet.Base.{
  ℕ, ◌^◌, ◌<◌, ◌≡◌, refl, ap, ◌∙◌, Option, none, some, List, [], ◌∷◌, ◌++◌, arith, ◌==◌,
  if◌then◌else◌,
}
use jnet.Base.Assoc.{nat_key, bytes_key, lookup, erase, lookup-put, lookup-erase}
use jnet.Rpc.Channel.{
  RpcMessage, response, OutstandingCall, Invocation, RpcChannel, Services, service_of, call_method,
  request_message, run_done, on_response, on_rpc_message, on_request, done_callback,
  register_service, on_connection,
}
use jnet.Rpc.Channel.Calls.{
  call_method-lookup, call_method-runs, on_response-some, run_done-outstandings,
}

-- The answer that `DoneCallback` sends.
abbrev pub response_message : ℕ → List ℕ → RpcMessage
response_message id reply = record {
  type = response;
  id = id;
  service = [];
  method = [];
  body = [];
  reply = reply;
}

-- The client sends one request, with its number.
pub call_method-sent :
    (service method body : List ℕ) (out : OutstandingCall) (ch : RpcChannel)
    → (call_method service method body out ch).sent
      ≡ ch.sent ++ (request_message ch.id service method body ∷ [])
unfolding call_method
call_method-sent service method body out ch = refl

pub call_method-answered :
    (service method body reply : List ℕ) (object done : ℕ) (ch : RpcChannel)
    → ch.id < 2 ^ 32
    → (d : RpcChannel) × (on_response
          (response_message ch.id reply)
          (call_method service method body (record { response = some object; done = done }) ch)
        ≡ some d)
      × (d.runs ≡ ch.runs ++ (record { done = done; object = object; reply = reply } ∷ []))
      × ((i : ℕ)
          → lookup i d.outstandings ≡ (if ch.id == i then none else lookup i ch.outstandings))
call_method-answered service method body reply object done ch small =
    let out : OutstandingCall = record { response = some object; done = done } in
    let called = call_method service method body out ch in
    let erased = record called { outstandings = erase ch.id called.outstandings } in
    let (table, id, runs) = run_done-outstandings out reply erased in
    (
      run_done out reply erased,
      on_response-some (response_message ch.id reply) called out small
          (call_method-lookup service method body out ch ch.id small ∙ ground arith),
      runs
          ∙ ap (λ r. r ++ (record { done = done; object = object; reply = reply } ∷ []))
              (call_method-runs service method body out ch),
      λ i.
          ap (lookup i) table
          ∙ lookup-erase ch.id i called.outstandings
          ∙ ap (λ o. if ch.id == i then none else o)
              (call_method-lookup service method body out ch i small)
          ∙ ground arith,
    )

-- A service that was registered is the one of its name.
lookup-register_service :
    (name : List ℕ) (service : ℕ) (services : Services)
    → service_of (some (register_service name service services)) name ≡ some service
unfolding register_service
lookup-register_service name service services =
    lookup-put name name service services ∙ ground (arith, bytes_key.eqb_iff name name)

module _ (find_method : ℕ → List ℕ → Option ℕ) (parse : ℕ → List ℕ → Option (List ℕ)) where
  pub on_rpc_message-request_message :
      (name method body r : List ℕ) (service m id : ℕ) (server : RpcChannel)
      → service_of server.services name ≡ some service
      → find_method service method ≡ some m
      → parse m body ≡ some r
      → on_rpc_message find_method parse (request_message id name method body) server
        ≡ some (record server {
          invoked =
              server.invoked
              ++ (record { service = service; method = m; request = r; id = id } ∷ []);
        })
  unfolding on_rpc_message on_request
  on_rpc_message-request_message name method body r service m id server at known parsed =
      ground (arith, at, known, parsed)

  pub done_callback-sent :
      (reply : List ℕ) (id : ℕ) (ch : RpcChannel)
      → (done_callback reply id ch).sent ≡ ch.sent ++ (response_message id reply ∷ [])
  unfolding done_callback
  done_callback-sent reply id ch = refl

  -- A call of a method that the server finds, with a request that it parses, of a service that was
  -- registered with the server before the connection: the client sends one message; the server starts
  -- the method with the parsed request; what `DoneCallback` then sends for the started call, with any
  -- reply, runs the closure of this call at the client with this reply, and the client's table is as
  -- before without an entry of the call's number, which is below 2 ^ 32.
  pub call_method-done_callback :
      (name method body reply r : List ℕ) (service m object done first : ℕ) (services : Services)
      (client : RpcChannel)
      → client.id < 2 ^ 32
      → find_method service method ≡ some m
      → parse m body ≡ some r
      → let server = on_connection (register_service name service services) first in
        let call : Invocation = record {
          service = service;
          method = m;
          request = r;
          id = client.id;
        } in
        let out : OutstandingCall = record { response = some object; done = done } in
        (question : RpcMessage) × (answer : RpcMessage) × (started : RpcChannel)
        × (finished : RpcChannel) × ((call_method name method body out client).sent
            ≡ client.sent ++ (question ∷ []))
        × (on_rpc_message find_method parse question server ≡ some started)
        × (started.invoked ≡ server.invoked ++ (call ∷ []))
        × ((done_callback reply call.id started).sent ≡ started.sent ++ (answer ∷ []))
        × (on_rpc_message find_method parse answer (call_method name method body out client)
            ≡ some finished)
        × (finished.runs
            ≡ client.runs ++ (record { done = done; object = object; reply = reply } ∷ []))
        × ((i : ℕ)
            → lookup i finished.outstandings
              ≡ (if client.id == i then none else lookup i client.outstandings))
  unfolding on_rpc_message on_connection
  call_method-done_callback name method body reply r service m object done first services client
        small known parsed =
      let server = on_connection (register_service name service services) first in
      let out : OutstandingCall = record { response = some object; done = done } in
      let (finished, answered, runs, table) =
        call_method-answered name method body reply object done client small in
      let started = record server {
        invoked =
            server.invoked
            ++ (record { service = service; method = m; request = r; id = client.id } ∷ []);
      } in
      (
        request_message client.id name method body,
        response_message client.id reply,
        started,
        finished,
        call_method-sent name method body out client,
        on_rpc_message-request_message name method body r service m client.id server
            (lookup-register_service name service services) known parsed,
        refl,
        done_callback-sent reply client.id started,
        answered,
        runs,
        table,
      )
