-- ===== src/Rpc/Channel.antt =====
-- rpc/protorpc/rpc_channel.h and .cc, rpc_server.cc: the calls of a client that wait for an answer,
-- and the requests that a server hands to its services. Messages of protobuf are their bytes,
-- closures and objects are numbers; `sent` is what the codec was given, `runs` and `invoked` what was
-- started.
pub mod Promise
pub mod Calls
pub mod Refine
pub mod Trip
pub mod Race
mod Tests
use jnet.Base.{ℕ, ◌+◌, ◌-◌, ◌%◌, ◌^◌, Option, none, some, List, [], ◌∷◌, ◌++◌, Bool, true, false}
use jnet.Base.Assoc.{Key, nat_key, bytes_key, lookup, put, erase}

pub data MessageType : Type 0 where
  request response : MessageType

-- `RpcMessage`; a field that is not set is empty.
pub record RpcMessage : Type 0 where
  pub type : MessageType
  pub id : ℕ
  pub service : List ℕ
  pub method : List ℕ
  pub body : List ℕ
  pub reply : List ℕ

-- `OutstandingCall`; a null response is none.
pub record OutstandingCall : Type 0 where
  pub response : Option ℕ
  pub done : ℕ

-- A closure that runs, with the response it finds parsed.
pub record Run : Type 0 where
  pub done : ℕ
  pub object : ℕ
  pub reply : List ℕ

-- A method that a server starts, with the parsed request, and the number that its answer carries.
pub record Invocation : Type 0 where
  pub service : ℕ
  pub method : ℕ
  pub request : List ℕ
  pub id : ℕ

abbrev pub Services : Type 0
Services = List (List ℕ × ℕ)

pub record RpcChannel : Type 0 where
  pub id : ℕ
  pub outstandings : List (ℕ × OutstandingCall)
  pub services : Option Services
  pub sent : List RpcMessage
  pub runs : List Run
  pub invoked : List Invocation

-- A new channel. Its constructors leave `id_` as it is.
unfoldable pub new : ℕ → RpcChannel
new id = record { id = id; outstandings = []; services = none; sent = []; runs = []; invoked = [] }

-- The key of a call is an `int`.
abbrev pub key : ℕ → ℕ
key id = id % 2 ^ 32

-- `id_++`.
unfoldable pub take_id : RpcChannel → RpcChannel × ℕ
take_id ch = (record ch { id = ch.id + 1 }, ch.id)

-- `outstandings_[id_-1] = out`, for the `id_` of that moment.
unfoldable pub store_call : OutstandingCall → RpcChannel → RpcChannel
unfolding put
store_call out ch = record ch { outstandings = put (key (ch.id - 1)) out ch.outstandings }

-- `codec_.Send(conn_, message)`.
unfoldable pub send : RpcMessage → RpcChannel → RpcChannel
send message ch = record ch { sent = ch.sent ++ (message ∷ []) }

abbrev pub request_message : ℕ → List ℕ → List ℕ → List ℕ → RpcMessage
request_message id service method body = record {
  type = request;
  id = id;
  service = service;
  method = method;
  body = body;
  reply = [];
}

-- `CallMethod(method, controller, request, response, done)`.
unfoldable pub call_method : List ℕ → List ℕ → List ℕ → OutstandingCall → RpcChannel → RpcChannel
unfolding take_id store_call send
call_method service method body out ch =
    let (taken, id) = take_id ch in
    send (request_message id service method body) (store_call out taken)

abbrev pub run_done : OutstandingCall → List ℕ → RpcChannel → RpcChannel
run_done out reply ch = elim out.response [
  | none ↦ ch
  | some object ↦ record ch {
    runs = ch.runs ++ (record { done = out.done; object = object; reply = reply } ∷ []);
  }
]

-- The branch of `OnRpcMessage` for an answer; none is the failed assertion.
unfoldable pub on_response : RpcMessage → RpcChannel → Option RpcChannel
unfolding lookup erase
on_response message ch = elim (lookup (key message.id) ch.outstandings) [
  | none ↦ none
  | some out ↦ some (
      run_done out message.reply
        (record ch { outstandings = erase (key message.id) ch.outstandings }))
]

-- `services_->find(name)`; none is a failed assertion.
abbrev pub service_of : Option Services → List ℕ → Option ℕ
service_of none name = none
service_of (some services) name = lookup name services

-- A service's descriptor finds a method by its name, and the method's prototype parses a request.
module _ (find_method : ℕ → List ℕ → Option ℕ) (parse : ℕ → List ℕ → Option (List ℕ)) where
  -- The branch of `OnRpcMessage` for a request.
  unfoldable pub on_request : RpcMessage → RpcChannel → Option RpcChannel
  on_request message ch = elim (service_of ch.services message.service) [
    | none ↦ none
    | some service ↦ elim (find_method service message.method) [
      | none ↦ some ch
      | some method ↦ elim (parse method message.body) [
        | none ↦ some ch
        | some r ↦ some (record ch {
          invoked =
              ch.invoked
              ++ (record { service = service; method = method; request = r; id = message.id } ∷ []);
        })
      ]
    ]
  ]

  -- `OnRpcMessage(conn, message)`.
  unfoldable pub on_rpc_message : RpcMessage → RpcChannel → Option RpcChannel
  unfolding on_response
  on_rpc_message message ch = elim message.type [
    | response ↦ on_response message ch
    | request ↦ on_request message ch
  ]

-- `DoneCallback(response, id)`.
unfoldable pub done_callback : List ℕ → ℕ → RpcChannel → RpcChannel
unfolding send
done_callback reply id ch =
    send (record { type = response; id = id; service = []; method = []; body = []; reply = reply })
      ch

-- `RpcServer::RegisterService(service)`, by the service's full name.
unfoldable pub register_service : List ℕ → ℕ → Services → Services
unfolding put
register_service name service services = put name service services

-- `RpcServer::OnConnection(conn)`: a channel with the server's services.
unfoldable pub on_connection : Services → ℕ → RpcChannel
unfolding new
on_connection services id = record (new id) { services = some services }
