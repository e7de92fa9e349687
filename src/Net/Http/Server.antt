-- ===== src/Net/Http/Server.antt =====
-- net/http.h and net/http.cc: the exchanges on a connection, `HttpConnPtr`, and the callbacks of
-- `HttpServer`, which are numbers.
use jnet.Base.{
  ℕ, zero, suc, ◌+◌, ◌-◌, ◌%◌, ◌^◌, Bool, true, false, Option, none, some, List, [], ◌∷◌, ltb,
  if◌then◌else◌,
}
use jnet.Base.Int.{ℤ, pos, ltb_ℤ}
use jnet.Base.Assoc.{Key, bytes_key, eq_bytes, lookup, put}
use jnet.Buffer.{Buffer, contents, consume}
use jnet.Net.Http.{
  Outcome, ◌>>=◌, returns, throws, undefined, Result, error, complete, not_complete, continue,
  HttpMsg, clear_msg, HttpRequest, clear_request, try_decode_request, HttpResponse,
  try_decode_response,
}
use jnet.Net.Http.Text.{bytes_of}
use jnet.Net.Http.Encode.{encode_request, encode_response}
pub mod Exchange

-- `HttpResponse::Clear()`.
unfoldable pub clear_response : HttpResponse
unfolding clear_msg
clear_response = record { msg = clear_msg; status_word = bytes_of "OK"; status = pos 200 }

-- The connection's buffers, the port of its peer's address as a `short`, and the request and the
-- response of its context, when `has_context` says that somebody has set one: `GetRequest` and
-- `GetResponse` cast the context, and throw on one that nobody has set.
pub record HttpConn : Type 0 where
  pub peer_port : ℤ
  pub has_context : Bool
  pub input : Buffer
  pub output : Buffer
  pub request : HttpRequest
  pub response : HttpResponse

-- `GetByte()`, an `int`, as the `size_t` that `Consume` takes.
unfoldable pub get_byte : HttpMsg → ℕ
get_byte m = let n = m.scanned % 2 ^ 32 in if ltb n (2 ^ 31) then n else n + (2 ^ 64 - 2 ^ 32)

-- `IsClient()` of the connection.
abbrev pub is_client : HttpConn → Bool
is_client c = ltb_ℤ (pos 0) c.peer_port

-- `GetRequest()` and `GetResponse()`.
abbrev pub get_request : HttpConn → Outcome HttpRequest
get_request c = if c.has_context then returns c.request else throws

abbrev pub get_response : HttpConn → Outcome HttpResponse
get_response c = if c.has_context then returns c.response else throws

-- `ClearData()`.
unfoldable pub clear_data : HttpConn → Outcome HttpConn
unfolding get_byte clear_response clear_request
clear_data c =
    if is_client c
    then (do
      rep ← get_response c
      returns (record c { input = consume c.input (get_byte rep.msg); response = clear_response }))
    else (do
      req ← get_request c
      returns (record c { input = consume c.input (get_byte req.msg); request = clear_request }))

-- `SendRequest(req)` up to the `SendOutput` of the connection.
unfoldable pub send_request : HttpRequest → HttpConn → Outcome HttpConn
unfolding encode_request
send_request r c = elim (encode_request r c.output) [
  | none ↦ undefined
  | some (out, n) ↦ clear_data (record c { output = out })
]

-- `SendResponse(rep)`, in the same way.
unfoldable pub send_response : HttpResponse → HttpConn → Outcome HttpConn
unfolding encode_response
send_response r c = elim (encode_response r c.output) [
  | none ↦ undefined
  | some (out, n) ↦ clear_data (record c { output = out })
]

-- What `HandleRead_` does after the decoding.
pub data Action : Type 0 where
  closes waits calls : Action
  sends : List ℕ → Action

abbrev pub action : Result → Action
action error = closes
action complete = calls
action not_complete = waits
action continue = waits

-- `HandleRead_(cb)`. Nothing in the repository gives a connection of `HttpServer` a context with a
-- request: there the handler throws.
unfoldable pub handle_read : HttpConn → Outcome (HttpConn × Action)
handle_read c =
    if is_client c
    then (do
      rep ← get_response c
      (rep, result) ← try_decode_response rep (contents c.input)
      returns (record c { response = rep }, action result))
    else (do
      req ← get_request c
      (req, result) ← try_decode_request req (contents c.input)
      returns (
        record c { request = req },
        elim result [
          | continue ↦ sends (bytes_of "Http/1.1 100 Continue\n\r\n")
          | other ↦ action other
        ],
      ))

-- The callbacks of `HttpServer`: by method and address, and the default one.
pub record HttpServer : Type 0 where
  pub cbs : List (List ℕ × List (List ℕ × ℕ))
  pub defcb : ℕ

abbrev pub routes : Option (List (List ℕ × ℕ)) → List (List ℕ × ℕ)
routes none = []
routes (some m) = m

-- `OnRequest(method, uri, cb)`.
unfoldable pub on_request : List ℕ → List ℕ → ℕ → HttpServer → HttpServer
unfolding put lookup
on_request method uri cb s = record s {
  cbs = put method (put uri cb (routes (lookup method s.cbs))) s.cbs;
}

-- `OnGet(uri, cb)`.
unfoldable pub on_get : List ℕ → ℕ → HttpServer → HttpServer
unfolding on_request
on_get uri cb s = on_request (bytes_of "GET") uri cb s

-- `OnDefault(cb)`.
unfoldable pub on_default : ℕ → HttpServer → HttpServer
on_default cb s = record s { defcb = cb }

abbrev pub or_default : Option ℕ → ℕ → ℕ
or_default none cb = cb
or_default (some cb) other = cb

-- The callback of an address among those of a method, or the default one.
abbrev pub callback : Option (List (List ℕ × ℕ)) → List ℕ → ℕ → ℕ
callback none uri defcb = defcb
callback (some m) uri defcb = or_default (lookup uri m) defcb

-- The callback that a complete request runs.
unfoldable pub dispatch : HttpServer → HttpRequest → ℕ
unfolding lookup
dispatch s req = callback (lookup req.method s.cbs) req.uri s.defcb

-- The default callback that the constructor installs.
unfoldable pub not_found : HttpConn → Outcome HttpConn
unfolding send_response
not_found c = do
  old ← get_response c
  let rep = record old {
    status = pos 404;
    status_word = bytes_of "Not Found";
    msg = record old.msg { body = bytes_of "Not Found" };
  }
  send_response rep (record c { response = rep })
