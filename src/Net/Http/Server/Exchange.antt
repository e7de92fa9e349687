-- ===== src/Net/Http/Server/Exchange.antt =====
-- Requests that arrive at a server of net/http.cc, and the callbacks they run.
use jnet.Base.{
  ℕ, ◌+◌, ◌^◌, ◌<◌, ◌≡◌, refl, sym, ap, ap₂, ◌∙◌, Bool, true, false, ◌&&◌, Option, none, some, List,
  [], ◌∷◌, ◌++◌, append_assoc, arith, if◌then◌else◌, length, take, drop, length-append, Bool-cases,
  inl, inr,
}
use jnet.Base.Assoc.{bytes_key, eq_bytes, eq_bytes_iff, lookup, put, lookup-put}
use jnet.Buffer.{contents, consume}
use jnet.Buffer.Layout.{IsValid}
use jnet.Buffer.Contents.{consume_lem}
use jnet.Net.Http.{
  returns, error, complete, try_decode_msg, HttpRequest, clear_request, decode_args,
  starts_with_slash, try_decode_request,
}
use jnet.Net.Http.Text.{space, two_crlf, find, find_at-none, Without}
use jnet.Net.Http.Places.{find-start, substr-npos, substr-drop, drop-front}
use jnet.Net.Http.Decode.{IsFresh, of_line, try_decode_request-request_text}
use jnet.Net.Http.RequestText.{
  request_text, request_text-append, OneLine, line_length, length-line, length-request_text,
}
use jnet.Net.Http.Server.{
  HttpConn, is_client, get_byte, clear_data, closes, calls, handle_read, HttpServer, or_default,
  callback, routes, on_request, dispatch,
}

lookup-routes :
    (s : HttpServer) (method uri : List ℕ) (cb : ℕ) (m : List ℕ)
    → lookup m (put method (put uri cb (routes (lookup method s.cbs))) s.cbs) ≡ (
        if eq_bytes method m
        then some (put uri cb (routes (lookup method s.cbs)))
        else lookup m s.cbs)
lookup-routes s method uri cb m =
    lookup-put method m (put uri cb (routes (lookup method s.cbs))) s.cbs

or_default-if :
    (b : Bool) (o : Option ℕ) (cb defcb : ℕ)
    → or_default (if b then some cb else o) defcb ≡ (if b then cb else or_default o defcb)
or_default-if true o cb defcb = refl
or_default-if false o cb defcb = refl

lookup-nil : (u : List ℕ) → lookup {V = ℕ} u [] ≡ none
unfolding lookup
lookup-nil u = refl

callback-put :
    (o : Option (List (List ℕ × ℕ))) (uri u : List ℕ) (cb defcb : ℕ)
    → callback (some (put uri cb (routes o))) u defcb
      ≡ (if eq_bytes uri u then cb else callback o u defcb)
callback-put none uri u cb defcb =
    ap (λ x. or_default x defcb) (lookup-put uri u cb [])
    ∙ or_default-if (eq_bytes uri u) (lookup u []) cb defcb
    ∙ ap (λ o. if eq_bytes uri u then cb else or_default o defcb) (lookup-nil u)
callback-put (some m) uri u cb defcb =
    ap (λ x. or_default x defcb) (lookup-put uri u cb m)
    ∙ or_default-if (eq_bytes uri u) (lookup u m) cb defcb

-- Registering a callback changes what is run for exactly that method and that address.
pub dispatch-on_request :
    (s : HttpServer) (method uri : List ℕ) (cb : ℕ) (r : HttpRequest)
    → dispatch (on_request method uri cb s) r
      ≡ (if eq_bytes method r.method && eq_bytes uri r.uri then cb else dispatch s r)
unfolding dispatch on_request
dispatch-on_request s method uri cb r =
    ap (λ o. callback o r.uri s.defcb) (lookup-routes s method uri cb r.method)
    ∙ (elim (Bool-cases (eq_bytes method r.method)) [
      | inl same ↦ rw same (
          callback-put (lookup method s.cbs) uri r.uri cb s.defcb
          ∙ ap (λ m. if eq_bytes uri r.uri then cb else callback (lookup m s.cbs) r.uri s.defcb)
              ((eq_bytes_iff method r.method).0 same))
      | inr other ↦ rw other refl
    ])

drop-request_text :
    (method query version rest : List ℕ)
    → drop (line_length method query version + 4) (request_text method query version rest) ≡ rest
drop-request_text method query version rest =
    let line = method ++ space ∷ (query ++ space ∷ version) in
    ap (drop (line_length method query version + 4)) (request_text-append method query version rest)
    ∙ ap₂ drop (omega (arith, length-line method query version, length-append line two_crlf))
        (sym (append_assoc line two_crlf rest))
    ∙ drop-front (line ++ two_crlf) rest

handle_read-calls :
    (c : HttpConn) (text : List ℕ) (req : HttpRequest)
    → is_client c ≡ false
    → c.has_context ≡ true
    → contents c.input ≡ text
    → try_decode_request c.request text ≡ returns (req, complete)
    → handle_read c ≡ returns (record c { request = req }, calls)
unfolding handle_read
handle_read-calls c text req server set bytes done = ground (arith, server, set, bytes, done)

handle_read-closes :
    (c : HttpConn) (text : List ℕ) (req : HttpRequest)
    → is_client c ≡ false
    → c.has_context ≡ true
    → contents c.input ≡ text
    → try_decode_request c.request text ≡ returns (req, error)
    → handle_read c ≡ returns (record c { request = req }, closes)
unfolding handle_read
handle_read-closes c text req server set bytes done = ground (arith, server, set, bytes, done)

clear_data-server :
    (c : HttpConn) (n : ℕ)
    → is_client c ≡ false
    → c.has_context ≡ true
    → c.request.msg.scanned ≡ n
    → n < 2 ^ 31
    → clear_data c ≡ returns (record c { input = consume c.input n; request = clear_request })
unfolding clear_data get_byte
clear_data-server c n server set end small = ground (arith, server, set, end)

-- A server's connection with a context, whose request is fresh, and whose input of less than 2 ^ 31
-- bytes starts with a request that has a first line as in `try_decode_request-request_text` and a
-- blank line at once behind it: the handler runs the callback with that request, and
-- `ClearData` behind it leaves exactly the bytes behind the blank line in the input, which stays
-- valid, and a cleared request.
pub handle_read-request_text :
    (c : HttpConn) (method query version rest : List ℕ)
    → is_client c ≡ false
    → c.has_context ≡ true
    → IsValid c.input
    → contents c.input ≡ request_text method query version rest
    → IsFresh c.request.msg
    → OneLine method query version
    → Without space method
    → Without space query
    → starts_with_slash query ≡ true
    → length (request_text method query version rest) < 2 ^ 31
    → (d : HttpConn) × (handle_read c ≡ returns (d, calls))
      × (d.request.method ≡ method)
      × (d.request.uri ≡ (decode_args query c.request.args).0)
      × ((e : HttpConn) × (clear_data d ≡ returns e)
          × (contents e.input ≡ rest)
          × IsValid e.input
          × (e.request ≡ clear_request))
handle_read-request_text c method query version rest server set valid bytes fresh line in_method
      in_query slash small =
    let n = line_length method query version + 4 in
    let long = length-request_text method query version rest in
    let used = consume_lem c.input n valid (omega (arith, long, ap length bytes)) in
    let read =
      try_decode_request-request_text c.request method query version rest fresh line in_method
        in_query slash small in
    let cleared =
      clear_data-server (record c { request = of_line c.request method query version }) n server set
        refl (omega (arith, long)) in
    (
      (record c { request = of_line c.request method query version }),
      handle_read-calls c (request_text method query version rest)
          (of_line c.request method query version) server set bytes read,
      refl,
      refl,
      (
        record c { input = consume c.input n; request = clear_request },
        cleared,
        used.0 ∙ ap (drop n) bytes ∙ drop-request_text method query version rest,
        used.1,
        refl,
      ),
    )

find_at-Without :
    (buf : List ℕ) (c : ℕ) (tail : List ℕ) → Without c buf → find buf (c ∷ tail) 0 ≡ none
find_at-Without buf c tail w = find-start buf (c ∷ tail) none (find_at-none c tail 0 buf w)

try_decode_request-first :
    (r : HttpRequest) (buf : List ℕ)
    → r.msg.is_complete ≡ false
    → r.msg.content_len ≡ 0
    → find buf two_crlf 0 ≡ none
    → find buf (space ∷ []) 0 ≡ none
    → starts_with_slash buf ≡ false
    → try_decode_request r buf
      ≡ returns (
        record r { msg = record r.msg { version = take 1 buf }; method = buf; query_uri = buf },
        error,
      )
unfolding try_decode_request try_decode_msg
try_decode_request-first r buf undecoded no_length no_blank no_space slash = ground (
  arith,
  undecoded,
  no_length,
  no_blank,
  no_space,
  slash,
  substr-npos buf 0 (omega arith),
  substr-drop buf 0 1 buf (omega arith) refl,
)

-- A server's connection with a context, whose request is not complete and has no length, and whose
-- input has neither a space nor a carriage return yet and does not start with a slash, such as a
-- first part of a method's name: the handler closes it.
pub handle_read-first :
    (c : HttpConn)
    → is_client c ≡ false
    → c.has_context ≡ true
    → c.request.msg.is_complete ≡ false
    → c.request.msg.content_len ≡ 0
    → Without space (contents c.input)
    → Without 13 (contents c.input)
    → starts_with_slash (contents c.input) ≡ false
    → (d : HttpConn) × (handle_read c ≡ returns (d, closes))
handle_read-first c server set undecoded no_length no_space no_return slash =
    let buf = contents c.input in
    let r = c.request in
    let req = record r {
      msg = record r.msg { version = take 1 buf };
      method = buf;
      query_uri = buf;
    } in
    (
      record c { request = req },
      handle_read-closes c buf req server set refl (
          try_decode_request-first r buf undecoded no_length
            (find_at-Without buf 13 (10 ∷ 13 ∷ 10 ∷ []) no_return)
            (find_at-Without buf space [] no_space) slash),
    )
