-- ===== src/Net/Http/Tests.antt =====
-- Requests and responses of net/http.cc on concrete texts.
use mathlib.Core.List.{flatten}
use jnet.Base.{
  ℕ, ◌≡◌, refl, ap, true, false, ◌&&◌, some, List, [], ◌∷◌, arith, length, if◌then◌else◌,
}
use jnet.Base.Assoc.{eq_bytes, put}
use jnet.Base.Int.{pos, negsuc}
use jnet.Buffer.{Buffer, contents}
use jnet.Buffer.Layout.{IsValid}
use jnet.Buffer.Growth
use jnet.Net.Http.{
  returns, complete, HttpRequest, clear_msg, clear_request, try_decode_request, try_decode_response,
  decode_args, args_loop, until,
}
use jnet.Net.Http.Text.{
  bytes_of, space, crlf, two_crlf, starts_with, find, find_at, atoi, c_str, decimal, Without,
}
use jnet.Net.Http.Args.{put_pieces, split_amp, decode_args-put_pieces}
use jnet.Net.Http.Decode.{IsFresh, decoded, of_line, try_decode_request-request_text}
use jnet.Net.Http.RequestText.{request_text, OneLine}
use jnet.Net.Http.Headers.{Lost, try_decode_request-Lost}
use jnet.Net.Http.Response.{try_decode_response-status_line}
use jnet.Net.Http.Encode.{encoded, request_line}
use jnet.Net.Http.Echo.{Fits, try_decode_request-encoded}
use jnet.Net.Http.Server.{
  HttpConn, clear_response, clear_data, closes, calls, handle_read, HttpServer, on_request,
  dispatch,
}
use jnet.Net.Http.Server.Exchange.{dispatch-on_request, handle_read-request_text, handle_read-first}

abbrev get : List ℕ
get = bytes_of "GET"

abbrev query : List ℕ
query = bytes_of "/a?k=v&x"

abbrev version : List ℕ
version = bytes_of "HTTP/1.1"

abbrev more : List ℕ
more = bytes_of "GE"

args-test :
    decode_args (bytes_of "/a?k=v&x&=z&k=w") []
    ≡ (bytes_of "/a", (bytes_of "k", bytes_of "w") ∷ (bytes_of "x", []) ∷ [])
unfolding decode_args find find_at starts_with args_loop until put eq_bytes
args-test = refl

decode_args-put_pieces_example :
    decode_args (bytes_of "/a?k=v&x") []
    ≡ (bytes_of "/a", put_pieces (split_amp (bytes_of "k=v&x")) [])
decode_args-put_pieces_example =
    decode_args-put_pieces (bytes_of "/a") (bytes_of "k=v&x") [] (cc, (cc, tt))

clear_msg-IsFresh : IsFresh clear_msg
unfolding clear_msg
clear_msg-IsFresh = record { undecoded = refl; no_length = refl; no_headers = refl }

clear_request-IsFresh : IsFresh clear_request.msg
unfolding clear_request
clear_request-IsFresh = clear_msg-IsFresh

clear_response-IsFresh : IsFresh clear_response.msg
unfolding clear_response
clear_response-IsFresh = clear_msg-IsFresh

get-Without-space : Without space get
get-Without-space = (cc, (cc, (cc, tt)))

query-Without-space : Without space query
query-Without-space = (cc, (cc, (cc, (cc, (cc, (cc, (cc, (cc, tt))))))))

get-OneLine : OneLine get query version
get-OneLine = (
  (cc, (cc, (cc, tt))),
  (cc, (cc, (cc, (cc, (cc, (cc, (cc, (cc, tt)))))))),
  (cc, (cc, (cc, (cc, (cc, (cc, (cc, (cc, tt)))))))),
)

try_decode_request-request_text_example :
    try_decode_request clear_request (request_text get query version more)
    ≡ returns (of_line clear_request get query version, complete)
try_decode_request-request_text_example =
    try_decode_request-request_text clear_request get query version more clear_request-IsFresh
      get-OneLine get-Without-space query-Without-space refl (omega arith)

abbrev with_header : List ℕ
with_header = bytes_of "GET / HTTP/1.1\r\nHost: h\r\n\r\n"

undecoded : clear_request.msg.is_complete ≡ false
undecoded = clear_request-IsFresh.undecoded

no_length : clear_request.msg.content_len ≡ 0
no_length = clear_request-IsFresh.no_length

line-end : find with_header crlf 0 ≡ some 14
unfolding find find_at starts_with
line-end = refl

blank-line : find with_header two_crlf 0 ≡ some 23
unfolding find find_at starts_with
blank-line = refl

try_decode_request-Lost-test : Lost (try_decode_request clear_request with_header)
try_decode_request-Lost-test =
    try_decode_request-Lost clear_request with_header 14 23 undecoded no_length line-end blank-line
      (omega arith)

abbrev ok_version : List ℕ
ok_version = bytes_of "H"

abbrev ok_code : List ℕ
ok_code = bytes_of "200"

abbrev ok_word : List ℕ
ok_word = bytes_of "OK"

try_decode_response-status_line-test :
    try_decode_response clear_response (request_text ok_version ok_code ok_word [])
    ≡ returns (
      record {
        msg = record (decoded clear_response.msg 8) { version = ok_version };
        status = atoi (bytes_of "OK\r\n");
        status_word = bytes_of "OK\r\n\r\n";
      },
      complete,
    )
try_decode_response-status_line-test =
    try_decode_response-status_line clear_response ok_version ok_code ok_word []
      clear_response-IsFresh ((cc, tt), (cc, (cc, (cc, tt))), (cc, (cc, tt))) (cc, tt)
      (cc, (cc, (cc, tt)))

-- The status of a response `H 200 OK` is read as 0.
ok-test : atoi (bytes_of "OK\r\n") ≡ pos 0
unfolding atoi
ok-test = refl

abbrev short : HttpRequest
short = record {
  msg = record {
    headers = (bytes_of "A", bytes_of "b") ∷ [];
    version = bytes_of "H";
    body = bytes_of "xy";
    is_complete = false;
    content_len = 0;
    scanned = 0;
  };
  args = [];
  method = bytes_of "G";
  uri = bytes_of "/";
  query_uri = bytes_of "/";
}

encoded-test :
    encoded short
    ≡ bytes_of "G / H\r\nA: b\r\nConnection: Keep-Alive\r\nContent-Length: 2\r\n\r\nxy"
unfolding flatten request_line decimal c_str
encoded-test = refl

length-short : length (encoded short) ≡ 60
length-short = ap length encoded-test

abbrev empty : Buffer
empty = record { buf = []; b = 0; e = 0; cap = 0; exp = 4096; extra = 0 }

short-Fits : Fits short
short-Fits = record { method = (cc, tt); query = (cc, tt); version = (cc, tt); short = omega arith }

try_decode_request-encoded_example : Lost (try_decode_request clear_request (encoded short))
try_decode_request-encoded_example =
    try_decode_request-encoded short clear_request short-Fits ((cc, tt), (cc, tt), (cc, tt))
      ((cc, tt), tt) undecoded no_length (omega (arith, length-short))

abbrev server : HttpServer
server = record { cbs = []; defcb = 7 }

dispatch-on_request-test : dispatch (on_request get query 3 server) clear_request ≡ (
    if eq_bytes get clear_request.method && eq_bytes query clear_request.uri
    then 3
    else dispatch server clear_request)
dispatch-on_request-test = dispatch-on_request server get query 3 clear_request

-- A buffer that holds exactly a text.
abbrev holding : List ℕ → Buffer
holding text = record {
  buf = text;
  b = 0;
  e = length text;
  cap = length text;
  exp = 4096;
  extra = 0;
}

abbrev conn : List ℕ → HttpConn
conn text = record {
  peer_port = negsuc 99;
  has_context = true;
  input = holding text;
  output = empty;
  request = clear_request;
  response = clear_response;
}

pipelined-IsValid : IsValid (conn (request_text get query version more)).input
pipelined-IsValid = omega arith

handle_read-request_text-test :
    (d : HttpConn) × (handle_read (conn (request_text get query version more)) ≡ returns (d, calls))
    × (d.request.method ≡ get)
    × (d.request.uri ≡ (decode_args query clear_request.args).0)
    × ((e : HttpConn) × (clear_data d ≡ returns e)
        × (contents e.input ≡ more)
        × IsValid e.input
        × (e.request ≡ clear_request))
handle_read-request_text-test =
    handle_read-request_text (conn (request_text get query version more)) get query version more
      refl refl pipelined-IsValid refl clear_request-IsFresh get-OneLine get-Without-space
      query-Without-space refl (omega arith)

handle_read-first-test : (d : HttpConn) × (handle_read (conn more) ≡ returns (d, closes))
handle_read-first-test =
    handle_read-first (conn more) refl refl undecoded no_length (cc, (cc, tt)) (cc, (cc, tt)) refl
