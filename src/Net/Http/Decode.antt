-- ===== src/Net/Http/Decode.antt =====
-- What `HttpRequest::TryDecode` of net/http.cc makes of a request line.
use jnet.Base.{
  ℕ, zero, suc, ◌+◌, ◌-◌, ◌^◌, ◌≤◌, ◌<◌, ◌≡◌, refl, sym, ap, ◌∙◌, true, false, some, List, [], ◌∷◌,
  ◌++◌, arith, length, take, drop, drop-drop,
}
use jnet.Base.Bytes.{to_u64}
use jnet.Base.Assoc.{bytes_key, lookup}
use jnet.Net.Http.{
  returns, complete, Dict, HttpMsg, get_value_from_map, decode_header, try_decode_msg, HttpRequest,
  decode_args, starts_with_slash, try_decode_request,
}
use jnet.Net.Http.Text.{bytes_of, space, crlf, two_crlf, find, find_at-first, substr, atoi, Without}
use jnet.Net.Http.Places.{drop-behind, take-front, find-start, find-drop, substr-drop}
use jnet.Net.Http.RequestText.{
  request_text, OneLine, line_length, find-crlf, find-two_crlf, length-request_text,
}

decode_header-none :
    (fuel : ℕ) (buf : List ℕ) (start end : ℕ) (headers : Dict)
    → end ≤ start
    → 0 < fuel
    → decode_header fuel buf start end headers ≡ returns headers
unfolding decode_header
decode_header-none zero buf start end headers le h = absurd (omega arith)
decode_header-none (suc fuel) buf start end headers le h = ground arith

no-length : get_value_from_map [] (bytes_of "content-length") ≡ []
unfolding get_value_from_map lookup
no-length = refl

length-zero : to_u64 (atoi []) ≡ 0
unfolding atoi to_u64
length-zero = refl

-- A message before its decoding.
pub record IsFresh (m : HttpMsg) : Type 0 where
  pub undecoded : m.is_complete ≡ false
  pub no_length : m.content_len ≡ 0
  pub no_headers : m.headers ≡ []

abbrev pub decoded : HttpMsg → ℕ → HttpMsg
decoded m p = record m {
  headers = [];
  content_len = 0;
  scanned = p + 4;
  body = [];
  is_complete = true;
}

-- The message of a first line with the blank line at once behind it.
pub try_decode_msg-line :
    (m : HttpMsg) (buf : List ℕ) (p : ℕ)
    → IsFresh m
    → find buf crlf 0 ≡ some p
    → find buf two_crlf 0 ≡ some p
    → p + 4 ≤ length buf
    → try_decode_msg m buf ≡ returns (decoded m p, complete, p)
unfolding try_decode_msg
try_decode_msg-line m buf p fresh line blank le =
    let head =
      decode_header-none (length buf) buf (p + 1 + 2) p m.headers (omega arith) (omega arith) in
    let body = substr-drop buf (p + 4) 0 (drop (p + 4) buf) le refl in
    ground (
      arith, line, blank, head, body, fresh.undecoded, fresh.no_length, fresh.no_headers, no-length,
      length-zero,
    )

-- A request whose parts are found.
try_decode_request-parts :
    (r : HttpRequest) (buf : List ℕ) (m : HttpMsg) (i j stop : ℕ) (method query version : List ℕ)
    → try_decode_msg r.msg buf ≡ returns (m, complete, stop)
    → find buf (space ∷ []) 0 ≡ some i
    → find buf (space ∷ []) (i + 1) ≡ some j
    → j + 1 ≤ stop
    → i + 1 ≤ j
    → substr buf 0 (some i) ≡ some method
    → substr buf (i + 1) (some (j - (i + 1))) ≡ some query
    → substr buf (j + 1) (some (stop - (j + 1))) ≡ some version
    → starts_with_slash query ≡ true
    → try_decode_request r buf
      ≡ returns (
        record {
          msg = record m { version = version };
          args = (decode_args query r.args).1;
          method = method;
          uri = (decode_args query r.args).0;
          query_uri = query;
        },
        complete,
      )
unfolding try_decode_request
try_decode_request-parts r buf m i j stop method query version msg at_i at_j le le' a b c slash =
    ground (arith, msg, at_i, at_j, a, b, c, slash)

pub try_decode_msg-request_text :
    (m : HttpMsg) (method query version rest : List ℕ)
    → IsFresh m
    → OneLine method query version
    → try_decode_msg m (request_text method query version rest)
      ≡ returns
          (decoded m (line_length method query version), complete, line_length method query version)
try_decode_msg-request_text m method query version rest fresh w =
    try_decode_msg-line m (request_text method query version rest)
      (line_length method query version) fresh (find-crlf method query version rest w)
      (find-two_crlf method query version rest w) (length-request_text method query version rest)

-- The two spaces of the line, and the texts behind them.
pub drop-query :
    (method query version rest : List ℕ)
    → drop (length method + 1) (request_text method query version rest)
      ≡ query ++ space ∷ (version ++ (two_crlf ++ rest))
drop-query method query version rest =
    drop-behind method (query ++ space ∷ (version ++ (two_crlf ++ rest))) space

pub drop-version :
    (method query version rest : List ℕ)
    → drop (length method + 1 + length query + 1) (request_text method query version rest)
      ≡ version ++ (two_crlf ++ rest)
drop-version method query version rest =
    sym (
      drop-drop (length method + 1) (length query + 1) (length method + 1 + length query + 1)
        (request_text method query version rest) (omega arith))
    ∙ ap (drop (length query + 1)) (drop-query method query version rest)
    ∙ drop-behind query (version ++ (two_crlf ++ rest)) space

pub find-first_space :
    (method query version rest : List ℕ)
    → Without space method
    → find (request_text method query version rest) (space ∷ []) 0 ≡ some (length method)
find-first_space method query version rest w =
    find-start (request_text method query version rest) (space ∷ []) (some (length method)) (
      find_at-first space [] 0 method (query ++ space ∷ (version ++ (two_crlf ++ rest))) w
      ∙ ap some (omega arith))

pub find-second_space :
    (method query version rest : List ℕ)
    → Without space query
    → find (request_text method query version rest) (space ∷ []) (length method + 1)
      ≡ some (length method + 1 + length query)
find-second_space method query version rest w =
    find-drop (request_text method query version rest) (space ∷ []) (length method + 1)
      (query ++ space ∷ (version ++ (two_crlf ++ rest))) (some (length method + 1 + length query))
      (drop-query method query version rest)
      (find_at-first space [] (length method + 1) query (version ++ (two_crlf ++ rest)) w)

-- The request of a first line.
abbrev pub of_line : HttpRequest → List ℕ → List ℕ → List ℕ → HttpRequest
of_line r method query version = record {
  msg = record (decoded r.msg (line_length method query version)) { version = version };
  args = (decode_args query r.args).1;
  method = method;
  uri = (decode_args query r.args).0;
  query_uri = query;
}

-- A request for a fresh record, with a first line `method SP query SP version` whose method and query
-- have no space and no carriage return, whose version has no carriage return and whose query starts
-- with a slash, a blank line at once behind it, and any bytes after that, less than 2 ^ 31 bytes in
-- all: it is complete, with these three parts, the address and the arguments of the query, no headers
-- and no body, and it ends with the blank line.
pub try_decode_request-request_text :
    (r : HttpRequest) (method query version rest : List ℕ)
    → IsFresh r.msg
    → OneLine method query version
    → Without space method
    → Without space query
    → starts_with_slash query ≡ true
    → length (request_text method query version rest) < 2 ^ 31
    → try_decode_request r (request_text method query version rest)
      ≡ returns (of_line r method query version, complete)
try_decode_request-request_text r method query version rest fresh line in_method in_query slash
      small =
    let buf = request_text method query version rest in
    let long = length-request_text method query version rest in
    let i = length method in
    let j = length method + 1 + length query in
    let behind = version ++ (two_crlf ++ rest) in
    try_decode_request-parts r buf (decoded r.msg (line_length method query version)) i j
      (line_length method query version) method query version
      (try_decode_msg-request_text r.msg method query version rest fresh line)
      (find-first_space method query version rest in_method)
      (find-second_space method query version rest in_query) (omega arith) (omega arith)
      (substr-drop buf 0 i buf (omega arith) refl
        ∙ ap some (take-front method (space ∷ (query ++ space ∷ behind))))
      (substr-drop buf (i + 1) (j - (i + 1)) (query ++ space ∷ behind) (omega (arith, long))
          (drop-query method query version rest)
        ∙ ap some (
            ap (λ n. take n (query ++ space ∷ behind)) (omega arith)
            ∙ take-front query (space ∷ behind)))
      (substr-drop buf (j + 1) (line_length method query version - (j + 1)) behind
          (omega (arith, long)) (drop-version method query version rest)
        ∙ ap some (ap (λ n. take n behind) (omega arith) ∙ take-front version (two_crlf ++ rest)))
      slash
