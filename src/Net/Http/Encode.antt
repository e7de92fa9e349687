-- ===== src/Net/Http/Encode.antt =====
-- The encoding of requests and responses of net/http.cc: the pieces that are appended to a buffer.
use mathlib.Core.List.{flatten}
use jnet.Base.{
  ℕ, suc, ◌+◌, ◌%◌, ◌^◌, ◌≤◌, ◌<◌, ◌≡◌, ap, ◌∙◌, Option, none, some, List, [], ◌∷◌, ◌++◌, arith,
  length, length-append, sub_size,
}
use jnet.Base.Int.{ℤ, pos, negsuc}
use jnet.Buffer.{Buffer, contents, get_size}
use jnet.Buffer.Layout.{length-contents}
use jnet.Buffer.Growth.{IsFresh, append_all, append_all_lem}
use jnet.Net.Http.{Dict, HttpMsg, HttpRequest, HttpResponse}
use jnet.Net.Http.Text.{bytes_of, space, crlf, c_str, printed, decimal}

abbrev pub keep_alive : List ℕ
keep_alive = bytes_of "Connection: Keep-Alive\r\n"

-- `%d`.
abbrev pub signed_decimal : ℤ → List ℕ
signed_decimal (pos n) = decimal 20 n
signed_decimal (negsuc n) = 45 ∷ decimal 20 (suc n)

abbrev pub header_pieces : Dict → List (List ℕ)
header_pieces [] = []
header_pieces ((name, value) ∷ headers) =
    name ∷ bytes_of ": " ∷ value ∷ crlf ∷ header_pieces headers

-- What follows the first line.
abbrev pub message_pieces : HttpMsg → List (List ℕ)
message_pieces m =
    header_pieces m.headers
    ++ (keep_alive
        ∷ printed 1024 (bytes_of "Content-Length: " ++ (decimal 20 (length m.body) ++ crlf))
        ∷ crlf
        ∷ m.body
        ∷ [])

-- The first line in its array of 4096 bytes.
unfoldable pub request_line : HttpRequest → List ℕ
request_line r =
    printed 4096
      (c_str r.method ++ space ∷ (c_str r.query_uri ++ space ∷ (c_str r.msg.version ++ crlf)))

-- The first line in its array of 1024 bytes.
unfoldable pub status_line : HttpResponse → List ℕ
status_line r = printed 1024 (
    c_str r.msg.version
    ++ space ∷ (signed_decimal r.status ++ space ∷ (c_str r.status_word ++ crlf)))

-- The bytes of the `int` that `Encode` returns.
unfoldable pub grown : Buffer → Option Buffer → Option (Buffer × ℕ)
grown s none = none
grown s (some t) = some (t, sub_size (get_size t) (get_size s) % 2 ^ 32)

-- `HttpRequest::Encode(buf)`.
unfoldable pub encode_request : HttpRequest → Buffer → Option (Buffer × ℕ)
encode_request r s = grown s (append_all s (request_line r ∷ message_pieces r.msg))

-- `HttpResponse::Encode(buf)`.
unfoldable pub encode_response : HttpResponse → Buffer → Option (Buffer × ℕ)
encode_response r s = grown s (append_all s (status_line r ∷ message_pieces r.msg))

grown_lem :
    (s u : Buffer) (n : ℕ)
    → IsFresh s
    → IsFresh u
    → length (contents u) ≡ length (contents s) + n
    → n < 2 ^ 31
    → sub_size (get_size u) (get_size s) % 2 ^ 32 ≡ n
unfolding get_size
grown_lem s u n f g h small = omega (
  arith,
  f.valid,
  g.valid,
  f.front,
  g.front,
  length-contents s f.valid,
  length-contents u g.valid,
  h,
)

grown-append_all :
    (s : Buffer) (ps : List (List ℕ))
    → IsFresh s
    → s.exp ≤ 2 ^ 61
    → s.e + length (flatten ps) ≤ 2 ^ 60
    → length (flatten ps) < 2 ^ 31
    → (u : Buffer) × (grown s (append_all s ps) ≡ some (u, length (flatten ps)))
      × (contents u ≡ contents s ++ flatten ps)
unfolding grown
grown-append_all s ps fresh sug total small =
    let (u, done, bytes, fresh_u, exp) = append_all_lem s ps fresh sug total in
    let more = ap length bytes ∙ length-append (contents s) (flatten ps) in
    (
      u,
      ap (grown s) done
          ∙ ap (λ n. some (u, n)) (grown_lem s u (length (flatten ps)) fresh fresh_u more small),
      bytes,
    )

-- The bytes of a request.
abbrev pub encoded : HttpRequest → List ℕ
encoded r = flatten (request_line r ∷ message_pieces r.msg)

-- The same for a response.
pub encode_response_lem :
    (r : HttpResponse) (s : Buffer)
    → IsFresh s
    → s.exp ≤ 2 ^ 61
    → s.e + length (flatten (status_line r ∷ message_pieces r.msg)) ≤ 2 ^ 60
    → length (flatten (status_line r ∷ message_pieces r.msg)) < 2 ^ 31
    → (u : Buffer) × (encode_response r s
        ≡ some (u, length (flatten (status_line r ∷ message_pieces r.msg))))
      × (contents u ≡ contents s ++ flatten (status_line r ∷ message_pieces r.msg))
unfolding encode_response
encode_response_lem r s fresh sug total small =
    grown-append_all s (status_line r ∷ message_pieces r.msg) fresh sug total small
