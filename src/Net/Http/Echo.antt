-- ===== src/Net/Http/Echo.antt =====
-- A request that `HttpRequest::Encode` of net/http.cc wrote, read back by `TryDecode`.
use mathlib.Core.List.{flatten}
use jnet.Base.{
  take-short, ℕ, ◌+◌, ◌^◌, ◌<◌, ◌≤◌, ◌≡◌, refl, sym, ap, subst, ◌∙◌, ◌≢◌, Bool-cases, inl, inr,
  false, some, List, [], ◌∷◌, ◌++◌, append_assoc, append-nil, arith, length, take, drop,
  length-append,
}
use jnet.Net.Http.Digits.{length-decimal}
use jnet.Net.Http.{Dict, HttpRequest, try_decode_request}
use jnet.Net.Http.Text.{
  bytes_of, space, crlf, two_crlf, c_str, printed, decimal, starts_with, find_at, find_at-first,
  find_at-le, Without,
}
use jnet.Net.Http.RequestText.{OneLine, Without-line}
use jnet.Net.Http.Places.{find-start}
use jnet.Net.Http.Headers.{Lost, try_decode_request-Lost}
use jnet.Net.Http.Encode.{keep_alive, encoded, request_line, message_pieces, header_pieces}

-- A search passes bytes that the pattern's first byte is not among.
find_at-skip :
    (h : ℕ) (t : List ℕ) (i : ℕ) (xs ys : List ℕ)
    → Without h xs
    → find_at (h ∷ t) i (xs ++ ys) ≡ find_at (h ∷ t) (i + length xs) ys
unfolding find_at starts_with
find_at-skip h t i [] ys w = ap (λ n. find_at (h ∷ t) n ys) (omega arith)
find_at-skip h t i (x ∷ xs) ys w = ground (arith, find_at-skip h t (i + 1) xs ys w.1)

find-here : (i : ℕ) (ys : List ℕ) → find_at two_crlf i (two_crlf ++ ys) ≡ some i
unfolding find_at starts_with
find-here i ys = refl

-- A blank line that a text has is found.
find-blank :
    (i : ℕ) (xs ys : List ℕ) → (p : ℕ) × (find_at two_crlf i (xs ++ (two_crlf ++ ys)) ≡ some p)
unfolding find_at
find-blank i [] ys = (i, find-here i ys)
find-blank i (x ∷ xs) ys =
    let (p, later) = find-blank (i + 1) xs ys in
    elim (Bool-cases (starts_with two_crlf (x ∷ (xs ++ (two_crlf ++ ys))))) [
      | inl here ↦ (i, ground (arith, here))
      | inr not_here ↦ (p, ground (arith, not_here, later))
    ]

c_str-Without : (xs : List ℕ) → Without 0 xs → c_str xs ≡ xs
unfolding c_str
c_str-Without [] w = refl
c_str-Without (x ∷ xs) w = ground (arith, c_str-Without xs w.1)

-- The names of the headers have no carriage return.
abbrev pub NamesInLine : Dict → Type 0
NamesInLine [] = Unit {0}
NamesInLine ((name, value) ∷ headers) = Without 13 name × NamesInLine headers

-- The text starts with two bytes that are no carriage return.
abbrev StartsInLine : List ℕ → Type 0
StartsInLine xs = (a : ℕ) × (b : ℕ) × (cs : List ℕ) × (xs ≡ a ∷ b ∷ cs) × (13 ≢ a) × (13 ≢ b)

header-StartsInLine :
    (name value rest : List ℕ) → Without 13 name → StartsInLine (name ++ 58 ∷ 32 ∷ rest)
header-StartsInLine [] value rest w = (58, 32, rest, refl, cc, cc)
header-StartsInLine (a ∷ []) value rest w = (a, 58, 32 ∷ rest, refl, w.0, cc)
header-StartsInLine (a ∷ b ∷ name) value rest (u, (v, w)) =
    (a, b, name ++ 58 ∷ 32 ∷ rest, refl, u, v)

flatten-append : (ps qs : List (List ℕ)) → flatten (ps ++ qs) ≡ flatten ps ++ flatten qs
unfolding flatten
flatten-append [] qs = refl
flatten-append (p ∷ ps) qs =
    ap (λ t. p ++ t) (flatten-append ps qs) ∙ sym (append_assoc p (flatten ps) (flatten qs))

message-StartsInLine :
    (headers : Dict) (rest : List ℕ)
    → NamesInLine headers
    → StartsInLine (flatten (header_pieces headers) ++ (67 ∷ 111 ∷ rest))
unfolding flatten
message-StartsInLine [] rest w = (67, 111, rest, refl, cc, cc)
message-StartsInLine ((name, value) ∷ headers) rest (w, ws) =
    let tail = value ++ (crlf ++ flatten (header_pieces headers)) in
    subst StartsInLine (sym (append_assoc name (58 ∷ 32 ∷ tail) (67 ∷ 111 ∷ rest)))
      (header-StartsInLine name value (tail ++ 67 ∷ 111 ∷ rest) w)

-- A blank line that is found behind the first line is found four bytes further on at least.
find-behind :
    (n p : ℕ) (xs : List ℕ)
    → StartsInLine xs
    → find_at two_crlf n (13 ∷ 10 ∷ xs) ≡ some p
    → n + 4 ≤ p
find-behind n p xs (a, b, cs, eq, not_a, not_b) found = omega (
  arith,
  find_at-le two_crlf (n + 1 + 1 + 1 + 1) p cs
      (unfold find_at starts_with in ground (arith, found, eq, not_a, not_b)),
)

abbrev length_line : HttpRequest → List ℕ
length_line r = bytes_of "Content-Length: " ++ decimal 20 (length r.msg.body)

-- A request line that `Encode` writes as it is: no zero byte, and it fits in its array.
pub record Fits (r : HttpRequest) : Type 0 where
  pub method : Without 0 r.method
  pub query : Without 0 r.query_uri
  pub version : Without 0 r.msg.version
  pub short : length r.method + length r.query_uri + length r.msg.version + 4 ≤ 4095

abbrev line : HttpRequest → List ℕ
line r = r.method ++ space ∷ (r.query_uri ++ space ∷ r.msg.version)

abbrev line_of : List ℕ → List ℕ → List ℕ → List ℕ
line_of method query version = method ++ space ∷ (query ++ space ∷ (version ++ crlf))

length-line_of :
    (method query version : List ℕ)
    → length (line_of method query version) ≡ length method + length query + length version + 4
length-line_of method query version = omega (
  arith,
  length-append method (space ∷ (query ++ space ∷ (version ++ crlf))),
  length-append query (space ∷ (version ++ crlf)),
  length-append version crlf,
)

line_of-append :
    (method query version : List ℕ)
    → line_of method query version ≡ (method ++ space ∷ (query ++ space ∷ version)) ++ crlf
line_of-append method query version =
    ap (λ t. method ++ space ∷ t) (sym (append_assoc query (space ∷ version) crlf))
    ∙ sym (append_assoc method (space ∷ (query ++ space ∷ version)) crlf)

request_line-printed :
    (r : HttpRequest)
    → request_line r
      ≡ take 4095 (line_of (c_str r.method) (c_str r.query_uri) (c_str r.msg.version))
unfolding request_line
request_line-printed r = refl

request_line-Fits : (r : HttpRequest) → Fits r → request_line r ≡ line r ++ crlf
request_line-Fits r f =
    request_line-printed r
    ∙ ap (λ t. take 4095 (line_of t (c_str r.query_uri) (c_str r.msg.version)))
        (c_str-Without r.method f.method)
    ∙ ap (λ t. take 4095 (line_of r.method t (c_str r.msg.version)))
        (c_str-Without r.query_uri f.query)
    ∙ ap (λ t. take 4095 (line_of r.method r.query_uri t)) (c_str-Without r.msg.version f.version)
    ∙ take-short 4095 (line_of r.method r.query_uri r.msg.version)
        (omega (arith, f.short, length-line_of r.method r.query_uri r.msg.version))
    ∙ line_of-append r.method r.query_uri r.msg.version

-- What is behind the headers, up to the blank line.
abbrev last_lines : HttpRequest → List ℕ
last_lines r = keep_alive ++ length_line r

last_lines-flatten :
    (d body : List ℕ)
    → length d ≤ 20
    → flatten
        (keep_alive ∷ printed 1024 (bytes_of "Content-Length: " ++ (d ++ crlf)) ∷ crlf ∷ body ∷ [])
      ≡ (keep_alive ++ (bytes_of "Content-Length: " ++ d)) ++ (two_crlf ++ body)
unfolding flatten
last_lines-flatten d body short =
    ap (λ t. keep_alive ++ (bytes_of "Content-Length: " ++ (t ++ (crlf ++ (body ++ [])))))
      (take-short 1007 (d ++ crlf) (omega (arith, length-append d crlf)))
    ∙ ap (λ t. keep_alive ++ (bytes_of "Content-Length: " ++ t))
        (append_assoc d crlf (crlf ++ (body ++ []))
          ∙ ap (λ t. d ++ (two_crlf ++ t)) (append-nil body))

message_pieces-flatten :
    (r : HttpRequest)
    → flatten (message_pieces r.msg)
      ≡ flatten (header_pieces r.msg.headers) ++ (last_lines r ++ (two_crlf ++ r.msg.body))
message_pieces-flatten r =
    flatten-append (header_pieces r.msg.headers) (
      keep_alive
      ∷ printed 1024 (bytes_of "Content-Length: " ++ (decimal 20 (length r.msg.body) ++ crlf))
      ∷ crlf
      ∷ r.msg.body
      ∷ [])
    ∙ ap (λ t. flatten (header_pieces r.msg.headers) ++ t)
        (last_lines-flatten (decimal 20 (length r.msg.body)) r.msg.body
          (length-decimal 20 (length r.msg.body)))

-- The bytes of a request, by their lines.
abbrev behind : HttpRequest → List ℕ
behind r = flatten (header_pieces r.msg.headers) ++ (last_lines r ++ (two_crlf ++ r.msg.body))

encoded-lines : (r : HttpRequest) → Fits r → encoded r ≡ line r ++ (crlf ++ behind r)
unfolding flatten
encoded-lines r f =
    ap (λ t. t ++ flatten (message_pieces r.msg)) (request_line-Fits r f)
    ∙ append_assoc (line r) crlf (flatten (message_pieces r.msg))
    ∙ ap (λ t. line r ++ (crlf ++ t)) (message_pieces-flatten r)

find_at-behind :
    (r : HttpRequest)
    → OneLine r.method r.query_uri r.msg.version
    → find_at two_crlf 0 (line r ++ (crlf ++ behind r))
      ≡ find_at two_crlf (0 + length (line r)) (13 ∷ 10 ∷ behind r)
find_at-behind r w =
    find_at-skip 13 (10 ∷ 13 ∷ 10 ∷ []) 0 (line r) (crlf ++ behind r)
      (Without-line r.method r.query_uri r.msg.version w)

blank-behind :
    (n : ℕ) (headers front body : List ℕ)
    → (p : ℕ) × (find_at two_crlf n (13 ∷ 10 ∷ (headers ++ (front ++ (two_crlf ++ body)))) ≡ some p)
blank-behind n headers front body =
    let (p, found) = find-blank n (crlf ++ (headers ++ front)) body in
    (
      p,
      ap (λ t. find_at two_crlf n (13 ∷ 10 ∷ t))
            (sym (append_assoc headers front (two_crlf ++ body)))
          ∙ found,
    )

-- A request whose first line has no carriage return and no zero byte and fits in its array of 4096
-- bytes, whose header names have no carriage return, and which `Encode` makes less than 2 ^ 31 bytes
-- of: decoding these, into a record that is not complete and has no length, does not come to an end,
-- or reads in front of the text. The reason is the headers that `Encode` always writes.
pub try_decode_request-encoded :
    (r q : HttpRequest)
    → Fits r
    → OneLine r.method r.query_uri r.msg.version
    → NamesInLine r.msg.headers
    → q.msg.is_complete ≡ false
    → q.msg.content_len ≡ 0
    → length (encoded r) < 2 ^ 31
    → Lost (try_decode_request q (encoded r))
try_decode_request-encoded r q f w names undecoded no_length small =
    let (p, found) =
      blank-behind (0 + length (line r)) (flatten (header_pieces r.msg.headers)) (last_lines r)
        r.msg.body in
    subst (λ t. Lost (try_decode_request q t)) (sym (encoded-lines r f))
      (try_decode_request-Lost q (line r ++ (crlf ++ behind r)) (0 + length (line r)) p undecoded
        no_length
        (find-start (line r ++ (crlf ++ behind r)) crlf (some (0 + length (line r))) (
          find_at-first 13 (10 ∷ []) 0 (line r) (behind r)
            (Without-line r.method r.query_uri r.msg.version w)))
        (find-start (line r ++ (crlf ++ behind r)) two_crlf (some p) (find_at-behind r w ∙ found))
        (omega (
          arith,
          find-behind (0 + length (line r)) p (behind r)
              (message-StartsInLine r.msg.headers
                (drop 2 (last_lines r ++ (two_crlf ++ r.msg.body))) names)
              found,
        )))
