-- ===== src/Net/Http/RequestText.antt =====
-- The text of a request line (net/http.cc): its length, and where a search finds its ends.
use jnet.Base.{
  ℕ, ◌+◌, ◌≤◌, ◌≡◌, sym, ap, ◌∙◌, some, List, [], ◌∷◌, ◌++◌, append_assoc, arith, length,
  length-append,
}
use jnet.Base.Assoc.{bytes_key}
use jnet.Net.Http.Text.{space, crlf, two_crlf, find, find_at, find_at-first, Without}
use jnet.Net.Http.Places.{find-start, Without-append}

-- A request line as `HttpRequest::Encode` writes it, with no header behind it.
abbrev pub request_text : List ℕ → List ℕ → List ℕ → List ℕ → List ℕ
request_text method query version rest =
    method ++ space ∷ (query ++ space ∷ (version ++ (two_crlf ++ rest)))

pub request_text-append :
    (method query version rest : List ℕ)
    → request_text method query version rest
      ≡ (method ++ space ∷ (query ++ space ∷ version)) ++ (two_crlf ++ rest)
request_text-append method query version rest =
    ap (λ t. method ++ space ∷ t) (sym (append_assoc query (space ∷ version) (two_crlf ++ rest)))
    ∙ sym (append_assoc method (space ∷ (query ++ space ∷ version)) (two_crlf ++ rest))

-- The first line has no carriage return.
abbrev pub OneLine : List ℕ → List ℕ → List ℕ → Type 0
OneLine method query version = Without 13 method × Without 13 query × Without 13 version

abbrev pub line_length : List ℕ → List ℕ → List ℕ → ℕ
line_length method query version = length method + 1 + length query + 1 + length version

pub length-line :
    (method query version : List ℕ)
    → length (method ++ space ∷ (query ++ space ∷ version)) ≡ line_length method query version
length-line method query version = omega (
  arith,
  length-append method (space ∷ (query ++ space ∷ version)),
  length-append query (space ∷ version),
)

pub Without-line :
    (method query version : List ℕ)
    → OneLine method query version
    → Without 13 (method ++ space ∷ (query ++ space ∷ version))
Without-line method query version (a, b, c) =
    Without-append 13 method (space ∷ (query ++ space ∷ version)) a
      (cc, Without-append 13 query (space ∷ version) b (cc, c))

-- Where the line and the message's front end.
pub find-line :
    (method query version rest tail : List ℕ)
    → OneLine method query version
    → find_at
        (13 ∷ tail)
        0
        ((method ++ space ∷ (query ++ space ∷ version)) ++ ((13 ∷ tail) ++ rest))
      ≡ some (line_length method query version)
find-line method query version rest tail w =
    find_at-first 13 tail 0 (method ++ space ∷ (query ++ space ∷ version)) rest
      (Without-line method query version w)
    ∙ ap some (omega (arith, length-line method query version))

pub find-crlf :
    (method query version rest : List ℕ)
    → OneLine method query version
    → find (request_text method query version rest) crlf 0 ≡ some (line_length method query version)
find-crlf method query version rest w =
    find-start (request_text method query version rest) crlf
      (some (line_length method query version))
      (ap (find_at crlf 0) (request_text-append method query version rest)
        ∙ find-line method query version (crlf ++ rest) (10 ∷ []) w)

pub find-two_crlf :
    (method query version rest : List ℕ)
    → OneLine method query version
    → find (request_text method query version rest) two_crlf 0
      ≡ some (line_length method query version)
find-two_crlf method query version rest w =
    find-start (request_text method query version rest) two_crlf
      (some (line_length method query version))
      (ap (find_at two_crlf 0) (request_text-append method query version rest)
        ∙ find-line method query version rest (10 ∷ 13 ∷ 10 ∷ []) w)

pub length-request_text :
    (method query version rest : List ℕ)
    → line_length method query version + 4 ≤ length (request_text method query version rest)
length-request_text method query version rest = omega (
  arith,
  length-append method (space ∷ (query ++ space ∷ (version ++ (two_crlf ++ rest)))),
  length-append query (space ∷ (version ++ (two_crlf ++ rest))),
  length-append version (two_crlf ++ rest),
)
