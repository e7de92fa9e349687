-- ===== src/Net/Http/Response.antt =====
-- What `HttpResponse::TryDecode` of net/http.cc makes of a status line.
use jnet.Base.{
  ℕ, ◌+◌, ◌-◌, ◌≤◌, ◌<◌, ◌≡◌, refl, ap, ◌∙◌, some, List, [], ◌∷◌, ◌++◌, arith, length, take,
}
use jnet.Net.Http.{returns, complete, HttpMsg, try_decode_msg, HttpResponse, try_decode_response}
use jnet.Net.Http.Text.{space, two_crlf, find, substr, atoi, Without}
use jnet.Net.Http.Places.{take-front, substr-drop}
use jnet.Net.Http.Decode.{
  IsFresh, decoded, try_decode_msg-request_text, drop-version, find-first_space, find-second_space,
}
use jnet.Net.Http.RequestText.{request_text, OneLine, line_length, length-request_text}

try_decode_response-parts :
    (r : HttpResponse) (buf : List ℕ) (m : HttpMsg) (i j stop : ℕ) (version code word : List ℕ)
    → try_decode_msg r.msg buf ≡ returns (m, complete, stop)
    → find buf (space ∷ []) 0 ≡ some i
    → find buf (space ∷ []) (i + 1) ≡ some j
    → 1 < stop
    → i + 1 ≤ j + 1
    → substr buf 0 (some i) ≡ some version
    → substr buf (j + 1) (some (j + 1 - (i + 1))) ≡ some code
    → substr buf (j + 1) (some (stop - 1)) ≡ some word
    → try_decode_response r buf
      ≡ returns (
        record { msg = record m { version = version }; status = atoi code; status_word = word },
        complete,
      )
unfolding try_decode_response
try_decode_response-parts r buf m i j stop version code word msg at_i at_j two le a b c =
    ground (arith, msg, at_i, at_j, a, b, c)

-- A response for a fresh record, with a first line `version SP code SP word` whose version and code
-- have no space, which has no carriage return, a blank line at once behind it, and any bytes after
-- that: it is complete, its status is read from as many bytes of the text behind the second space as
-- the code has, and one more, and its word is the text behind the second space, up to the length of
-- the whole line less one.
pub try_decode_response-status_line :
    (r : HttpResponse) (version code word rest : List ℕ)
    → IsFresh r.msg
    → OneLine version code word
    → Without space version
    → Without space code
    → let behind = word ++ (two_crlf ++ rest) in
      try_decode_response r (request_text version code word rest)
      ≡ returns (
        record {
          msg = record (decoded r.msg (line_length version code word)) { version = version };
          status = atoi (take (length code + 1) behind);
          status_word = take (line_length version code word - 1) behind;
        },
        complete,
      )
try_decode_response-status_line r version code word rest fresh line in_version in_code =
    let buf = request_text version code word rest in
    let long = length-request_text version code word rest in
    let i = length version in
    let j = length version + 1 + length code in
    let behind = word ++ (two_crlf ++ rest) in
    let stop = line_length version code word in
    try_decode_response-parts r buf (decoded r.msg stop) i j stop version
      (take (length code + 1) behind) (take (stop - 1) behind)
      (try_decode_msg-request_text r.msg version code word rest fresh line)
      (find-first_space version code word rest in_version)
      (find-second_space version code word rest in_code) (omega arith) (omega arith)
      (substr-drop buf 0 i buf (omega arith) refl
        ∙ ap some (take-front version (space ∷ (code ++ space ∷ behind))))
      (substr-drop buf (j + 1) (j + 1 - (i + 1)) behind (omega (arith, long))
          (drop-version version code word rest)
        ∙ ap (λ n. some (take n behind)) (omega arith))
      (substr-drop buf (j + 1) (stop - 1) behind (omega (arith, long))
        (drop-version version code word rest))
