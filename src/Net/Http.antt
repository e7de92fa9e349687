-- ===== src/Net/Http.antt =====
-- net/http.h and net/http.cc: the decoding of requests and responses. A text is its bytes. A call
-- returns, throws, never returns, or reads outside a text. The texts that are decoded have less than
-- 2 ^ 31 bytes.
pub mod Text
pub mod Digits
pub mod Places
pub mod Args
pub mod RequestText
pub mod Decode
pub mod Headers
pub mod Response
pub mod Encode
pub mod Echo
pub mod Server
mod Tests
use jnet.Base.{
  ℕ, zero, suc, ◌+◌, ◌-◌, ◌*◌, Bool, true, false, not, ◌&&◌, ◌||◌, Option, none, some, List, [],
  ◌∷◌, ◌++◌, ltb, leb, ◌==◌, if◌then◌else◌, length, take, drop,
}
use jnet.Base.Int.{ℤ}
use jnet.Base.Bytes.{to_u64}
use jnet.Base.Assoc.{Key, bytes_key, eq_bytes, lookup, put}
use Text.{
  bytes_of, space, crlf, two_crlf, find, find_at, next, count, substr, is_space, at_place, atoi,
}

pub data Outcome {ℓ} (A : Type ℓ) : Type ℓ where
  returns : A → Outcome A
  throws hangs undefined : Outcome A

infixl 5 ◌>>=◌
abbrev pub ◌>>=◌ {ℓ κ} : {A : Type ℓ} {B : Type κ} → Outcome A → (A → Outcome B) → Outcome B
returns a >>= f = f a
throws >>= f = throws
hangs >>= f = hangs
undefined >>= f = undefined

-- The result of `substr`, whose exception no one catches.
abbrev pub or_throws : Option (List ℕ) → Outcome (List ℕ)
or_throws none = throws
or_throws (some text) = returns text

-- `HttpMsg::Result`.
pub data Result : Type 0 where
  error complete not_complete continue : Result

-- A map of texts, in the order of its keys.
abbrev pub Dict : Type 0
Dict = List (List ℕ × List ℕ)

pub record HttpMsg : Type 0 where
  pub headers : Dict
  pub version : List ℕ
  pub body : List ℕ
  pub is_complete : Bool
  pub content_len : ℕ
  pub scanned : ℕ

-- `HttpMsg::Clear()`.
unfoldable pub clear_msg : HttpMsg
clear_msg = record {
  headers = [];
  version = bytes_of "HTTP/1.1";
  body = [];
  is_complete = false;
  content_len = 0;
  scanned = 0;
}

abbrev pub ltb_bytes : List ℕ → List ℕ → Bool
ltb_bytes xs [] = false
ltb_bytes [] (y ∷ ys) = true
ltb_bytes (x ∷ xs) (y ∷ ys) = ltb x y || x == y && ltb_bytes xs ys

-- `headers_[name] = value`.
unfoldable pub put_sorted : List ℕ → List ℕ → Dict → Dict
put_sorted name value [] = (name, value) ∷ []
put_sorted name value ((n, v) ∷ m) =
    let rest = put_sorted name value m in
    if eq_bytes n name
    then (name, value) ∷ m
    else if ltb_bytes name n
    then (name, value) ∷ (n, v) ∷ m
    else (n, v) ∷ rest

-- `GetValueFromMap_(m, n)`.
unfoldable pub get_value_from_map : Dict → List ℕ → List ℕ
unfolding lookup
get_value_from_map m n = elim (lookup n m) [ none ↦ [] | some v ↦ v ]

-- The spaces at the front of a text.
abbrev pub spaces : List ℕ → ℕ
spaces [] = 0
spaces (c ∷ cs) = if is_space c then suc (spaces cs) else 0

-- Places in a text are `int`s in the source, from here on: the functions below model the decoding of
-- texts of less than 2 ^ 31 bytes, of which every place is the same as an `int`.

-- The steps of `end` over the spaces in front of it; none is a read outside the text.
unfoldable pub step_back : List ℕ → ℕ → Option ℕ
step_back buf zero = elim (at_place buf zero) [
  | none ↦ none
  | some c ↦ if is_space c then none else some zero
]
step_back buf (suc e) =
    let more = step_back buf e in
    elim (at_place buf (suc e)) [ none ↦ none | some c ↦ if is_space c then more else some (suc e) ]

-- `TrimeSpaceAndToLower(buf, start, end)`, where `end` is none for -1. The second loop does not
-- change its variable: it is left at once or never.
unfoldable pub trime_space_and_to_lower : List ℕ → ℕ → Option ℕ → Outcome (ℕ × ℕ)
trime_space_and_to_lower buf start end =
    let first = start + spaces (drop start buf) in
    if leb start (length buf)
    then elim end [
      | none ↦ undefined
      | some e ↦ elim (step_back buf e) [
        | none ↦ undefined
        | some last ↦ if leb first last then hangs else returns (first, last)
      ]
    ]
    else undefined

-- `DecodeHeader_(buf, start, end)` of less than 2 ^ 31 bytes, with fuel for its rounds, each of which
-- starts further on.
unfoldable pub decode_header : ℕ → List ℕ → ℕ → ℕ → Dict → Outcome Dict
decode_header zero buf start end headers = hangs
decode_header (suc fuel) buf start end headers =
    let i = find buf crlf start in
    let key_end = find buf (bytes_of ":") start in
    let round = (do
      key ← trime_space_and_to_lower buf start key_end
      value ← trime_space_and_to_lower buf (next key_end) i
      name ← or_throws (substr buf key.0 (count (key.1 + 1) (key.0 + 1)))
      text ← or_throws (substr buf value.0 (count (value.1 + 1) (value.0 + 1)))
      decode_header fuel buf (next i + 1) end (put_sorted name text headers)) in
    if ltb start end then round else returns headers

-- `TryDecode_(buf, lineStart, lineEnd)` of less than 2 ^ 31 bytes: the message, the result, and
-- `lineEnd + 1`; `lineStart` is 0.
unfoldable pub try_decode_msg : HttpMsg → List ℕ → Outcome (HttpMsg × Result × ℕ)
try_decode_msg m buf =
    if m.is_complete
    then returns (m, complete, 1)
    else if m.content_len == 0
    then elim (find buf two_crlf 0) [
      | none ↦ returns (m, not_complete, 1)
      | some p ↦
          let stop = next (find buf crlf 0) in
          do
            headers ← decode_header (length buf) buf (stop + 2) p m.headers
            let len = to_u64 (atoi (get_value_from_map headers (bytes_of "content-length")))
            body ← or_throws (substr buf (p + 4) (some len))
            returns (
              record m {
                headers = headers;
                content_len = len;
                scanned = p + 4;
                body = body;
                is_complete = true;
              },
              complete,
              stop - 1,
            )
    ]
    else returns (m, not_complete, 1)

pub record HttpRequest : Type 0 where
  pub msg : HttpMsg
  pub args : Dict
  pub method : List ℕ
  pub uri : List ℕ
  pub query_uri : List ℕ

-- `HttpRequest::Clear()`.
unfoldable pub clear_request : HttpRequest
unfolding clear_msg
clear_request = record {
  msg = clear_msg;
  args = [];
  method = bytes_of "Get";
  uri = [];
  query_uri = [];
}

-- The bytes before the first one that ends the scan, and the rest.
unfoldable pub until : (ℕ → Bool) → List ℕ → List ℕ × List ℕ
until ends [] = ([], [])
until ends (c ∷ cs) =
    let (front, rest) = until ends cs in if ends c then ([], c ∷ cs) else (c ∷ front, rest)

-- `if (c < qs.size() && qs[c] == b) c++`.
abbrev pub skip : ℕ → List ℕ → List ℕ
skip b [] = []
skip b (c ∷ cs) = if c == b then cs else c ∷ cs

abbrev pub ends_key : ℕ → Bool
ends_key c = c == 61 || c == 38

abbrev pub ends_value : ℕ → Bool
ends_value c = c == 38

-- One round of the loop of `DecodeArgs`: the key, the value, and what is left of the text.
abbrev pub args_round : List ℕ → List ℕ × List ℕ × List ℕ
args_round qs =
    let (key, r) = until ends_key qs in
    let (value, r') = until ends_value (skip 61 r) in (key, value, skip 38 r')

abbrev pub put_arg : List ℕ → List ℕ → Dict → Dict
put_arg [] value args = args
put_arg (k ∷ key) value args = put (k ∷ key) value args

-- The loop, with `qs` for the text from `c` on, and fuel for its rounds.
unfoldable pub args_loop : ℕ → List ℕ → Dict → Dict
args_loop fuel [] args = args
args_loop zero (c ∷ cs) args = args
args_loop (suc fuel) (c ∷ cs) args =
    let (key, value, rest) = args_round (c ∷ cs) in args_loop fuel rest (put_arg key value args)

-- `DecodeArgs(buf)`: the part before the question mark, and the arguments behind it.
unfoldable pub decode_args : List ℕ → Dict → List ℕ × Dict
decode_args query args = elim (find query (bytes_of "?") 0) [
  | none ↦ (query, args)
  | some i ↦ let qs = drop (i + 1) query in (take i query, args_loop (length qs) qs args)
]

abbrev pub starts_with_slash : List ℕ → Bool
starts_with_slash [] = false
starts_with_slash (c ∷ cs) = c == 47

-- `HttpRequest::TryDecode(buf)`.
unfoldable pub try_decode_request : HttpRequest → List ℕ → Outcome (HttpRequest × Result)
try_decode_request r buf = do
  (m, result, stop) ← try_decode_msg r.msg buf
  let i = find buf (space ∷ []) 0
  method ← or_throws (substr buf 0 (count (next i) 1))
  let j = find buf (space ∷ []) (next i)
  query ← or_throws (substr buf (next i) (count (next j) (next i + 1)))
  version ← or_throws (substr buf (next j) (count stop (next j)))
  let read = record r { msg = record m { version = version }; method = method; query_uri = query }
  let parts = decode_args query r.args
  (if starts_with_slash query
      then returns (record read { uri = parts.0; args = parts.1 }, result)
      else returns (read, error))

pub record HttpResponse : Type 0 where
  pub msg : HttpMsg
  pub status_word : List ℕ
  pub status : ℤ

-- `HttpResponse::TryDecode(buf)`; `start < end` is `1 < stop`.
unfoldable pub try_decode_response : HttpResponse → List ℕ → Outcome (HttpResponse × Result)
try_decode_response r buf = do
  (m, result, stop) ← try_decode_msg r.msg buf
  let i = find buf (space ∷ []) 0
  let j = find buf (space ∷ []) (next i)
  let line = (do
    version ← or_throws (substr buf 0 (count (next i) 1))
    code ← or_throws (substr buf (next j) (count (next j) (next i)))
    word ← or_throws (substr buf (next j) (some (stop - 1)))
    returns (
      record { msg = record m { version = version }; status = atoi code; status_word = word },
      result,
    ))
  (if ltb 1 stop then line else returns (record r { msg = m }, result))
