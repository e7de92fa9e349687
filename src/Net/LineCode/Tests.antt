-- ===== src/Net/LineCode/Tests.antt =====
-- Lines of net/codec.cc.
use jnet.Base.{◌≡◌, refl, some, [], ◌∷◌, ◌++◌, arith}
use jnet.Buffer.{Buffer, contents}
use jnet.Buffer.Growth.{IsFresh}
use jnet.Net.Http.{returns, throws}
use jnet.Net.LineCode.{try_decode, encode, try_decode-line, try_decode-encode}

try_decode-line-test :
    (try_decode ((65 ∷ 66 ∷ []) ++ 10 ∷ (67 ∷ [])) ≡ returns (65 ∷ 66 ∷ [], 2))
    × (try_decode (65 ∷ 66 ∷ []) ≡ throws)
try_decode-line-test = try_decode-line (65 ∷ 66 ∷ []) (67 ∷ []) (cc, (cc, tt)) (omega arith)

abbrev empty : Buffer
empty = record { buf = []; b = 0; e = 0; cap = 0; exp = 4096; extra = 0 }

empty-IsFresh : IsFresh empty
empty-IsFresh = record { valid = omega arith; front = refl; amortised = omega arith }

try_decode-encode-test :
    (u : Buffer) × (encode (65 ∷ 66 ∷ []) empty ≡ some u)
    × (try_decode (contents u) ≡ returns (65 ∷ 66 ∷ [], 2))
try_decode-encode-test =
    try_decode-encode (65 ∷ 66 ∷ []) empty empty-IsFresh refl refl (omega arith) (cc, (cc, tt))
      (omega arith)
