-- ===== src/Net/TcpConn/Stream.antt =====
-- The bytes that net/tcpconn.cc sends: none is lost, doubled or overtaken.
use jnet.Base.{
  ℕ, ◌-◌, ◌^◌, ◌≤◌, ◌≡◌, refl, sym, ap, ◌∙◌, ◌⊎◌, inl, inr, true, some, List, [], ◌∷◌, ◌++◌,
  append_assoc, append-nil, arith, ◌&&◌, if◌then◌else◌, length, drop, Bool-cases, take-append-drop,
  length-drop,
}
use jnet.Buffer.{Buffer, contents, is_empty, consume}
use jnet.Buffer.Layout.{IsValid}
use jnet.Buffer.Contents.{HasRoom, append_lem, consume_lem}
use jnet.Net.Channel.{Channel, is_writing, disable_write}
use jnet.Net.TcpConn.{
  TcpConn, WriteResult, Sent, i_send, after_send, buffer_rest, send_in_loop, flush,
}
use jnet.Net.TcpConn.Writes.{i_send-SentPrefix}

-- What the peer has or will get: the bytes in the kernel, then those in the output buffer.
abbrev pub stream : TcpConn → List ℕ
stream c = c.wire ++ contents c.output

-- Room for any part of the message at the end of the output buffer.
abbrev pub Roomy : Buffer → ℕ → Type 0
Roomy s len = (n : ℕ) → n ≤ len → HasRoom s n

pub buffer_rest_lem :
    (c : TcpConn) (m : List ℕ)
    → IsValid c.output
    → c.output.cap ≤ 2 ^ 61
    → length m ≤ 2 ^ 61
    → HasRoom c.output (length m)
    → (d : TcpConn) × (buffer_rest c m ≡ some d)
      × (stream d ≡ stream c ++ m)
      × IsValid d.output
      × (d.channel ≡ c.channel)
      × (contents d.output ≡ contents c.output ++ m)
      × (d.wire ≡ c.wire)
unfolding buffer_rest
buffer_rest_lem c [] v small short room =
    (c, refl, sym (append-nil _), v, refl, sym (append-nil _), refl)
buffer_rest_lem c (x ∷ xs) v small short room =
    let (u, done, bytes, valid, same) = append_lem c.output (x ∷ xs) v small short room in
    (
      record c { output = u },
      ground (arith, done),
      ap (λ b. c.wire ++ b) bytes ∙ sym (append_assoc c.wire (contents c.output) (x ∷ xs)),
      valid,
      refl,
      bytes,
      refl,
    )

pub empty-contents : (s : Buffer) → IsValid s → is_empty s ≡ true → contents s ≡ []
unfolding is_empty
empty-contents s v h = let z : s.e - s.b ≡ 0 = ground arith in rw z refl

-- `SendInLoop` on an open connection, with kernel answers that let its loop end, a message and a
-- valid output buffer of at most 2 ^ 61 bytes, and room in that buffer: the message comes behind all
-- that was sent before, whatever the kernel takes now.
pub send_in_loop-stream :
    (script : List WriteResult) (c : TcpConn) (ch : Channel) (r : Sent) (message : List ℕ)
    → c.channel ≡ some ch
    → i_send script ch message ≡ some r
    → IsValid c.output
    → c.output.cap ≤ 2 ^ 61
    → length message ≤ 2 ^ 61
    → Roomy c.output (length message)
    → (d : TcpConn) × (send_in_loop script c message ≡ some d)
      × (stream d ≡ stream c ++ message)
      × IsValid d.output
unfolding send_in_loop
send_in_loop-stream script c ch r message open_ch sent v small short roomy =
    elim (Bool-cases (is_empty c.output)) [
      | inl empty ↦
          let p = i_send-SentPrefix script ch message r sent in
          let (d, done, bytes, valid, same, kept, taken) =
            buffer_rest_lem (after_send c r) (drop r.sended message) v small
              (omega (arith, length-drop r.sended message))
              (roomy (length (drop r.sended message))
                (omega (arith, length-drop r.sended message))) in
          (
            d,
            ground (arith, done),
            bytes
                ∙ rw (empty-contents c.output v empty, p.bytes)
                    (simp (append-nil, append_assoc, take-append-drop)),
            valid,
          )
      | inr busy ↦
          let (d, done, bytes, valid, same, kept, taken) =
            buffer_rest_lem c message v small short (roomy (length message) (omega arith)) in
          (d, ground (arith, done), bytes, valid)
    ]

-- Bytes that wait in the output buffer have the channel waiting for the socket.
abbrev pub IsLive : TcpConn → Type 0
IsLive c =
    (contents c.output ≡ []) ⊎ ((ch : Channel) × (c.channel ≡ some ch) × (is_writing ch ≡ true))

-- `flush` once `ISend` has returned.
abbrev after_flush : TcpConn → Sent → TcpConn
after_flush c r =
    let out = consume c.output r.sended in
    let d = record (after_send c r) { output = out } in
    if is_empty out && is_writing r.channel
    then record d { channel = some (disable_write r.channel).0 }
    else d

flush-sent :
    (script : List WriteResult) (c : TcpConn) (ch : Channel) (r : Sent)
    → c.channel ≡ some ch
    → i_send script ch (contents c.output) ≡ some r
    → flush script c ≡ some (after_flush c r)
unfolding flush
flush-sent script c ch r open_ch sent = cc

-- `HandleWrite` on a connected connection whose channel waits for the socket and whose output buffer
-- is valid, with kernel answers that let the loop of `ISend` end: it always succeeds, moves bytes
-- from the output buffer to the kernel in order, and keeps the connection live.
pub flush-stream :
    (script : List WriteResult) (c : TcpConn) (ch : Channel) (r : Sent)
    → c.channel ≡ some ch
    → i_send script ch (contents c.output) ≡ some r
    → is_writing ch ≡ true
    → IsValid c.output
    → (d : TcpConn) × (flush script c ≡ some d)
      × (stream d ≡ stream c)
      × IsValid d.output
      × IsLive d
flush-stream script c ch r open_ch sent writing v =
    let p = i_send-SentPrefix script ch (contents c.output) r sent in
    let (left, valid, same) = consume_lem c.output r.sended v p.short in
    let out = consume c.output r.sended in
    let busy = p.writes writing in
    let done = flush-sent script c ch r open_ch sent in
    let moved : (c.wire ++ r.taken) ++ contents out ≡ stream c =
      rw (left, p.bytes) (simp (append_assoc, take-append-drop)) in
    elim (Bool-cases (is_empty out)) [
      | inl empty ↦ (
        record (after_send c r) { output = out; channel = some (disable_write r.channel).0 },
        done ∙ rw (empty, busy) refl,
        moved,
        valid,
        inl (empty-contents out valid empty),
      )
      | inr more ↦ (
        record (after_send c r) { output = out },
        done ∙ rw more refl,
        moved,
        valid,
        inr (r.channel, refl, busy),
      )
    ]
