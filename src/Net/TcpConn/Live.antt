-- ===== src/Net/TcpConn/Live.antt =====
-- The bytes that wait in the output buffer of net/tcpconn.cc, and the socket's readiness.
use jnet.Base.{
  ℕ, ◌^◌, ◌≤◌, ◌≡◌, refl, sym, ap, ◌∙◌, inl, inr, false, not, Option, some, List, [], ◌∷◌, ◌++◌,
  append_assoc, append-nil, arith, if◌then◌else◌, length, Bool-cases, ℕ_discrete, take-append-drop,
  length-drop,
}
use jnet.Buffer.{Buffer, contents, get_size, clear, consume}
use jnet.Buffer.Layout.{IsValid, get_size_lem}
use jnet.Buffer.Contents.{HasRoom, consume_lem, absorb_lem}
use jnet.Net.Channel.{Channel, is_writing, enable_write}
use jnet.Net.TcpConn.{TcpConn, WriteResult, Sent, i_send, after_send, send_buffer, keep_rest}
use jnet.Net.TcpConn.Writes.{now_writing, i_send-SentPrefix}
use jnet.Net.TcpConn.Stream.{stream, IsLive, Roomy}

-- What sending the message buffer leaves: all its bytes are behind those sent before, and those that
-- wait have the channel waiting for the socket.
abbrev pub Delivers : TcpConn → List ℕ → Option (TcpConn × Buffer) → Type 0
Delivers c bs o =
    (d : TcpConn) × (left : Buffer) × (o ≡ some (d, left))
    × (stream d ≡ stream c ++ bs)
    × (contents left ≡ [])
    × IsValid d.output
    × IsLive d

pub no-bytes : (xs : List ℕ) → length xs ≡ 0 → xs ≡ []
no-bytes [] h = refl
no-bytes (x ∷ xs) h = absurd (omega arith)

keep_rest-Delivers :
    (c : TcpConn) (ch : Channel) (m : Buffer)
    → c.channel ≡ some ch
    → IsLive c
    → IsValid c.output
    → IsValid m
    → c.output.cap ≤ 2 ^ 61
    → m.cap ≤ 2 ^ 61
    → HasRoom c.output (length (contents m))
    → Delivers c (contents m) (keep_rest c m)
unfolding keep_rest
keep_rest-Delivers c ch m open_ch live v w small short room = elim (ℕ_discrete (get_size m) 0) [
  | yes nothing ↦
      let gone = no-bytes (contents m) (sym (get_size_lem m w) ∙ nothing) in
      (c, m, ground arith, rw gone (sym (append-nil _)), gone, v, live)
  | no some_bytes ↦
      let (t, left, done, bytes, gone, tv, rv, _, _) = absorb_lem c.output m v w small short room in
      let d = record c { output = t } in
      let ch' = if not (is_writing ch) then (enable_write ch).0 else ch in
      (
        record d { channel = some ch' },
        left,
        ground (arith, done),
        ap (λ b. c.wire ++ b) bytes ∙ sym (append_assoc c.wire (contents c.output) (contents m)),
        gone,
        tv,
        inr (ch', refl, now_writing ch),
      )
]

consume-cap : (s : Buffer) (n : ℕ) → (consume s n).cap ≤ s.cap
unfolding consume clear
consume-cap s n = ground arith

-- A live connection whose channel does not wait has nothing to send.
live-idle :
    (c : TcpConn) (ch : Channel)
    → c.channel ≡ some ch
    → IsLive c
    → is_writing ch ≡ false
    → contents c.output ≡ []
live-idle c ch open_ch (inl nothing) idle = nothing
live-idle c ch open_ch (inr (ch', same, writing)) idle = cc

-- `Send(Buffer&)` on an open connection whose waiting bytes have the channel waiting for the socket,
-- with kernel answers that let the loop of `ISend` end, both buffers valid and of at most 2 ^ 61
-- bytes, and room in the output buffer: the message buffer is emptied, all its bytes come behind
-- those that were sent before, and the bytes that wait still have the channel waiting for the socket.
pub send_buffer-Delivers :
    (script : List WriteResult) (c : TcpConn) (ch : Channel) (r : Sent) (m : Buffer)
    → c.channel ≡ some ch
    → i_send script ch (contents m) ≡ some r
    → IsLive c
    → IsValid c.output
    → IsValid m
    → c.output.cap ≤ 2 ^ 61
    → m.cap ≤ 2 ^ 61
    → Roomy c.output (length (contents m))
    → Delivers c (contents m) (send_buffer script c m)
unfolding send_buffer
send_buffer-Delivers script c ch r m open_ch sent live v w small short room =
    elim (Bool-cases (is_writing ch)) [
      | inl writing ↦
          let (t, left, done, bytes, gone, tv, rv, _, _) =
            absorb_lem c.output m v w small short (room (length (contents m)) (omega arith)) in
          (
            record c { output = t },
            left,
            ground (arith, done),
            ap (λ b. c.wire ++ b) bytes
                ∙ sym (append_assoc c.wire (contents c.output) (contents m)),
            gone,
            tv,
            inr (ch, open_ch, writing),
          )
      | inr idle ↦ elim (ℕ_discrete (get_size m) 0) [
        | yes nothing ↦
            let gone = no-bytes (contents m) (sym (get_size_lem m w) ∙ nothing) in
            (c, m, ground arith, rw gone (sym (append-nil _)), gone, v, live)
        | no some_bytes ↦
            let p = i_send-SentPrefix script ch (contents m) r sent in
            let none_wait = live-idle c ch open_ch live idle in
            let (left_bytes, valid, _) = consume_lem m r.sended w p.short in
            let (d, left, done, bytes, gone, dv, dl) =
              keep_rest-Delivers (after_send c r) r.channel (consume m r.sended) refl
                (inl none_wait) v valid small (omega (arith, consume-cap m r.sended, short))
                (room _ (omega (arith, ap length left_bytes, length-drop r.sended (contents m)))) in
            (
              d,
              left,
              ground (arith, done),
              bytes
                  ∙ rw (none_wait, left_bytes, p.bytes)
                      (simp (append-nil, append_assoc, take-append-drop)),
              gone,
              dv,
              dl,
            )
      ]
    ]
