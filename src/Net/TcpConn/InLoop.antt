-- ===== src/Net/TcpConn/InLoop.antt =====
-- `SendInLoop` of net/tcpconn.cc and the socket's readiness, with and without an error of `write`.
use jnet.Base.{
  ℕ, ◌^◌, ◌≤◌, ◌≡◌, refl, ap, ◌∙◌, inl, inr, true, false, some, List, [], ◌∷◌, ◌++◌, append-nil,
  arith, length, Bool-cases, drop, length-drop,
}
use jnet.Buffer.{Buffer, contents, is_empty}
use jnet.Buffer.Layout.{IsValid, length-contents}
use jnet.Buffer.Contents.{HasRoom}
use jnet.Net.Channel.{Channel, is_writing}
use jnet.Net.TcpConn.{
  TcpConn, WriteResult, write_error, nothing_sent, send_in_loop, Sent, i_send, after_send,
}
use jnet.Net.TcpConn.Writes.{NoError, i_send_complete}
use jnet.Net.TcpConn.Stream.{IsLive, Roomy, buffer_rest_lem, empty-contents}
use jnet.Net.TcpConn.Live.{no-bytes}

i_send-error :
    (script : List WriteResult) (ch : Channel) (x : ℕ) (xs : List ℕ)
    → i_send (write_error ∷ script) ch (x ∷ xs) ≡ some (nothing_sent ch)
unfolding i_send
i_send-error script ch x xs = refl

-- `SendInLoop` on an open connection that has nothing waiting and whose channel does not wait for the
-- socket, where `write` answers with an error and the message has a byte, with a message and a valid
-- output buffer of at most 2 ^ 61 bytes and room in that buffer: the whole message stays in the
-- output buffer and nothing waits for the socket to send it.
pub send_in_loop-strands :
    (script : List WriteResult) (c : TcpConn) (ch : Channel) (x : ℕ) (xs : List ℕ)
    → c.channel ≡ some ch
    → is_writing ch ≡ false
    → is_empty c.output ≡ true
    → IsValid c.output
    → c.output.cap ≤ 2 ^ 61
    → length (x ∷ xs) ≤ 2 ^ 61
    → HasRoom c.output (length (x ∷ xs))
    → (d : TcpConn) × (send_in_loop (write_error ∷ script) c (x ∷ xs) ≡ some d)
      × (contents d.output ≡ x ∷ xs)
      × (d.wire ≡ c.wire)
      × ¬ IsLive d
unfolding send_in_loop
send_in_loop-strands script c ch x xs open_ch idle empty v small short room =
    let (d, done, bytes, valid, same, kept, taken) =
      buffer_rest_lem (after_send c (nothing_sent ch)) (x ∷ xs) v small short room in
    let all = kept ∙ ap (λ b. b ++ (x ∷ xs)) (empty-contents c.output v empty) in
    (
      d,
      ground (arith, done, i_send-error script ch x xs),
      all,
      taken ∙ append-nil c.wire,
      λ live. not_live d same all live,
    )
  where
    not_live : (d : TcpConn) → d.channel ≡ some ch → contents d.output ≡ x ∷ xs → ¬ IsLive d
    not_live d same all (inl nothing) = cc
    not_live d same all (inr (ch', same', writing)) = cc

empty_when : (s : Buffer) → IsValid s → contents s ≡ [] → is_empty s ≡ true
unfolding is_empty
empty_when s v h =
    let z : s.e ≡ s.b = omega (arith, v, length-contents s v, ap length h) in ground arith

busy-IsLive :
    (c d : TcpConn)
    → IsLive c
    → IsValid c.output
    → is_empty c.output ≡ false
    → d.channel ≡ c.channel
    → IsLive d
busy-IsLive c d (inl nothing) v busy same = absurd (ground (arith, empty_when c.output v nothing))
busy-IsLive c d (inr (ch, o, writing)) v busy same = inr (ch, same ∙ o, writing)

-- `SendInLoop` on an open connection whose waiting bytes have the channel waiting for the socket,
-- where no answer of `write` is an error or a count of 0 and they let its loop end, with a message
-- and a valid output buffer of at most 2 ^ 61 bytes and room in that buffer: the bytes that wait
-- afterwards still have the channel waiting for the socket.
pub send_in_loop-IsLive :
    (script : List WriteResult) (c : TcpConn) (ch : Channel) (r : Sent) (message : List ℕ)
    → c.channel ≡ some ch
    → i_send script ch message ≡ some r
    → NoError script
    → IsLive c
    → IsValid c.output
    → c.output.cap ≤ 2 ^ 61
    → length message ≤ 2 ^ 61
    → Roomy c.output (length message)
    → (d : TcpConn) × (send_in_loop script c message ≡ some d) × IsLive d
unfolding send_in_loop
send_in_loop-IsLive script c ch r message open_ch sent ok live v small short roomy =
    elim (Bool-cases (is_empty c.output)) [
      | inl empty ↦
          let (d, done, bytes, valid, same, kept, taken) =
            buffer_rest_lem (after_send c r) (drop r.sended message) v small
              (omega (arith, length-drop r.sended message))
              (roomy (length (drop r.sended message))
                (omega (arith, length-drop r.sended message))) in
          (
            d,
            ground (arith, done),
            elim (i_send_complete script ch message r ok sent) [
              | inl all ↦ inl (
                  kept
                  ∙ rw (empty-contents c.output v empty) (
                      no-bytes (drop r.sended message)
                        (omega (arith, length-drop r.sended message))))
              | inr writing ↦ inr (r.channel, same, writing)
            ],
          )
      | inr busy ↦
          let (d, done, bytes, valid, same, kept, taken) =
            buffer_rest_lem c message v small short (roomy (length message) (omega arith)) in
          (d, ground (arith, done), busy-IsLive c d live v busy same)
    ]
