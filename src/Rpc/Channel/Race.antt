-- ===== src/Rpc/Channel/Race.antt =====
-- Two threads in `CallMethod` of rpc/protorpc/rpc_channel.cc: `id_++` and the later read of `id_` are
-- two steps, the second of which stands under the lock.
use jnet.Base.{ℕ, ◌+◌, ◌^◌, ◌<◌, ◌≡◌, ap, ◌∙◌, List, none, some, arith, ◌==◌, if◌then◌else◌}
use jnet.Base.Assoc.{nat_key, lookup, put, lookup-put}
use jnet.Rpc.Channel.{RpcMessage, OutstandingCall, RpcChannel, take_id, store_call, on_response}
use jnet.Rpc.Channel.Calls.{on_response-none}

-- Both threads take their numbers before either stores its call.
abbrev pub both_take : OutstandingCall → OutstandingCall → RpcChannel → RpcChannel
both_take first second ch = store_call second (store_call first (take_id (take_id ch).0).0)

lookup-put_twice :
    (k i : ℕ) (first second : OutstandingCall) (m : List (ℕ × OutstandingCall))
    → lookup i (put k second (put k first m)) ≡ (if k == i then some second else lookup i m)
lookup-put_twice k i first second m =
    lookup-put k i second (put k first m)
    ∙ ap (λ o. if k == i then some second else o) (lookup-put k i first m)
    ∙ ground arith

both_take-outstandings :
    (first second : OutstandingCall) (ch : RpcChannel)
    → ch.id + 2 < 2 ^ 32
    → (both_take first second ch).outstandings
      ≡ put (ch.id + 1) second (put (ch.id + 1) first ch.outstandings)
unfolding take_id store_call
both_take-outstandings first second ch small =
    ap (λ k. put k second (put k first ch.outstandings)) (omega arith)

both_take-lookup :
    (first second : OutstandingCall) (ch : RpcChannel) (i : ℕ)
    → ch.id + 2 < 2 ^ 32
    → lookup i (both_take first second ch).outstandings
      ≡ (if ch.id + 1 == i then some second else lookup i ch.outstandings)
both_take-lookup first second ch i small =
    ap (lookup i) (both_take-outstandings first second ch small)
    ∙ lookup-put_twice (ch.id + 1) i first second ch.outstandings

-- Two calls whose threads both take a number before either stores its call, on a channel where no
-- call of the first number waits: only the second call is stored, and the answer to the first one
-- fails the assertion.
pub both_take-lost :
    (first second : OutstandingCall) (ch : RpcChannel) (message : RpcMessage)
    → ch.id + 2 < 2 ^ 32
    → lookup ch.id ch.outstandings ≡ none
    → message.id ≡ ch.id
    → (lookup (ch.id + 1) (both_take first second ch).outstandings ≡ some second)
      × (on_response message (both_take first second ch) ≡ none)
both_take-lost first second ch message small unused eq = (
  both_take-lookup first second ch (ch.id + 1) small ∙ ground arith,
  on_response-none message (both_take first second ch) (omega arith) (
      ap (λ i. lookup i (both_take first second ch).outstandings) eq
      ∙ both_take-lookup first second ch ch.id small
      ∙ ground arith),
)
