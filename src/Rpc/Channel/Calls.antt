-- ===== src/Rpc/Channel/Calls.antt =====
-- What a call and its answer do to a channel (rpc/protorpc/rpc_channel.cc).
use jnet.Base.{
  ℕ, ◌+◌, ◌^◌, ◌<◌, ◌≡◌, refl, sym, ap, ap₂, subst, ◌∙◌, inl, inr, Option, none, some, List, ◌++◌,
  append-nil, arith, ltb, ◌==◌, ==_iff, if◌then◌else◌, Bool-cases, Option-cases,
}
use jnet.Base.Assoc.{nat_key, lookup, put, erase, lookup-put}
use jnet.Rpc.Channel.{RpcMessage, OutstandingCall, RpcChannel, run_done, call_method, on_response}
use jnet.Rpc.Channel.Promise.{CallState, waiting, Calls, run_of, start, entry_state, Implements}

pub call_method-outstandings :
    (service method body : List ℕ) (out : OutstandingCall) (ch : RpcChannel)
    → ch.id < 2 ^ 32
    → (call_method service method body out ch).outstandings ≡ put ch.id out ch.outstandings
unfolding call_method
call_method-outstandings service method body out ch h =
    ap (λ k. put k out ch.outstandings) (omega arith)

pub call_method-id :
    (service method body : List ℕ) (out : OutstandingCall) (ch : RpcChannel)
    → (call_method service method body out ch).id ≡ ch.id + 1
unfolding call_method
call_method-id service method body out ch = refl

pub call_method-runs :
    (service method body : List ℕ) (out : OutstandingCall) (ch : RpcChannel)
    → (call_method service method body out ch).runs ≡ ch.runs
unfolding call_method
call_method-runs service method body out ch = refl

pub call_method-lookup :
    (service method body : List ℕ) (out : OutstandingCall) (ch : RpcChannel) (i : ℕ)
    → ch.id < 2 ^ 32
    → lookup i (call_method service method body out ch).outstandings
      ≡ (if ch.id == i then some out else lookup i ch.outstandings)
call_method-lookup service method body out ch i h =
    ap (lookup i) (call_method-outstandings service method body out ch h)
    ∙ lookup-put ch.id i out ch.outstandings

-- The entry of a number after a call with the number `n`.
pub entry-call :
    (n i : ℕ) (out : OutstandingCall) (o : Option OutstandingCall) (s : CallState)
    → entry_state o (ltb i n) ≡ s
    → entry_state (if n == i then some out else o) (ltb i (n + 1))
      ≡ (if n == i then waiting out else s)
entry-call n i out o s h = elim (Bool-cases (n == i)) [
  | inl same ↦ rw same refl
  | inr other ↦ rw other (ap (entry_state o) (ground (arith, ==_iff n i)) ∙ h)
]

pub tracked-call :
    (n i : ℕ) (out o' : OutstandingCall) (o : Option OutstandingCall)
    → (o ≡ some o' → i < n)
    → (if n == i then some out else o) ≡ some o'
    → i < n + 1
tracked-call n i out o' o before found = ground (arith, before, found)

pub call_method-Implements :
    (service method body : List ℕ) (out : OutstandingCall) (ch : RpcChannel) (c : Calls)
    → ch.id < 2 ^ 32
    → Implements ch c
    → Implements (call_method service method body out ch) (start out c)
call_method-Implements service method body out ch c h imp = record {
  next = call_method-id service method body out ch ∙ ap (λ n. n + 1) imp.next;
  state = λ i small.
      ap₂ entry_state (call_method-lookup service method body out ch i h)
        (ap (ltb i) (call_method-id service method body out ch))
      ∙ entry-call ch.id i out (lookup i ch.outstandings) (c.state i) (imp.state i small)
      ∙ ap (λ n. if n == i then waiting out else c.state i) imp.next;
  tracked = λ i o found.
      subst (λ n. i < n) (sym (call_method-id service method body out ch))
        (tracked-call ch.id i out o (lookup i ch.outstandings) (imp.tracked i o)
          (sym (call_method-lookup service method body out ch i h) ∙ found));
  runs = call_method-runs service method body out ch ∙ imp.runs;
}

pub on_response-none :
    (message : RpcMessage) (ch : RpcChannel)
    → message.id < 2 ^ 32
    → lookup message.id ch.outstandings ≡ none
    → on_response message ch ≡ none
unfolding on_response
on_response-none message ch small absent = ground arith

pub on_response-some :
    (message : RpcMessage) (ch : RpcChannel) (out : OutstandingCall)
    → message.id < 2 ^ 32
    → lookup message.id ch.outstandings ≡ some out
    → on_response message ch
      ≡ some (
          run_done out message.reply
            (record ch { outstandings = erase message.id ch.outstandings }))
unfolding on_response
on_response-some message ch out small found = ground (arith, found)

pub run_done-outstandings :
    (out : OutstandingCall) (reply : List ℕ) (ch : RpcChannel)
    → ((run_done out reply ch).outstandings ≡ ch.outstandings)
      × ((run_done out reply ch).id ≡ ch.id)
      × ((run_done out reply ch).runs ≡ ch.runs ++ run_of out reply)
run_done-outstandings out reply ch = elim (Option-cases out.response) [
  | inl null ↦ rw null (refl, refl, sym (append-nil ch.runs))
  | inr (object, there) ↦ rw there (refl, refl, refl)
]
