-- ===== src/Rpc/Channel/Refine.antt =====
-- The outstanding calls of rpc/protorpc/rpc_channel.cc against the promise of `Rpc.Channel.Promise`.
use jnet.Base.{
  ℕ, ◌+◌, ◌^◌, ◌≤◌, ◌<◌, ◌≡◌, refl, sym, ap, ap₂, subst, ◌∙◌, inl, inr, Bool, true, false, Option,
  none, some, List, [], ◌∷◌, ◌++◌, arith, ltb, ◌==◌, ==_iff, if◌then◌else◌, length, Bool-cases,
  Option-cases,
}
use jnet.Base.Assoc.{nat_key, lookup, erase, lookup-erase}
use jnet.Rpc.Channel.{
  RpcMessage, OutstandingCall, RpcChannel, new, run_done, call_method, on_response,
}
use jnet.Rpc.Channel.Promise.{
  Event, calls, answers, step, run, CallState, answered, waiting, Calls, set_state, run_of, start,
  finish, spec_step, spec_run, entry_state, Implements, Matches, SmallIds, no_calls,
}
use jnet.Rpc.Channel.Calls.{
  call_method-id, call_method-Implements, on_response-none, on_response-some, run_done-outstandings,
}

-- The entry of a number after the answer to the number `i`.
entry-answer :
    (i j n : ℕ) (o : Option OutstandingCall) (s : CallState)
    → i < n
    → entry_state o (ltb j n) ≡ s
    → entry_state (if i == j then none else o) (ltb j n) ≡ (if i == j then answered else s)
entry-answer i j n o s given h = elim (Bool-cases (i == j)) [
  | inl same ↦ rw same (ap (entry_state none) {x = ltb j n} {y = true} (ground (arith, ==_iff i j)))
  | inr other ↦ rw other h
]

tracked-answer :
    (i j n : ℕ) (o : Option OutstandingCall) (out : OutstandingCall)
    → (o ≡ some out → j < n)
    → (if i == j then none else o) ≡ some out
    → j < n
tracked-answer i j n o out before found = ground (arith, before, found)

answer-Implements :
    (i : ℕ) (reply : List ℕ) (out : OutstandingCall) (ch : RpcChannel) (c : Calls)
    → lookup i ch.outstandings ≡ some out
    → Implements ch c
    → Implements
        (run_done out reply (record ch { outstandings = erase i ch.outstandings }))
        (record c { state = set_state i answered c.state; runs = c.runs ++ run_of out reply })
answer-Implements i reply out ch c found imp =
    let erased = record ch { outstandings = erase i ch.outstandings } in
    let (table, id, runs) = run_done-outstandings out reply erased in
    let at = λ (j : ℕ). ap (lookup j) table ∙ lookup-erase i j ch.outstandings in
    record {
      next = id ∙ imp.next;
      state = λ j small.
          ap₂ entry_state (at j) (ap (ltb j) id)
          ∙ entry-answer i j ch.id (lookup j ch.outstandings) (c.state j) (imp.tracked i out found)
              (imp.state j small);
      tracked = λ j o there.
          subst (λ n. j < n) (sym id)
            (tracked-answer i j ch.id (lookup j ch.outstandings) o (imp.tracked j o)
              (sym (at j) ∙ there));
      runs = runs ∙ ap (λ r. r ++ run_of out reply) imp.runs;
    }

waiting-state :
    (ch : RpcChannel) (c : Calls) (i : ℕ) (out : OutstandingCall)
    → Implements ch c
    → i < 2 ^ 32
    → lookup i ch.outstandings ≡ some out
    → c.state i ≡ waiting out
waiting-state ch c i out imp small found =
    sym (imp.state i small) ∙ ap (λ o. entry_state o (ltb i ch.id)) found

finish-absent :
    (given : Bool) (i : ℕ) (reply : List ℕ) (c : Calls)
    → finish (entry_state none given) i reply c ≡ none
finish-absent true i reply c = refl
finish-absent false i reply c = refl

on_response-Matches :
    (message : RpcMessage) (ch : RpcChannel) (c : Calls)
    → Implements ch c
    → message.id < 2 ^ 32
    → Matches (on_response message ch) (finish (c.state message.id) message.id message.reply c)
on_response-Matches message ch c imp small =
    elim (Option-cases (lookup message.id ch.outstandings)) [
      | inl absent ↦
          subst (λ o. Matches o (finish (c.state message.id) message.id message.reply c))
            (sym (on_response-none message ch small absent))
            (subst (Matches none)
              (sym (finish-absent (ltb message.id ch.id) message.id message.reply c)
                ∙ ap (λ s. finish s message.id message.reply c)
                    (sym (ap (λ o. entry_state o (ltb message.id ch.id)) absent)
                      ∙ imp.state message.id small))
              tt)
      | inr (out, found) ↦
          subst (λ o. Matches o (finish (c.state message.id) message.id message.reply c))
            (sym (on_response-some message ch out small found))
            (subst
              (λ s.
                Matches
                  (some (
                    run_done out message.reply
                      (record ch { outstandings = erase message.id ch.outstandings })))
                  (finish s message.id message.reply c))
              (sym (waiting-state ch c message.id out imp small found))
              (answer-Implements message.id message.reply out ch c found imp))
    ]

new-Implements : (id : ℕ) → Implements (new id) (no_calls id)
unfolding new lookup
new-Implements id = record {
  next = refl;
  state = λ i small. refl;
  tracked = λ i out found. cc;
  runs = refl;
}

answered_id :
    (message : RpcMessage) (ch ch' : RpcChannel) (out : OutstandingCall)
    → message.id < 2 ^ 32
    → lookup message.id ch.outstandings ≡ some out
    → on_response message ch ≡ some ch'
    → ch'
      ≡ run_done out message.reply (record ch { outstandings = erase message.id ch.outstandings })
answered_id message ch ch' out small found done =
    ground (arith, on_response-some message ch out small found, done)

on_response-id :
    (message : RpcMessage) (ch ch' : RpcChannel)
    → message.id < 2 ^ 32
    → on_response message ch ≡ some ch'
    → ch'.id ≡ ch.id
on_response-id message ch ch' small done = elim (Option-cases (lookup message.id ch.outstandings)) [
  | inl absent ↦ absurd (ground (arith, on_response-none message ch small absent, done))
  | inr (out, found) ↦
      ap (λ (c : RpcChannel). c.id) (answered_id message ch ch' out small found done)
      ∙ (run_done-outstandings out message.reply
          (record ch { outstandings = erase message.id ch.outstandings })).1
]

Matches-bind :
    (o : Option RpcChannel) (p : Option Calls) (f : RpcChannel → Option RpcChannel)
    (g : Calls → Option Calls)
    → Matches o p
    → ((ch : RpcChannel) (c : Calls) → o ≡ some ch → Implements ch c → Matches (f ch) (g c))
    → Matches (elim o [ none ↦ none | some ch ↦ f ch ]) (elim p [ none ↦ none | some c ↦ g c ])
Matches-bind none none f g m h = tt
Matches-bind (some ch) (some c) f g m h = h ch c refl m
Matches-bind none (some c) f g m h = absurd cc
Matches-bind (some ch) none f g m h = absurd cc

-- A channel that implements some calls still does so after any calls and answers, as long as the
-- numbers stay below 2 ^ 32.
run-Matches :
    (es : List Event) (ch : RpcChannel) (c : Calls)
    → Implements ch c
    → ch.id + length es ≤ 2 ^ 32
    → SmallIds es
    → Matches (run es ch) (spec_run es c)
unfolding run spec_run step spec_step
run-Matches [] ch c imp room small = imp
run-Matches (calls service method body out ∷ es) ch c imp room small =
    run-Matches es (call_method service method body out ch) (start out c)
      (call_method-Implements service method body out ch c (omega arith) imp)
      (omega (arith, call_method-id service method body out ch)) small
run-Matches (answers message ∷ es) ch c imp room (here, small) =
    Matches-bind (on_response message ch) (finish (c.state message.id) message.id message.reply c)
      (run es) (spec_run es) (on_response-Matches message ch c imp here)
      (λ ch' c' done imp'.
        run-Matches es ch' c' imp' (omega (arith, on_response-id message ch ch' here done)) small)

-- Any series of calls and answers on a new channel, with numbers below 2 ^ 32: it goes on as long as
-- every answer is for a call that waits, as the promise says; each such answer runs the closure of
-- its own call, if that has a response object, with that answer, and ends its wait; in the end the
-- table has exactly the calls that wait.
pub run-Matches-new :
    (es : List Event) (id : ℕ)
    → id + length es ≤ 2 ^ 32
    → SmallIds es
    → Matches (run es (new id)) (spec_run es (no_calls id))
run-Matches-new es id room small =
    run-Matches es (new id) (no_calls id) (new-Implements id)
      (omega (arith, (new-Implements id).next)) small
