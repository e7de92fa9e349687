-- ===== src/Rpc/Channel/Promise.antt =====
-- What a client of rpc/protorpc/rpc_channel.cc is promised of its calls: each waits from its start
-- until its answer, which runs its closure once.
use jnet.Base.{
  ℕ, ◌+◌, ◌^◌, ◌<◌, ◌≡◌, Bool, true, false, Option, none, some, List, [], ◌∷◌, ◌++◌, ltb, ◌==◌,
  if◌then◌else◌,
}
use jnet.Base.Assoc.{nat_key, lookup}
use jnet.Rpc.Channel.{RpcMessage, OutstandingCall, Run, RpcChannel, call_method, on_response}

-- What happens to a client's channel: a call of a method with its texts, or an answer.
pub data Event : Type 0 where
  calls : List ℕ → List ℕ → List ℕ → OutstandingCall → Event
  answers : RpcMessage → Event

unfoldable pub step : Event → RpcChannel → Option RpcChannel
step (calls service method body out) ch = some (call_method service method body out ch)
step (answers message) ch = on_response message ch

unfoldable pub run : List Event → RpcChannel → Option RpcChannel
run [] ch = some ch
run (e ∷ es) ch = elim (step e ch) [ none ↦ none | some ch' ↦ run es ch' ]

-- The promise: every number is a call that is still to come, that waits, or that was answered.
pub data CallState : Type 0 where
  unused answered : CallState
  waiting : OutstandingCall → CallState

pub record Calls : Type 0 where
  pub next : ℕ
  pub state : ℕ → CallState
  pub runs : List Run

abbrev pub set_state : ℕ → CallState → (ℕ → CallState) → ℕ → CallState
set_state i s state j = if i == j then s else state j

abbrev pub run_of : OutstandingCall → List ℕ → List Run
run_of out reply = elim out.response [
  | none ↦ []
  | some object ↦ record { done = out.done; object = object; reply = reply } ∷ []
]

abbrev pub start : OutstandingCall → Calls → Calls
start out c = record c { next = c.next + 1; state = set_state c.next (waiting out) c.state }

abbrev pub finish : CallState → ℕ → List ℕ → Calls → Option Calls
finish unused i reply c = none
finish answered i reply c = none
finish (waiting out) i reply c =
    some (record c { state = set_state i answered c.state; runs = c.runs ++ run_of out reply })

unfoldable pub spec_step : Event → Calls → Option Calls
spec_step (calls service method body out) c = some (start out c)
spec_step (answers message) c = finish (c.state message.id) message.id message.reply c

unfoldable pub spec_run : List Event → Calls → Option Calls
spec_run [] c = some c
spec_run (e ∷ es) c = elim (spec_step e c) [ none ↦ none | some c' ↦ spec_run es c' ]

-- What the table says of a number: one that was given out and is not in the table was answered.
abbrev pub entry_state : Option OutstandingCall → Bool → CallState
entry_state (some out) given = waiting out
entry_state none true = answered
entry_state none false = unused

pub record Implements (ch : RpcChannel) (c : Calls) : Type 0 where
  pub next : ch.id ≡ c.next
  pub state :
      (i : ℕ) → i < 2 ^ 32 → entry_state (lookup i ch.outstandings) (ltb i ch.id) ≡ c.state i
  pub tracked : (i : ℕ) (out : OutstandingCall) → lookup i ch.outstandings ≡ some out → i < ch.id
  pub runs : ch.runs ≡ c.runs

-- Both fail, or both succeed with an implementation.
abbrev pub Matches : Option RpcChannel → Option Calls → Type 0
Matches none none = Unit {0}
Matches (some ch) (some c) = Implements ch c
Matches none (some c) = false ≡ true
Matches (some ch) none = false ≡ true

-- The answers have numbers that an `int` holds as they are.
abbrev pub SmallIds : List Event → Type 0
SmallIds [] = Unit {0}
SmallIds (calls service method body out ∷ es) = SmallIds es
SmallIds (answers message ∷ es) = (message.id < 2 ^ 32) × SmallIds es

-- No number below the first one is a call to come.
abbrev pub no_calls : ℕ → Calls
no_calls id = record { next = id; state = λ i. entry_state none (ltb i id); runs = [] }
