-- ===== src/Net/EpollPoller.antt =====
-- net/epollpoller.h and net/epollpoller.cc: the channels that the kernel's interest list has. A
-- channel is known by its address; the interest list, the kernel's, has the events and the address of
-- a descriptor's channel. `none` is a failed assertion; `FATALIF` only writes to the log, and the
-- calls go on behind it.
pub mod Interest
mod Tests
use jnet.Base.{
  ℕ, zero, suc, ◌+◌, ◌*◌, ◌-◌, ◌≤◌, ◌≡◌, Bool, true, false, not, Option, none, some, List, [], ◌∷◌,
  ◌++◌, leb, ◌==◌, if◌then◌else◌, length,
}
use jnet.Base.Assoc.{Key, nat_key, lookup, put, erase}
use jnet.Net.Channel.{Channel, Mask}
use jnet.Net.PollPoller.{write}

-- `struct epoll_event`.
pub record EpollEvent : Type 0 where
  pub events : Mask
  pub ptr : ℕ

pub data Operation : Type 0 where
  ctl_add ctl_mod : Operation

-- `channels_`, the size of `events_`, the objects, and the state of the kernel's list.
pub record EpollPoller {ℓ} (Kernel : Type ℓ) : Type ℓ where
  pub channels : List (ℕ × ℕ)
  pub size : ℕ
  pub objs : ℕ → Channel
  pub kernel : Kernel

-- The channels that are active in the order of the kernel's events, and the objects after
-- `SetREvents`.
unfoldable pub fill_active_channels : List EpollEvent → (ℕ → Channel) → List ℕ × (ℕ → Channel)
fill_active_channels [] objs = ([], objs)
fill_active_channels (event ∷ events) objs =
    let (active, objs') =
      fill_active_channels events
        (write objs event.ptr (record (objs event.ptr) { revents = event.events })) in
    (event.ptr ∷ active, objs')

-- `epoll_ctl(operation, fd, event)` is the kernel's; none is an error.
module _ {ℓ} {Kernel : Type ℓ}
    (epoll_ctl : Operation → ℕ → EpollEvent → Kernel → Option Kernel) where
  -- `Update(operation, channel)`: after an error, the kernel's list is as it was.
  unfoldable pub update : Operation → ℕ → EpollPoller Kernel → EpollPoller Kernel
  update op p s =
      elim (epoll_ctl op (s.objs p).fd (record { events = (s.objs p).events; ptr = p }) s.kernel) [
        | none ↦ s
        | some kernel ↦ record s { kernel = kernel }
      ]

  -- `UpdateChannel(channel)`.
  unfoldable pub update_channel : ℕ → EpollPoller Kernel → EpollPoller Kernel
  unfolding update
  update_channel p s = update ctl_mod p s

  -- `AddChannel(channel)`.
  unfoldable pub add_channel : ℕ → EpollPoller Kernel → EpollPoller Kernel
  unfolding update
  add_channel p s =
      let t = update ctl_add p s in record t { channels = put (s.objs p).fd p t.channels }

-- `RemoveChannel(channel)`: the kernel's list keeps the descriptor.
unfoldable pub remove_channel {ℓ} :
    {Kernel : Type ℓ} → ℕ → EpollPoller Kernel → Option (EpollPoller Kernel)
remove_channel p s = elim (lookup (s.objs p).fd s.channels) [
  | none ↦ none
  | some q ↦ if q == p then some (record s { channels = erase (s.objs p).fd s.channels }) else none
]

-- `Poll` with the events that `epoll_wait` returned: the active channels, and twice the room when it
-- was full. More events than room are a failed assertion.
unfoldable pub poll {ℓ} :
    {Kernel : Type ℓ} → List EpollEvent → EpollPoller Kernel → Option (List ℕ × EpollPoller Kernel)
unfolding fill_active_channels
poll [] s = some ([], s)
poll (event ∷ events) s =
    let n = length (event ∷ events) in
    let (active, objs) = fill_active_channels (event ∷ events) s.objs in
    if leb n s.size
    then some (active, record s { objs = objs; size = if n == s.size then s.size * 2 else s.size })
    else none
