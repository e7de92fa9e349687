-- ===== src/Net/PollPoller.antt =====
-- net/poller.h, net/poller.cc, net/pollpoller.h and net/pollpoller.cc: the table of the descriptors
-- that `poll` waits for. A channel is known by its address, and `objs` is what lies there; address 0
-- is the null pointer. `none` is a failed assertion or an access outside the vector.
pub mod Table
pub mod Removal
pub mod Polling
mod Tests
use jnet.Base.{
  ℕ, zero, suc, ◌+◌, ◌-◌, Bool, true, false, not, ◌&&◌, ◌||◌, Option, none, some, List, [], ◌∷◌,
  ◌++◌, ltb, ◌==◌, if◌then◌else◌, length, get_elem?, set, take, sub_size,
}
use jnet.Base.Assoc.{Key, nat_key, lookup, put, erase}
use jnet.Net.Channel.{Channel, Mask, no_events}

-- `struct pollfd`.
pub record PollFd : Type 0 where
  pub fd : ℕ
  pub events : Mask
  pub revents : Mask

-- `channels_` is the map of descriptors to channels of the base class.
pub record PollPoller : Type 0 where
  pub pollfds : List PollFd
  pub channels : List (ℕ × ℕ)
  pub objs : ℕ → Channel

-- A write to the object at an address.
abbrev pub write : (ℕ → Channel) → ℕ → Channel → ℕ → Channel
write objs p ch q = if q == p then ch else objs q

abbrev pub set_index : ℕ → ℕ → (ℕ → Channel) → ℕ → Channel
set_index p idx objs = write objs p (record (objs p) { index = idx })

-- `Poller::HasChannel(channel)`.
unfoldable pub has_channel : ℕ → PollPoller → Bool
has_channel p s = elim (lookup (s.objs p).fd s.channels) [ none ↦ false | some q ↦ q == p ]

abbrev pub poll_fd : Channel → PollFd
poll_fd ch = record { fd = ch.fd; events = ch.events; revents = no_events }

-- `AddChannel(channel)`.
unfoldable pub add_channel : ℕ → PollPoller → PollPoller
add_channel p s = record {
  pollfds = s.pollfds ++ (poll_fd (s.objs p) ∷ []);
  channels = put (s.objs p).fd p s.channels;
  objs = set_index p (length s.pollfds) s.objs;
}

-- `UpdateChannel(channel)`.
unfoldable pub update_channel : ℕ → PollPoller → Option PollPoller
update_channel p s = elim (lookup (s.objs p).fd s.channels) [
  | none ↦ none
  | some q ↦
      if ltb (s.objs p).index (length s.pollfds)
      then some (record s { pollfds = set s.pollfds (s.objs p).index (poll_fd (s.objs p)) })
      else none
]

-- `pop_back()`.
abbrev pub pop_back : List PollFd → List PollFd
pop_back fds = take (length fds - 1) fds

-- `channels_[fd] != nullptr`, and what the subscript leaves: a descriptor that was not there gets the
-- null pointer.
abbrev pub subscript : ℕ → List (ℕ × ℕ) → ℕ × List (ℕ × ℕ)
subscript fd m = elim (lookup fd m) [ none ↦ (0, put fd 0 m) | some q ↦ (q, m) ]

-- The branch of `RemoveChannel` for an entry that is not the last: the entry and the last one change
-- places, and `endPfd`, a reference to the last place, is then the entry that goes.
unfoldable pub swap_out : ℕ → PollPoller → Option PollPoller
swap_out p s = elim (get_elem? s.pollfds (s.objs p).index) [
  | none ↦ none
  | some gone ↦ elim (get_elem? s.pollfds (length s.pollfds - 1)) [
    | none ↦ none
    | some last ↦
        let swapped = set (set s.pollfds (s.objs p).index last) (length s.pollfds - 1) gone in
        let (q, channels) = subscript gone.fd s.channels in
        if q == 0
        then some (record s { pollfds = pop_back swapped; channels = channels })
        else some (record {
          pollfds = pop_back swapped;
          channels = erase (s.objs p).fd channels;
          objs = set_index q (s.objs p).index s.objs;
        })
  ]
]

-- `RemoveChannel(channel)` after its assertions. The difference is one of `size_t`.
unfoldable pub remove_entry : ℕ → PollPoller → Option PollPoller
unfolding swap_out
remove_entry p s =
    if (s.objs p).index == sub_size (length s.pollfds) 1
    then some (record s { pollfds = pop_back s.pollfds })
    else if ltb 1 (length s.pollfds)
    then swap_out p s
    else some s

unfoldable pub remove_channel : ℕ → PollPoller → Option PollPoller
unfolding remove_entry has_channel
remove_channel p s = if has_channel p s then remove_entry p s else none

-- Whether `poll` returned an event; `revents` is positive as a `short`.
abbrev pub any_event : Mask → Bool
any_event m =
    m.poll_in || m.poll_pri || m.poll_out || m.poll_err || m.poll_hup || m.poll_nval || m.poll_rdhup

-- `FillActiveChannels(numEvents, ...)`: the addresses of the active channels, in order, and the
-- objects after `SetREvents`. A descriptor that the map has not is a read past its end.
unfoldable pub fill_active_channels :
    ℕ → List PollFd → List (ℕ × ℕ) → (ℕ → Channel) → Option (List ℕ × (ℕ → Channel))
fill_active_channels n [] channels objs = some ([], objs)
fill_active_channels zero (pfd ∷ fds) channels objs = some ([], objs)
fill_active_channels (suc n) (pfd ∷ fds) channels objs = elim (any_event pfd.revents) [
  | false ↦ fill_active_channels (suc n) fds channels objs
  | true ↦ elim (lookup pfd.fd channels) [
    | none ↦ none
    | some p ↦
        elim (fill_active_channels n fds channels
          (write objs p (record (objs p) { revents = pfd.revents }))) [
            | none ↦ none
            | some (active, objs') ↦ some (p ∷ active, objs')
          ]
  ]
]

-- `Poll` with what `poll` returned: a number of descriptors, and the entries with their events.
unfoldable pub poll : ℕ → List PollFd → PollPoller → Option (List ℕ × PollPoller)
poll n returned s = elim (fill_active_channels n returned s.channels s.objs) [
  | none ↦ none
  | some (active, objs) ↦ some (active, record s { pollfds = returned; objs = objs })
]
