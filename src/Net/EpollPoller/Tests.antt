-- ===== src/Net/EpollPoller/Tests.antt =====
-- The epoll poller of net/epollpoller.cc on an interest list that is a function.
use jnet.Base.{
  ◌≢◌, ℕ, ◌<◌, ◌≡◌, refl, true, false, Option, none, some, List, [], ◌∷◌, arith, ==_iff, ◌==◌,
  if◌then◌else◌,
}
use jnet.Base.Assoc.{nat_key, lookup}
use jnet.Net.Channel.{Channel, no_events, read_event}
use jnet.Net.PollPoller.{write}
use jnet.Net.EpollPoller.{
  EpollEvent, Operation, ctl_add, ctl_mod, EpollPoller, update_channel, add_channel, remove_channel,
  poll,
}
use jnet.Net.EpollPoller.Interest.{
  EpollCtl, IsTracked, add_channel-IsTracked, update_channel-IsTracked, add_channel-remove_channel,
  poll-room,
}

abbrev Interest : Type 0
Interest = ℕ → Option EpollEvent

abbrev with_entry : ℕ → EpollEvent → Interest → Interest
with_entry fd event k i = if fd == i then some event else k i

abbrev ctl_on : Operation → Option EpollEvent → Interest → Option Interest
ctl_on ctl_add none k' = some k'
ctl_on ctl_add (some old) k' = none
ctl_on ctl_mod none k' = none
ctl_on ctl_mod (some old) k' = some k'

abbrev kernel : EpollCtl Interest
kernel = record {
  epoll_ctl = λ op fd event k. ctl_on op (k fd) (with_entry fd event k);
  interest = λ k fd. k fd;
  adds = λ fd event k free. (with_entry fd event k, rw free refl, λ i. refl);
  exists = λ fd event old k there. rw there refl;
  changes = λ fd event old k there. (with_entry fd event k, rw there refl, λ i. refl);
}

abbrev objs : ℕ → Channel
objs p = record {
  events = read_event;
  revents = no_events;
  fd = p;
  is_open = true;
  id = p;
  index = 0;
  callbacks = record { read = true; write = false; close = false; error = false };
}

abbrev event_of : ℕ → EpollEvent
event_of p = record { events = read_event; ptr = p }

abbrev none_yet : EpollPoller Interest
none_yet = record { channels = []; size = 16; objs = objs; kernel = λ fd. none }

none_yet-IsTracked : IsTracked kernel none_yet
unfolding lookup
none_yet-IsTracked fd p at = absurd cc

add_channel-IsTracked-test :
    (t : EpollPoller Interest) × (add_channel kernel.epoll_ctl 5 none_yet ≡ t)
    × IsTracked kernel t
    × (kernel.interest t.kernel 5 ≡ some (event_of 5))
    × (lookup 5 t.channels ≡ some 5)
add_channel-IsTracked-test = add_channel-IsTracked kernel 5 none_yet none_yet-IsTracked refl

abbrev one : EpollPoller Interest
one = record none_yet { channels = (5, 5) ∷ []; kernel = with_entry 5 (event_of 5) (λ fd. none) }

one-IsTracked : IsTracked kernel one
unfolding lookup
one-IsTracked fd p at = (event_of p, ground (arith, at, ==_iff 5 fd), refl)

one-has : lookup 5 one.channels ≡ some 5
unfolding lookup
one-has = refl

update_channel-IsTracked-test :
    (t : EpollPoller Interest) × (update_channel kernel.epoll_ctl 5 one ≡ t)
    × IsTracked kernel t
    × (kernel.interest t.kernel 5 ≡ some (event_of 5))
update_channel-IsTracked-test = update_channel-IsTracked kernel 5 one one-IsTracked one-has

-- The channel at address 8 has the descriptor of the one at address 5.
abbrev reused : EpollPoller Interest
reused = record one { objs = write objs 8 (record (objs 8) { fd = 5 }) }

reused-IsTracked : IsTracked kernel reused
reused-IsTracked = one-IsTracked

add_channel-remove_channel_example :
    (t : EpollPoller Interest) × (event : EpollEvent) × (remove_channel 5 reused ≡ some t)
    × (t.kernel ≡ reused.kernel)
    × (lookup 5 t.channels ≡ none)
    × (lookup 5 (add_channel kernel.epoll_ctl 8 t).channels ≡ some 8)
    × (kernel.interest (add_channel kernel.epoll_ctl 8 t).kernel 5 ≡ some event)
    × (event.ptr ≡ 5)
    × (◌≢◌ {A = ℕ} 8 5 → ¬ (IsTracked kernel (add_channel kernel.epoll_ctl 8 t)))
add_channel-remove_channel_example =
    add_channel-remove_channel kernel 5 8 reused reused-IsTracked one-has refl

poll-room-test :
    (active : List ℕ) × (t : EpollPoller Interest) × (poll (event_of 5 ∷ []) one ≡ some (active, t))
    × (active ≡ 5 ∷ [])
    × (1 < t.size)
poll-room-test = poll-room (event_of 5 ∷ []) one (omega arith) (omega arith)
