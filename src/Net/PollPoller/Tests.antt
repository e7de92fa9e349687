-- ===== src/Net/PollPoller/Tests.antt =====
-- A table of net/pollpoller.cc with three channels.
use jnet.Base.{
  ℕ, ◌+◌, ◌≡◌, refl, true, false, none, some, List, [], ◌∷◌, map, arith, length, get_elem?,
}
use jnet.Base.Assoc.{nat_key, lookup, put}
use jnet.Net.Channel.{Channel, no_events, read_event}
use jnet.Net.PollPoller.{
  PollFd, PollPoller, poll_fd, add_channel, update_channel, remove_channel, has_channel, poll,
}
use jnet.Net.PollPoller.Table.{IsIndexed, add_channel-IsIndexed}
use jnet.Net.PollPoller.Removal.{
  update_channel-IsIndexed, has_channel-remove_channel, update_channel-remove_channel,
}
use jnet.Net.PollPoller.Polling.{poll_lem}

-- The channel at an address has that address as its descriptor.
abbrev objs : ℕ → Channel
objs p = record {
  events = read_event;
  revents = no_events;
  fd = p;
  is_open = true;
  id = p;
  index = 0;
  callbacks = record { read = true; write = false; close = false; error = false };
}

abbrev none_yet : PollPoller
none_yet = record { pollfds = []; channels = []; objs = objs }

none_yet-IsIndexed : IsIndexed none_yet
unfolding lookup
none_yet-IsIndexed = record { entries = λ i pfd h. cc; channels = λ fd p h. cc }

abbrev one : PollPoller
one = add_channel 5 none_yet

abbrev two : PollPoller
two = add_channel 6 one

no-channel : lookup 5 none_yet.channels ≡ none
unfolding lookup
no-channel = refl

no-six : lookup (one.objs 6).fd one.channels ≡ none
unfolding lookup put add_channel
no-six = refl

one-IsIndexed : IsIndexed one
one-IsIndexed = (add_channel-IsIndexed 5 none_yet none_yet-IsIndexed no-channel).0

add_channel-IsIndexed-test :
    IsIndexed two × (get_elem? two.pollfds (two.objs 6).index ≡ some (poll_fd (one.objs 6)))
add_channel-IsIndexed-test = add_channel-IsIndexed 6 one one-IsIndexed no-six

two-IsIndexed : IsIndexed two
two-IsIndexed = (add_channel-IsIndexed 6 one one-IsIndexed no-six).0

five_listed : lookup (two.objs 5).fd two.channels ≡ some 5
unfolding lookup put add_channel
five_listed = refl

six_listed : lookup (two.objs 6).fd two.channels ≡ some 6
unfolding lookup put add_channel
six_listed = refl

update_channel-IsIndexed_example :
    (t : PollPoller) × (update_channel 5 two ≡ some t)
    × IsIndexed t
    × (get_elem? t.pollfds (t.objs 5).index ≡ some (poll_fd (two.objs 5)))
update_channel-IsIndexed_example = update_channel-IsIndexed 5 two two-IsIndexed five_listed

places : ((two.objs 5).index ≡ 0) × ((two.objs 6).index ≡ 1) × (length two.pollfds ≡ 2)
unfolding add_channel
places = (refl, refl, refl)

has_channel-remove_channel-test :
    (t : PollPoller) × (remove_channel 6 two ≡ some t)
    × (length t.pollfds + 1 ≡ length two.pollfds)
    × (has_channel 6 t ≡ true)
has_channel-remove_channel-test =
    has_channel-remove_channel 6 two six_listed (omega (arith, places)) (omega (arith, places))

update_channel-remove_channel_example :
    (t : PollPoller) × (remove_channel 5 two ≡ some t)
    × (lookup (two.objs 5).fd t.channels ≡ none)
    × (lookup (two.objs 6).fd t.channels ≡ some 6)
    × (length t.pollfds + 1 ≡ length two.pollfds)
    × ((last : PollFd) × (get_elem? two.pollfds (two.objs 6).index ≡ some last)
        × (get_elem? t.pollfds (two.objs 5).index ≡ some last))
    × (t.objs 6 ≡ two.objs 6)
    × (update_channel 6 t ≡ none)
update_channel-remove_channel_example =
    update_channel-remove_channel 5 6 two two-IsIndexed five_listed six_listed
      (omega (arith, places)) (omega (arith, places)) (omega (arith, places)) (omega arith)

-- What `poll` returned: input on the second descriptor only.
abbrev returned : List PollFd
returned =
    record { fd = 5; events = read_event; revents = no_events }
    ∷ record { fd = 6; events = read_event; revents = read_event }
    ∷ []

listed_in_two : (lookup 5 two.channels ≡ some 5) × (lookup 6 two.channels ≡ some 6)
unfolding lookup put add_channel
listed_in_two = (refl, refl)

fds_of_two : ((two.objs 5).fd ≡ 5) × ((two.objs 6).fd ≡ 6)
unfolding add_channel
fds_of_two = (refl, refl)

poll_lem_example :
    (active : List ℕ) × (t : PollPoller) × (poll 1 returned two ≡ some (active, t))
    × (map (λ p. (two.objs p).fd) active ≡ 6 ∷ [])
poll_lem_example =
    poll_lem 1 returned two
      ((5, listed_in_two.0, fds_of_two.0), ((6, listed_in_two.1, fds_of_two.1), tt)) refl
