-- ===== src/Net/PollPoller/Removal.antt =====
-- `UpdateChannel` and `RemoveChannel` of net/pollpoller.cc on a table in agreement with its channels.
use mathlib.Core.Option.{some-injective}
use jnet.Base.{
  ℕ, zero, suc, [], ◌∷◌, take, ◌+◌, ◌-◌, ◌^◌, ◌≤◌, ◌<◌, ◌≡◌, refl, sym, ap, subst, ◌∙◌, ◌≢◌, true,
  none, some, List, arith, ==_iff, length, get_elem?, set, ℕ_discrete, get_elem?-set_self,
  get_elem?-set_ne, get_elem?-lt, length-set, length-take,
}
use jnet.Base.Assoc.{nat_key, lookup, erase, lookup-erase}
use jnet.Net.Channel.{Channel}
use jnet.Net.PollPoller.{
  PollFd, PollPoller, poll_fd, has_channel, update_channel, set_index, pop_back, swap_out,
  remove_channel,
}
use jnet.Net.PollPoller.Table.{IsIndexed, Belongs}

-- `UpdateChannel` on a channel that the map has, in a table in agreement: it succeeds, the entry at
-- the channel's index is then the one for its descriptor and its events, and the table stays in
-- agreement.
pub update_channel-IsIndexed :
    (p : ℕ) (s : PollPoller)
    → IsIndexed s
    → lookup (s.objs p).fd s.channels ≡ some p
    → (t : PollPoller) × (update_channel p s ≡ some t)
      × IsIndexed t
      × (get_elem? t.pollfds (t.objs p).index ≡ some (poll_fd (s.objs p)))
unfolding update_channel
update_channel-IsIndexed p s ix listed =
    let (old, found, own, same) = ix.channels (s.objs p).fd p listed in
    let inside = get_elem?-lt s.pollfds i found in
    (
      record s { pollfds = set s.pollfds i (poll_fd (s.objs p)) },
      ground (arith, inside),
      record { entries = entries; channels = channels },
      get_elem?-set_self s.pollfds i (poll_fd (s.objs p)) inside,
    )
  where
    i : ℕ
    i = (s.objs p).index

    t : PollPoller
    t = record s { pollfds = set s.pollfds i (poll_fd (s.objs p)) }

    inside : i < length s.pollfds
    inside =
        let (old, found, own, same) = ix.channels (s.objs p).fd p listed in
        get_elem?-lt s.pollfds i found

    entries :
        (j : ℕ) (pfd : PollFd) → get_elem? t.pollfds j ≡ some pfd → (q : ℕ) × Belongs t j q pfd
    entries j pfd h = elim (ℕ_discrete i j) [
      | yes e ↦ (
        p,
        subst (Belongs t j p)
            (some-injective _ _ (
              sym (
                ap (get_elem? t.pollfds) (sym e)
                ∙ get_elem?-set_self s.pollfds i (poll_fd (s.objs p)) inside)
              ∙ h))
            (record { listed = listed; own_fd = refl; own_index = e }),
      )
      | no ne ↦
          let (q, b) =
            ix.entries j pfd (sym (get_elem?-set_ne s.pollfds (poll_fd (s.objs p)) ne) ∙ h) in
          (q, record { listed = b.listed; own_fd = b.own_fd; own_index = b.own_index })
    ]

    channels :
        (fd q : ℕ)
        → lookup fd t.channels ≡ some q
        → (pfd : PollFd) × (get_elem? t.pollfds (t.objs q).index ≡ some pfd)
          × (pfd.fd ≡ fd)
          × ((t.objs q).fd ≡ fd)
    channels fd q h =
        let (pfd, found, own, same) = ix.channels fd q h in
        elim (ℕ_discrete i (s.objs q).index) [
          | yes e ↦
              let (old, found', own', same') = ix.channels (s.objs p).fd p listed in
              let one = some-injective _ _ (sym found' ∙ ap (get_elem? s.pollfds) e ∙ found) in
              (
                poll_fd (s.objs p),
                ap (get_elem? t.pollfds) (sym e)
                    ∙ get_elem?-set_self s.pollfds i (poll_fd (s.objs p)) inside,
                sym own' ∙ ap (λ (r : PollFd). r.fd) one ∙ own,
                same,
              )
          | no ne ↦ (pfd, get_elem?-set_ne s.pollfds (poll_fd (s.objs p)) ne ∙ found, own, same)
        ]

length-pop_back : (fds : List PollFd) → length (pop_back fds) ≡ length fds - 1
length-pop_back fds = omega (arith, length-take {0} (length fds - 1) fds)

registered :
    (p : ℕ) (s : PollPoller) → lookup (s.objs p).fd s.channels ≡ some p → has_channel p s ≡ true
unfolding has_channel
registered p s h = ground (arith, ==_iff p p)

-- `RemoveChannel` on the channel of the last entry takes the entry out of the table and forgets to
-- take the channel out of the map: `HasChannel` still says that it is there.
pub has_channel-remove_channel :
    (p : ℕ) (s : PollPoller)
    → lookup (s.objs p).fd s.channels ≡ some p
    → (s.objs p).index + 1 ≡ length s.pollfds
    → length s.pollfds < 2 ^ 64
    → (t : PollPoller) × (remove_channel p s ≡ some t)
      × (length t.pollfds + 1 ≡ length s.pollfds)
      × (has_channel p t ≡ true)
unfolding remove_channel
has_channel-remove_channel p s listed last small =
    let t = record s { pollfds = pop_back s.pollfds } in
    (
      t,
      ground (arith, registered p s listed),
      omega (arith, length-pop_back s.pollfds),
      registered p t listed,
    )

abbrev swapped_out : ℕ → PollPoller → PollFd → PollFd → PollPoller
swapped_out p s gone last = record {
  pollfds = pop_back (set (set s.pollfds (s.objs p).index last) (length s.pollfds - 1) gone);
  channels = erase (s.objs p).fd s.channels;
  objs = set_index p (s.objs p).index s.objs;
}

swap_out-listed :
    (p : ℕ) (s : PollPoller) (gone last : PollFd)
    → get_elem? s.pollfds (s.objs p).index ≡ some gone
    → get_elem? s.pollfds (length s.pollfds - 1) ≡ some last
    → lookup gone.fd s.channels ≡ some p
    → p ≢ 0
    → swap_out p s ≡ some (swapped_out p s gone last)
unfolding swap_out
swap_out-listed p s gone last found found' listed nonnull = ground arith

remove_channel-inner :
    (p : ℕ) (s : PollPoller)
    → lookup (s.objs p).fd s.channels ≡ some p
    → (s.objs p).index + 1 < length s.pollfds
    → length s.pollfds < 2 ^ 64
    → remove_channel p s ≡ swap_out p s
unfolding remove_channel
remove_channel-inner p s listed inner small = ground (arith, registered p s listed)

length-swapped_out :
    (p : ℕ) (s : PollPoller) (gone last : PollFd)
    → length (swapped_out p s gone last).pollfds ≡ length s.pollfds - 1
length-swapped_out p s gone last =
    let places = set s.pollfds (s.objs p).index last in
    omega (
      arith,
      length-pop_back (set places (length s.pollfds - 1) gone),
      length-set places (length s.pollfds - 1) gone,
      length-set s.pollfds (s.objs p).index last,
    )

get_elem?-take : (n i : ℕ) (fds : List PollFd) → i < n → get_elem? (take n fds) i ≡ get_elem? fds i
get_elem?-take zero i fds h = absurd (omega arith)
get_elem?-take (suc n) i [] h = refl
get_elem?-take (suc n) zero (x ∷ fds) h = refl
get_elem?-take (suc n) (suc i) (x ∷ fds) h = get_elem?-take n i fds (omega arith)

-- The entry at the free place is the one that was the last.
moved_entry :
    (p : ℕ) (s : PollPoller) (gone last : PollFd)
    → (s.objs p).index + 1 < length s.pollfds
    → get_elem? (swapped_out p s gone last).pollfds (s.objs p).index ≡ some last
moved_entry p s gone last inner =
    let i = (s.objs p).index in
    let places = set s.pollfds i last in
    let end = length s.pollfds - 1 in
    get_elem?-take (length (set places end gone) - 1) i (set places end gone)
      (omega (arith, length-set places end gone, length-set s.pollfds i last))
    ∙ get_elem?-set_ne places gone (λ e. absurd (omega (arith, e)))
    ∙ get_elem?-set_self s.pollfds i last (omega arith)

past_the_end :
    (q : ℕ) (t : PollPoller) → length t.pollfds ≤ (t.objs q).index → update_channel q t ≡ none
unfolding update_channel
past_the_end q t h = ground arith

-- `RemoveChannel` on the channel of an entry before the last, in a table in agreement of less than 2
-- ^ 64 entries, where the channel is no null pointer: its descriptor leaves the map, the table is one
-- entry shorter, the last entry moves to the free place while the channel of that entry, which stays
-- in the map, keeps its old index, and the next `UpdateChannel` on that channel writes behind the end
-- of the table.
pub update_channel-remove_channel :
    (p q : ℕ) (s : PollPoller)
    → IsIndexed s
    → lookup (s.objs p).fd s.channels ≡ some p
    → lookup (s.objs q).fd s.channels ≡ some q
    → (s.objs p).index + 1 < length s.pollfds
    → (s.objs q).index + 1 ≡ length s.pollfds
    → length s.pollfds < 2 ^ 64
    → p ≢ 0
    → (t : PollPoller) × (remove_channel p s ≡ some t)
      × (lookup (s.objs p).fd t.channels ≡ none)
      × (lookup (s.objs q).fd t.channels ≡ some q)
      × (length t.pollfds + 1 ≡ length s.pollfds)
      × ((last : PollFd) × (get_elem? s.pollfds (s.objs q).index ≡ some last)
          × (get_elem? t.pollfds (s.objs p).index ≡ some last))
      × (t.objs q ≡ s.objs q)
      × (update_channel q t ≡ none)
update_channel-remove_channel p q s ix listed listed' inner last small nonnull =
    let (gone, found, own, same) = ix.channels (s.objs p).fd p listed in
    let (end, found', own', same') = ix.channels (s.objs q).fd q listed' in
    let t = swapped_out p s gone end in
    let other : q ≢ p = λ e. absurd (omega (arith, ap (λ r. (s.objs r).index) e)) in
    let apart : (s.objs p).fd ≢ (s.objs q).fd = λ e.
      other (some-injective _ _ (sym listed' ∙ ap (λ f. lookup f s.channels) (sym e) ∙ listed)) in
    let place : (s.objs q).index ≡ length s.pollfds - 1 = omega arith in
    let unmoved : t.objs q ≡ s.objs q = ground arith in
    (
      t,
      remove_channel-inner p s listed inner small
          ∙ swap_out-listed p s gone end found (ap (get_elem? s.pollfds) (sym place) ∙ found')
              (ap (λ f. lookup f s.channels) own ∙ listed) nonnull,
      ground (
        arith,
        lookup-erase (s.objs p).fd (s.objs p).fd s.channels,
        ==_iff (s.objs p).fd (s.objs p).fd,
      ),
      ground (
        arith,
        lookup-erase (s.objs p).fd (s.objs q).fd s.channels,
        ==_iff (s.objs p).fd (s.objs q).fd,
        apart,
      ),
      omega (arith, length-swapped_out p s gone end),
      (end, found', moved_entry p s gone end inner),
      unmoved,
      past_the_end q t
          (omega (arith, length-swapped_out p s gone end, ap (λ (c : Channel). c.index) unmoved)),
    )
