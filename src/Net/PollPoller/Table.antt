-- ===== src/Net/PollPoller/Table.antt =====
-- The table of net/pollpoller.cc agrees with its map and with the indices in the channels.
use jnet.Base.{
  ℕ, zero, suc, ◌≡◌, refl, sym, ap, subst, ◌∙◌, ◌≢◌, ◌⊎◌, inl, inr, none, some, List, [], ◌∷◌, ◌++◌,
  arith, ==_iff, length, get_elem?,
}
use jnet.Base.Assoc.{nat_key, lookup, put, lookup-put}
use jnet.Net.Channel.{Channel}
use jnet.Net.PollPoller.{PollFd, PollPoller, write, poll_fd, add_channel}

-- The entry at a place, and the channel at an address, belong together.
pub record Belongs (s : PollPoller) (i p : ℕ) (pfd : PollFd) : Type 0 where
  pub listed : lookup pfd.fd s.channels ≡ some p
  pub own_fd : (s.objs p).fd ≡ pfd.fd
  pub own_index : (s.objs p).index ≡ i

-- Every entry has its channel, with the entry's place as its index, and every channel of the map has
-- its entry.
pub record IsIndexed (s : PollPoller) : Type 0 where
  pub entries :
      (i : ℕ) (pfd : PollFd) → get_elem? s.pollfds i ≡ some pfd → (p : ℕ) × Belongs s i p pfd
  pub channels :
      (fd p : ℕ)
      → lookup fd s.channels ≡ some p
      → (pfd : PollFd) × (get_elem? s.pollfds (s.objs p).index ≡ some pfd)
        × (pfd.fd ≡ fd)
        × ((s.objs p).fd ≡ fd)

get_elem?-last : (xs : List PollFd) (y : PollFd) → get_elem? (xs ++ y ∷ []) (length xs) ≡ some y
get_elem?-last [] y = refl
get_elem?-last (x ∷ xs) y = get_elem?-last xs y

get_elem?-before :
    (xs : List PollFd) (y v : PollFd) (i : ℕ)
    → get_elem? xs i ≡ some v
    → get_elem? (xs ++ y ∷ []) i ≡ some v
get_elem?-before [] y v i h = cc
get_elem?-before (x ∷ xs) y v zero h = h
get_elem?-before (x ∷ xs) y v (suc i) h = get_elem?-before xs y v i h

get_elem?-cases :
    (xs : List PollFd) (y v : PollFd) (i : ℕ)
    → get_elem? (xs ++ y ∷ []) i ≡ some v
    → (get_elem? xs i ≡ some v) ⊎ ((i ≡ length xs) × (y ≡ v))
get_elem?-cases [] y v zero h = inr (refl, ground arith)
get_elem?-cases [] y v (suc i) h = cc
get_elem?-cases (x ∷ xs) y v zero h = inl h
get_elem?-cases (x ∷ xs) y v (suc i) h = elim (get_elem?-cases xs y v i h) [
  | inl e ↦ inl e
  | inr (e, k) ↦ inr (ap suc e, k)
]

write_self : (objs : ℕ → Channel) (p : ℕ) (ch : Channel) → write objs p ch p ≡ ch
write_self objs p ch = ground arith

write_ne : (objs : ℕ → Channel) (p q : ℕ) (ch : Channel) → q ≢ p → write objs p ch q ≡ objs q
write_ne objs p q ch h = ground arith

-- A channel whose descriptor is not in the map is none of those that the map has.
not-listed :
    (s : PollPoller) (p q fd : ℕ)
    → IsIndexed s
    → lookup (s.objs p).fd s.channels ≡ none
    → lookup fd s.channels ≡ some q
    → q ≢ p
not-listed s p q fd ix fresh at e = let (pfd, found, own, same) = ix.channels fd q at in cc

-- The map after another descriptor was put.
put-other :
    (m : List (ℕ × ℕ)) (fd p fd' q : ℕ)
    → lookup fd m ≡ none
    → lookup fd' m ≡ some q
    → lookup fd' (put fd p m) ≡ some q
put-other m fd p fd' q fresh at = ground (arith, lookup-put fd fd' p m, ==_iff fd fd')

-- The channel of an entry other than the new one.
kept :
    (p : ℕ) (s : PollPoller) (i q : ℕ) (pfd : PollFd)
    → IsIndexed s
    → lookup (s.objs p).fd s.channels ≡ none
    → Belongs s i q pfd
    → Belongs (add_channel p s) i q pfd
unfolding add_channel
kept p s i q pfd ix fresh b =
    let ne = not-listed s p q pfd.fd ix fresh b.listed in
    let same = write_ne s.objs p q (record (s.objs p) { index = length s.pollfds }) ne in
    record {
      listed = put-other s.channels (s.objs p).fd p pfd.fd q fresh b.listed;
      own_fd = ap (λ (c : Channel). c.fd) same ∙ b.own_fd;
      own_index = ap (λ (c : Channel). c.index) same ∙ b.own_index;
    }

new-Belongs :
    (p : ℕ) (s : PollPoller) → Belongs (add_channel p s) (length s.pollfds) p (poll_fd (s.objs p))
unfolding add_channel
new-Belongs p s =
    let new = write_self s.objs p (record (s.objs p) { index = length s.pollfds }) in
    record {
      listed = ground (
        arith,
        lookup-put (s.objs p).fd (s.objs p).fd p s.channels,
        ==_iff (s.objs p).fd (s.objs p).fd,
      );
      own_fd = ap (λ (c : Channel). c.fd) new;
      own_index = ap (λ (c : Channel). c.index) new;
    }

-- The map after `put`: the new channel, or an old one.
put-cases :
    (m : List (ℕ × ℕ)) (fd p fd' q : ℕ)
    → lookup fd' (put fd p m) ≡ some q
    → ((fd ≡ fd') × (p ≡ q)) ⊎ (lookup fd' m ≡ some q)
put-cases m fd p fd' q at = ground (arith, lookup-put fd fd' p m, ==_iff fd fd')

-- Adding a channel whose descriptor is not in the table keeps the table, the map and the indices in
-- agreement, and puts an entry for the channel, with its events, at its index.
pub add_channel-IsIndexed :
    (p : ℕ) (s : PollPoller)
    → IsIndexed s
    → lookup (s.objs p).fd s.channels ≡ none
    → IsIndexed (add_channel p s)
      × (get_elem? (add_channel p s).pollfds ((add_channel p s).objs p).index
          ≡ some (poll_fd (s.objs p)))
unfolding add_channel
add_channel-IsIndexed p s ix fresh = (record { entries = entries; channels = channels }, at p refl)
  where
    entries :
        (i : ℕ) (pfd : PollFd)
        → get_elem? (add_channel p s).pollfds i ≡ some pfd
        → (q : ℕ) × Belongs (add_channel p s) i q pfd
    entries i pfd h = elim (get_elem?-cases s.pollfds (poll_fd (s.objs p)) pfd i h) [
      | inl old ↦ let (q, b) = ix.entries i pfd old in (q, kept p s i q pfd ix fresh b)
      | inr (e, k) ↦ (
        p,
        subst (λ j. Belongs (add_channel p s) j p pfd) (sym e)
            (subst (Belongs (add_channel p s) (length s.pollfds) p) k (new-Belongs p s)),
      )
    ]

    at :
        (q : ℕ)
        → q ≡ p
        → get_elem? (s.pollfds ++ poll_fd (s.objs p) ∷ []) ((add_channel p s).objs q).index
          ≡ some (poll_fd (s.objs p))
    at q e =
        ap (λ i. get_elem? (s.pollfds ++ poll_fd (s.objs p) ∷ []) i)
          (ap (λ r. ((add_channel p s).objs r).index) e ∙ (new-Belongs p s).own_index)
        ∙ get_elem?-last s.pollfds (poll_fd (s.objs p))

    channels :
        (fd q : ℕ)
        → lookup fd (add_channel p s).channels ≡ some q
        → (pfd : PollFd) × (get_elem? (add_channel p s).pollfds ((add_channel p s).objs q).index
            ≡ some pfd)
          × (pfd.fd ≡ fd)
          × (((add_channel p s).objs q).fd ≡ fd)
    channels fd q h = elim (put-cases s.channels (s.objs p).fd p fd q h) [
      | inl (e, k) ↦ (
        poll_fd (s.objs p),
        at q (sym k),
        e,
        ap (λ r. ((add_channel p s).objs r).fd) (sym k) ∙ (new-Belongs p s).own_fd ∙ e,
      )
      | inr old ↦
          let (pfd, found, own, same) = ix.channels fd q old in
          let ne = not-listed s p q fd ix fresh old in
          let eq = write_ne s.objs p q (record (s.objs p) { index = length s.pollfds }) ne in
          (
            pfd,
            ap (λ (c : Channel). get_elem? (s.pollfds ++ poll_fd (s.objs p) ∷ []) c.index) eq
                ∙ get_elem?-before s.pollfds (poll_fd (s.objs p)) pfd (s.objs q).index found,
            own,
            ap (λ (c : Channel). c.fd) eq ∙ same,
          )
    ]
