-- ===== src/Net/PollPoller/Polling.antt =====
-- What `Poll` of net/pollpoller.cc hands to the event loop.
use jnet.Base.{
  ℕ, zero, suc, ◌≡◌, refl, sym, ap, ap₂, ◌∙◌, inl, inr, true, false, some, List, [], ◌∷◌, map,
  arith, if◌then◌else◌, Bool-cases,
}
use jnet.Base.Assoc.{nat_key, lookup}
use jnet.Net.Channel.{Channel, Mask}
use jnet.Net.PollPoller.{PollFd, PollPoller, write, any_event, fill_active_channels, poll}

-- The entries to which `poll` returned events, and their number.
abbrev pub ready : List PollFd → List PollFd
ready [] = []
ready (pfd ∷ fds) = if any_event pfd.revents then pfd ∷ ready fds else ready fds

abbrev pub count_ready : List PollFd → ℕ
count_ready [] = 0
count_ready (pfd ∷ fds) = if any_event pfd.revents then suc (count_ready fds) else count_ready fds

-- Every entry has a channel of its descriptor.
abbrev pub AllOwned : List PollFd → List (ℕ × ℕ) → (ℕ → Channel) → Type 0
AllOwned [] channels objs = Unit {0}
AllOwned (pfd ∷ fds) channels objs =
    ((p : ℕ) × (lookup pfd.fd channels ≡ some p) × ((objs p).fd ≡ pfd.fd))
    × AllOwned fds channels objs

write-fd :
    (objs : ℕ → Channel) (p q : ℕ) (m : Mask)
    → (write objs p (record (objs p) { revents = m }) q).fd ≡ (objs q).fd
write-fd objs p q m = ground arith

AllOwned-write :
    (fds : List PollFd) (channels : List (ℕ × ℕ)) (objs : ℕ → Channel) (p : ℕ) (m : Mask)
    → AllOwned fds channels objs
    → AllOwned fds channels (write objs p (record (objs p) { revents = m }))
AllOwned-write [] channels objs p m h = tt
AllOwned-write (pfd ∷ fds) channels objs p m ((q, at, own), h) =
    ((q, at, write-fd objs p q m ∙ own), AllOwned-write fds channels objs p m h)

ready-none : (fds : List PollFd) → 0 ≡ count_ready fds → ready fds ≡ []
ready-none [] h = refl
ready-none (pfd ∷ fds) h = elim (Bool-cases (any_event pfd.revents)) [
  | inl event ↦ absurd (ground arith)
  | inr quiet ↦ rw quiet (ready-none fds (ground arith))
]

-- The descriptors of some channels are the same after one of them got its events.
fds-write :
    (active : List ℕ) (objs : ℕ → Channel) (p : ℕ) (m : Mask)
    → map (λ q. (write objs p (record (objs p) { revents = m }) q).fd) active
      ≡ map (λ q. (objs q).fd) active
fds-write [] objs p m = refl
fds-write (q ∷ active) objs p m = ap₂ ◌∷◌ (write-fd objs p q m) (fds-write active objs p m)

fill-event :
    (n : ℕ) (pfd : PollFd) (fds : List PollFd) (channels : List (ℕ × ℕ)) (objs : ℕ → Channel)
    (p : ℕ) (active : List ℕ) (objs' : ℕ → Channel)
    → any_event pfd.revents ≡ true
    → lookup pfd.fd channels ≡ some p
    → fill_active_channels n fds channels (write objs p (record (objs p) { revents = pfd.revents }))
      ≡ some (active, objs')
    → fill_active_channels (suc n) (pfd ∷ fds) channels objs ≡ some (p ∷ active, objs')
unfolding fill_active_channels
fill-event n pfd fds channels objs p active objs' event at rest = ground arith

fill-quiet :
    (n : ℕ) (pfd : PollFd) (fds : List PollFd) (channels : List (ℕ × ℕ)) (objs : ℕ → Channel)
    → any_event pfd.revents ≡ false
    → fill_active_channels (suc n) (pfd ∷ fds) channels objs
      ≡ fill_active_channels (suc n) fds channels objs
unfolding fill_active_channels
fill-quiet n pfd fds channels objs quiet = ground arith

abbrev Fills : ℕ → List PollFd → List (ℕ × ℕ) → (ℕ → Channel) → Type 0
Fills n fds channels objs =
    (active : List ℕ) × (objs' : ℕ → Channel) × (fill_active_channels n fds channels objs
      ≡ some (active, objs'))
    × (map (λ p. (objs p).fd) active ≡ map (λ (r : PollFd). r.fd) (ready fds))

fill-empty : (n : ℕ) (channels : List (ℕ × ℕ)) (objs : ℕ → Channel) → Fills n [] channels objs
unfolding fill_active_channels
fill-empty zero channels objs = ([], objs, refl, refl)
fill-empty (suc n) channels objs = ([], objs, refl, refl)

fill-stops :
    (pfd : PollFd) (fds : List PollFd) (channels : List (ℕ × ℕ)) (objs : ℕ → Channel)
    → 0 ≡ count_ready (pfd ∷ fds)
    → Fills zero (pfd ∷ fds) channels objs
unfolding fill_active_channels
fill-stops pfd fds channels objs k =
    ([], objs, refl, ap (map (λ (r : PollFd). r.fd)) (sym (ready-none (pfd ∷ fds) k)))

fill_active_channels_lem :
    (n : ℕ) (fds : List PollFd) (channels : List (ℕ × ℕ)) (objs : ℕ → Channel)
    → AllOwned fds channels objs
    → n ≡ count_ready fds
    → Fills n fds channels objs
fill_active_channels_lem n [] channels objs own k = fill-empty n channels objs
fill_active_channels_lem zero (pfd ∷ fds) channels objs own k = fill-stops pfd fds channels objs k
fill_active_channels_lem (suc n) (pfd ∷ fds) channels objs ((p, at, same), own) k =
    elim (Bool-cases (any_event pfd.revents)) [
      | inl event ↦
          let (active, objs', done, fds_of) =
            fill_active_channels_lem n fds channels
              (write objs p (record (objs p) { revents = pfd.revents }))
              (AllOwned-write fds channels objs p pfd.revents own) (ground arith) in
          (
            p ∷ active,
            objs',
            fill-event n pfd fds channels objs p active objs' event at done,
            rw event (ap₂ ◌∷◌ same (sym (fds-write active objs p pfd.revents) ∙ fds_of)),
          )
      | inr quiet ↦
          let (active, objs', done, fds_of) =
            fill_active_channels_lem (suc n) fds channels objs own (ground arith) in
          (active, objs', fill-quiet n pfd fds channels objs quiet ∙ done, rw quiet fds_of)
    ]

-- `Poll`, where every returned entry has the channel of its descriptor and the count is that of the
-- entries with an event: it succeeds, and the descriptors of the active channels are those of exactly
-- the entries with an event, in the order of the table.
pub poll_lem :
    (n : ℕ) (returned : List PollFd) (s : PollPoller)
    → AllOwned returned s.channels s.objs
    → n ≡ count_ready returned
    → (active : List ℕ) × (t : PollPoller) × (poll n returned s ≡ some (active, t))
      × (map (λ p. (s.objs p).fd) active ≡ map (λ (r : PollFd). r.fd) (ready returned))
unfolding poll
poll_lem n returned s own k =
    let (active, objs, done, fds_of) =
      fill_active_channels_lem n returned s.channels s.objs own k in
    (active, record s { pollfds = returned; objs = objs }, ground (arith, done), fds_of)
