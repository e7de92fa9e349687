-- ===== src/Net/EpollPoller/Interest.antt =====
-- The channels of net/epollpoller.cc against the kernel's interest list.
use mathlib.Core.Option.{some-injective}
use jnet.Base.{
  ◌≢◌, ℕ, ◌*◌, ◌≤◌, ◌<◌, ◌≡◌, refl, sym, ap, ◌∙◌, inl, inr, Option, none, some, List, [], ◌∷◌, map,
  arith, ◌==◌, ==_iff, if◌then◌else◌, length, Bool-cases,
}
use jnet.Base.Assoc.{nat_key, lookup, put, erase, lookup-put, lookup-erase}
use jnet.Net.Channel.{Channel}
use jnet.Net.PollPoller.{write}
use jnet.Net.EpollPoller.{
  EpollEvent, Operation, ctl_add, ctl_mod, EpollPoller, fill_active_channels, update,
  update_channel, add_channel, remove_channel, poll,
}

-- What `epoll_ctl` documents: `interest` is the entry of a descriptor; an addition wants none and a
-- change wants one, and both leave the given event for that descriptor alone.
pub record EpollCtl {ℓ} (Kernel : Type ℓ) : Type ℓ where
  pub epoll_ctl : Operation → ℕ → EpollEvent → Kernel → Option Kernel
  pub interest : Kernel → ℕ → Option EpollEvent
  pub adds :
      (fd : ℕ) (event : EpollEvent) (k : Kernel)
      → interest k fd ≡ none
      → (k' : Kernel) × (epoll_ctl ctl_add fd event k ≡ some k')
        × ((i : ℕ) → interest k' i ≡ (if fd == i then some event else interest k i))
  pub exists :
      (fd : ℕ) (event old : EpollEvent) (k : Kernel)
      → interest k fd ≡ some old
      → epoll_ctl ctl_add fd event k ≡ none
  pub changes :
      (fd : ℕ) (event old : EpollEvent) (k : Kernel)
      → interest k fd ≡ some old
      → (k' : Kernel) × (epoll_ctl ctl_mod fd event k ≡ some k')
        × ((i : ℕ) → interest k' i ≡ (if fd == i then some event else interest k i))

module _ {ℓ} {Kernel : Type ℓ} (e : EpollCtl Kernel) where
  -- The kernel knows every channel of the map, under its address.
  abbrev pub IsTracked : EpollPoller Kernel → Type 0
  IsTracked s =
      (fd p : ℕ)
      → lookup fd s.channels ≡ some p
      → (event : EpollEvent) × (e.interest s.kernel fd ≡ some event) × (event.ptr ≡ p)

  update-some :
      (op : Operation) (p : ℕ) (s : EpollPoller Kernel) (k : Kernel)
      → e.epoll_ctl op (s.objs p).fd (record { events = (s.objs p).events; ptr = p }) s.kernel
        ≡ some k
      → update e.epoll_ctl op p s ≡ record s { kernel = k }
  unfolding update
  update-some op p s k done = ground (arith, done)

  add_channel-update :
      (p : ℕ) (s t : EpollPoller Kernel)
      → update e.epoll_ctl ctl_add p s ≡ t
      → add_channel e.epoll_ctl p s ≡ record t { channels = put (s.objs p).fd p t.channels }
  unfolding add_channel
  add_channel-update p s t done =
      ap (λ (u : EpollPoller Kernel). record u { channels = put (s.objs p).fd p u.channels }) done

  -- A new entry of the kernel's list and of the map.
  entry-IsTracked :
      (s : EpollPoller Kernel) (k : Kernel) (m : List (ℕ × ℕ)) (fd p : ℕ) (event : EpollEvent)
      → IsTracked s
      → ((i : ℕ) → e.interest k i ≡ (if fd == i then some event else e.interest s.kernel i))
      → event.ptr ≡ p
      → ((i : ℕ) → lookup i m ≡ (if fd == i then some p else lookup i s.channels))
      → IsTracked (record s { kernel = k; channels = m })
  entry-IsTracked s k m fd p event tracked entry own table i q at = elim (Bool-cases (fd == i)) [
    | inl same ↦ (
      event,
      entry i ∙ ap (λ b. if b then some event else e.interest s.kernel i) same,
      own ∙ ground (arith, at, table i, same),
    )
    | inr other ↦
        let (old, there, ptr) = tracked i q (ground (arith, at, table i, other)) in
        (
          old,
          entry i ∙ ap (λ b. if b then some event else e.interest s.kernel i) other ∙ there,
          ptr,
        )
  ]

  -- `AddChannel` of a channel whose descriptor the kernel's list has not: the map and the
  -- kernel's list get this channel with its events and are otherwise as before, and the kernel knows
  -- every channel of the map as before.
  pub add_channel-IsTracked :
      (p : ℕ) (s : EpollPoller Kernel)
      → IsTracked s
      → e.interest s.kernel (s.objs p).fd ≡ none
      → (t : EpollPoller Kernel) × (add_channel e.epoll_ctl p s ≡ t)
        × IsTracked t
        × (e.interest t.kernel (s.objs p).fd
            ≡ some (record { events = (s.objs p).events; ptr = p }))
        × (lookup (s.objs p).fd t.channels ≡ some p)
  add_channel-IsTracked p s tracked free =
      let fd = (s.objs p).fd in
      let event : EpollEvent = record { events = (s.objs p).events; ptr = p } in
      let (k, done, entry) = e.adds fd event s.kernel free in
      let m = put fd p s.channels in
      (
        record s { kernel = k; channels = m },
        add_channel-update p s (record s { kernel = k }) (update-some ctl_add p s k done),
        entry-IsTracked s k m fd p event tracked entry refl (λ i. lookup-put fd i p s.channels),
        entry fd ∙ ground arith,
        lookup-put fd fd p s.channels ∙ ground arith,
      )

  update_channel-update :
      (p : ℕ) (s : EpollPoller Kernel)
      → update_channel e.epoll_ctl p s ≡ update e.epoll_ctl ctl_mod p s
  unfolding update_channel
  update_channel-update p s = refl

  change-IsTracked :
      (s : EpollPoller Kernel) (k : Kernel) (fd p : ℕ) (event : EpollEvent)
      → IsTracked s
      → ((i : ℕ) → e.interest k i ≡ (if fd == i then some event else e.interest s.kernel i))
      → event.ptr ≡ p
      → lookup fd s.channels ≡ some p
      → IsTracked (record s { kernel = k })
  change-IsTracked s k fd p event tracked entry own at =
      entry-IsTracked s k s.channels fd p event tracked entry own (λ i. same i)
    where
      same : (i : ℕ) → lookup i s.channels ≡ (if fd == i then some p else lookup i s.channels)
      same i = elim (Bool-cases (fd == i)) [
        | inl eq ↦
            ap (λ j. lookup j s.channels) (sym ((==_iff fd i).0 eq))
            ∙ at
            ∙ sym (ap (λ b. if b then some p else lookup i s.channels) eq)
        | inr other ↦ sym (ap (λ b. if b then some p else lookup i s.channels) other)
      ]

  -- `UpdateChannel` of a channel of the map, where the kernel knows every channel of the map: the
  -- kernel's list gets the channel's present events, and the kernel still knows every
  -- channel of the map.
  pub update_channel-IsTracked :
      (p : ℕ) (s : EpollPoller Kernel)
      → IsTracked s
      → lookup (s.objs p).fd s.channels ≡ some p
      → (t : EpollPoller Kernel) × (update_channel e.epoll_ctl p s ≡ t)
        × IsTracked t
        × (e.interest t.kernel (s.objs p).fd
            ≡ some (record { events = (s.objs p).events; ptr = p }))
  update_channel-IsTracked p s tracked at =
      let fd = (s.objs p).fd in
      let event : EpollEvent = record { events = (s.objs p).events; ptr = p } in
      let (old, there, ptr) = tracked fd p at in
      let (k, done, entry) = e.changes fd event old s.kernel there in
      (
        record s { kernel = k },
        update_channel-update p s ∙ update-some ctl_mod p s k done,
        change-IsTracked s k fd p event tracked entry refl at,
        entry fd ∙ ground arith,
      )

  update-none :
      (op : Operation) (p : ℕ) (s : EpollPoller Kernel)
      → e.epoll_ctl op (s.objs p).fd (record { events = (s.objs p).events; ptr = p }) s.kernel
        ≡ none
      → update e.epoll_ctl op p s ≡ s
  unfolding update
  update-none op p s fails = ground (arith, fails)

  remove_channel-some :
      (p : ℕ) (s : EpollPoller Kernel)
      → lookup (s.objs p).fd s.channels ≡ some p
      → remove_channel p s ≡ some (record s { channels = erase (s.objs p).fd s.channels })
  unfolding remove_channel
  remove_channel-some p s at = ground (arith, at)

  -- A channel of the map is removed, where the kernel knows every channel of the map, and, with the
  -- descriptor still open, a channel of the same descriptor is added: the removal leaves the kernel's
  -- list as it is and takes the descriptor out of the map, and the addition puts the new channel into
  -- the map, while the kernel's list still has the entry with the address of the first one. So a
  -- channel at another address is in the map and not the one that the kernel's events come with.
  pub add_channel-remove_channel :
      (p q : ℕ) (s : EpollPoller Kernel)
      → IsTracked s
      → lookup (s.objs p).fd s.channels ≡ some p
      → (s.objs q).fd ≡ (s.objs p).fd
      → (t : EpollPoller Kernel) × (event : EpollEvent) × (remove_channel p s ≡ some t)
        × (t.kernel ≡ s.kernel)
        × (lookup (s.objs p).fd t.channels ≡ none)
        × (lookup (s.objs p).fd (add_channel e.epoll_ctl q t).channels ≡ some q)
        × (e.interest (add_channel e.epoll_ctl q t).kernel (s.objs p).fd ≡ some event)
        × (event.ptr ≡ p)
        × (q ≢ p → ¬ (IsTracked (add_channel e.epoll_ctl q t)))
  add_channel-remove_channel p q s tracked at shared =
      let fd = (s.objs p).fd in
      let (old, there, ptr) = tracked fd p at in
      let t = record s { channels = erase fd s.channels } in
      let same_fd : e.interest s.kernel (s.objs q).fd ≡ some old =
        ap (e.interest s.kernel) shared ∙ there in
      let refused =
        e.exists (s.objs q).fd (record { events = (s.objs q).events; ptr = q }) old s.kernel
          same_fd in
      let added = add_channel-update q t t (update-none ctl_add q t refused) in
      let listed : lookup fd (add_channel e.epoll_ctl q t).channels ≡ some q =
        ap (λ (u : EpollPoller Kernel). lookup fd u.channels) added
        ∙ lookup-put (s.objs q).fd fd q t.channels
        ∙ ground (arith, shared, ==_iff (s.objs q).fd fd) in
      let stale : e.interest (add_channel e.epoll_ctl q t).kernel fd ≡ some old =
        ap (λ (u : EpollPoller Kernel). e.interest u.kernel fd) added ∙ there in
      (
        t,
        old,
        remove_channel-some p s at,
        refl,
        lookup-erase fd fd s.channels ∙ ground arith,
        listed,
        stale,
        ptr,
        λ other known.
            let (new, there', ptr') = known fd q listed in
            other (
              sym ptr'
              ∙ ap (λ (event : EpollEvent). event.ptr) (some-injective _ _ (sym there' ∙ stale))
              ∙ ptr),
      )

active-ptrs :
    (events : List EpollEvent) (objs : ℕ → Channel)
    → (fill_active_channels events objs).0 ≡ map (λ (event : EpollEvent). event.ptr) events
unfolding fill_active_channels
active-ptrs [] objs = refl
active-ptrs (event ∷ events) objs =
    ap (◌∷◌ event.ptr) (
      active-ptrs events
        (write objs event.ptr (record (objs event.ptr) { revents = event.events })))

-- `Poll` with at most as many events as there is room for, where there is room for one: it succeeds,
-- the active channels are those of the events in their order, and then there is room for more events
-- than came.
pub poll-room {ℓ} :
    {Kernel : Type ℓ} (events : List EpollEvent) (s : EpollPoller Kernel)
    → length events ≤ s.size
    → 0 < s.size
    → (active : List ℕ) × (t : EpollPoller Kernel) × (poll events s ≡ some (active, t))
      × (active ≡ map (λ (event : EpollEvent). event.ptr) events)
      × (length events < t.size)
unfolding poll
poll-room [] s le room = ([], s, refl, refl, room)
poll-room (event ∷ events) s le room = (
  (fill_active_channels (event ∷ events) s.objs).0,
  record s {
    objs = (fill_active_channels (event ∷ events) s.objs).1;
    size = if length (event ∷ events) == s.size then s.size * 2 else s.size;
  },
  ground arith,
  active-ptrs (event ∷ events) s.objs,
  ground arith,
)
