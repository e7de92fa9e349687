-- ===== src/Buffer/Contents.antt =====
-- What the operations of net/buffer.h and net/buffer.cc do to the bytes of a buffer.
use jnet.Base.{
  ℕ, ◌+◌, ◌*◌, ◌-◌, ◌^◌, max, ◌≤◌, ◌<◌, ◌≡◌, refl, sym, ap, ◌∙◌, ◌⊎◌, none, some, List, [], ◌++◌,
  arith, dec_le, ℕ_discrete, length, take, drop, length-take, length-drop, length-replicate,
  take-append-drop, drop-drop, drop-length, drop-take, poke-overflow, length-take,
}
use jnet.Buffer.{
  Buffer, contents, get_size, expand, make_room, write_end, add_bytes, append, consume, clear,
  absorb,
}
use jnet.Buffer.Layout.{
  IsValid, Holds, Holds-contents, IsValid-Holds, Holds-IsValid, length-contents, write_end-Holds,
  add_bytes-Holds, expand-Holds,
}

-- Where `MakeRoom(len)` finds or makes room: past the write position, or by a new allocation.
abbrev pub HasRoom : Buffer → ℕ → Type 0
HasRoom s len = (s.e + len ≤ s.cap) ⊎ (s.cap ≤ s.e - s.b + len)

make_room-fits :
    (s : Buffer) (len : ℕ) → IsValid s → len ≤ 2 ^ 61 → s.e + len ≤ s.cap → make_room s len ≡ s
unfolding make_room
make_room-fits s len v k h = ground arith

make_room-grows :
    (s : Buffer) (len : ℕ)
    → IsValid s
    → len ≤ 2 ^ 61
    → s.cap < s.e + len
    → s.cap ≤ s.e - s.b + len
    → make_room s len ≡ expand s len
unfolding make_room
make_room-grows s len v k h g = ground arith

make_room-stays :
    (s : Buffer) (len : ℕ)
    → IsValid s
    → len ≤ 2 ^ 61
    → s.e - s.b + len < s.cap
    → make_room s len ≡ s
unfolding make_room
make_room-stays s len v k h = ground arith

-- What `append` returns on a buffer whose pieces are known and whose free space is long enough.
write-append :
    (s t : Buffer) (pre c post p : List ℕ)
    → make_room s (length p) ≡ t
    → Holds t pre c post
    → length p ≤ length post
    → t.cap ≤ 2 ^ 62
    → t.exp ≤ 2 ^ 62
    → (u : Buffer) × (append s p ≡ some u)
      × (contents u ≡ c ++ p)
      × IsValid u
      × (u.exp ≡ t.exp)
      × (u.b ≡ t.b)
      × (u.cap ≡ t.cap)
unfolding append add_bytes
write-append s t pre c post p m h k small sug = (
  u,
  rw (m, append, write_end-Holds t pre c old rest p split old_len) refl,
  Holds-contents u pre (c ++ p) rest held,
  Holds-IsValid u pre (c ++ p) rest small sug held,
  refl,
  refl,
  refl,
)
  where
    old : List ℕ
    old = take (length p) post

    rest : List ℕ
    rest = drop (length p) post

    old_len : length old ≡ length p
    old_len = omega (arith, length-take {0} (length p) post)

    split : Holds t pre c (old ++ rest)
    split = rw (take-append-drop (length p) post) h

    u : Buffer
    u = add_bytes (record t { buf = pre ++ (c ++ (p ++ rest)) }) (length p)

    held : Holds u pre (c ++ p) rest
    held = add_bytes-Holds t pre c old rest p split old_len small

pub append-fits :
    (s : Buffer) (p : List ℕ)
    → IsValid s
    → length p ≤ 2 ^ 61
    → s.e + length p ≤ s.cap
    → (u : Buffer) × (append s p ≡ some u)
      × (contents u ≡ contents s ++ p)
      × IsValid u
      × (u.exp ≡ s.exp)
      × (u.b ≡ s.b)
      × (u.cap ≡ s.cap)
append-fits s p v short fits =
    write-append s s (take s.b s.buf) (contents s) (drop s.e s.buf) p
      (make_room-fits s (length p) v short fits) (IsValid-Holds s v)
      (omega (arith, v, length-drop {0} s.e s.buf)) (omega (arith, v)) v.suggested

pub append-grows :
    (s : Buffer) (p : List ℕ)
    → IsValid s
    → s.cap ≤ 2 ^ 61
    → length p ≤ 2 ^ 61
    → s.cap < s.e + length p
    → s.cap ≤ s.e - s.b + length p
    → (u : Buffer) × (append s p ≡ some u)
      × (contents u ≡ contents s ++ p)
      × IsValid u
      × (u.exp ≡ s.exp)
      × (u.b ≡ 0)
      × (u.cap ≡ max s.exp (max (2 * s.cap) (s.e - s.b + length p)))
append-grows s p v small short over more =
    let (held, long, small', same, zero_b, ncap) = expand-Holds s (length p) v small short in
    let (u, done, bytes, valid, exp, b, cap) =
      write-append s (expand s (length p)) [] (contents s) _ p
        (make_room-grows s (length p) v short over more) held
        (omega (
          arith,
          long,
          length-contents s v,
          length-replicate {A = ℕ} ((expand s (length p)).cap - (s.e - s.b)) 0,
        ))
        small' (omega (arith, same, v)) in
    (u, done, bytes, valid, exp ∙ same, b ∙ zero_b, cap ∙ ncap)

-- On a valid buffer of at most 2 ^ 61 bytes with room for at most 2 ^ 61 new ones, `Append` never
-- leaves the allocation: it adds exactly the given bytes after the contents and the buffer stays
-- valid.
pub append_lem :
    (s : Buffer) (p : List ℕ)
    → IsValid s
    → s.cap ≤ 2 ^ 61
    → length p ≤ 2 ^ 61
    → HasRoom s (length p)
    → (u : Buffer) × (append s p ≡ some u)
      × (contents u ≡ contents s ++ p)
      × IsValid u
      × (u.exp ≡ s.exp)
append_lem s p v small short room = elim (dec_le (s.e + length p) s.cap) [
  | yes fits ↦
      let (u, done, bytes, valid, exp, b, cap) = append-fits s p v short fits in
      (u, done, bytes, valid, exp)
  | no over ↦
      let (u, done, bytes, valid, exp, b, cap) =
        append-grows s p v small short (omega arith) (omega arith) in
      (u, done, bytes, valid, exp)
]

-- Where at most 2 ^ 61 bytes fit into a valid buffer only if the consumed ones were moved away,
-- `MakeRoom` counts on a `MoveHead` that does nothing, and the copy of `Append` leaves the
-- allocation.
pub append-overflow :
    (s : Buffer) (p : List ℕ)
    → IsValid s
    → length p ≤ 2 ^ 61
    → s.e - s.b + length p < s.cap
    → s.cap < s.e + length p
    → append s p ≡ none
unfolding append write_end
append-overflow s p v short moved over =
    rw
      (
        make_room-stays s (length p) v short moved,
        append,
        poke-overflow s.buf s.e p (omega (arith, v)),
      )
      refl

consume-empties : (s : Buffer) (n : ℕ) → IsValid s → s.b + n ≡ s.e → consume s n ≡ clear s
unfolding consume get_size clear
consume-empties s n v h = ground arith

consume-moves :
    (s : Buffer) (n : ℕ) → IsValid s → s.b + n < s.e → consume s n ≡ record s { b = s.b + n }
unfolding consume get_size
consume-moves s n v h = ground arith

clear-IsValid : (s : Buffer) → IsValid s → IsValid (clear s)
unfolding clear
clear-IsValid s v = omega (arith, v)

contents-clear : (s : Buffer) → contents (clear s) ≡ []
unfolding clear
contents-clear s = refl

moved :
    (s : Buffer) (n : ℕ)
    → IsValid s
    → n ≤ s.e - s.b
    → drop n (contents s) ≡ contents (record s { b = s.b + n })
moved s n v h =
    drop-take n (s.e - s.b) (s.e - (s.b + n)) (drop s.b s.buf) (omega (arith, v))
    ∙ ap (take (s.e - (s.b + n))) (drop-drop s.b n (s.b + n) s.buf refl)

-- `Consume(n)` on a valid buffer of at least `n` bytes drops exactly the first `n`, also where it
-- releases the allocation, and the buffer stays valid.
pub consume_lem :
    (s : Buffer) (n : ℕ)
    → IsValid s
    → n ≤ length (contents s)
    → (contents (consume s n) ≡ drop n (contents s))
      × IsValid (consume s n)
      × ((consume s n).exp ≡ s.exp)
unfolding clear
consume_lem s n v h = elim (ℕ_discrete (s.b + n) s.e) [
  | yes done ↦ rw (consume-empties s n v done) (
    sym (drop-length n (contents s) (omega (arith, length-contents s v))),
    clear-IsValid s v,
    refl,
  )
  | no more ↦ rw (consume-moves s n v (omega (arith, length-contents s v))) (
    sym (moved s n v (omega (arith, length-contents s v))),
    omega (arith, v, length-contents s v),
    refl,
  )
]

absorb-empty :
    (s o : Buffer)
    → s.b ≡ s.e
    → absorb s o ≡ some (record o { exp = s.exp }, record s { exp = o.exp })
unfolding absorb get_size
absorb-empty s o h = ground arith

absorb-append :
    (s o t : Buffer)
    → IsValid s
    → s.b < s.e
    → append s (contents o) ≡ some t
    → absorb s o ≡ some (t, clear o)
unfolding absorb get_size
absorb-append s o t v h e = ground arith

contents-nothing : (s : Buffer) → s.b ≡ s.e → contents s ≡ []
contents-nothing s h = let z : s.e - s.b ≡ 0 = omega arith in rw z refl

-- Absorbing a different buffer, both valid and of at most 2 ^ 61 bytes, with room for its bytes,
-- moves all of them behind one's own and empties it; each of the two stays valid and keeps its
-- suggested size.
pub absorb_lem :
    (s o : Buffer)
    → IsValid s
    → IsValid o
    → s.cap ≤ 2 ^ 61
    → o.cap ≤ 2 ^ 61
    → HasRoom s (length (contents o))
    → (t : Buffer) × (r : Buffer) × (absorb s o ≡ some (t, r))
      × (contents t ≡ contents s ++ contents o)
      × (contents r ≡ [])
      × IsValid t
      × IsValid r
      × (t.exp ≡ s.exp)
      × (r.exp ≡ o.exp)
unfolding clear
absorb_lem s o v w small small' room = elim (ℕ_discrete s.b s.e) [
  | yes nothing ↦ (
    record o { exp = s.exp },
    record s { exp = o.exp },
    absorb-empty s o nothing,
    rw (contents-nothing s nothing) refl,
    contents-nothing s nothing,
    omega (arith, v, w),
    omega (arith, v, w),
    refl,
    refl,
  )
  | no more ↦
      let (t, done, bytes, valid, same) =
        append_lem s (contents o) v small (omega (arith, w, length-contents o w)) room in
      (
        t,
        clear o,
        absorb-append s o t v (omega (arith, v)) done,
        bytes,
        refl,
        valid,
        clear-IsValid o w,
        same,
        refl,
      )
]
