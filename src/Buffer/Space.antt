-- ===== src/Buffer/Space.antt =====
-- `MakeRoom()` without an argument, which a read calls before each `read` (net/buffer.h).
use jnet.Base.{
  ℕ, ◌-◌, ◌^◌, ◌≤◌, ◌<◌, ◌≡◌, refl, ◌++◌, List, some, arith, dec_lt, length, take, drop,
  length-drop, length-take, take-append-drop,
}
use jnet.Buffer.{Buffer, contents, get_space, make_space, expand, write_end, add_bytes}
use jnet.Buffer.Layout.{
  IsValid, Holds, Holds-contents, Holds-IsValid, IsValid-Holds, expand-Holds, write_end-Holds,
  add_bytes-Holds, length-contents,
}

get_space_lem : (s : Buffer) → IsValid s → get_space s ≡ s.cap - s.e
unfolding get_space
get_space_lem s v = omega (arith, v)

space-kept : (s : Buffer) → ¬ (get_space s < s.exp) → make_space s ≡ s
unfolding make_space
space-kept s h = ground arith

space-made : (s : Buffer) → get_space s < s.exp → make_space s ≡ expand s 0
unfolding make_space
space-made s h = ground arith

-- It keeps the bytes, and gives at least one byte of space, so that a `read` of nothing is the end of
-- the stream.
pub make_space_lem :
    (s : Buffer)
    → IsValid s
    → s.cap ≤ 2 ^ 61
    → 1 ≤ s.exp
    → (contents (make_space s) ≡ contents s)
      × IsValid (make_space s)
      × ((make_space s).exp ≡ s.exp)
      × (1 ≤ get_space (make_space s))
make_space_lem s v small suggests = elim (dec_lt (get_space s) s.exp) [
  | no enough ↦ rw (space-kept s enough) (refl, v, refl, omega (arith, enough))
  | yes tight ↦
      let (held, long, small', same, zero_b, ncap) = expand-Holds s 0 v small (omega arith) in
      let valid = Holds-IsValid (expand s 0) _ _ _ small' (omega (arith, same, v)) held in
      rw (space-made s tight) (
        Holds-contents (expand s 0) _ _ _ held,
        valid,
        same,
        omega (arith, get_space_lem (expand s 0) valid, held.stop, ncap, v, length-contents s v),
      )
]

-- A `read` of some bytes that fit in the space puts them behind the contents.
pub filled_lem :
    (s : Buffer) (bs : List ℕ)
    → IsValid s
    → length bs ≤ get_space s
    → (t : Buffer) × (write_end s bs ≡ some t)
      × (contents (add_bytes t (length bs)) ≡ contents s ++ bs)
      × IsValid (add_bytes t (length bs))
      × ((add_bytes t (length bs)).exp ≡ s.exp)
      × ((add_bytes t (length bs)).cap ≡ s.cap)
unfolding add_bytes
filled_lem s bs v fits = (
  record s { buf = pre ++ (contents s ++ (bs ++ rest)) },
  write_end-Holds s pre (contents s) old rest bs split old_len,
  Holds-contents _ pre (contents s ++ bs) rest held,
  Holds-IsValid _ pre (contents s ++ bs) rest v.small v.suggested held,
  refl,
  refl,
)
  where
    pre : List ℕ
    pre = take s.b s.buf

    old : List ℕ
    old = take (length bs) (drop s.e s.buf)

    rest : List ℕ
    rest = drop (length bs) (drop s.e s.buf)

    old_len : length old ≡ length bs
    old_len = omega (
      arith,
      fits,
      get_space_lem s v,
      v,
      length-drop {0} s.e s.buf,
      length-take {0} (length bs) (drop s.e s.buf),
    )

    split : Holds s pre (contents s) (old ++ rest)
    split = rw (take-append-drop (length bs) (drop s.e s.buf)) (IsValid-Holds s v)

    held :
        Holds
          (add_bytes (record s { buf = pre ++ (contents s ++ (bs ++ rest)) }) (length bs))
          pre
          (contents s ++ bs)
          rest
    held = add_bytes-Holds s pre (contents s) old rest bs split old_len v.small
