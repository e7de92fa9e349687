-- ===== src/Buffer/Layout.antt =====
-- The allocation of a buffer as three pieces: consumed bytes, contents, free space.
use jnet.Base.{
  ℕ, ◌+◌, ◌*◌, max, ◌-◌, ◌^◌, ◌≤◌, ◌≡◌, refl, sym, ap, ◌∙◌, some, List, [], ◌++◌, append_assoc,
  arith, length, length-append, take, drop, replicate, poke, length-take, length-drop,
  length-replicate, take-append-drop, take-append, drop-append, drop-drop, poke-split,
}
use jnet.Buffer.{Buffer, contents, get_size, expand, write_end, add_bytes}

-- The positions are in order and inside the allocation, which is far from the end of `size_t`.
pub record IsValid (s : Buffer) : Type 0 where
  pub ordered : s.b ≤ s.e
  pub inside : s.e ≤ s.cap
  pub allocated : length s.buf ≡ s.cap
  pub small : s.cap ≤ 2 ^ 62
  pub suggested : s.exp ≤ 2 ^ 62

-- The allocation is `pre`, the contents `c`, then `post`.
pub record Holds (s : Buffer) (pre c post : List ℕ) : Type 0 where
  pub layout : s.buf ≡ pre ++ (c ++ post)
  pub start : s.b ≡ length pre
  pub stop : s.e ≡ length pre + length c
  pub room : s.cap ≡ length pre + length c + length post

pub Holds-contents : (s : Buffer) (pre c post : List ℕ) → Holds s pre c post → contents s ≡ c
Holds-contents s pre c post h = rw (h.layout, h.start, drop-append, stop_minus, take-append)
  where
    stop_minus : s.e - length pre ≡ length c
    stop_minus = omega (arith, h)

pub IsValid-Holds :
    (s : Buffer) → IsValid s → Holds s (take s.b s.buf) (contents s) (drop s.e s.buf)
IsValid-Holds s v = record {
  layout =
      sym (take-append-drop s.b s.buf)
      ∙ ap (λ r. take s.b s.buf ++ r)
          (sym (take-append-drop (s.e - s.b) (drop s.b s.buf))
            ∙ ap (λ r. contents s ++ r) (drop-drop s.b (s.e - s.b) s.e s.buf (omega (arith, v))));
  start = omega (arith, length-take {0} s.b s.buf, v);
  stop = omega (arith, lengths);
  room = omega (arith, lengths);
}
  where
    lengths :
        (length (take s.b s.buf) ≡ s.b)
        × (length (contents s) ≡ s.e - s.b)
        × (length (drop s.e s.buf) ≡ s.cap - s.e)
        × (s.b ≤ s.e)
        × (s.e ≤ s.cap)
    lengths = omega (
      arith,
      length-take {0} s.b s.buf,
      length-take {0} (s.e - s.b) (drop s.b s.buf),
      length-drop {0} s.b s.buf,
      length-drop {0} s.e s.buf,
      v,
    )

pub Holds-IsValid :
    (s : Buffer) (pre c post : List ℕ)
    → s.cap ≤ 2 ^ 62
    → s.exp ≤ 2 ^ 62
    → Holds s pre c post
    → IsValid s
Holds-IsValid s pre c post small sug h = record {
  ordered = omega (arith, h);
  inside = omega (arith, h);
  allocated =
      omega
        (arith, h, ap length h.layout, length-append {0} pre (c ++ post), length-append {0} c post);
  small = small;
  suggested = sug;
}

-- `size_t` arithmetic on the positions of a valid buffer is exact.
pub get_size_lem : (s : Buffer) → IsValid s → get_size s ≡ length (contents s)
unfolding get_size
get_size_lem s v =
    omega (arith, v, length-take {0} (s.e - s.b) (drop s.b s.buf), length-drop {0} s.b s.buf)

pub length-contents : (s : Buffer) → IsValid s → length (contents s) ≡ s.e - s.b
length-contents s v =
    omega (arith, v, length-take {0} (s.e - s.b) (drop s.b s.buf), length-drop {0} s.b s.buf)

-- A copy to the write position that fits in the free space puts its bytes there.
pub write_end-Holds :
    (s : Buffer) (pre c old post p : List ℕ)
    → Holds s pre c (old ++ post)
    → length old ≡ length p
    → write_end s p ≡ some (record s { buf = pre ++ (c ++ (p ++ post)) })
unfolding write_end
write_end-Holds s pre c old post p h k = rw (written, write_end) refl
  where
    written : poke s.buf s.e p ≡ some (pre ++ (c ++ (p ++ post)))
    written =
        rw
          (
            h.layout,
            h.stop,
            ← length-append pre c,
            ← append_assoc pre c (old ++ post),
            ← append_assoc pre c (p ++ post),
          )
          (poke-split (pre ++ c) old post p k)

-- The position then moves over them.
pub add_bytes-Holds :
    (s : Buffer) (pre c old post p : List ℕ)
    → Holds s pre c (old ++ post)
    → length old ≡ length p
    → s.cap ≤ 2 ^ 62
    → Holds (add_bytes (record s { buf = pre ++ (c ++ (p ++ post)) }) (length p)) pre (c ++ p) post
unfolding add_bytes
add_bytes-Holds s pre c old post p h k small = record {
  layout = ap (λ r. pre ++ r) (sym (append_assoc c p post));
  start = h.start;
  stop = omega (arith, sizes, h);
  room = omega (arith, sizes, h);
}
  where
    sizes :
        (length (old ++ post) ≡ length old + length post) × (length (c ++ p) ≡ length c + length p)
    sizes = (length-append old post, length-append c p)

pub expand-Holds :
    (s : Buffer) (len : ℕ)
    → IsValid s
    → s.cap ≤ 2 ^ 61
    → len ≤ 2 ^ 61
    → Holds (expand s len) [] (contents s) (replicate ((expand s len).cap - (s.e - s.b)) 0)
      × (length (contents s) + len ≤ (expand s len).cap)
      × ((expand s len).cap ≤ 2 ^ 62)
      × ((expand s len).exp ≡ s.exp)
      × ((expand s len).b ≡ 0)
      × ((expand s len).cap ≡ max s.exp (max (2 * s.cap) (s.e - s.b + len)))
unfolding expand
expand-Holds s len v small short = (
  record { layout = refl; start = refl; stop = omega (arith, v, k); room = omega (arith, v, k, r) },
  omega (arith, v, k, z),
  omega (arith, v, z, k),
  refl,
  refl,
  omega (arith, v, z),
)
  where
    k : length (contents s) ≡ s.e - s.b
    k = length-contents s v

    z : get_size s ≡ s.e - s.b
    z = get_size_lem s v ∙ k

    r :
        length (replicate {A = ℕ} ((expand s len).cap - (s.e - s.b)) 0)
        ≡ (expand s len).cap - (s.e - s.b)
    r = length-replicate _ 0
