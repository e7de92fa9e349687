-- ===== src/Net/Address/Parts.antt =====
-- What the parts of an address are, in net/net.cc: its number, its text and its port.
use jnet.Base.{
  ℕ, ◌+◌, ◌-◌, ◌*◌, ◌/◌, ◌%◌, ◌^◌, ◌<◌, ◌≡◌, ap, ◌∙◌, Option, List, [], ◌∷◌, ◌++◌, append_assoc,
  arith,
}
use jnet.Base.Int.{pos, negsuc}
use jnet.Net.Http.Text.{decimal}
use jnet.Net.Address.{
  Ip4Addr, swap16, swap32, to_u16, to_short, new, get_ip, to_string, get_port, get_ip_int,
}

swap16-swap16 : (n : ℕ) → n < 2 ^ 16 → swap16 (swap16 n) ≡ n
unfolding swap16
swap16-swap16 n small = omega arith

-- The text of four numbers with points between them.
abbrev pub dotted : ℕ → ℕ → ℕ → ℕ → List ℕ
dotted a b c d = decimal 20 a ++ 46 ∷ (decimal 20 b ++ 46 ∷ (decimal 20 c ++ 46 ∷ decimal 20 d))

append-points :
    (a b c d rest : List ℕ)
    → (a ++ 46 ∷ (b ++ 46 ∷ (c ++ 46 ∷ d))) ++ rest ≡ a ++ 46 ∷ (b ++ 46 ∷ (c ++ 46 ∷ (d ++ rest)))
append-points a b c d rest =
    append_assoc a (46 ∷ (b ++ 46 ∷ (c ++ 46 ∷ d))) rest
    ∙ ap (λ t. a ++ 46 ∷ t)
        (append_assoc b (46 ∷ (c ++ 46 ∷ d)) rest
          ∙ ap (λ t. b ++ 46 ∷ t) (append_assoc c (46 ∷ d) rest))

byte-split :
    (n a b c d : ℕ)
    → n < 2 ^ 32
    → a < 2 ^ 8
    → b < 2 ^ 8
    → c < 2 ^ 8
    → d < 2 ^ 8
    → swap32 n ≡ a * 2 ^ 24 + b * 2 ^ 16 + c * 2 ^ 8 + d
    → (n % 2 ^ 8 ≡ a)
      × (n / 2 ^ 8 % 2 ^ 8 ≡ b)
      × (n / 2 ^ 16 % 2 ^ 8 ≡ c)
      × (n / 2 ^ 24 % 2 ^ 8 ≡ d)
unfolding swap32
byte-split n a b c d small sa sb sc sd e = (omega arith, omega arith, omega arith, omega arith)

-- An address whose number `GetIpInt` is a * 2 ^ 24 + b * 2 ^ 16 + c * 2 ^ 8 + d, for four bytes: the
-- text of `GetIp` is a, b, c and d in decimal with points between them, and that of `ToString` is the
-- same with a colon and the port, between 0 and 2 ^ 16, behind it.
pub to_string-get_ip_int :
    (addr : Ip4Addr) (a b c d port : ℕ)
    → addr.s_addr < 2 ^ 32
    → a < 2 ^ 8
    → b < 2 ^ 8
    → c < 2 ^ 8
    → d < 2 ^ 8
    → port < 2 ^ 16
    → addr.sin_port ≡ swap16 port
    → get_ip_int addr ≡ a * 2 ^ 24 + b * 2 ^ 16 + c * 2 ^ 8 + d
    → (get_ip addr ≡ dotted a b c d) × (to_string addr ≡ dotted a b c d ++ 58 ∷ decimal 20 port)
unfolding get_ip to_string get_ip_int
to_string-get_ip_int addr a b c d port small sa sb sc sd sp at e =
    let (ea, eb, ec, ed) = byte-split addr.s_addr a b c d small sa sb sc sd e in
    let back = ap swap16 at ∙ swap16-swap16 port sp in
    (
      cc (ea, eb, ec, ed),
      cc (
        ea,
        eb,
        ec,
        ed,
        back,
        append-points (decimal 20 a) (decimal 20 b) (decimal 20 c) (decimal 20 d)
            (58 ∷ decimal 20 port),
      ),
    )

to_short-pos : (n : ℕ) → n < 2 ^ 15 → to_short (swap16 (swap16 (to_u16 (pos n)))) ≡ pos n
to_short-pos n small =
    ap (λ m. to_short m) (swap16-swap16 (n % 2 ^ 16) (omega arith)) ∙ ground arith

to_short-negsuc : (n : ℕ) → n < 2 ^ 15 → to_short (swap16 (swap16 (to_u16 (negsuc n)))) ≡ negsuc n
to_short-negsuc n small =
    ap (λ m. to_short m) (swap16-swap16 (2 ^ 16 - 1 - n % 2 ^ 16) (omega arith)) ∙ ground arith

-- A port that fits a `short`, given with a name or without, is the one that `GetPort` returns.
pub get_port-new :
    (find : List ℕ → Option ℕ) (host : List ℕ) (n : ℕ)
    → n < 2 ^ 15
    → (get_port (new find host (pos n)) ≡ pos n) × (get_port (new find host (negsuc n)) ≡ negsuc n)
unfolding new get_port
get_port-new find [] n small = (to_short-pos n small, to_short-negsuc n small)
get_port-new find (c ∷ host) n small = (to_short-pos n small, to_short-negsuc n small)
