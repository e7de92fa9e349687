-- ===== src/Net/Address.antt =====
-- The address type of net/net.h and net/net.cc. The machine is little-endian; a `sockaddr_in` is its
-- port and its address as the numbers that the machine reads there.
pub mod Parts
mod Tests
use jnet.Base.{
  ℕ, ◌+◌, ◌-◌, ◌*◌, ◌/◌, ◌%◌, ◌^◌, Bool, not, Option, none, some, List, [], ◌∷◌, ◌++◌, ◌==◌, ltb,
  if◌then◌else◌,
}
use jnet.Base.Int.{ℤ, pos, negsuc}
use jnet.Net.Http.Text.{decimal}

pub record Ip4Addr : Type 0 where
  pub sin_port : ℕ
  pub s_addr : ℕ

-- `htons` and `ntohs`, `htonl` and `ntohl`.
unfoldable pub swap16 : ℕ → ℕ
swap16 n = n % 2 ^ 8 * 2 ^ 8 + n / 2 ^ 8 % 2 ^ 8

unfoldable pub swap32 : ℕ → ℕ
swap32 n =
    n % 2 ^ 8 * 2 ^ 24
    + n / 2 ^ 8 % 2 ^ 8 * 2 ^ 16
    + n / 2 ^ 16 % 2 ^ 8 * 2 ^ 8
    + n / 2 ^ 24 % 2 ^ 8

-- A `short` as the `uint16_t` that `htons` takes, and back.
abbrev pub to_u16 : ℤ → ℕ
to_u16 (pos n) = n % 2 ^ 16
to_u16 (negsuc n) = 2 ^ 16 - 1 - n % 2 ^ 16

abbrev pub to_short : ℕ → ℤ
to_short n = if ltb n (2 ^ 15) then pos n else negsuc (2 ^ 16 - 1 - n)

abbrev pub inaddr_none : ℕ
inaddr_none = 2 ^ 32 - 1

abbrev pub resolved : Option ℕ → ℕ
resolved none = inaddr_none
resolved (some a) = a

-- `Ip4Addr(host, port)`, with what `gethostbyname_r` finds for a name.
unfoldable pub new : (List ℕ → Option ℕ) → List ℕ → ℤ → Ip4Addr
unfolding swap16
new find [] port = record { sin_port = swap16 (to_u16 port); s_addr = 0 }
new find (c ∷ host) port = record {
  sin_port = swap16 (to_u16 port);
  s_addr = resolved (find (c ∷ host));
}

-- `GetIp()`.
unfoldable pub get_ip : Ip4Addr → List ℕ
get_ip a =
    decimal 20 (a.s_addr % 2 ^ 8)
    ++ 46
      ∷ (decimal 20 (a.s_addr / 2 ^ 8 % 2 ^ 8)
          ++ 46
            ∷ (decimal 20 (a.s_addr / 2 ^ 16 % 2 ^ 8)
                ++ 46 ∷ decimal 20 (a.s_addr / 2 ^ 24 % 2 ^ 8)))

-- `ToString()`.
unfoldable pub to_string : Ip4Addr → List ℕ
unfolding swap16
to_string a =
    decimal 20 (a.s_addr % 2 ^ 8)
    ++ 46
      ∷ (decimal 20 (a.s_addr / 2 ^ 8 % 2 ^ 8)
          ++ 46
            ∷ (decimal 20 (a.s_addr / 2 ^ 16 % 2 ^ 8)
                ++ 46
                  ∷ (decimal 20 (a.s_addr / 2 ^ 24 % 2 ^ 8)
                      ++ 58 ∷ decimal 20 (swap16 a.sin_port))))

-- `GetPort()`, a `short`.
unfoldable pub get_port : Ip4Addr → ℤ
unfolding swap16
get_port a = to_short (swap16 a.sin_port)

-- `GetIpInt()`.
unfoldable pub get_ip_int : Ip4Addr → ℕ
unfolding swap32
get_ip_int a = swap32 a.s_addr

-- `IsIpValid()`.
unfoldable pub is_ip_valid : Ip4Addr → Bool
is_ip_valid a = not (a.s_addr == inaddr_none)
