-- ===== src/Net/Address/Tests.antt =====
-- Addresses of net/net.cc.
use jnet.Base.{ℕ, ◌≡◌, refl, none, Option, List, [], ◌∷◌, ◌++◌, arith}
use jnet.Base.Int.{pos, negsuc}
use jnet.Net.Http.Text.{bytes_of, decimal}
use jnet.Net.Address.{Ip4Addr, new, swap16, get_ip, get_ip_int, to_string, get_port}
use jnet.Net.Address.Parts.{dotted, to_string-get_ip_int, get_port-new}

abbrev local : Ip4Addr
local = record { sin_port = 36895; s_addr = 16777343 }

local-to_string : to_string local ≡ bytes_of "127.0.0.1:8080"
unfolding to_string decimal
local-to_string = refl

to_string-get_ip_int-test :
    (get_ip local ≡ dotted 127 0 0 1) × (to_string local ≡ dotted 127 0 0 1 ++ 58 ∷ decimal 20 8080)
unfolding swap16 get_ip_int
to_string-get_ip_int-test =
    to_string-get_ip_int local 127 0 0 1 8080 (omega arith) (omega arith) (omega arith)
      (omega arith) (omega arith) (omega arith) refl refl

abbrev nowhere : List ℕ → Option ℕ
nowhere name = none

get_port-new-test :
    (get_port (new nowhere (104 ∷ []) (pos 80)) ≡ pos 80)
    × (get_port (new nowhere (104 ∷ []) (negsuc 80)) ≡ negsuc 80)
get_port-new-test = get_port-new nowhere (104 ∷ []) 80 (omega arith)
