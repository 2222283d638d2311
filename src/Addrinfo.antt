-- ===== src/Addrinfo.antt =====
-- src/addrinfo.cpp: an address with its port. The resolver (getaddrinfo, getnameinfo) and the socket
-- address that libtv fills in are arguments.
use linear_cpp.Prelude.{ℕ, Bool, true, false, Option, none, some, if◌then◌else◌, Bytes, codes}
use linear_cpp.Prelude.Int.{ℤ, pos, negsuc, nonzero}

pub data Proto : Type 0 where
  unknown ipv4 ipv6 : Proto

pub record Addrinfo : Type 0 where
  pub addr : Bytes
  pub port : ℤ
  pub proto : Proto

-- `Addrinfo()`.
abbrev pub undefined : Addrinfo
undefined = record { addr = codes "undefined"; port = negsuc 0; proto = unknown }

abbrev pub is_unknown : Proto → Bool
is_unknown unknown = true
is_unknown _ = false

-- `Addrinfo(a, p)`, with what getaddrinfo returns for AF_INET and for AF_INET6.
unfoldable pub resolve : ℤ → ℤ → Bytes → ℤ → Addrinfo
resolve r4 r6 a p =
    if nonzero r4
    then if nonzero r6 then undefined else record { addr = a; port = p; proto = ipv6 }
    else record { addr = a; port = p; proto = ipv4 }

-- `sa_family` of a socket address.
pub data Family : Type 0 where
  inet inet6 other : Family

-- A socket address: its family, its port in host order, and the numeric host that getnameinfo
-- gives, if it succeeds.
pub record SockAddr : Type 0 where
  pub family : Family
  pub port : ℕ
  pub host : Option Bytes

with_host : Proto → ℕ → Option Bytes → Addrinfo
with_host proto port none = undefined
with_host proto port (some host) = record { addr = host; port = pos port; proto = proto }

by_family : Family → ℕ → Option Bytes → Addrinfo
by_family inet port host = with_host ipv4 port host
by_family inet6 port host = with_host ipv6 port host
by_family other port host = undefined

-- `Addrinfo(sa)`.
unfoldable pub from_sockaddr : SockAddr → Addrinfo
unfolding with_host by_family
from_sockaddr sa = by_family sa.family sa.port sa.host
