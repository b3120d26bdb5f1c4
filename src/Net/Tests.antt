-- ===== src/Net/Tests.antt =====
-- Runs of the address parsers, on inputs of which the answers of Go's package net are known.
use aquatiq_root.Common.{Text, lit, ◌≡◌, refl, Bool, true, false, Option, none, some}
use aquatiq_root.Net.{parse_ip, parse_cidr, contains, net4}

-- Whether the address lies in the range.
inside : Text → Text → Option Bool
inside range address = elim (parse_cidr range) [
  | none ↦ none
  | some n ↦ elim (parse_ip address) [ none ↦ none | some ip ↦ some (contains n ip) ]
]

loopback : parse_ip (lit "127.0.0.1") ≡ some 0xffff7f000001
unfolding parse_ip lit
loopback = refl

documentation_address :
    parse_ip (lit "2001:db8::ff00:42:8329") ≡ some 0x20010db8000000000000ff0000428329
unfolding parse_ip lit
documentation_address = refl

embedded : parse_ip (lit "::ffff:192.0.2.128") ≡ some 0xffffc0000280
unfolding parse_ip lit
embedded = refl

refused :
    (parse_ip (lit "1.2.3") ≡ none)
    × (parse_ip (lit "1.2.3.04") ≡ none)
    × (parse_ip (lit "1.2.3.256") ≡ none)
    × (parse_ip (lit "1::2::3") ≡ none)
    × (parse_ip (lit "fe80::1%eth0") ≡ none)
    × (parse_ip (lit "1:2:3:4:5:6:7:8:9") ≡ none)
    × (parse_ip (lit "1.2.3.4:80") ≡ none)
    × (parse_ip (lit "") ≡ none)
unfolding parse_ip lit
refused = (refl, refl, refl, refl, refl, refl, refl, refl)

unspecified : parse_ip (lit "::") ≡ some 0
unfolding parse_ip lit
unspecified = refl

cidr : parse_cidr (lit "10.1.2.3/8") ≡ some (net4 (0x0a000000) 8)
unfolding parse_cidr lit
cidr = refl

cidr_refused :
    (parse_cidr (lit "10.0.0.0/33") ≡ none)
    × (parse_cidr (lit "10.0.0.0") ≡ none)
    × (parse_cidr (lit "10.0.0.0/8x") ≡ none)
unfolding parse_cidr lit
cidr_refused = (refl, refl, refl)

ranges :
    (inside (lit "10.0.0.0/8") (lit "10.9.8.7") ≡ some true)
    × (inside (lit "10.0.0.0/8") (lit "11.0.0.1") ≡ some false)
    × (inside (lit "2001:db8::/32") (lit "2001:db8:1::1") ≡ some true)
    × (inside (lit "::/0") (lit "10.0.0.1") ≡ some false)
    × (inside (lit "::ffff:10.0.0.0/104") (lit "10.1.1.1") ≡ some true)
unfolding inside parse_cidr parse_ip contains lit
ranges = (refl, refl, refl, refl, refl)
