-- ===== src/Net.antt =====
-- What the whitelist uses of Go's package net (ParseIP, ParseCIDR, IP.Equal, IPNet.Contains), by the
-- rules of net and net/netip. A `net.IP` that ParseIP returns has sixteen bytes: it is a number below
-- 2 ^ 128, an IPv4 address under the prefix ::ffff:0:0/96.
mod Tests
use aquatiq_root.Common.{
  ℕ, zero, suc, ◌+◌, ◌-◌, ◌*◌, ◌/◌, ◌%◌, ◌^◌, min, Text, is_empty, take, drop, replicate, length,
  ◌≡◌, Bool, true, false, ◌&&◌, ◌||◌, not, Option, none, some, List, [], ◌∷◌, ◌++◌, if◌then◌else◌,
  ltb, leb, ◌==◌,
}

is_digit : ℕ → Bool
is_digit c = leb 48 c && leb c 57

-- parseIPv4Fields: the value of the field, how many fields are closed, the digits of the field, and
-- the fields so far.
unfoldable pub v4_fields : Text → ℕ → ℕ → ℕ → ℕ → Option ℕ
unfolding is_digit
v4_fields [] val pos digits acc = if pos == 3 then some (acc * 256 + val) else none
v4_fields (c ∷ s) val pos digits acc = elim (is_digit c) [
  | true ↦ elim ((digits == 1 && val == 0) || ltb 255 (val * 10 + (c - 48))) [
    | true ↦ none
    | false ↦ v4_fields s (val * 10 + (c - 48)) pos (digits + 1) acc
  ]
  | false ↦ elim (c == b'.' && (not (digits == 0) && (not (is_empty s) && not (pos == 3)))) [
    | true ↦ v4_fields s 0 (pos + 1) 0 (acc * 256 + val)
    | false ↦ none
  ]
]

unfoldable pub parse_v4 : Text → Option ℕ
unfolding v4_fields
parse_v4 s = v4_fields s 0 0 0 0

hex_digit : ℕ → Option ℕ
hex_digit c =
    if leb 48 c && leb c 57
    then some (c - 48)
    else if leb 97 c && leb c 102
    then some (c - 87)
    else if leb 65 c && leb c 70
    then some (c - 55)
    else none

-- The hexadecimal digits of a group: how many, their value and what follows. A fifth is an error.
unfoldable pub read_hex : Text → ℕ → ℕ → Option (ℕ × ℕ × Text)
unfolding hex_digit
read_hex [] off acc = some (off, acc, [])
read_hex (c ∷ s) off acc = elim (hex_digit c) [
  | none ↦ some (off, acc, c ∷ s)
  | some v ↦ elim (ltb 3 off) [ true ↦ none | false ↦ read_hex s (off + 1) (acc * 16 + v) ]
]

groups_value : ℕ → List ℕ → ℕ
groups_value acc [] = acc
groups_value acc (g ∷ gs) = groups_value (acc * 65536 + g) gs

-- The end of parseIPv6: the ellipsis stands for at least one group of zeros.
expand : List ℕ → Option ℕ → Option ℕ
unfolding groups_value
expand gs none = if length gs == 8 then some (groups_value 0 gs) else none
expand gs (some p) =
    if ltb (length gs) 8
    then some (groups_value 0 (take p gs ++ (replicate (8 - length gs) 0 ++ drop p gs)))
    else none

-- An IPv4 address in the last two groups. `s` is the text from the first digit of the field on.
v6_tail_v4 : Text → List ℕ → Option ℕ → Option ℕ
unfolding expand parse_v4
v6_tail_v4 s gs el =
    let placed : Bool = elim el [ none ↦ length gs == 6 | some _ ↦ leb (length gs) 6 ] in
    elim placed [
      | false ↦ none
      | true ↦ elim (parse_v4 s) [
        | none ↦ none
        | some v ↦ expand (gs ++ (v / 65536) ∷ (v % 65536) ∷ []) el
      ]
    ]

-- What follows a group of value `g`: the end, a dot, or a colon with more text.
v6_next : (Text → List ℕ → Option ℕ → Option ℕ) → Text → List ℕ → Option ℕ → ℕ → Text → Option ℕ
unfolding v6_tail_v4 expand
v6_next loop s gs el g [] = expand (gs ++ g ∷ []) el
v6_next loop s gs el g (c ∷ []) = if c == b'.' then v6_tail_v4 s gs el else none
v6_next loop s gs el g (c ∷ d ∷ more) = elim (c == b'.') [
  | true ↦ v6_tail_v4 s gs el
  | false ↦ elim (c == b':') [
    | false ↦ none
    | true ↦ elim (d == b':') [
      | false ↦ loop (d ∷ more) (gs ++ g ∷ []) el
      | true ↦ elim el [
        | some _ ↦ none
        | none ↦ elim (is_empty more) [
          | true ↦ expand (gs ++ g ∷ []) (some (length gs + 1))
          | false ↦ loop more (gs ++ g ∷ []) (some (length gs + 1))
        ]
      ]
    ]
  ]
]

-- The loop of parseIPv6. The first argument is the number of groups that there is still room for;
-- `gs` are the groups so far, and `el` is the place of the ellipsis among them.
unfoldable pub v6_groups : ℕ → Text → List ℕ → Option ℕ → Option ℕ
unfolding v6_next read_hex
v6_groups zero s gs el = if is_empty s then expand gs el else none
v6_groups (suc room) s gs el = elim (read_hex s 0 0) [
  | none ↦ none
  | some (off, g, rest) ↦ elim (off == 0) [
    | true ↦ none
    | false ↦ v6_next (v6_groups room) s gs el g rest
  ]
]

-- parseIPv6. A zone is no address for ParseIP and ParseCIDR, so `%` is refused as any other byte.
unfoldable pub parse_v6 : Text → Option ℕ
unfolding v6_groups
parse_v6 (c ∷ d ∷ s) = elim (c == b':' && d == b':') [
  | true ↦ elim (is_empty s) [ true ↦ some 0 | false ↦ v6_groups 8 s [] (some 0) ]
  | false ↦ v6_groups 8 (c ∷ d ∷ s) [] none
]
parse_v6 s = v6_groups 8 s [] none

-- A netip.Addr with no zone.
pub data Addr : Type 0 where
  v4 : ℕ → Addr
  v6 : ℕ → Addr

-- ParseAddr: the first of `.`, `:` and `%` decides.
dispatch : Text → Text → Option Addr
unfolding parse_v4 parse_v6
dispatch whole [] = none
dispatch whole (c ∷ s) = elim (c == b'.') [
  | true ↦ elim (parse_v4 whole) [ none ↦ none | some a ↦ some (v4 a) ]
  | false ↦ elim (c == b':') [
    | true ↦ elim (parse_v6 whole) [ none ↦ none | some a ↦ some (v6 a) ]
    | false ↦ elim (c == b'%') [ true ↦ none | false ↦ dispatch whole s ]
  ]
]

unfoldable pub parse_addr : Text → Option Addr
unfolding dispatch
parse_addr s = dispatch s s

abbrev pub Ip : Type 0
Ip = ℕ

-- The prefix ::ffff:0:0/96 of the IPv4 addresses.
abbrev pub mapped : ℕ
mapped = 65535

-- As16
unfoldable pub as16 : Addr → Ip
as16 (v4 a) = mapped * 2 ^ 32 + a
as16 (v6 a) = a

-- net.ParseIP
unfoldable pub parse_ip : Text → Option Ip
unfolding parse_addr as16
parse_ip s = elim (parse_addr s) [ none ↦ none | some a ↦ some (as16 a) ]

-- IP.To4
unfoldable pub to4 : Ip → Option ℕ
to4 ip = if ip / 2 ^ 32 == mapped then some (ip % 2 ^ 32) else none

-- An IPNet, with a mask of 4 or of 16 bytes: the masked address, and the leading ones of the mask.
pub data IpNet : Type 0 where
  net4 : ℕ → ℕ → IpNet
  net6 : ℕ → ℕ → IpNet

-- dtoi over a whole text: a number below 0xFFFFFF in at least one digit.
unfoldable pub dtoi : Text → ℕ → Bool → Option ℕ
unfolding is_digit
dtoi [] n seen = if seen then some n else none
dtoi (c ∷ s) n seen = elim (is_digit c && ltb (n * 10 + (c - 48)) 0xFFFFFF) [
  | true ↦ dtoi s (n * 10 + (c - 48)) true
  | false ↦ none
]

unfoldable pub split_slash : Text → Text → Option (Text × Text)
split_slash before [] = none
split_slash before (c ∷ s) =
    if c == b'/' then some (before, s) else split_slash (before ++ c ∷ []) s

-- The address with the bits after the first `n` of `width` cleared.
abbrev pub masked : ℕ → ℕ → ℕ → ℕ
masked width n a = a / 2 ^ (width - n) * 2 ^ (width - n)

unfoldable pub cidr_of : Addr → ℕ → Option IpNet
cidr_of (v4 a) n = if leb n 32 then some (net4 (masked 32 n a) n) else none
cidr_of (v6 a) n = if leb n 128 then some (net6 (masked 128 n a) n) else none

-- net.ParseCIDR
unfoldable pub parse_cidr : Text → Option IpNet
unfolding parse_addr dtoi split_slash cidr_of
parse_cidr s = elim (split_slash [] s) [
  | none ↦ none
  | some (addr, mask) ↦ elim (parse_addr addr) [
    | none ↦ none
    | some a ↦ elim (dtoi mask 0 false) [ none ↦ none | some n ↦ cidr_of a n ]
  ]
]

-- The four bytes of an address against a base, on the first `n` bits.
same4 : ℕ → ℕ → Option ℕ → Bool
same4 base n none = false
same4 base n (some x) = x / 2 ^ (32 - n) == base / 2 ^ (32 - n)

-- IPNet.Contains: byte by byte under the mask, which is the equality of the leading bits. A net of
-- sixteen bytes over an IPv4 address is compared as one of four, on the last four bytes of its mask.
unfoldable pub contains : IpNet → Ip → Bool
unfolding same4 to4
contains (net4 base n) ip = same4 base n (to4 ip)
contains (net6 base n) ip = elim (to4 base) [
  | some b ↦ same4 b (n - 96) (to4 ip)
  | none ↦ elim (to4 ip) [ some _ ↦ false | none ↦ ip / 2 ^ (128 - n) == base / 2 ^ (128 - n) ]
]
