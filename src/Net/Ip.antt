-- ===== src/Net/Ip.antt =====
-- Go's `net.IP`, the bytes of an address, with the predicates that core/net/addrselect.go uses, and
-- its own `ipScope`, `ipPrecedence`, `isULA`, `is6to4`, `isTeredo`, `normalizeIP` and `commonPrefix`.
use lanos.Common.{
  ℕ, ◌+◌, ◌/◌, ◌%◌, Bool, true, false, not, ◌&&◌, ◌||◌, Option, none, some, List, [], ◌∷◌, ◌++◌,
  if◌then◌else◌, nat_eq, list_eq, ◌==◌, length, take, drop, replicate,
}

abbrev pub Ip : Type 0
Ip = List ℕ

-- `ip[i]`, which the callers read only where there is such a byte.
abbrev pub byte : ℕ → Ip → ℕ
byte i ip = elim (drop i ip) [ [] ↦ 0 | b ∷ _ ↦ b ]

-- The first 12 bytes of an IPv4 address in 16 bytes.
abbrev pub v4_in_v6 : Ip
v4_in_v6 = replicate 10 0 ++ (255 ∷ 255 ∷ [])

-- `ip.To4()`.
unfoldable pub to4 : Ip → Option Ip
to4 ip =
    if length ip == 4
    then some ip
    else if length ip == 16 && take 12 ip == v4_in_v6
    then some (drop 12 ip)
    else none

-- `ip.To16()`, for an address of 4 or 16 bytes.
unfoldable pub to16 : Ip → Ip
to16 ip = if length ip == 4 then v4_in_v6 ++ ip else ip

unfoldable pub is_v6 : Ip → Bool
is_v6 ip = elim (to4 ip) [ none ↦ true | some _ ↦ false ]

unfoldable pub is_loopback : Ip → Bool
is_loopback ip = elim (to4 ip) [
  | none ↦ ip == replicate 15 0 ++ (1 ∷ [])
  | some v4 ↦ byte 0 v4 == 127
]

-- `ip[1] & 0xc0 == 0x80` of a byte.
unfoldable pub is_link_local_unicast : Ip → Bool
is_link_local_unicast ip = elim (to4 ip) [
  | none ↦ length ip == 16 && byte 0 ip == 254 && byte 1 ip / 64 == 2
  | some v4 ↦ byte 0 v4 == 169 && byte 1 v4 == 254
]

unfoldable pub is_link_local_multicast : Ip → Bool
is_link_local_multicast ip = elim (to4 ip) [
  | none ↦ length ip == 16 && byte 0 ip == 255 && byte 1 ip % 16 == 2
  | some v4 ↦ byte 0 v4 == 224 && byte 1 v4 == 0 && byte 2 v4 == 0
]

unfoldable pub is_interface_local_multicast : Ip → Bool
is_interface_local_multicast ip = length ip == 16 && byte 0 ip == 255 && byte 1 ip % 16 == 1

-- `ip[0] & 0xf0 == 0xe0` of a byte.
unfoldable pub is_multicast : Ip → Bool
is_multicast ip = elim (to4 ip) [
  | none ↦ length ip == 16 && byte 0 ip == 255
  | some v4 ↦ byte 0 v4 / 16 == 14
]

abbrev v6_unspecified : Ip
v6_unspecified = replicate 16 0

-- Neither the broadcast address nor an unspecified one.
is_proper : Ip → Bool
is_proper ip = elim (to4 ip) [
  | none ↦ not (ip == v6_unspecified)
  | some v4 ↦ not (v4 == replicate 4 255) && not (v4 == replicate 4 0)
]

unfoldable pub is_global_unicast : Ip → Bool
unfolding is_proper
is_global_unicast ip =
    (length ip == 4 || length ip == 16)
    && is_proper ip
    && not (is_loopback ip)
    && not (is_multicast ip)
    && not (is_link_local_unicast ip)

pub data Scope : Type 0 where
  link_local loopback global other : Scope

abbrev pub same_scope : Scope → Scope → Bool
same_scope link_local link_local = true
same_scope loopback loopback = true
same_scope global global = true
same_scope other other = true
same_scope _ _ = false

unfoldable pub ip_scope : Ip → Scope
ip_scope ip =
    if is_loopback ip
    then loopback
    else if is_link_local_unicast ip || is_link_local_multicast ip
    then link_local
    else if is_global_unicast ip
    then global
    else other

-- `ip[0] & 0xfe == 0xfc` of a byte.
unfoldable pub is_ula : Ip → Bool
is_ula ip = is_v6 ip && length ip == 16 && byte 0 ip / 2 == 126

unfoldable pub is_6to4 : Ip → Bool
is_6to4 ip = is_v6 ip && length ip == 16 && byte 0 ip == 32 && byte 1 ip == 2

unfoldable pub is_teredo : Ip → Bool
is_teredo ip =
    is_v6 ip
    && length ip == 16
    && byte 0 ip == 32
    && byte 1 ip == 1
    && byte 2 ip == 0
    && byte 3 ip == 0

unfoldable pub ip_precedence : Ip → ℕ
ip_precedence ip =
    if not (is_v6 ip)
    then 20
    else if is_loopback ip
    then 50
    else if ip == v6_unspecified
    then 40
    else if is_ula ip
    then 7
    else if is_teredo ip
    then 5
    else if is_6to4 ip
    then 30
    else 40

unfoldable pub normalize_ip : Ip → Bool → Ip
normalize_ip ip true = to16 ip
normalize_ip ip false = elim (to4 ip) [ none ↦ ip | some v4 ↦ v4 ]

-- The loop over the masks 0x80, 0x40, ..., 1: how many leading bits two bytes have in common.
unfoldable pub common_bits : List ℕ → ℕ → ℕ → ℕ
common_bits [] a b = 0
common_bits (m ∷ ms) a b =
    let rest = common_bits ms a b in if a / m % 2 == b / m % 2 then 1 + rest else 0

unfoldable pub common_prefix_bytes : List ℕ → List ℕ → ℕ
common_prefix_bytes (a ∷ as_) (b ∷ bs) =
    let rest = common_prefix_bytes as_ bs in
    if a == b then 8 + rest else common_bits (128 ∷ 64 ∷ 32 ∷ 16 ∷ 8 ∷ 4 ∷ 2 ∷ 1 ∷ []) a b
common_prefix_bytes _ _ = 0

unfoldable pub common_prefix : Ip → Ip → Bool → ℕ
common_prefix a b v6 =
    let aa = normalize_ip a v6 in
    let bb = normalize_ip b v6 in if length aa == length bb then common_prefix_bytes aa bb else 0
