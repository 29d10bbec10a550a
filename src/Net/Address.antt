-- ===== src/Net/Address.antt =====
-- core/net/addrselect.go: the choice of a peer's address and of the local address to dial it from.
-- `net.ParseIP`, `IP.String` and `net.SplitHostPort` are parameters.
pub mod Select
pub mod Source
pub mod Order
pub mod Result
pub mod Port
pub mod HostPort
mod Examples
use lanos.Common.{
  ℕ, ◌+◌, ◌-◌, ◌*◌, Bool, true, false, not, ◌&&◌, ◌||◌, Option, none, some, List, [], ◌∷◌, ◌++◌,
  if◌then◌else◌, nat_eq, list_eq, ◌==◌, ltb, leb,
}
use lanos.Common.Int.{ℤ, pos, negsuc}
use lanos.Common.Text.{Text, trim_space, has_prefix, decimal, cut}
use lanos.Net.Ip.{
  Ip, Scope, link_local, loopback, global, same_scope, is_v6, ip_scope, ip_precedence,
  common_prefix, is_link_local_unicast, is_link_local_multicast, is_loopback,
  is_interface_local_multicast, is_multicast,
}

pub record AddrPair : Type 0 where
  pub destination : Text
  pub source : Text
  pub pair_is_v6 : Bool

pub record SourceIp : Type 0 where
  pub ip : Ip
  pub scope : Scope
  pub source_is_v6 : Bool

pub record DstEntry : Type 0 where
  pub dst_ip : Ip
  pub zone : Text
  pub dst_is_v6 : Bool
  pub dst_scope : Scope
  pub prec : ℕ
  pub src : Option SourceIp
  pub port : ℕ

-- `a - b` of two `int` values that are not negative.
abbrev pub diff : ℕ → ℕ → ℤ
diff a b = if leb b a then pos (a - b) else negsuc (b - a - 1)

-- `c < 0`.
abbrev pub is_negative : ℤ → Bool
is_negative (pos _) = false
is_negative (negsuc _) = true

unfoldable pub split_zone : Text → Text × Text
split_zone s = elim (cut 37 s) [ none ↦ (s, []) | some (a, b) ↦ (a, b) ]

unfoldable pub strip_zone : Text → Text
strip_zone s = elim (cut 37 s) [ none ↦ s | some (a, _) ↦ a ]

-- The loop of `parsePort`, which returns at the first character that it refuses.
unfoldable pub parse_digits : ℕ → Text → Option ℕ
parse_digits n [] = some n
parse_digits n (c ∷ s) =
    let m = n * 10 + (c - 48) in
    let rest = parse_digits m s in
    if ltb c 48 || ltb 57 c then none else if ltb 65535 m then none else rest

unfoldable pub parse_port : Text → Option ℕ
parse_port s = if s == [] then none else parse_digits 0 s

-- What `parseSources` skips: multicast addresses that are not of a local scope.
unfoldable pub is_skipped : Ip → Bool
is_skipped ip =
    not (
      is_link_local_unicast ip
      || is_link_local_multicast ip
      || is_loopback ip
      || is_interface_local_multicast ip)
    && is_multicast ip

unfoldable pub source_ip : Ip → SourceIp
source_ip a = record { ip = a; scope = ip_scope a; source_is_v6 = is_v6 a }

abbrev pub same_bool : Bool → Bool → Bool
same_bool true b = b
same_bool false b = not b

unfoldable pub prefix_with : DstEntry → SourceIp → ℕ
prefix_with d s = common_prefix d.dst_ip s.ip d.dst_is_v6

-- The rules of `compareSource`, for the scopes of the destination, the best source and the candidate
-- and the common prefixes of the candidate and of the best source with the destination.
unfoldable pub compare_keys : Scope → Scope → Scope → ℕ → ℕ → ℤ
compare_keys dst best candidate c b =
    if same_scope candidate dst && not (same_scope best dst)
    then negsuc 0
    else if not (same_scope candidate dst) && same_scope best dst
    then pos 1
    else if same_scope dst global && same_scope candidate global && not (same_scope best global)
    then negsuc 0
    else if same_scope dst global && not (same_scope candidate global) && same_scope best global
    then pos 1
    else if c == b
    then pos 0
    else diff c b

unfoldable pub compare_source : DstEntry → SourceIp → SourceIp → ℤ
compare_source dst best candidate =
    compare_keys dst.dst_scope best.scope candidate.scope (prefix_with dst candidate)
      (prefix_with dst best)

-- The two `continue`s of `pickSource`.
unfoldable pub is_usable : DstEntry → SourceIp → Bool
is_usable dst s =
    same_bool s.source_is_v6 dst.dst_is_v6
    && (not (same_scope dst.dst_scope link_local)
        || same_scope s.scope link_local
        || same_scope s.scope loopback)

-- The rest of the loop's body, for a usable source.
unfoldable pub better : DstEntry → Option SourceIp → SourceIp → SourceIp
better dst none s = s
better dst (some best) s = if is_negative (compare_source dst best s) then s else best

-- The loop of `pickSource`.
unfoldable pub pick_from : DstEntry → Option SourceIp → List SourceIp → Option SourceIp
pick_from dst best [] = best
pick_from dst best (s ∷ ss) =
    if is_usable dst s then pick_from dst (some (better dst best s)) ss else pick_from dst best ss

unfoldable pub pick_source : DstEntry → List SourceIp → Option SourceIp
pick_source dst sources = pick_from dst none sources

abbrev pub is_reached : DstEntry → Bool
is_reached d = elim d.src [ none ↦ false | some _ ↦ true ]

abbrev pub is_scoped : DstEntry → Bool
is_scoped d = elim d.src [ none ↦ false | some s ↦ same_scope s.scope d.dst_scope ]

-- The common prefix of a destination and its source, 0 without a source.
abbrev pub src_prefix : DstEntry → ℕ
src_prefix d = elim d.src [ none ↦ 0 | some s ↦ prefix_with d s ]

-- A test of `compareDst` that prefers the entry for which it holds.
unfoldable pub prefer : Bool → Bool → ℤ → ℤ
prefer true false rest = negsuc 0
prefer false true rest = pos 1
prefer _ _ rest = rest

-- Without a source on both sides the prefixes are not compared.
unfoldable pub compare_dst : DstEntry → DstEntry → ℤ
compare_dst a b =
    let last =
      if a.prec == b.prec then prefer a.dst_is_v6 b.dst_is_v6 (pos 0) else diff b.prec a.prec in
    let by_prefix =
      if is_reached a && is_reached b && not (src_prefix a == src_prefix b)
      then diff (src_prefix b) (src_prefix a)
      else last in
    prefer (is_reached a) (is_reached b) (prefer (is_scoped a) (is_scoped b) by_prefix)

-- `sort.SliceStable` by `compareDst(...) < 0`: an entry goes in front of those that it sorts before
-- and of those that follow them, behind those that are equal.
unfoldable pub insert_entry : DstEntry → List DstEntry → List DstEntry
insert_entry e [] = e ∷ []
insert_entry e (d ∷ ds) =
    let rest = insert_entry e ds in if is_negative (compare_dst d e) then d ∷ rest else e ∷ d ∷ ds

unfoldable pub sort_entries : List DstEntry → List DstEntry
sort_entries [] = []
sort_entries (e ∷ es) = insert_entry e (sort_entries es)
