-- ===== src/Net/Address/Select.antt =====
-- `SelectAddresses` of core/net/addrselect.go, `splitHostPort` and `joinHostPort`.
use lanos.Common.{ℕ, Option, none, some, List, [], ◌∷◌, ◌++◌, if◌then◌else◌, nat_eq, list_eq, ◌==◌}
use lanos.Common.Text.{Text, trim_space, decimal, cut}
use lanos.Net.Ip.{Ip, is_v6, ip_scope, ip_precedence}
use lanos.Net.Address.{
  AddrPair, SourceIp, DstEntry, split_zone, strip_zone, parse_port, is_skipped, source_ip,
  pick_source, sort_entries,
}

-- Host, zone and port.
pub record HostPort : Type 0 where
  pub host : Text
  pub host_zone : Text
  pub host_port : ℕ

-- The last lines of two branches: the zone is cut off the host, and the port must parse.
unfoldable pub with_parsed : Text × Text → Option ℕ → Option HostPort
with_parsed (a, z) none = none
with_parsed (a, z) (some p) = some (record { host = a; host_zone = z; host_port = p })

unfoldable pub with_port : Text → Text → Option HostPort
with_port h ps = with_parsed (split_zone h) (parse_port ps)

-- Behind the closing bracket.
unfoldable pub bracketed : Text → Text → Option HostPort
bracketed h [] = some (record { host = strip_zone h; host_zone = []; host_port = 0 })
bracketed h (c ∷ s) = if c == 58 then with_port h s else none

unfoldable pub bare : Text → HostPort
bare raw = let (a, z) = split_zone raw in record { host = a; host_zone = z; host_port = 0 }

module _ (split_std : Text → Option (Text × Text)) where
  -- `splitHostPort` behind `strings.TrimSpace`; 91 and 93 are the brackets.
  unfoldable pub split_trimmed : Text → Option HostPort
  split_trimmed [] = none
  split_trimmed (c ∷ s) =
      if c == 91
      then elim (cut 93 s) [ none ↦ none | some (h, rest) ↦ bracketed h rest ]
      else elim (split_std (c ∷ s)) [ some (h, ps) ↦ with_port h ps | none ↦ some (bare (c ∷ s)) ]

  unfoldable pub split_host_port : Text → Option HostPort
  split_host_port raw = split_trimmed (trim_space raw)

module _ (ip_string : Ip → Text) where
  -- 37 is the percent sign of a zone.
  unfoldable pub with_zone : Ip → Text → Text
  with_zone ip zone = if zone == [] then ip_string ip else ip_string ip ++ (37 ∷ zone)

  unfoldable pub join_host_port : Ip → Text → ℕ → Text
  join_host_port ip zone port =
      if port == 0
      then (if is_v6 ip then with_zone ip zone else ip_string ip)
      else if is_v6 ip
      then (91 ∷ with_zone ip zone) ++ (93 ∷ 58 ∷ decimal 5 port)
      else ip_string ip ++ (58 ∷ decimal 5 port)

module _ (parse_ip : Text → Option Ip) where
  unfoldable pub parse_source : Text → Option SourceIp
  parse_source raw =
      let text = trim_space raw in
      if text == [] then none else elim (parse_ip (strip_zone text)) [
        | none ↦ none
        | some ip ↦ if is_skipped ip then none else some (source_ip ip)
      ]

  unfoldable pub parse_sources : List Text → List SourceIp
  parse_sources [] = []
  parse_sources (raw ∷ raws) = elim (parse_source raw) [
    | none ↦ parse_sources raws
    | some s ↦ s ∷ parse_sources raws
  ]

-- The entry without its source.
unfoldable pub new_entry : Ip → Text → ℕ → DstEntry
new_entry a z p = record {
  dst_ip = a;
  zone = z;
  dst_is_v6 = is_v6 a;
  dst_scope = ip_scope a;
  prec = ip_precedence a;
  src = none;
  port = p;
}

unfoldable pub set_source : Option SourceIp → DstEntry → DstEntry
set_source s e = record e { src = s }

module _ (parse_ip : Text → Option Ip) (split_std : Text → Option (Text × Text)) where
  -- One round of the first loop of `SelectAddresses`.
  unfoldable pub dst_entry : List SourceIp → ℕ → Text → Option DstEntry
  dst_entry sources port raw = elim (split_host_port split_std raw) [
    | none ↦ none
    | some h ↦ elim (parse_ip h.host) [
      | none ↦ none
      | some a ↦
          let e = new_entry a h.host_zone (if h.host_port == 0 then port else h.host_port) in
          some (set_source (pick_source e sources) e)
    ]
  ]

  unfoldable pub dst_entries : List SourceIp → ℕ → List Text → List DstEntry
  dst_entries sources port [] = []
  dst_entries sources port (raw ∷ raws) = elim (dst_entry sources port raw) [
    | none ↦ dst_entries sources port raws
    | some e ↦ e ∷ dst_entries sources port raws
  ]

  module _ (ip_string : Ip → Text) where
    -- One round of the second loop.
    unfoldable pub addr_pair : DstEntry → Option AddrPair
    addr_pair e = elim e.src [
      | none ↦ none
      | some s ↦ some (record {
        destination = join_host_port ip_string e.dst_ip e.zone e.port;
        source = ip_string s.ip;
        pair_is_v6 = e.dst_is_v6;
      })
    ]

    unfoldable pub addr_pairs : List DstEntry → List AddrPair
    addr_pairs [] = []
    addr_pairs (e ∷ es) = elim (addr_pair e) [ none ↦ addr_pairs es | some p ↦ p ∷ addr_pairs es ]

    unfoldable pub select_addresses : List Text → List Text → ℕ → List AddrPair
    select_addresses dsts sources port =
        addr_pairs (sort_entries (dst_entries (parse_sources parse_ip sources) port dsts))

    unfoldable pub select_first : List Text → List Text → ℕ → Text
    select_first dsts sources port = elim (select_addresses dsts sources port) [
      | [] ↦ []
      | p ∷ _ ↦ p.destination
    ]
