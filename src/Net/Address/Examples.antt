-- ===== src/Net/Address/Examples.antt =====
-- Addresses that core/net/addrselect.go is given, and the theorems at them.
use mathlib.Core.List.{Memᴰ, Perm}
use lanos.Common.{
  ℕ, ◌≤◌, ◌≡◌, ◌⊎◌, refl, true, false, nat_eq, list_eq, none, some, Option, List, [], ◌∷◌, ◌++◌,
  All, replicate, take, arith,
}
use lanos.Common.Text.{Text}
use lanos.Net.Ip.{
  Ip, is_v6, to4, to16, ip_scope, is_loopback, is_link_local_unicast, is_link_local_multicast,
  is_global_unicast, is_multicast, same_scope, common_prefix, common_prefix_bytes, common_bits,
  normalize_ip,
}
use lanos.Net.Address.{
  SourceIp, DstEntry, is_negative, compare_source, compare_keys, is_usable, prefix_with,
  pick_source, pick_from, better, sort_entries,
}
use lanos.Net.Address.Select.{join_host_port, split_host_port}
use lanos.Net.Address.Source.{pick_source_best, pick_source_shortest_prefix}
use lanos.Net.Address.Order.{InOrder, sort_entries-InOrder}
use lanos.Net.Address.HostPort.{split_host_port-join_host_port}

abbrev v4 : ℕ → ℕ → ℕ → ℕ → Ip
v4 a b c d = a ∷ b ∷ c ∷ d ∷ []

abbrev peer : DstEntry
peer = record {
  dst_ip = v4 192 168 1 9;
  zone = [];
  dst_is_v6 = false;
  dst_scope = lanos.Net.Ip.Scope.global;
  prec = 20;
  src = none;
  port = 80;
}

-- In the peer's network, and in another one.
abbrev near : SourceIp
near = record { ip = v4 192 168 1 2; scope = lanos.Net.Ip.Scope.global; source_is_v6 = false }

abbrev far : SourceIp
far = record { ip = v4 10 0 0 2; scope = lanos.Net.Ip.Scope.global; source_is_v6 = false }

abbrev sources : List SourceIp
sources = near ∷ far ∷ []

pick_source_best_example :
    ((pick_source peer sources ≡ none) × All (λ s. is_usable peer s ≡ false) sources)
    ⊎ (b : SourceIp) × (pick_source peer sources ≡ some b)
      × Memᴰ b sources
      × (b.source_is_v6 ≡ false)
      × All
          (λ s. (is_usable peer s ≡ false) ⊎ (is_negative (compare_source peer b s) ≡ false))
          sources
pick_source_best_example = pick_source_best peer sources

picks_far : pick_source peer sources ≡ some far
unfolding pick_source pick_from is_usable better compare_source compare_keys prefix_with
    common_prefix common_prefix_bytes common_bits normalize_ip to4
picks_far = refl

near_usable : is_usable peer near ≡ true
unfolding is_usable
near_usable = refl

pick_source_shortest_prefix_example : prefix_with peer far ≤ prefix_with peer near
pick_source_shortest_prefix_example =
    pick_source_shortest_prefix peer sources far near picks_far (Memᴰ.head refl) near_usable refl

abbrev reached : DstEntry
reached = record peer { src = some far }

abbrev entries : List DstEntry
entries = peer ∷ reached ∷ []

sort_entries-InOrder_example : Perm (sort_entries entries) entries × InOrder (sort_entries entries)
sort_entries-InOrder_example = sort_entries-InOrder entries

-- Every text that is not empty parses as ::1.
abbrev parse_ip : Text → Option Ip
parse_ip t = elim t [ [] ↦ none | _ ∷ _ ↦ some (replicate 15 0 ++ (1 ∷ [])) ]

abbrev split_std : Text → Option (Text × Text)
split_std t = none

-- "fe80::1" for each address.
abbrev ip_string : Ip → Text
ip_string a = 102 ∷ 101 ∷ 56 ∷ 48 ∷ 58 ∷ 58 ∷ 49 ∷ []

abbrev link_local_v6 : Ip
link_local_v6 = 254 ∷ 128 ∷ (replicate 13 0 ++ (1 ∷ []))

link_local_is_v6 : is_v6 link_local_v6 ≡ true
unfolding is_v6 to4 take
link_local_is_v6 = refl

-- The zone "e", the port 80.
split_host_port-join_host_port_example :
    split_host_port split_std (join_host_port ip_string link_local_v6 (101 ∷ []) 80)
    ≡ some (record { host = ip_string link_local_v6; host_zone = 101 ∷ []; host_port = 80 })
split_host_port-join_host_port_example =
    split_host_port-join_host_port split_std ip_string link_local_v6 (101 ∷ []) 80 link_local_is_v6
      (omega arith) (omega arith) refl refl refl
