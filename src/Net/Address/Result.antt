-- ===== src/Net/Address/Result.antt =====
-- `SelectAddresses` of core/net/addrselect.go: the sort keeps equal entries in their order, and the
-- result has the destinations with a source.
use lanos.Common.{
  ℕ, ◌+◌, ◌≡◌, refl, ap, ◌∙◌, Bool, true, false, not, ◌&&◌, Option, List, [], ◌∷◌, arith,
  if◌then◌else◌, Bool-cases, Option-cases, inl, inr, length,
}
use lanos.Common.Text.{Text}
use lanos.Net.Ip.{Ip}
use lanos.Net.Address.{DstEntry, is_negative, is_reached, compare_dst, insert_entry, sort_entries}
use lanos.Net.Address.Select.{parse_sources, dst_entries, addr_pair, addr_pairs, select_addresses}
use lanos.Net.Address.Order.{IsInOrder-trans}

-- Neither of the two entries sorts before the other.
abbrev pub is_tied : DstEntry → DstEntry → Bool
is_tied k e = not (is_negative (compare_dst e k)) && not (is_negative (compare_dst k e))

-- The entries that are tied with a given one, in their order.
abbrev pub tied : DstEntry → List DstEntry → List DstEntry
tied k [] = []
tied k (e ∷ es) = if is_tied k e then e ∷ tied k es else tied k es

apart :
    (k d e : DstEntry)
    → is_negative (compare_dst d e) ≡ true
    → is_tied k d ≡ true
    → is_tied k e ≡ false
apart k d e less h = ground (arith, less, h, IsInOrder-trans e k d)

swap_tied :
    (k d e : DstEntry) (es : List DstEntry)
    → is_negative (compare_dst d e) ≡ true
    → tied k (d ∷ e ∷ es) ≡ tied k (e ∷ d ∷ es)
swap_tied k d e es less = ground (arith, apart k d e less)

tied-insert_entry :
    (k e : DstEntry) (es : List DstEntry) → tied k (insert_entry e es) ≡ tied k (e ∷ es)
unfolding insert_entry
tied-insert_entry k e [] = refl
tied-insert_entry k e (d ∷ ds) = elim (Bool-cases (is_negative (compare_dst d e))) [
  | inl less ↦
      rw (insert_entry, less)
        (ap (λ x. if is_tied k d then d ∷ x else x) (tied-insert_entry k e ds)
          ∙ swap_tied k d e ds less)
  | inr kept ↦ rw (insert_entry, kept) refl
]

-- Sorting leaves the entries that are tied with any given one in their order.
pub sort_entries_stable : (k : DstEntry) (es : List DstEntry) → tied k (sort_entries es) ≡ tied k es
unfolding sort_entries
sort_entries_stable k [] = refl
sort_entries_stable k (e ∷ es) =
    tied-insert_entry k e (sort_entries es)
    ∙ ap (λ x. if is_tied k e then e ∷ x else x) (sort_entries_stable k es)

-- How many destinations have a source.
abbrev pub count_reached : List DstEntry → ℕ
count_reached [] = 0
count_reached (e ∷ es) = (if is_reached e then 1 else 0) + count_reached es

count_reached-insert_entry :
    (e : DstEntry) (es : List DstEntry) → count_reached (insert_entry e es) ≡ count_reached (e ∷ es)
unfolding insert_entry
count_reached-insert_entry e [] = refl
count_reached-insert_entry e (d ∷ ds) = ground (arith, count_reached-insert_entry e ds)

count_reached-sort_entries :
    (es : List DstEntry) → count_reached (sort_entries es) ≡ count_reached es
unfolding sort_entries
count_reached-sort_entries [] = refl
count_reached-sort_entries (e ∷ es) =
    ground (arith, count_reached-insert_entry e (sort_entries es), count_reached-sort_entries es)

module _ (parse_ip : Text → Option Ip) (split_std : Text → Option (Text × Text))
    (ip_string : Ip → Text) where
  length-addr_pairs :
      (es : List DstEntry) → length (addr_pairs parse_ip split_std ip_string es) ≡ count_reached es
  unfolding addr_pairs addr_pair
  length-addr_pairs [] = refl
  length-addr_pairs (e ∷ es) = elim (Option-cases e.src) [
    | inl n ↦ ground (arith, n, length-addr_pairs es)
    | inr (s, n) ↦ ground (arith, n, length-addr_pairs es)
  ]

  -- `SelectAddresses` gives one pair for each destination that parses and has a usable source.
  pub length-select_addresses :
      (dsts sources : List Text) (port : ℕ)
      → length (select_addresses parse_ip split_std ip_string dsts sources port)
        ≡ count_reached (dst_entries parse_ip split_std (parse_sources parse_ip sources) port dsts)
  unfolding select_addresses
  length-select_addresses dsts sources port =
      length-addr_pairs
        (sort_entries (dst_entries parse_ip split_std (parse_sources parse_ip sources) port dsts))
      ∙ count_reached-sort_entries
          (dst_entries parse_ip split_std (parse_sources parse_ip sources) port dsts)
