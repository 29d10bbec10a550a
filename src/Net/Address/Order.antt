-- ===== src/Net/Address/Order.antt =====
-- `compareDst` of core/net/addrselect.go orders the destinations, and `SelectAddresses` sorts by it.
use lanos.Common.{
  ℕ, ◌<◌, ◌≡◌, ◌⊎◌, refl, sym, ◌∙◌, Bool, true, false, not, ◌&&◌, List, [], ◌∷◌, arith,
  if◌then◌else◌, nat_eq, ◌==◌, Bool-cases, inl, inr, All,
}
use mathlib.Core.List.{Perm}
use mathlib.Core.List.Perm
use lanos.Common.Int.{ℤ, pos}
use lanos.Net.Address.{
  DstEntry, diff, is_negative, is_reached, is_scoped, src_prefix, prefer, compare_dst, insert_entry,
  sort_entries,
}

-- The parts of `compareDst`, from the last one on.
abbrev by_precedence : ℕ → ℕ → Bool → Bool → ℤ
by_precedence c b v w = if c == b then prefer v w (pos 0) else diff b c

abbrev by_prefix : Bool → ℕ → ℕ → ℤ → ℤ
by_prefix both p q rest = if both && not (p == q) then diff q p else rest

abbrev IsNot : ℤ → Type 0
IsNot c = is_negative c ≡ false

by_precedence_trans :
    (c b a : ℕ) (v w u : Bool)
    → IsNot (by_precedence b c w v)
    → IsNot (by_precedence a b u w)
    → IsNot (by_precedence a c u v)
unfolding prefer
by_precedence_trans c b a v w u h k = ground arith

by_prefix_cases : (p q : ℕ) (r : ℤ) → IsNot (by_prefix true q p r) → ((q ≡ p) × IsNot r) ⊎ (q < p)
by_prefix_cases p q r h = elim (Bool-cases (q == p)) [
  | inl same ↦ inl ((nat_eq.beq_iff q p).0 same, ground (arith, h, same))
  | inr differs ↦ inr (ground (arith, h, differs))
]

by_prefix_less : (p n : ℕ) (t : ℤ) → n < p → IsNot (by_prefix true n p t)
by_prefix_less p n t h = ground arith

by_prefix_equal : (p n : ℕ) (t : ℤ) → n ≡ p → IsNot t → IsNot (by_prefix true n p t)
by_prefix_equal p n t e h = ground arith

by_prefix_trans :
    (both : Bool) (p q n : ℕ) (r s t : ℤ)
    → (IsNot r → IsNot s → IsNot t)
    → IsNot (by_prefix both q p r)
    → IsNot (by_prefix both n q s)
    → IsNot (by_prefix both n p t)
by_prefix_trans false p q n r s t f h k = f h k
by_prefix_trans true p q n r s t f h k = elim (by_prefix_cases p q r h) [
  | inl (e, x) ↦ elim (by_prefix_cases q n s k) [
    | inl (e', y) ↦ by_prefix_equal p n t (e' ∙ e) (f x y)
    | inr l ↦ by_prefix_less p n t (omega arith)
  ]
  | inr l ↦ elim (by_prefix_cases q n s k) [
    | inl (e', y) ↦ by_prefix_less p n t (omega arith)
    | inr l' ↦ by_prefix_less p n t (omega arith)
  ]
]

prefer_trans :
    (x y z : Bool) (r s t : ℤ)
    → (x ≡ y → y ≡ z → IsNot r → IsNot s → IsNot t)
    → IsNot (prefer y x r)
    → IsNot (prefer z y s)
    → IsNot (prefer z x t)
unfolding prefer
prefer_trans true true true r s t f h k = f refl refl h k
prefer_trans true true false r s t f h k = refl
prefer_trans true false true r s t f h k = ground (arith, h, k)
prefer_trans true false false r s t f h k = refl
prefer_trans false true true r s t f h k = ground (arith, h, k)
prefer_trans false true false r s t f h k = ground (arith, h, k)
prefer_trans false false true r s t f h k = ground (arith, h, k)
prefer_trans false false false r s t f h k = f refl refl h k

ranks : DstEntry → DstEntry → ℤ
ranks a b = prefer (is_reached a) (is_reached b) (
    prefer (is_scoped a) (is_scoped b) (
      by_prefix (is_reached a && is_reached b) (src_prefix a) (src_prefix b)
        (by_precedence a.prec b.prec a.dst_is_v6 b.dst_is_v6)))

compare_dst-ranks : (a b : DstEntry) → compare_dst a b ≡ ranks a b
unfolding compare_dst ranks
compare_dst-ranks a b = refl

-- The second entry does not sort before the first one.
abbrev pub IsInOrder : DstEntry → DstEntry → Type 0
IsInOrder a b = is_negative (compare_dst b a) ≡ false

same_reach :
    (x y z : Bool) (p q n : ℕ) (r s t : ℤ)
    → x ≡ y
    → y ≡ z
    → (IsNot r → IsNot s → IsNot t)
    → IsNot (by_prefix (y && x) q p r)
    → IsNot (by_prefix (z && y) n q s)
    → IsNot (by_prefix (z && x) n p t)
same_reach true true true p q n r s t e e' f h k = by_prefix_trans true p q n r s t f h k
same_reach false false false p q n r s t e e' f h k = f h k
same_reach true false z p q n r s t e e' f h k = ground (arith, e)
same_reach false true z p q n r s t e e' f h k = ground (arith, e)
same_reach true true false p q n r s t e e' f h k = ground (arith, e')
same_reach false false true p q n r s t e e' f h k = ground (arith, e')

-- The order that `compareDst` gives is transitive, also through entries that are equal in it.
pub IsInOrder-trans : (a b c : DstEntry) → IsInOrder a b → IsInOrder b c → IsInOrder a c
unfolding compare_dst
IsInOrder-trans a b c h k =
    prefer_trans (is_reached a) (is_reached b) (is_reached c) _ _ _
      (λ e e'. prefer_trans (is_scoped a) (is_scoped b) (is_scoped c) _ _ _ (λ _ _.
        same_reach (is_reached a) (is_reached b) (is_reached c) (src_prefix a) (src_prefix b)
          (src_prefix c) _ _ _ e e'
          (by_precedence_trans a.prec b.prec c.prec a.dst_is_v6 b.dst_is_v6 c.dst_is_v6)))
      h k

prefer_flip :
    (x y : Bool) (r s : ℤ)
    → (is_negative r ≡ true → IsNot s)
    → is_negative (prefer x y r) ≡ true
    → IsNot (prefer y x s)
unfolding prefer
prefer_flip true true r s f h = f h
prefer_flip true false r s f h = refl
prefer_flip false true r s f h = ground (arith, h)
prefer_flip false false r s f h = f h

by_prefix_flip :
    (x y : Bool) (p q : ℕ) (r s : ℤ)
    → (is_negative r ≡ true → IsNot s)
    → is_negative (by_prefix (x && y) p q r) ≡ true
    → IsNot (by_prefix (y && x) q p s)
by_prefix_flip true true p q r s f h = elim (Bool-cases (p == q)) [
  | inl same ↦
      by_prefix_equal p q s (sym ((nat_eq.beq_iff p q).0 same)) (f (ground (arith, h, same)))
  | inr differs ↦ by_prefix_less p q s (ground (arith, h, differs))
]
by_prefix_flip true false p q r s f h = f h
by_prefix_flip false true p q r s f h = f h
by_prefix_flip false false p q r s f h = f h

by_precedence_flip :
    (c b : ℕ) (v w : Bool)
    → is_negative (by_precedence c b v w) ≡ true
    → IsNot (by_precedence b c w v)
unfolding prefer
by_precedence_flip c b v w h = ground arith

-- Of two entries, one is in order before the other.
IsInOrder-flip : (a b : DstEntry) → is_negative (compare_dst a b) ≡ true → IsInOrder a b
unfolding compare_dst
IsInOrder-flip a b h =
    prefer_flip (is_reached a) (is_reached b) _ _
      (prefer_flip (is_scoped a) (is_scoped b) _ _ (
        by_prefix_flip (is_reached a) (is_reached b) (src_prefix a) (src_prefix b) _ _
          (by_precedence_flip a.prec b.prec a.dst_is_v6 b.dst_is_v6)))
      h

-- Each entry is in order with all that follow.
abbrev pub InOrder : List DstEntry → Type 0
InOrder [] = Unit {0}
InOrder (e ∷ es) = All (IsInOrder e) es × InOrder es

All-insert_entry {κ} :
    (P : DstEntry → Type κ) (e : DstEntry) (es : List DstEntry)
    → P e
    → All P es
    → All P (insert_entry e es)
unfolding insert_entry
All-insert_entry P e [] h hs = (h, tt)
All-insert_entry P e (d ∷ ds) h (hd, hs) = elim (Bool-cases (is_negative (compare_dst d e))) [
  | inl less ↦ rw (insert_entry, less) (hd, All-insert_entry P e ds h hs)
  | inr kept ↦ rw (insert_entry, kept) (h, (hd, hs))
]

All-IsInOrder :
    (a b : DstEntry) (es : List DstEntry)
    → IsInOrder a b
    → All (IsInOrder b) es
    → All (IsInOrder a) es
All-IsInOrder a b [] h hs = tt
All-IsInOrder a b (e ∷ es) h (k, ks) = (IsInOrder-trans a b e h k, All-IsInOrder a b es h ks)

insert_entry-InOrder :
    (e : DstEntry) (es : List DstEntry) → InOrder es → InOrder (insert_entry e es)
unfolding insert_entry
insert_entry-InOrder e [] h = (tt, tt)
insert_entry-InOrder e (d ∷ ds) (h, hs) = elim (Bool-cases (is_negative (compare_dst d e))) [
  | inl less ↦
      rw (insert_entry, less)
        (
          All-insert_entry (IsInOrder d) e ds (IsInOrder-flip d e less) h,
          insert_entry-InOrder e ds hs,
        )
  | inr kept ↦ rw (insert_entry, kept) ((kept, All-IsInOrder e d ds kept h), (h, hs))
]

insert_entry-Perm : (e : DstEntry) (es : List DstEntry) → Perm (insert_entry e es) (e ∷ es)
unfolding insert_entry
insert_entry-Perm e [] = Perm.refl (e ∷ [])
insert_entry-Perm e (d ∷ ds) = elim (Bool-cases (is_negative (compare_dst d e))) [
  | inl less ↦
      rw (insert_entry, less) (Perm.trans (Perm.cons d (insert_entry-Perm e ds)) (Perm.swap e d ds))
  | inr kept ↦ rw (insert_entry, kept) (Perm.refl (e ∷ d ∷ ds))
]

-- The sorted entries are those that were given, and none sorts before an earlier one.
pub sort_entries-InOrder :
    (es : List DstEntry) → Perm (sort_entries es) es × InOrder (sort_entries es)
unfolding sort_entries
sort_entries-InOrder [] = (Perm.refl [], tt)
sort_entries-InOrder (e ∷ es) =
    let (same, ordered) = sort_entries-InOrder es in
    (
      Perm.trans (insert_entry-Perm e (sort_entries es)) (Perm.cons e same),
      insert_entry-InOrder e (sort_entries es) ordered,
    )
