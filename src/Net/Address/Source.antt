-- ===== src/Net/Address/Source.antt =====
-- `pickSource` of core/net/addrselect.go: which local address is chosen for a destination.
use lanos.Common.{
  ℕ, ◌≤◌, ◌≡◌, ◌≢◌, ◌⊎◌, refl, sym, ◌∙◌, Bool, true, false, Option, none, some, List, [], ◌∷◌,
  arith, nat_eq, ltb, Bool-cases, Option-cases, inl, inr, All,
}
use mathlib.Core.Path.{subst}
use mathlib.Core.List.{Memᴰ}
use mathlib.Core.Option.{some-injective}
use lanos.Net.Ip.{Scope, link_local, loopback, global, other, same_scope}
use lanos.Net.Address.{
  SourceIp, DstEntry, is_negative, compare_keys, compare_source, prefix_with, is_usable, better,
  pick_from, pick_source,
}

-- In the destination's scope first, then with the shorter prefix.
abbrev is_before : Bool → ℕ → Bool → ℕ → Bool
is_before true c false b = true
is_before false c true b = false
is_before _ c _ b = ltb c b

compare_keys_before :
    (dst best candidate : Scope) (c b : ℕ)
    → is_negative (compare_keys dst best candidate c b)
      ≡ is_before (same_scope candidate dst) c (same_scope best dst) b
unfolding compare_keys
compare_keys_before link_local best candidate c b = ground arith
compare_keys_before loopback best candidate c b = ground arith
compare_keys_before global best candidate c b = ground arith
compare_keys_before other best candidate c b = ground arith

is_before_trans :
    (r1 r2 r3 : Bool) (p1 p2 p3 : ℕ)
    → is_before r1 p1 r2 p2 ≡ false
    → is_before r2 p2 r3 p3 ≡ false
    → is_before r1 p1 r3 p3 ≡ false
is_before_trans r1 r2 r3 p1 p2 p3 h k = ground arith

All-Mem {κ} :
    (P : SourceIp → Type κ) (ss : List SourceIp) (s : SourceIp) → All P ss → Memᴰ s ss → P s
All-Mem P [] s h m = elim m [ ]
All-Mem P (x ∷ ss) s (h, hs) (Memᴰ.head e) = subst P (sym e) h
All-Mem P (x ∷ ss) s (h, hs) (Memᴰ.tail m) = All-Mem P ss s hs m

shorter : (r q : Bool) (p n : ℕ) → r ≡ q → is_before r p q n ≡ false → n ≤ p
shorter r q p n e h = ground arith

module _ (d : DstEntry) where
  -- The code does not find the second source better than the first one.
  abbrev IsKept : SourceIp → SourceIp → Type 0
  IsKept b s = is_negative (compare_source d b s) ≡ false

  kept_before :
      (b s : SourceIp)
      → is_negative (compare_source d b s)
        ≡ is_before
            (same_scope s.scope d.dst_scope)
            (prefix_with d s)
            (same_scope b.scope d.dst_scope)
            (prefix_with d b)
  unfolding compare_source
  kept_before b s =
      compare_keys_before d.dst_scope b.scope s.scope (prefix_with d s) (prefix_with d b)

  IsKept-trans : (b n s : SourceIp) → IsKept b n → IsKept n s → IsKept b s
  IsKept-trans b n s h k =
      kept_before b s
      ∙ is_before_trans (same_scope s.scope d.dst_scope) (same_scope n.scope d.dst_scope)
          (same_scope b.scope d.dst_scope) (prefix_with d s) (prefix_with d n) (prefix_with d b)
          (sym (kept_before n s) ∙ k) (sym (kept_before b n) ∙ h)

  IsKept-self : (b : SourceIp) → IsKept b b
  IsKept-self b = kept_before b b ∙ self (same_scope b.scope d.dst_scope) (prefix_with d b)
    where
      self : (r : Bool) (p : ℕ) → is_before r p r p ≡ false
      self r p = ground arith

  IsKept-flip : (b s : SourceIp) → is_negative (compare_source d b s) ≡ true → IsKept s b
  IsKept-flip b s h =
      kept_before s b
      ∙ flip (same_scope b.scope d.dst_scope) (same_scope s.scope d.dst_scope) (prefix_with d b)
          (prefix_with d s) (sym (kept_before b s) ∙ h)
    where
      flip : (r q : Bool) (p n : ℕ) → is_before q n r p ≡ true → is_before r p q n ≡ false
      flip r q p n h = ground arith

  better-IsKept : (b s : SourceIp) → IsKept (better d (some b) s) b × IsKept (better d (some b) s) s
  unfolding better
  better-IsKept b s = elim (Bool-cases (is_negative (compare_source d b s))) [
    | inl less ↦ rw (better, less) (IsKept-flip b s less, IsKept-self s)
    | inr kept ↦ rw (better, kept) (IsKept-self b, kept)
  ]

  -- The loop's result is kept over the source it started with and over each usable one.
  pick_from-IsKept :
      (n : SourceIp) (ss : List SourceIp) (b : SourceIp)
      → pick_from d (some n) ss ≡ some b
      → IsKept b n × All (λ s. (is_usable d s ≡ false) ⊎ IsKept b s) ss
  unfolding pick_from
  pick_from-IsKept n [] b e = (subst (λ x. IsKept x n) (some-injective n b e) (IsKept-self n), tt)
  pick_from-IsKept n (s ∷ ss) b e = elim (Bool-cases (is_usable d s)) [
    | inl usable ↦
        let rest = pick_from-IsKept (better d (some n) s) ss b (ground (arith, e, usable)) in
        let two = better-IsKept n s in
        (
          IsKept-trans b (better d (some n) s) n rest.0 two.0,
          (inr (IsKept-trans b (better d (some n) s) s rest.0 two.1), rest.1),
        )
    | inr unusable ↦
        let rest = pick_from-IsKept n ss b (ground (arith, e, unusable)) in
        (rest.0, (inl unusable, rest.1))
  ]

  pick_first-IsKept :
      (ss : List SourceIp) (b : SourceIp)
      → pick_from d none ss ≡ some b
      → All (λ s. (is_usable d s ≡ false) ⊎ IsKept b s) ss
  unfolding pick_from better
  pick_first-IsKept [] b e = tt
  pick_first-IsKept (s ∷ ss) b e = elim (Bool-cases (is_usable d s)) [
    | inl usable ↦
        let rest = pick_from-IsKept s ss b (ground (arith, e, usable)) in (inr rest.0, rest.1)
    | inr unusable ↦ (inl unusable, pick_first-IsKept ss b (ground (arith, e, unusable)))
  ]

  better_cases :
      (best : Option SourceIp) (s : SourceIp)
      → (better d best s ≡ s) ⊎ (best ≡ some (better d best s))
  unfolding better
  better_cases none s = inl refl
  better_cases (some b) s = elim (Bool-cases (is_negative (compare_source d b s))) [
    | inl less ↦ rw (better, less) (inl refl)
    | inr kept ↦ rw (better, kept) (inr refl)
  ]

  -- Where a source that the loop gives comes from.
  IsFrom : Option SourceIp → List SourceIp → SourceIp → Type 0
  IsFrom best ss b = (best ≡ some b) ⊎ Memᴰ b ss × (is_usable d b ≡ true)

  IsFrom-more :
      (best : Option SourceIp) (s : SourceIp) (ss : List SourceIp) (b : SourceIp)
      → IsFrom best ss b
      → IsFrom best (s ∷ ss) b
  unfolding IsFrom
  IsFrom-more best s ss b (inl e) = inl e
  IsFrom-more best s ss b (inr (m, u)) = inr (Memᴰ.tail m, u)

  IsFrom-better :
      (best : Option SourceIp) (s : SourceIp) (ss : List SourceIp) (b : SourceIp)
      → is_usable d s ≡ true
      → IsFrom (some (better d best s)) ss b
      → IsFrom best (s ∷ ss) b
  unfolding IsFrom
  IsFrom-better best s ss b usable (inr (m, u)) = inr (Memᴰ.tail m, u)
  IsFrom-better best s ss b usable (inl e) = elim (better_cases best s) [
    | inl new ↦
        let same = sym new ∙ some-injective (better d best s) b e in
        inr (Memᴰ.head (sym same), subst (λ x. is_usable d x ≡ true) same usable)
    | inr old ↦ inl (old ∙ e)
  ]

  pick_from-IsFrom :
      (best : Option SourceIp) (ss : List SourceIp) (b : SourceIp)
      → pick_from d best ss ≡ some b
      → IsFrom best ss b
  unfolding pick_from IsFrom
  pick_from-IsFrom best [] b e = inl e
  pick_from-IsFrom best (s ∷ ss) b e = elim (Bool-cases (is_usable d s)) [
    | inl usable ↦
        IsFrom-better best s ss b usable
          (pick_from-IsFrom (some (better d best s)) ss b (ground (arith, e, usable)))
    | inr unusable ↦
        IsFrom-more best s ss b (pick_from-IsFrom best ss b (ground (arith, e, unusable)))
  ]

  pick_from-some : (n : SourceIp) (ss : List SourceIp) → pick_from d (some n) ss ≢ none
  unfolding pick_from
  pick_from-some n [] e = ground (arith, e)
  pick_from-some n (s ∷ ss) e =
      ground (arith, e, pick_from-some n ss, pick_from-some (better d (some n) s) ss)

  none_usable :
      (ss : List SourceIp) → pick_from d none ss ≡ none → All (λ s. is_usable d s ≡ false) ss
  unfolding pick_from
  none_usable [] e = tt
  none_usable (s ∷ ss) e = elim (Bool-cases (is_usable d s)) [
    | inl usable ↦ absurd (pick_from-some (better d none s) ss (ground (arith, e, usable)))
    | inr unusable ↦ (unusable, none_usable ss (ground (arith, e, unusable)))
  ]

  usable_version : (s : SourceIp) → is_usable d s ≡ true → s.source_is_v6 ≡ d.dst_is_v6
  unfolding is_usable
  usable_version s h = ground (arith, h)

  -- A source that `pickSource` gives is one of the local addresses, has the destination's IP version,
  -- and no usable one is better for it by `compareSource`; where it gives none, none is usable.
  pub pick_source_best :
      (ss : List SourceIp)
      → ((pick_source d ss ≡ none) × All (λ s. is_usable d s ≡ false) ss)
        ⊎ (b : SourceIp) × (pick_source d ss ≡ some b)
          × Memᴰ b ss
          × (b.source_is_v6 ≡ d.dst_is_v6)
          × All (λ s. (is_usable d s ≡ false) ⊎ (is_negative (compare_source d b s) ≡ false)) ss
  unfolding pick_source IsFrom
  pick_source_best ss = elim (Option-cases (pick_from d none ss)) [
    | inl n ↦ inl (n, none_usable ss n)
    | inr (b, e) ↦ elim (pick_from-IsFrom none ss b e) [
      | inl impossible ↦ ground (arith, impossible)
      | inr (m, u) ↦ inr (b, e, m, usable_version b u, pick_first-IsKept ss b e)
    ]
  ]

  -- Of the usable sources that match the destination's scope as the chosen one does, `pickSource`
  -- gives one with the shortest common prefix.
  pub pick_source_shortest_prefix :
      (ss : List SourceIp) (b s : SourceIp)
      → pick_source d ss ≡ some b
      → Memᴰ s ss
      → is_usable d s ≡ true
      → same_scope s.scope d.dst_scope ≡ same_scope b.scope d.dst_scope
      → prefix_with d b ≤ prefix_with d s
  unfolding pick_source
  pick_source_shortest_prefix ss b s e m u same =
      elim (All-Mem (λ x. (is_usable d x ≡ false) ⊎ IsKept b x) ss s (pick_first-IsKept ss b e) m) [
        | inl unusable ↦ ground (arith, unusable, u)
        | inr kept ↦
            shorter (same_scope s.scope d.dst_scope) (same_scope b.scope d.dst_scope)
              (prefix_with d s) (prefix_with d b) same (sym (kept_before b s) ∙ kept)
      ]
