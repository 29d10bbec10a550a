-- ===== src/Net/Address/HostPort.antt =====
-- `splitHostPort` of core/net/addrselect.go reads what `joinHostPort` writes.
use lanos.Common.{
  ℕ, ◌+◌, ◌%◌, ◌≤◌, ◌≡◌, refl, sym, ap, ◌∙◌, Bool, true, false, Option, none, some, [], ◌∷◌, ◌++◌,
  arith, if◌then◌else◌, nat_eq, list_eq, ◌==◌, append_assoc,
}
use mathlib.Core.Path.{subst}
use lanos.Common.Text.{Text, trim_left, trim_right, trim_space, is_space, decimal, cut}
use lanos.Net.Ip.{Ip, is_v6}
use lanos.Net.Address.{split_zone, parse_port}
use lanos.Net.Address.Select.{
  with_parsed, with_port, bracketed, split_trimmed, split_host_port, with_zone, join_host_port,
}
use lanos.Net.Address.Port.{leading, decimal_last, parse_port-decimal}

abbrev pub lacks : ℕ → Text → Bool
lacks c [] = true
lacks c (d ∷ s) = if d == c then false else lacks c s

cut_here : (c : ℕ) (s t : Text) → lacks c s ≡ true → cut c (s ++ (c ∷ t)) ≡ some (s, t)
unfolding cut
cut_here c [] t h = ground arith
cut_here c (d ∷ s) t h = ground (arith, h, cut_here c s t)

cut-lacks : (c : ℕ) (s : Text) → lacks c s ≡ true → cut c s ≡ none
unfolding cut
cut-lacks c [] h = refl
cut-lacks c (d ∷ s) h = ground (arith, h, cut-lacks c s)

lacks-append : (c : ℕ) (s t : Text) → lacks c s ≡ true → lacks c t ≡ true → lacks c (s ++ t) ≡ true
lacks-append c [] t h k = k
lacks-append c (d ∷ s) t h k = ground (arith, lacks-append c s t)

trim_right-last :
    (p : ℕ → Bool) (s : Text) (c : ℕ) → p c ≡ false → trim_right p (s ++ (c ∷ [])) ≡ s ++ (c ∷ [])
unfolding trim_right
trim_right-last p [] c h = ground (arith, h)
trim_right-last p (d ∷ []) c h = rw (trim_right, trim_right-last p [] c h) refl
trim_right-last p (d ∷ e ∷ s) c h = rw (trim_right, trim_right-last p (e ∷ s) c h) refl

-- A text with no white space at its ends.
trim_space-ends :
    (a : ℕ) (s : Text) (c : ℕ)
    → is_space a ≡ false
    → is_space c ≡ false
    → trim_space ((a ∷ s) ++ (c ∷ [])) ≡ (a ∷ s) ++ (c ∷ [])
unfolding trim_space trim_left
trim_space-ends a s c ha hc = rw (trim_space, trim_left, ha) (trim_right-last is_space (a ∷ s) c hc)

digit-IsSpace : (d : ℕ) → d ≤ 9 → is_space (48 + d) ≡ false
unfolding is_space
digit-IsSpace d h = ground arith

bracket-IsSpace : is_space 91 ≡ false
unfolding is_space
bracket-IsSpace = refl

split_zone-with_zone :
    (ip_string : Ip → Text) (a : Ip) (zone : Text)
    → lacks 37 (ip_string a) ≡ true
    → split_zone (with_zone ip_string a zone) ≡ (ip_string a, zone)
unfolding split_zone with_zone
split_zone-with_zone ip_string a [] h = rw (split_zone, cut-lacks 37 (ip_string a) h) refl
split_zone-with_zone ip_string a (c ∷ z) h =
    rw (split_zone, cut_here 37 (ip_string a) (c ∷ z) h) refl

lacks-with_zone :
    (ip_string : Ip → Text) (a : Ip) (zone : Text)
    → lacks 93 (ip_string a) ≡ true
    → lacks 93 zone ≡ true
    → lacks 93 (with_zone ip_string a zone) ≡ true
unfolding with_zone
lacks-with_zone ip_string a zone h k =
    ground (arith, lacks-append 93 (ip_string a) (37 ∷ zone), h, k)

-- The address in brackets, with the last digit of the port apart.
joined_v6 :
    (ip_string : Ip → Text) (a : Ip) (zone : Text) (p : ℕ)
    → is_v6 a ≡ true
    → 1 ≤ p
    → join_host_port ip_string a zone p
      ≡ (91 ∷ with_zone ip_string a zone) ++ (93 ∷ 58 ∷ decimal 5 p)
unfolding join_host_port
joined_v6 ip_string a zone p v h = ground (arith, v, h)

trim_joined :
    (w : Text) (p : ℕ)
    → trim_space ((91 ∷ w) ++ (93 ∷ 58 ∷ decimal 5 p)) ≡ (91 ∷ w) ++ (93 ∷ 58 ∷ decimal 5 p)
trim_joined w p =
    let lead = leading 4 p in
    let digit = (48 + p % 10) ∷ [] in
    let apart : (91 ∷ w) ++ (93 ∷ 58 ∷ decimal 5 p) ≡ ((91 ∷ w) ++ (93 ∷ 58 ∷ lead)) ++ digit =
      ap (λ x. (91 ∷ w) ++ (93 ∷ 58 ∷ x)) (decimal_last 4 p)
      ∙ sym (append_assoc (91 ∷ w) (93 ∷ 58 ∷ lead) digit) in
    subst (λ x. trim_space x ≡ x) (sym apart)
      (trim_space-ends 91 (w ++ (93 ∷ 58 ∷ lead)) (48 + p % 10) bracket-IsSpace
        (digit-IsSpace (p % 10) (omega arith)))

-- `joinHostPort` of an IPv6 address with a zone or without one, and a port from 1 to 65535, is read
-- back by `splitHostPort` as the address's text, the zone and the port, if the address's text has
-- neither a "%" nor a "]" and the zone no "]".
pub split_host_port-join_host_port :
    (split_std : Text → Option (Text × Text)) (ip_string : Ip → Text) (a : Ip) (zone : Text) (p : ℕ)
    → is_v6 a ≡ true
    → 1 ≤ p
    → p ≤ 65535
    → lacks 37 (ip_string a) ≡ true
    → lacks 93 (ip_string a) ≡ true
    → lacks 93 zone ≡ true
    → split_host_port split_std (join_host_port ip_string a zone p)
      ≡ some (record { host = ip_string a; host_zone = zone; host_port = p })
unfolding split_host_port split_trimmed with_port bracketed with_parsed
split_host_port-join_host_port split_std ip_string a zone p v low high h k z =
    let w = with_zone ip_string a zone in
    let d = decimal 5 p in
    ap (split_host_port split_std) (joined_v6 ip_string a zone p v low)
    ∙ ap (split_trimmed split_std) (trim_joined w p)
    ∙ rw (split_trimmed, cut_here 93 w (58 ∷ d) (lacks-with_zone ip_string a zone k z))
        (ap (λ x. with_parsed x (parse_port d)) (split_zone-with_zone ip_string a zone h)
          ∙ ap (with_parsed (ip_string a, zone)) (parse_port-decimal p high))
