-- ===== src/Net/Address/Port.antt =====
-- `parsePort` of core/net/addrselect.go: bounds, and the port that was printed.
use lanos.Common.{
  ℕ, zero, suc, ◌+◌, ◌-◌, ◌*◌, ◌/◌, ◌%◌, ◌≤◌, ◌<◌, ◌≡◌, refl, ap, ◌∙◌, false, some, [], ◌∷◌, ◌++◌,
  arith, if◌then◌else◌, nat_eq, list_eq, ◌==◌, Bool-cases, inl, inr,
}
use lanos.Common.Text.{Text, decimal}
use lanos.Net.Address.{parse_digits, parse_port}

parse_digits_bound : (n : ℕ) (s : Text) (p : ℕ) → n ≤ 65535 → parse_digits n s ≡ some p → p ≤ 65535
unfolding parse_digits
parse_digits_bound n [] p h e = ground (arith, e)
parse_digits_bound n (c ∷ s) p h e = ground (arith, e, parse_digits_bound (n * 10 + (c - 48)) s p)

-- A port that `parsePort` accepts is at most 65535.
pub parse_port_bound : (s : Text) (p : ℕ) → parse_port s ≡ some p → p ≤ 65535
unfolding parse_port
parse_port_bound s p e = ground (arith, e, parse_digits_bound 0 s p)

-- A digit behind digits.
parse_digits-append :
    (n : ℕ) (s : Text) (m d : ℕ)
    → parse_digits n s ≡ some m
    → d ≤ 9
    → m * 10 + d ≤ 65535
    → parse_digits n (s ++ ((48 + d) ∷ [])) ≡ some (m * 10 + d)
unfolding parse_digits
parse_digits-append n [] m d e h b = ground (arith, e)
parse_digits-append n (c ∷ s) m d e h b =
    ground (arith, e, parse_digits-append (n * 10 + (c - 48)) s m d)

-- 10 to the power of `k`.
abbrev power : ℕ → ℕ
power zero = 1
power (suc k) = 10 * power k

tens : (n : ℕ) → n / 10 * 10 + n % 10 ≡ n
tens n = omega arith

parse_digits-decimal : (k n : ℕ) → n < power k → n ≤ 65535 → parse_digits 0 (decimal k n) ≡ some n
unfolding decimal parse_digits
parse_digits-decimal zero n h b = ground arith
parse_digits-decimal (suc k) n h b = elim (Bool-cases (n / 10 == 0)) [
  | inl small ↦
      rw (decimal, small)
        (parse_digits-append 0 [] 0 (n % 10) refl (omega arith) (omega arith)
          ∙ ap some (ground (arith, small, tens n)))
  | inr large ↦
      rw (decimal, large)
        (parse_digits-append 0 (decimal k (n / 10)) (n / 10) (n % 10)
            (parse_digits-decimal k (n / 10) (omega arith) (omega arith)) (omega arith)
            (omega arith)
          ∙ ap some (tens n))
]

snoc-nonempty : (s : Text) (c : ℕ) → (s ++ (c ∷ [])) == [] ≡ false
snoc-nonempty [] c = refl
snoc-nonempty (d ∷ s) c = refl

-- The digits before the last one.
abbrev pub leading : ℕ → ℕ → Text
leading k n = if n / 10 == 0 then [] else decimal k (n / 10)

pub decimal_last : (k n : ℕ) → decimal (suc k) n ≡ leading k n ++ ((48 + n % 10) ∷ [])
unfolding decimal
decimal_last k n = refl

decimal-nonempty : (n : ℕ) → decimal 5 n == [] ≡ false
decimal-nonempty n =
    ap (λ x. x == []) (decimal_last 4 n) ∙ snoc-nonempty (leading 4 n) (48 + n % 10)

-- What `%d` prints of a port, `parsePort` reads back.
pub parse_port-decimal : (p : ℕ) → p ≤ 65535 → parse_port (decimal 5 p) ≡ some p
unfolding parse_port
parse_port-decimal p h =
    rw (parse_port, decimal-nonempty p) (parse_digits-decimal 5 p (omega arith) h)
