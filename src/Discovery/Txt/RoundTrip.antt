-- ===== src/Discovery/Txt/RoundTrip.antt =====
-- core/discovery/txt.go: what `ParseTXT` accepts, and that it reads what `BuildTXT` writes.
use lanos.Common.{
  ℕ, ◌≤◌, ◌≡◌, refl, sym, ap, ◌∙◌, true, false, ◌||◌, Option, none, some, List, [], ◌∷◌, arith,
  nat_eq, list_eq, ◌==◌, ltb, length, Result, ok, err,
}
use mathlib.Core.Path.{subst}
use lanos.Common.Int.{ℤ, pos, negsuc, is_nonpos, pos_part}
use lanos.Common.Text.{Text, cut, decimal}
use lanos.Discovery.Txt.{
  TxtRecord, TxtError, current_proto, is_ip_version, all_hex, first_missing, contains, check_record,
  key_and_value, set_field, parse_lines, parse_txt, txt_lines, build_txt, empty_record,
}

-- What a record must have.
abbrev pub IsAccepted : TxtRecord → Type 0
IsAccepted r =
    (is_ip_version r.ip_version ≡ true)
    × (length r.pub_hash ≡ 32)
    × (all_hex r.pub_hash ≡ true)
    × (p : ℕ) × (r.port ≡ pos p)
    × (1 ≤ p)
    × (p ≤ 65535)

port_range :
    (p : ℤ)
    → is_nonpos p || ltb 65535 (pos_part p) ≡ false
    → (n : ℕ) × (p ≡ pos n) × (1 ≤ n) × (n ≤ 65535)
port_range (pos n) h = (n, refl, ground (arith, h), ground (arith, h))
port_range (negsuc n) h = absurd (cc h)

check_record_ok :
    (seen : List Text) (r s : TxtRecord)
    → check_record seen r ≡ ok s
    → (is_ip_version r.ip_version ≡ true)
      × (length r.pub_hash ≡ 32)
      × (all_hex r.pub_hash ≡ true)
      × (is_nonpos r.port || ltb 65535 (pos_part r.port) ≡ false)
unfolding check_record
check_record_ok seen r s e = ground (arith, e)

value_or : TxtRecord → Result TxtError TxtRecord → TxtRecord
value_or r (err _) = r
value_or r (ok s) = s

value_or-check_record : (seen : List Text) (r : TxtRecord) → value_or r (check_record seen r) ≡ r
unfolding check_record value_or
value_or-check_record seen r = ground arith

check_record_same : (seen : List Text) (r s : TxtRecord) → check_record seen r ≡ ok s → r ≡ s
unfolding value_or
check_record_same seen r s e = sym (value_or-check_record seen r) ∙ ap (value_or r) e

parse_lines_ok :
    (atoi : Text → Option ℤ) (unescape : Text → Option Text) (seen : List Text) (r : TxtRecord)
    (lines : List Text) (s : TxtRecord)
    → parse_lines atoi unescape seen r lines ≡ ok s
    → (seen' : List Text) × (check_record seen' s ≡ ok s)
unfolding parse_lines
parse_lines_ok atoi unescape seen r [] s e =
    (seen, subst (λ x. check_record seen x ≡ ok s) (check_record_same seen r s e) e)
parse_lines_ok atoi unescape seen r (line ∷ lines) s e =
    by_line (λ k t. parse_lines_ok atoi unescape k t lines s) (key_and_value line) e
  where
    Rest : Type 0
    Rest =
        (k : List Text) (t : TxtRecord)
        → parse_lines atoi unescape k t lines ≡ ok s
        → (seen' : List Text) × (check_record seen' s ≡ ok s)

    by_field :
        (rest : Rest) (key : Text) (f : Result TxtError TxtRecord)
        → elim f [ err x ↦ err x | ok t ↦ parse_lines atoi unescape (key ∷ seen) t lines ] ≡ ok s
        → (seen' : List Text) × (check_record seen' s ≡ ok s)
    by_field rest key (err x) e' = absurd (cc e')
    by_field rest key (ok t) e' = rest (key ∷ seen) t e'

    by_line :
        (rest : Rest) (o : Option (Text × Text))
        → elim o [
          | none ↦ parse_lines atoi unescape seen r lines
          | some (key, val) ↦ elim (set_field atoi unescape r key val) [
            | err x ↦ err x
            | ok t ↦ parse_lines atoi unescape (key ∷ seen) t lines
          ]
        ]
          ≡ ok s
        → (seen' : List Text) × (check_record seen' s ≡ ok s)
    by_line rest none e' = rest seen r e'
    by_line rest (some (key, val)) e' = by_field rest key (set_field atoi unescape r key val) e'

-- A record that `ParseTXT` returns has a known IP version, a hash of 32 lower-case hexadecimal digits
-- and a port from 1 to 65535.
pub parse_txt-IsAccepted :
    (atoi : Text → Option ℤ) (unescape : Text → Option Text) (text : List Text) (r : TxtRecord)
    → parse_txt atoi unescape text ≡ ok r
    → IsAccepted r
unfolding parse_txt
parse_txt-IsAccepted atoi unescape text r e =
    let (seen, e') = parse_lines_ok atoi unescape [] empty_record text r e in
    let (v, l, h, p) = check_record_ok seen r r e' in
    let (n, q, low, high) = port_range r.port p in (v, l, h, n, q, low, high)

nonempty : (hash : Text) → length hash ≡ 32 → hash == [] ≡ false
nonempty [] h = absurd (omega (arith, h))
nonempty (c ∷ s) h = refl

good_port : (p : ℕ) → 1 ≤ p → p ≤ 65535 → p == 0 || ltb 65535 p ≡ false
good_port p low high = ground arith

-- Where the configuration and the identity are good, `BuildTXT` succeeds, and `ParseTXT` reads its
-- lines back as the record of what was announced, if `Atoi` reads the printed port and `QueryUnescape`
-- undoes `QueryEscape` of the name.
pub parse_txt-build_txt :
    (atoi : Text → Option ℤ) (unescape : Text → Option Text) (goos : Text) (escape : Text → Text)
    (p : ℕ) (name hash version : Text)
    → is_ip_version version ≡ true
    → 1 ≤ p
    → p ≤ 65535
    → length hash ≡ 32
    → all_hex hash ≡ true
    → atoi (decimal 5 p) ≡ some (pos p)
    → unescape (escape name) ≡ some name
    → (lines : List Text) × (build_txt goos escape (pos p) name hash version ≡ ok lines)
      × (parse_txt atoi unescape lines
          ≡ ok (record {
            txt_version = 49 ∷ [];
            proto = current_proto;
            platform = goos;
            port = pos p;
            pub_hash = hash;
            device_name = name;
            ip_version = version;
          }))
unfolding build_txt txt_lines parse_txt parse_lines key_and_value cut set_field check_record
    contains first_missing
parse_txt-build_txt atoi unescape goos escape p name hash version v low high l h a u = (
  txt_lines goos escape p name hash version,
  rw (build_txt, v, good_port p low high, nonempty hash l) refl,
  rw (parse_lines, a, u, v, l, h, good_port p low high) refl,
)
