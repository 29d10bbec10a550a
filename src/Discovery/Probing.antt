-- ===== src/Discovery/Probing.antt =====
-- core/discovery: what announcements, sweeps and probes do to one device.
use lanos.Common.{
  ℕ, suc, ◌≤◌, ◌<◌, ◌≡◌, ◌⊎◌, refl, sym, ap, ◌∙◌, Bool, true, false, Option, none, some, arith,
  if◌then◌else◌, nat_eq, list_eq, ◌==◌, ltb, Bool-cases, inl, inr, beq_refl,
}
use mathlib.Core.Path.{subst}
use lanos.Common.Int.{ℤ, pos, negsuc}
use lanos.Common.Map.{lookup, kept, Distinct, lookup-keep_by, lookup-insert}
use lanos.Common.Text.{Text}
use lanos.Discovery.Txt.{TxtRecord}
use lanos.Discovery.{
  Liveness, online, gray, Device, Event, event_update, Discovery, ServiceEntry, emit, is_changed,
  is_gray, same_int, new_device, refreshed, set_device, notify_if, announce, handle_record,
  is_fresh, reap, with_status, change_status, set_status, count_failure, on_failure, probe_one,
  same_liveness, failures_of,
}

-- After a sweep a device is known exactly when it was known and was seen in the last 30 seconds.
pub reap_lem :
    (d : Discovery) (now : ℕ) (k : Text)
    → Distinct d.devices
    → lookup k (reap d now).devices ≡ kept (is_fresh now) (lookup k d.devices)
unfolding reap
reap_lem d now k h = lookup-keep_by (is_fresh now) k d.devices h

lookup_set :
    (d : Discovery) (k : Text) (dev : Device) → lookup k (set_device d k dev).devices ≡ some dev
unfolding set_device
lookup_set d k dev = rw (lookup-insert k k dev d.devices, beq_refl k) refl

devices-notify_if : (b : Bool) (d : Discovery) (ev : Event) → (notify_if b d ev).devices ≡ d.devices
unfolding notify_if emit
devices-notify_if true d ev = refl
devices-notify_if false d ev = refl

-- The liveness of a device; an unknown one is not gray.
abbrev pub is_gray_at : Text → Discovery → Bool
is_gray_at k d = elim (lookup k d.devices) [ none ↦ false | some dev ↦ is_gray dev.status ]

abbrev pub is_known : Text → Discovery → Bool
is_known k d = elim (lookup k d.devices) [ none ↦ false | some _ ↦ true ]

same_int_iff : (a b : ℤ) → same_int a b ≡ true → a ≡ b
same_int_iff (pos a) (pos b) h = ap pos ((nat_eq.beq_iff a b).0 h)
same_int_iff (negsuc a) (negsuc b) h = ap negsuc ((nat_eq.beq_iff a b).0 h)
same_int_iff (pos a) (negsuc b) h = absurd (cc h)
same_int_iff (negsuc a) (pos b) h = absurd (cc h)

-- The known device after its announcement.
announced :
    (d : Discovery) (e : ServiceEntry) (r : TxtRecord) (now : ℕ) (found : Option Device)
    → (lookup r.pub_hash (announce d e r now found).devices
        ≡ some (elim found [ none ↦ new_device e r now | some dev ↦ refreshed e r now dev ]))
unfolding announce emit
announced d e r now none = lookup_set d r.pub_hash (new_device e r now)
announced d e r now (some dev) =
    ap (lookup r.pub_hash)
      (devices-notify_if (is_changed e r dev) (set_device d r.pub_hash (refreshed e r now dev)) _)
    ∙ lookup_set d r.pub_hash (refreshed e r now dev)

-- An announcement that is not the local one makes its device known, seen now and online.
pub handle_record_seen :
    (d : Discovery) (e : ServiceEntry) (r : TxtRecord) (now : ℕ)
    → r.pub_hash == d.own_hash ≡ false
    → (dev : Device) × (lookup r.pub_hash (handle_record d e r now).devices ≡ some dev)
      × (dev.last_seen ≡ now)
      × (dev.status ≡ online)
      × (dev.name ≡ r.device_name)
      × (dev.dev_port ≡ r.port)
      × (dev.ipv4 ≡ e.entry_ipv4)
      × (dev.ipv6 ≡ e.entry_ipv6)
unfolding handle_record new_device refreshed
handle_record_seen d e r now h = rw (handle_record, h) (by_found (lookup r.pub_hash d.devices))
  where
    by_found :
        (found : Option Device)
        → (dev : Device) × (lookup r.pub_hash (announce d e r now found).devices ≡ some dev)
          × (dev.last_seen ≡ now)
          × (dev.status ≡ online)
          × (dev.name ≡ r.device_name)
          × (dev.dev_port ≡ r.port)
          × (dev.ipv4 ≡ e.entry_ipv4)
          × (dev.ipv6 ≡ e.entry_ipv6)
    by_found none =
        (new_device e r now, announced d e r now none, refl, refl, refl, refl, refl, refl)
    by_found (some dev) =
        (refreshed e r now dev, announced d e r now (some dev), refl, refl, refl, refl, refl, refl)

same_gray : (a b : Liveness) → same_liveness a b ≡ true → is_gray a ≡ is_gray b
same_gray online online h = refl
same_gray gray gray h = refl
same_gray online gray h = absurd (cc h)
same_gray gray online h = absurd (cc h)

gray_of : Option Device → Bool
gray_of none = false
gray_of (some dev) = is_gray dev.status

gray_of-lookup : (k : Text) (d : Discovery) → is_gray_at k d ≡ gray_of (lookup k d.devices)
unfolding gray_of
gray_of-lookup k d = by_found (lookup k d.devices)
  where
    by_found :
        (o : Option Device) → elim o [ none ↦ false | some dev ↦ is_gray dev.status ] ≡ gray_of o
    by_found none = refl
    by_found (some dev) = refl

gray_at :
    (k : Text) (d : Discovery) (found : Option Device)
    → lookup k d.devices ≡ found
    → is_gray_at k d ≡ gray_of found
gray_at k d found f = gray_of-lookup k d ∙ ap gray_of f

change_status_gray :
    (d : Discovery) (k : Text) (s : Liveness) (dev : Device)
    → lookup k d.devices ≡ some dev
    → is_gray_at k (change_status d k s (some dev)) ≡ is_gray s
unfolding change_status emit with_status gray_of
change_status_gray d k s dev f = elim (Bool-cases (same_liveness dev.status s)) [
  | inl same ↦ rw (change_status, same) (gray_at k d (some dev) f ∙ same_gray dev.status s same)
  | inr differs ↦
      rw (change_status, differs)
        (gray_at k
          (emit (set_device d k (with_status dev s))
            (record { kind = event_update; device = with_status dev s }))
          (some (with_status dev s)) (lookup_set d k (with_status dev s)))
]

-- The status that is set for a known device.
set_status_gray :
    (d : Discovery) (k : Text) (s : Liveness) (dev : Device)
    → lookup k d.devices ≡ some dev
    → is_gray_at k (set_status d k s) ≡ is_gray s
unfolding set_status
set_status_gray d k s dev f =
    ap (λ x. is_gray_at k (change_status d k s x)) f ∙ change_status_gray d k s dev f

failures-count_failure :
    (d : Discovery) (k : Text) → failures_of (count_failure d k) k ≡ suc (failures_of d k)
unfolding failures_of count_failure
failures-count_failure d k =
    ap (λ o. elim o [ none ↦ 0 | some n ↦ n ])
      (lookup-insert k k (suc (failures_of d k)) d.failures
        ∙ ap (λ b. if b then some (suc (failures_of d k)) else lookup k d.failures) (beq_refl k))

failures-set_status :
    (d : Discovery) (k : Text) (s : Liveness) → (set_status d k s).failures ≡ d.failures
unfolding set_status change_status emit set_device
failures-set_status d k s = by_found (lookup k d.devices)
  where
    by_found : (o : Option Device) → (change_status d k s o).failures ≡ d.failures
    by_found none = refl
    by_found (some dev) = by_test (same_liveness dev.status s)
      where
        by_test :
            (b : Bool)
            → (if b
                then d
                else emit
                    (set_device d k (with_status dev s))
                    (record { kind = event_update; device = with_status dev s })).failures
              ≡ d.failures
        by_test true = refl
        by_test false = refl

failures_at :
    (d e : Discovery) (k : Text) → d.failures ≡ e.failures → failures_of d k ≡ failures_of e k
unfolding failures_of
failures_at d e k h = ap (λ m. elim (lookup k m) [ none ↦ 0 | some n ↦ n ]) h

-- The two ways in which `onFailure` ends.
on_failure_cases :
    (d : Discovery) (k : Text)
    → ((failures_of d k < 2) × (on_failure d k ≡ count_failure d k))
      ⊎ (2 ≤ failures_of d k) × (on_failure d k ≡ set_status (count_failure d k) k gray)
unfolding on_failure
on_failure_cases d k =
    let counted = failures-count_failure d k in
    elim (Bool-cases (ltb (failures_of (count_failure d k) k) 3)) [
      | inl few ↦ inl (ground (arith, counted, few), rw (on_failure, few) refl)
      | inr many ↦ inr (ground (arith, counted, many), rw (on_failure, many) refl)
    ]

-- A failed probe of a known device that failed twice before marks it gray.
pub on_failure_gray :
    (d : Discovery) (k : Text) (dev : Device)
    → lookup k d.devices ≡ some dev
    → 2 ≤ failures_of d k
    → is_gray_at k (on_failure d k) ≡ true
unfolding count_failure
on_failure_gray d k dev f h = elim (on_failure_cases d k) [
  | inl (few, _) ↦ absurd (omega arith)
  | inr (_, e) ↦ ap (is_gray_at k) e ∙ set_status_gray (count_failure d k) k gray dev f
]

failures-on_failure :
    (d : Discovery) (k : Text) → failures_of (on_failure d k) k ≡ suc (failures_of d k)
failures-on_failure d k = elim (on_failure_cases d k) [
  | inl (_, e) ↦ ap (λ x. failures_of x k) e ∙ failures-count_failure d k
  | inr (_, e) ↦
      ap (λ x. failures_of x k) e
      ∙ failures_at (set_status (count_failure d k) k gray) (count_failure d k) k
          (failures-set_status (count_failure d k) k gray)
      ∙ failures-count_failure d k
]

change_status-known :
    (d : Discovery) (k : Text) (s : Liveness) (dev : Device)
    → lookup k d.devices ≡ some dev
    → (new : Device) × (lookup k (change_status d k s (some dev)).devices ≡ some new)
unfolding change_status emit
change_status-known d k s dev f = elim (Bool-cases (same_liveness dev.status s)) [
  | inl same ↦ (dev, rw (change_status, same) f)
  | inr differs ↦
      (with_status dev s, rw (change_status, differs) (lookup_set d k (with_status dev s)))
]

set_status-known :
    (d : Discovery) (k : Text) (s : Liveness) (dev : Device)
    → lookup k d.devices ≡ some dev
    → (new : Device) × (lookup k (set_status d k s).devices ≡ some new)
unfolding set_status
set_status-known d k s dev f =
    let (new, e) = change_status-known d k s dev f in
    (new, ap (λ x. lookup k (change_status d k s x).devices) f ∙ e)

on_failure-known :
    (d : Discovery) (k : Text) (dev : Device)
    → lookup k d.devices ≡ some dev
    → (new : Device) × (lookup k (on_failure d k).devices ≡ some new)
unfolding count_failure
on_failure-known d k dev f = elim (on_failure_cases d k) [
  | inl (_, e) ↦ (dev, ap (λ x. lookup k x.devices) e ∙ f)
  | inr (_, e) ↦
      let (new, found) = set_status-known (count_failure d k) k gray dev f in
      (new, ap (λ x. lookup k x.devices) e ∙ found)
]

-- Three failed probes in a row mark a known device gray, whatever was counted before.
pub three_failures_gray :
    (d : Discovery) (k : Text) (dev : Device)
    → lookup k d.devices ≡ some dev
    → is_gray_at k (probe_one (probe_one (probe_one d k false) k false) k false) ≡ true
unfolding probe_one
three_failures_gray d k dev f =
    let (one, f1) = on_failure-known d k dev f in
    let (two, f2) = on_failure-known (on_failure d k) k one f1 in
    on_failure_gray (on_failure (on_failure d k) k) k two f2
      (omega (arith, failures-on_failure d k, failures-on_failure (on_failure d k) k))

failures-announce :
    (d : Discovery) (e : ServiceEntry) (r : TxtRecord) (now : ℕ) (found : Option Device)
    → (announce d e r now found).failures ≡ d.failures
unfolding announce emit set_device notify_if
failures-announce d e r now none = refl
failures-announce d e r now (some dev) = by_test (is_changed e r dev)
  where
    by_test :
        (b : Bool)
        → (notify_if b
            (set_device d r.pub_hash (refreshed e r now dev))
            (record { kind = event_update; device = refreshed e r now dev })).failures
          ≡ d.failures
    by_test true = refl
    by_test false = refl

failures-handle_record :
    (d : Discovery) (e : ServiceEntry) (r : TxtRecord) (now : ℕ)
    → r.pub_hash == d.own_hash ≡ false
    → (handle_record d e r now).failures ≡ d.failures
unfolding handle_record
failures-handle_record d e r now h =
    rw (handle_record, h) (failures-announce d e r now (lookup r.pub_hash d.devices))

-- The announcement of a device that has failed twice or more, also of one that was forgotten in
-- between, makes it known and online, but the count is kept: the first failed probe behind it marks
-- it gray.
pub announced_then_failed :
    (d : Discovery) (e : ServiceEntry) (r : TxtRecord) (now : ℕ)
    → r.pub_hash == d.own_hash ≡ false
    → 2 ≤ failures_of d r.pub_hash
    → (dev : Device) × (lookup r.pub_hash (handle_record d e r now).devices ≡ some dev)
      × (dev.status ≡ online)
      × (is_gray_at r.pub_hash (probe_one (handle_record d e r now) r.pub_hash false) ≡ true)
unfolding probe_one
announced_then_failed d e r now h two =
    let (dev, f, _, live, _, _, _, _) = handle_record_seen d e r now h in
    (
      dev,
      f,
      live,
      on_failure_gray (handle_record d e r now) r.pub_hash dev f (
          subst (λ n. 2 ≤ n)
            (sym (
              failures_at (handle_record d e r now) d r.pub_hash
                (failures-handle_record d e r now h)))
            two),
    )
