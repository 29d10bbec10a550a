-- ===== src/Discovery/Presence.antt =====
-- core/discovery/discovery.go: the device map and the event channel over any run.
use lanos.Common.{
  ℕ, ◌≤◌, ◌≡◌, refl, Bool, true, false, not, Option, none, some, List, [], ◌∷◌, arith, nat_eq,
  list_eq, ◌==◌, ltb, length, length-append, Bool-cases, inl, inr, Result, ok, err,
}
use lanos.Common.Map.{
  lookup, filter_values, Each, Each-insert, Each-keep_by, Distinct, insert-Distinct,
  keep_by-Distinct,
}
use lanos.Common.Text.{Text}
use lanos.Discovery.Txt.{TxtRecord, TxtError}
use lanos.Discovery.{
  Liveness, online, gray, Device, Event, event_offline, Discovery, ServiceEntry, offer, emit,
  new_device, is_changed, is_gray, refreshed, set_device, notify_if, announce, handle_record,
  handle_entry, is_fresh, offline_all, reap, next_event, receive_event, with_status, change_status,
  set_status, clear_failures, count_failure, restore_gray, on_success, on_failure, probe_one,
  same_liveness, failures_of, snapshot,
}

-- A device stands under its own id, which is its key hash and not the local one.
abbrev pub IsKeyed : Text → Text → Device → Type 0
IsKeyed own k dev = (dev.id ≡ k) × (dev.hash ≡ k) × (k == own ≡ false)

abbrev pub IsValid : Discovery → Type 0
IsValid d = Each (IsKeyed d.own_hash) d.devices × Distinct d.devices × (length d.events ≤ 64)

-- What happens to a discovery.
pub data Action : Type 0 where
  announcement : Option ServiceEntry → ℕ → Action
  sweep : ℕ → Action
  probed : Text → Bool → Action
  taken : Action

unfoldable pub step : Discovery → Action → Discovery
step d (announcement e now) = handle_entry d e now
step d (sweep now) = reap d now
step d (probed k answered) = probe_one d k answered
step d taken = (receive_event d).0

unfoldable pub run : Discovery → List Action → Discovery
run d [] = d
run d (a ∷ as_) = run (step d a) as_

-- `New`, for an identity's hash.
unfoldable pub new_discovery : Text → Discovery
new_discovery own = record { own_hash = own; devices = []; events = []; failures = [] }

offer_bound : (evs : List Event) (ev : Event) → length evs ≤ 64 → length (offer evs ev) ≤ 64
unfolding offer
offer_bound evs ev h = ground (arith, length-append evs (ev ∷ []))

offline_all_bound :
    (evs : List Event) (devs : List Device) → length evs ≤ 64 → length (offline_all evs devs) ≤ 64
unfolding offline_all
offline_all_bound evs [] h = h
offline_all_bound evs (dev ∷ devs) h =
    offline_all_bound (offer evs (record { kind = event_offline; device = dev })) devs
      (offer_bound evs _ h)

set_device-IsValid :
    (d : Discovery) (k : Text) (dev : Device)
    → IsValid d
    → IsKeyed d.own_hash k dev
    → IsValid (set_device d k dev)
unfolding set_device
set_device-IsValid d k dev (keyed, distinct, room) h = (
  Each-insert (IsKeyed d.own_hash) k dev d.devices keyed h,
  insert-Distinct k dev d.devices distinct,
  room,
)

emit-IsValid : (d : Discovery) (ev : Event) → IsValid d → IsValid (emit d ev)
unfolding emit
emit-IsValid d ev (keyed, distinct, room) = (keyed, distinct, offer_bound d.events ev room)

notify_if-IsValid : (b : Bool) (d : Discovery) (ev : Event) → IsValid d → IsValid (notify_if b d ev)
unfolding notify_if
notify_if-IsValid true d ev v = emit-IsValid d ev v
notify_if-IsValid false d ev v = v

announce-IsValid :
    (d : Discovery) (e : ServiceEntry) (r : TxtRecord) (now : ℕ) (found : Option Device)
    → IsValid d
    → r.pub_hash == d.own_hash ≡ false
    → lookup r.pub_hash d.devices ≡ found
    → IsValid (announce d e r now found)
unfolding announce new_device refreshed
announce-IsValid d e r now none v h f =
    emit-IsValid _ _ (set_device-IsValid d r.pub_hash (new_device e r now) v (refl, refl, h))
announce-IsValid d e r now (some dev) v h f =
    notify_if-IsValid (is_changed e r dev) _ _
      (set_device-IsValid d r.pub_hash (refreshed e r now dev) v (v.0 r.pub_hash dev f))

handle_entry-IsValid :
    (d : Discovery) (e : Option ServiceEntry) (now : ℕ) → IsValid d → IsValid (handle_entry d e now)
unfolding handle_entry handle_record
handle_entry-IsValid d none now v = v
handle_entry-IsValid d (some e) now v = by_txt e.entry_txt
  where
    by_hash : (r : TxtRecord) → IsValid (handle_record d e r now)
    by_hash r = elim (Bool-cases (r.pub_hash == d.own_hash)) [
      | inl own ↦ rw (handle_record, own) v
      | inr peer ↦
          rw (handle_record, peer)
            (announce-IsValid d e r now (lookup r.pub_hash d.devices) v peer refl)
    ]

    by_txt :
        (t : Result TxtError TxtRecord)
        → IsValid (elim t [ err _ ↦ d | ok r ↦ handle_record d e r now ])
    by_txt (err _) = v
    by_txt (ok r) = by_hash r

reap-IsValid : (d : Discovery) (now : ℕ) → IsValid d → IsValid (reap d now)
unfolding reap
reap-IsValid d now (keyed, distinct, room) = (
  Each-keep_by (IsKeyed d.own_hash) (is_fresh now) d.devices distinct keyed,
  keep_by-Distinct (is_fresh now) d.devices distinct,
  offline_all_bound d.events (filter_values (λ dev. not (is_fresh now dev)) d.devices) room,
)

change_status-IsValid :
    (d : Discovery) (k : Text) (s : Liveness) (found : Option Device)
    → IsValid d
    → lookup k d.devices ≡ found
    → IsValid (change_status d k s found)
unfolding change_status with_status
change_status-IsValid d k s none v f = v
change_status-IsValid d k s (some dev) v f = elim (Bool-cases (same_liveness dev.status s)) [
  | inl same ↦ rw (change_status, same) v
  | inr differs ↦
      rw (change_status, differs)
        (emit-IsValid _ _ (set_device-IsValid d k (with_status dev s) v (v.0 k dev f)))
]

set_status-IsValid :
    (d : Discovery) (k : Text) (s : Liveness) → IsValid d → IsValid (set_status d k s)
unfolding set_status
set_status-IsValid d k s v = change_status-IsValid d k s (lookup k d.devices) v refl

restore_gray-IsValid :
    (d : Discovery) (k : Text) (found : Option Device)
    → IsValid d
    → IsValid (restore_gray d k found)
unfolding restore_gray
restore_gray-IsValid d k none v = v
restore_gray-IsValid d k (some dev) v = elim (Bool-cases (is_gray dev.status)) [
  | inl is ↦ rw (restore_gray, is) (set_status-IsValid d k online v)
  | inr is ↦ rw (restore_gray, is) v
]

probe_one-IsValid : (d : Discovery) (k : Text) (b : Bool) → IsValid d → IsValid (probe_one d k b)
unfolding probe_one on_success on_failure clear_failures count_failure
probe_one-IsValid d k true v = elim (Bool-cases (failures_of d k == 0)) [
  | inl none_ ↦ rw (on_success, none_) v
  | inr some_ ↦
      rw (on_success, some_)
        (restore_gray-IsValid (clear_failures d k) k (snapshot (clear_failures d k) k) v)
]
probe_one-IsValid d k false v = elim (Bool-cases (ltb (failures_of (count_failure d k) k) 3)) [
  | inl few ↦ rw (on_failure, few) v
  | inr many ↦ rw (on_failure, many) (set_status-IsValid (count_failure d k) k gray v)
]

next_event-IsValid :
    (d : Discovery) (evs : List Event)
    → IsValid d
    → length evs ≤ 64
    → IsValid ((next_event d evs).0)
unfolding next_event
next_event-IsValid d [] v h = v
next_event-IsValid d (ev ∷ evs) (keyed, distinct, _) h = (keyed, distinct, ground (arith, h))

taken-IsValid : (d : Discovery) → IsValid d → IsValid ((receive_event d).0)
unfolding receive_event
taken-IsValid d (keyed, distinct, room) = next_event-IsValid d d.events (keyed, distinct, room) room

-- Each action keeps a discovery valid.
pub step-IsValid : (d : Discovery) (a : Action) → IsValid d → IsValid (step d a)
unfolding step
step-IsValid d (announcement e now) v = handle_entry-IsValid d e now v
step-IsValid d (sweep now) v = reap-IsValid d now v
step-IsValid d (probed k b) v = probe_one-IsValid d k b v
step-IsValid d taken v = taken-IsValid d v

run_from : (d : Discovery) (as_ : List Action) → IsValid d → IsValid (run d as_)
unfolding run
run_from d [] v = v
run_from d (a ∷ as_) v = run_from (step d a) as_ (step-IsValid d a v)

-- After any announcements, sweeps, probes and reads of events, each device is under its own id and
-- hash, which is not the local one, no device is there twice, and at most 64 events wait.
pub run-IsValid : (own : Text) (as_ : List Action) → IsValid (run (new_discovery own) as_)
unfolding new_discovery lookup
run-IsValid own as_ = run_from (new_discovery own) as_ (λ k dev e. absurd (cc e), tt, omega arith)
