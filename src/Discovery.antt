-- ===== src/Discovery.antt =====
-- core/discovery: the devices that are known, from discovery.go, and the liveness prober of prober.go.
-- The clock's value is an argument `now`, in nanoseconds. An event holds the device as it is when the
-- event is sent.
pub mod Txt
pub mod Presence
pub mod Probing
mod Examples
use lanos.Common.{
  ℕ, suc, ◌+◌, ◌-◌, Bool, true, false, not, ◌&&◌, ◌||◌, Option, none, some, List, [], ◌∷◌, ◌++◌,
  if◌then◌else◌, nat_eq, list_eq, ◌==◌, ltb, length, Result, ok, err,
}
use lanos.Common.Int.{ℤ, pos_part}
use lanos.Common.Map.{Map, insert, delete, lookup, keep_by, filter_values}
use lanos.Common.Text.{Text}
use lanos.Discovery.Txt.{TxtRecord, TxtError}

pub data Liveness : Type 0 where
  online gray : Liveness

pub record Device : Type 0 where
  pub id : Text
  pub name : Text
  pub dev_platform : Text
  pub dev_port : ℤ
  pub hash : Text
  pub version : Text
  pub ipv4 : List Text
  pub ipv6 : List Text
  pub host_name : Text
  pub first_seen : ℕ
  pub last_seen : ℕ
  pub status : Liveness

pub data EventType : Type 0 where
  event_online event_offline event_update : EventType

pub record Event : Type 0 where
  pub kind : EventType
  pub device : Device

-- `failures` is the prober's map; `own_hash` is the identity's `PubHash`.
pub record Discovery : Type 0 where
  pub own_hash : Text
  pub devices : Map Text Device
  pub events : List Event
  pub failures : Map Text ℕ

-- What zeroconf gives: the TXT record, parsed, and the addresses as sorted texts.
pub record ServiceEntry : Type 0 where
  pub entry_txt : Result TxtError TxtRecord
  pub entry_ipv4 : List Text
  pub entry_ipv6 : List Text
  pub entry_host : Text

abbrev pub event_buffer_size : ℕ
event_buffer_size = 64

-- 30 seconds.
abbrev pub offline_timeout : ℕ
offline_timeout = 30000000000

abbrev pub max_probe_failures : ℕ
max_probe_failures = 3

-- The channel's buffer after a send that does not block.
unfoldable pub offer : List Event → Event → List Event
offer evs ev = if ltb (length evs) event_buffer_size then evs ++ ev ∷ [] else evs

unfoldable pub emit : Discovery → Event → Discovery
emit d ev = record d { events = offer d.events ev }

abbrev pub is_gray : Liveness → Bool
is_gray online = false
is_gray gray = true

abbrev pub same_int : ℤ → ℤ → Bool
same_int (ℤ.pos a) (ℤ.pos b) = a == b
same_int (ℤ.negsuc a) (ℤ.negsuc b) = a == b
same_int _ _ = false

unfoldable pub new_device : ServiceEntry → TxtRecord → ℕ → Device
new_device e r now = record {
  id = r.pub_hash;
  name = r.device_name;
  dev_platform = r.platform;
  dev_port = r.port;
  hash = r.pub_hash;
  version = r.ip_version;
  ipv4 = e.entry_ipv4;
  ipv6 = e.entry_ipv6;
  host_name = e.entry_host;
  first_seen = now;
  last_seen = now;
  status = online;
}

-- Whether one of the tests of `handleEntry` sets `changed`.
unfoldable pub is_changed : ServiceEntry → TxtRecord → Device → Bool
is_changed e r dev =
    not (dev.name == r.device_name)
    || not (dev.dev_platform == r.platform)
    || not (same_int dev.dev_port r.port)
    || not (dev.version == r.ip_version)
    || not (dev.ipv4 == e.entry_ipv4)
    || not (dev.ipv6 == e.entry_ipv6)
    || not (dev.host_name == e.entry_host)
    || is_gray dev.status

unfoldable pub refreshed : ServiceEntry → TxtRecord → ℕ → Device → Device
refreshed e r now dev = record dev {
  name = r.device_name;
  dev_platform = r.platform;
  dev_port = r.port;
  version = r.ip_version;
  ipv4 = e.entry_ipv4;
  ipv6 = e.entry_ipv6;
  host_name = e.entry_host;
  last_seen = now;
  status = online;
}

unfoldable pub set_device : Discovery → Text → Device → Discovery
set_device d k dev = record d { devices = insert k dev d.devices }

unfoldable pub notify_if : Bool → Discovery → Event → Discovery
notify_if true d ev = emit d ev
notify_if false d ev = d

-- The rest of `handleEntry` for a known device and for a new one.
unfoldable pub announce : Discovery → ServiceEntry → TxtRecord → ℕ → Option Device → Discovery
announce d e r now none =
    let dev = new_device e r now in
    emit (set_device d r.pub_hash dev) (record { kind = event_online; device = dev })
announce d e r now (some dev) =
    let new = refreshed e r now dev in
    notify_if (is_changed e r dev) (set_device d r.pub_hash new)
      (record { kind = event_update; device = new })

unfoldable pub handle_record : Discovery → ServiceEntry → TxtRecord → ℕ → Discovery
handle_record d e r now =
    if r.pub_hash == d.own_hash then d else announce d e r now (lookup r.pub_hash d.devices)

unfoldable pub handle_entry : Discovery → Option ServiceEntry → ℕ → Discovery
handle_entry d none now = d
handle_entry d (some e) now = elim e.entry_txt [ err _ ↦ d | ok r ↦ handle_record d e r now ]

-- `dev.LastSeen.Before(cutoff)` fails.
unfoldable pub is_fresh : ℕ → Device → Bool
is_fresh now dev = not (ltb (dev.last_seen + offline_timeout) now)

unfoldable pub offline_all : List Event → List Device → List Event
offline_all evs [] = evs
offline_all evs (dev ∷ devs) =
    offline_all (offer evs (record { kind = event_offline; device = dev })) devs

-- The dropped devices in the order of the map's entries.
unfoldable pub reap : Discovery → ℕ → Discovery
reap d now = record d {
  devices = keep_by (is_fresh now) d.devices;
  events = offline_all d.events (filter_values (λ dev. not (is_fresh now dev)) d.devices);
}

-- A subscriber takes the next event.
unfoldable pub next_event : Discovery → List Event → Discovery × Option Event
next_event d [] = (d, none)
next_event d (ev ∷ evs) = (record d { events = evs }, some ev)

unfoldable pub receive_event : Discovery → Discovery × Option Event
receive_event d = next_event d d.events

unfoldable pub device_count : Discovery → ℕ
device_count d = length d.devices

unfoldable pub snapshot : Discovery → Text → Option Device
snapshot d k = lookup k d.devices

abbrev pub same_liveness : Liveness → Liveness → Bool
same_liveness online online = true
same_liveness gray gray = true
same_liveness _ _ = false

unfoldable pub with_status : Device → Liveness → Device
with_status dev s = record dev { status = s }

unfoldable pub change_status : Discovery → Text → Liveness → Option Device → Discovery
change_status d k s none = d
change_status d k s (some dev) =
    if same_liveness dev.status s
    then d
    else emit (set_device d k (with_status dev s))
        (record { kind = event_update; device = with_status dev s })

unfoldable pub set_status : Discovery → Text → Liveness → Discovery
set_status d k s = change_status d k s (lookup k d.devices)

-- The consecutive failures of a device, 0 for a missing key.
unfoldable pub failures_of : Discovery → Text → ℕ
failures_of d k = elim (lookup k d.failures) [ none ↦ 0 | some n ↦ n ]

unfoldable pub clear_failures : Discovery → Text → Discovery
clear_failures d k = record d { failures = delete k d.failures }

unfoldable pub count_failure : Discovery → Text → Discovery
count_failure d k = record d { failures = insert k (suc (failures_of d k)) d.failures }

unfoldable pub restore_gray : Discovery → Text → Option Device → Discovery
restore_gray d k none = d
restore_gray d k (some dev) = if is_gray dev.status then set_status d k online else d

unfoldable pub on_success : Discovery → Text → Discovery
on_success d k =
    let cleared = clear_failures d k in
    if failures_of d k == 0 then cleared else restore_gray cleared k (snapshot cleared k)

unfoldable pub on_failure : Discovery → Text → Discovery
on_failure d k =
    let counted = count_failure d k in
    if ltb (failures_of counted k) max_probe_failures then counted else set_status counted k gray

-- `probeOne`, for what `ping` returned.
unfoldable pub probe_one : Discovery → Text → Bool → Discovery
probe_one d k true = on_success d k
probe_one d k false = on_failure d k
