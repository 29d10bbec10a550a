-- ===== src/Discovery/Examples.antt =====
-- Announcements, sweeps and probes of core/discovery, and the theorems at them.
use lanos.Common.{
  ◌≤◌, ◌≡◌, refl, true, false, nat_eq, list_eq, some, Option, List, [], ◌∷◌, replicate, ok, arith,
}
use lanos.Common.Int.{ℤ, pos}
use lanos.Common.Map.{lookup, Distinct}
use lanos.Common.Text.{Text}
use lanos.Discovery.Txt.{
  TxtRecord, current_proto, only_v4, all_hex, is_lower_hex, is_ip_version, build_txt, parse_txt,
}
use lanos.Discovery.Txt.RoundTrip.{parse_txt-build_txt}
use lanos.Discovery.{Device, Discovery, ServiceEntry, online, handle_record, probe_one, failures_of}
use lanos.Discovery.Presence.{
  IsValid, announcement, sweep, probed, taken, run, new_discovery, run-IsValid,
}
use lanos.Discovery.Probing.{is_gray_at, three_failures_gray, announced_then_failed}

-- Hashes that differ in all digits.
abbrev own : Text
own = replicate 32 48

abbrev peer : Text
peer = replicate 32 49

abbrev peer_record : TxtRecord
peer_record = record {
  txt_version = 49 ∷ [];
  proto = current_proto;
  platform = [];
  port = pos 80;
  pub_hash = peer;
  device_name = 112 ∷ [];
  ip_version = only_v4;
}

abbrev entry : ServiceEntry
entry = record { entry_txt = ok peer_record; entry_ipv4 = []; entry_ipv6 = []; entry_host = [] }

abbrev peer_device : Device
peer_device = record {
  id = peer;
  name = 112 ∷ [];
  dev_platform = [];
  dev_port = pos 80;
  hash = peer;
  version = only_v4;
  ipv4 = [];
  ipv6 = [];
  host_name = [];
  first_seen = 5;
  last_seen = 5;
  status = online;
}

-- The peer is known, and has failed twice.
abbrev known : Discovery
known = record {
  own_hash = own;
  devices = (peer, peer_device) ∷ [];
  events = [];
  failures = (peer, 2) ∷ [];
}

finds_peer : lookup peer known.devices ≡ some peer_device
unfolding lookup
finds_peer = refl

failed_twice : 2 ≤ failures_of known peer
unfolding failures_of lookup
failed_twice = omega arith

run-IsValid_example : IsValid (
    run
      (new_discovery own)
      (announcement (some entry) 5 ∷ probed peer false ∷ taken ∷ sweep 9 ∷ []))
run-IsValid_example =
    run-IsValid own (announcement (some entry) 5 ∷ probed peer false ∷ taken ∷ sweep 9 ∷ [])

alone : Distinct known.devices
unfolding lookup
alone = (refl, tt)

three_failures_gray_example :
    is_gray_at peer (probe_one (probe_one (probe_one known peer false) peer false) peer false)
    ≡ true
three_failures_gray_example = three_failures_gray known peer peer_device finds_peer

announced_then_failed_example :
    (dev : Device) × (lookup peer (handle_record known entry peer_record 9).devices ≡ some dev)
    × (dev.status ≡ online)
    × (is_gray_at peer (probe_one (handle_record known entry peer_record 9) peer false) ≡ true)
announced_then_failed_example = announced_then_failed known entry peer_record 9 refl failed_twice

-- `Atoi` of the port 80, and an escaping that changes nothing.
abbrev atoi : Text → Option ℤ
atoi t = some (pos 80)

abbrev unescape : Text → Option Text
unescape t = some t

abbrev escape : Text → Text
escape t = t

v4_known : is_ip_version only_v4 ≡ true
unfolding is_ip_version
v4_known = refl

hash_is_hex : all_hex peer ≡ true
unfolding all_hex is_lower_hex
hash_is_hex = refl

parse_txt-build_txt_example :
    (lines : List Text) × (build_txt [] escape (pos 80) (112 ∷ []) peer only_v4 ≡ ok lines)
    × (parse_txt atoi unescape lines ≡ ok peer_record)
parse_txt-build_txt_example =
    parse_txt-build_txt atoi unescape [] escape 80 (112 ∷ []) peer only_v4 v4_known (omega arith)
      (omega arith) refl hash_is_hex refl refl
