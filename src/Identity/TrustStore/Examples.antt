-- ===== src/Identity/TrustStore/Examples.antt =====
-- Devices that are trusted and removed, and the theorems at them.
use lanos.Common.{
  ℕ, zero, suc, ◌<◌, ◌≡◌, refl, false, nat_eq, list_eq, none, some, List, [], ◌∷◌, All, replicate,
  length, ok, arith,
}
use lanos.Common.Map.{Map, lookup}
use lanos.Common.Text.{Text}
use lanos.Identity.Hex.{encode, decode, digit, digit_value}
use lanos.Identity.TrustStore.{
  TrustedDevice, peer_unknown, peer_trusted, missing, holds, load, lookup_device, trust, remove,
  verify_peer, verify_found, verify_key,
}
use lanos.Identity.TrustStore.Verify.{verdict, verify_peer_sound, trust_verify, remove_verify}

abbrev key : List ℕ
key = replicate 32 7

-- The record of the device "d".
abbrev device : TrustedDevice
device = record {
  pub_key = [];
  static_key = encode key;
  name = [];
  trusted_at = 5;
  auto_receive = false;
}

abbrev devices : Map Text TrustedDevice
devices = (100 ∷ [], device) ∷ []

trusts_device : verdict (holds devices) (100 ∷ []) key ≡ some peer_trusted
unfolding verify_peer lookup_device load lookup verify_found verify_key decode encode digit
    digit_value
trusts_device = refl

verify_peer_sound_example :
    (m : Map Text TrustedDevice) × (r : TrustedDevice) × (holds devices ≡ holds m)
    × (lookup (100 ∷ []) m ≡ some r)
    × (decode r.static_key ≡ some key)
    × (length key ≡ 32)
verify_peer_sound_example = verify_peer_sound (holds devices) (100 ∷ []) key trusts_device

loads_none : load missing ≡ ok []
unfolding load
loads_none = refl

loads_devices : load (holds devices) ≡ ok devices
unfolding load
loads_devices = refl

-- Every item of a constant list below the bound.
All-same : (n b : ℕ) → b < 256 → All (λ c. c < 256) (replicate n b)
All-same zero b h = tt
All-same (suc n) b h = (h, All-same n b h)

trust_verify_example :
    verdict (trust none missing (100 ∷ []) key [] [] false 5).0 (100 ∷ []) key ≡ some peer_trusted
trust_verify_example =
    trust_verify [] missing (100 ∷ []) key [] [] false 5 loads_none refl
      (All-same 32 7 (omega arith)) (100 ∷ []) key

remove_verify_example :
    verdict (remove none (holds devices) (100 ∷ [])).0 (100 ∷ []) key ≡ some peer_unknown
remove_verify_example =
    remove_verify devices (holds devices) (100 ∷ []) loads_devices (100 ∷ []) key
