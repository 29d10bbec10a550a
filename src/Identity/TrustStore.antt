-- ===== src/Identity/TrustStore.antt =====
-- core/identity/trusted_devices.go: the store of trusted devices. The file is what it holds; which
-- step of a save fails, if one does, is an argument.
pub mod Verify
mod Examples
use lanos.Common.{
  ℕ, Bool, true, false, not, ◌&&◌, ◌||◌, Option, none, some, List, [], ◌∷◌, if◌then◌else◌, nat_eq,
  list_eq, ◌==◌, length, Result, ok, err, ◌>>=◌,
}
use lanos.Common.Map.{Map, insert, delete, lookup}
use lanos.Common.Text.{Text}
use lanos.Identity.Hex.{encode, decode}

pub record TrustedDevice : Type 0 where
  pub pub_key : Text
  pub static_key : Text
  pub name : Text
  pub trusted_at : ℕ
  pub auto_receive : Bool

pub data PeerVerification : Type 0 where
  peer_unknown peer_trusted peer_key_mismatch : PeerVerification

-- The steps of `save`.
pub data SaveStep : Type 0 where
  marshal create_temp write_temp close_temp chmod_temp rename_temp : SaveStep

pub data TrustError : Type 0 where
  read_failed : TrustError
  store_corrupt : TrustError
  save_failed : SaveStep → TrustError
  bad_key_length : TrustError

-- The file: it may be missing, unreadable, or not parse.
pub data StoreFile : Type 0 where
  missing unreadable corrupt : StoreFile
  holds : Map Text TrustedDevice → StoreFile

unfoldable pub load : StoreFile → Result TrustError (Map Text TrustedDevice)
load missing = ok []
load unreadable = err read_failed
load corrupt = err store_corrupt
load (holds m) = ok m

-- The file is replaced by the rename, the last step; the result is the error, if there is one.
unfoldable pub save :
    Option SaveStep → StoreFile → Map Text TrustedDevice → StoreFile × Option TrustError
save (some s) file m = (file, some (save_failed s))
save none file m = (holds m, none)

unfoldable pub lookup_device : StoreFile → Text → Result TrustError (Option TrustedDevice)
lookup_device file id = load file >>= (λ m. ok (lookup id m))

unfoldable pub new_device : List ℕ → List ℕ → Text → Bool → ℕ → TrustedDevice
new_device key ed name auto now = record {
  pub_key = if length ed == 0 then [] else encode ed;
  static_key = encode key;
  name = name;
  trusted_at = now;
  auto_receive = auto;
}

unfoldable pub trust_loaded :
    Option SaveStep
    → StoreFile
    → Text
    → TrustedDevice
    → Result TrustError (Map Text TrustedDevice)
    → StoreFile × Option TrustError
trust_loaded fault file id td (err e) = (file, some e)
trust_loaded fault file id td (ok m) = save fault file (insert id td m)

unfoldable pub trust :
    Option SaveStep
    → StoreFile
    → Text
    → List ℕ
    → List ℕ
    → Text
    → Bool
    → ℕ
    → StoreFile × Option TrustError
trust fault file id key ed name auto now =
    if not (length key == 32)
    then (file, some bad_key_length)
    else trust_loaded fault file id (new_device key ed name auto now) (load file)

unfoldable pub remove_found :
    Option SaveStep
    → StoreFile
    → Text
    → Map Text TrustedDevice
    → Option TrustedDevice
    → StoreFile × Option TrustError
remove_found fault file id m none = (file, none)
remove_found fault file id m (some _) = save fault file (delete id m)

unfoldable pub remove_loaded :
    Option SaveStep
    → StoreFile
    → Text
    → Result TrustError (Map Text TrustedDevice)
    → StoreFile × Option TrustError
remove_loaded fault file id (err e) = (file, some e)
remove_loaded fault file id (ok m) = remove_found fault file id m (lookup id m)

unfoldable pub remove : Option SaveStep → StoreFile → Text → StoreFile × Option TrustError
remove fault file id = remove_loaded fault file id (load file)

-- The comparison of the keys, for what `hex.DecodeString` gives.
unfoldable pub verify_key : Option (List ℕ) → List ℕ → PeerVerification
verify_key none peer = peer_key_mismatch
verify_key (some stored) peer =
    if not (length stored == 32) || not (length peer == 32)
    then peer_key_mismatch
    else if stored == peer
    then peer_trusted
    else peer_key_mismatch

unfoldable pub verify_found :
    Option TrustedDevice → List ℕ → PeerVerification × Option TrustedDevice
verify_found none peer = (peer_unknown, none)
verify_found (some td) peer = (verify_key (decode td.static_key) peer, some td)

unfoldable pub verify_peer :
    StoreFile → Text → List ℕ → Result TrustError (PeerVerification × Option TrustedDevice)
verify_peer file id peer = lookup_device file id >>= (λ td. ok (verify_found td peer))
