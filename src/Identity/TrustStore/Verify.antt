-- ===== src/Identity/TrustStore/Verify.antt =====
-- core/identity/trusted_devices.go: who is trusted after which calls.
use lanos.Common.{
  ℕ, ◌<◌, ◌≡◌, ◌⊎◌, refl, sym, ap, ◌∙◌, Bool, true, false, not, Option, none, some, List, arith,
  if◌then◌else◌, nat_eq, list_eq, ◌==◌, length, All, Bool-cases, Option-cases, inl, inr, Result, ok,
  err, ◌>>=◌,
}
use mathlib.Core.Option.{some-injective}
use lanos.Common.Map.{Map, insert, delete, lookup, lookup-insert, lookup-delete}
use lanos.Common.Text.{Text}
use lanos.Identity.Hex.{decode, decode-encode}
use lanos.Identity.TrustStore.{
  TrustedDevice, PeerVerification, peer_unknown, peer_trusted, peer_key_mismatch, TrustError,
  bad_key_length, SaveStep, StoreFile, missing, unreadable, corrupt, holds, load, save,
  lookup_device, new_device, trust_loaded, trust, remove_found, remove_loaded, remove, verify_key,
  verify_found, verify_peer,
}

-- What `VerifyPeer` says of a peer; an error is no answer.
abbrev pub verdict : StoreFile → Text → List ℕ → Option PeerVerification
verdict file id peer = elim (verify_peer file id peer) [ err _ ↦ none | ok (v, _) ↦ some v ]

verdict-holds :
    (m : Map Text TrustedDevice) (id : Text) (peer : List ℕ)
    → verdict (holds m) id peer ≡ some (verify_found (lookup id m) peer).0
unfolding verify_peer lookup_device load
verdict-holds m id peer = refl

same_bytes : (a b : List ℕ) → a == b ≡ true → a ≡ b
same_bytes a b = (list_eq.beq_iff a b).0

length_same : (a b : List ℕ) → a == b ≡ true → length a ≡ length b
length_same a b h = ap length (same_bytes a b h)

verify_key_equal :
    (stored peer : List ℕ)
    → verify_key (some stored) peer ≡ peer_trusted
    → (stored == peer ≡ true) × (length peer ≡ 32)
unfolding verify_key
verify_key_equal stored peer h = ground (arith, h)

verify_key_trusted :
    (o : Option (List ℕ)) (peer : List ℕ)
    → verify_key o peer ≡ peer_trusted
    → (o ≡ some peer) × (length peer ≡ 32)
unfolding verify_key
verify_key_trusted none peer h = absurd (cc h)
verify_key_trusted (some stored) peer h =
    let (same, size) = verify_key_equal stored peer h in
    (ap some (same_bytes stored peer same), size)

verify_key_same :
    (key peer : List ℕ)
    → length key ≡ 32
    → verify_key (some key) peer ≡ (if key == peer then peer_trusted else peer_key_mismatch)
unfolding verify_key
verify_key_same key peer h = ground (arith, h, length_same key peer)

found_trusted :
    (o : Option TrustedDevice) (peer : List ℕ)
    → (verify_found o peer).0 ≡ peer_trusted
    → (r : TrustedDevice) × (o ≡ some r) × (decode r.static_key ≡ some peer) × (length peer ≡ 32)
unfolding verify_found
found_trusted none peer h = absurd (cc h)
found_trusted (some r) peer h =
    let (k, size) = verify_key_trusted (decode r.static_key) peer h in (r, refl, k, size)

-- A peer that is found trusted has a record under its id in a file that parses, and the record's key
-- is the peer's key, of 32 bytes.
pub verify_peer_sound :
    (file : StoreFile) (id : Text) (peer : List ℕ)
    → verdict file id peer ≡ some peer_trusted
    → (m : Map Text TrustedDevice) × (r : TrustedDevice) × (file ≡ holds m)
      × (lookup id m ≡ some r)
      × (decode r.static_key ≡ some peer)
      × (length peer ≡ 32)
unfolding verify_peer lookup_device load lookup verify_found
verify_peer_sound missing id peer h = absurd (cc h)
verify_peer_sound unreadable id peer h = absurd (cc h)
verify_peer_sound corrupt id peer h = absurd (cc h)
verify_peer_sound (holds m) id peer h =
    let (r, found, k, size) =
      found_trusted (lookup id m) peer (some-injective _ _ (sym (verdict-holds m id peer) ∙ h)) in
    (m, r, refl, found, k, size)

-- What a file holds, for a missing one nothing.
abbrev pub devices_in : StoreFile → Option (Map Text TrustedDevice)
devices_in file = elim (load file) [ err _ ↦ none | ok m ↦ some m ]

trust_holds :
    (m : Map Text TrustedDevice) (file : StoreFile) (id : Text) (key ed : List ℕ) (name : Text)
    (auto : Bool) (now : ℕ)
    → load file ≡ ok m
    → length key ≡ 32
    → trust none file id key ed name auto now
      ≡ (holds (insert id (new_device key ed name auto now) m), none)
unfolding trust trust_loaded save
trust_holds m file id key ed name auto now e h =
    rw (trust, h) (ap (trust_loaded none file id (new_device key ed name auto now)) e ∙ saved)
  where
    saved :
        trust_loaded none file id (new_device key ed name auto now) (ok m)
        ≡ (holds (insert id (new_device key ed name auto now) m), none)
    saved = refl

found_new :
    (key ed : List ℕ) (name : Text) (auto : Bool) (now : ℕ) (peer : List ℕ)
    → length key ≡ 32
    → All (λ b. b < 256) key
    → (verify_found (some (new_device key ed name auto now)) peer).0
      ≡ (if key == peer then peer_trusted else peer_key_mismatch)
unfolding verify_found new_device
found_new key ed name auto now peer h hb =
    ap (λ o. verify_key o peer) (decode-encode key hb) ∙ verify_key_same key peer h

-- Where the store loads and the save succeeds, a device that is trusted with a key of 32 bytes is
-- found trusted with exactly that key, and as a key mismatch with any other; every other device is
-- found as before.
pub trust_verify :
    (m : Map Text TrustedDevice) (file : StoreFile) (id : Text) (key ed : List ℕ) (name : Text)
    (auto : Bool) (now : ℕ)
    → load file ≡ ok m
    → length key ≡ 32
    → All (λ b. b < 256) key
    → (j : Text) (peer : List ℕ)
    → verdict (trust none file id key ed name auto now).0 j peer ≡ (
        if id == j
        then some (if key == peer then peer_trusted else peer_key_mismatch)
        else verdict (holds m) j peer)
unfolding trust verify_peer lookup_device load
trust_verify m file id key ed name auto now e h hb j peer =
    ap (λ r. verdict r.0 j peer) (trust_holds m file id key ed name auto now e h)
    ∙ verdict-holds (insert id (new_device key ed name auto now) m) j peer
    ∙ ap (λ o. some (verify_found o peer).0)
        (lookup-insert id j (new_device key ed name auto now) m)
    ∙ by_id (id == j)
  where
    by_id :
        (b : Bool)
        → some
            (verify_found (if b then some (new_device key ed name auto now) else lookup j m) peer).0
          ≡ (if b
              then some (if key == peer then peer_trusted else peer_key_mismatch)
              else verdict (holds m) j peer)
    by_id true = ap some (found_new key ed name auto now peer h hb)
    by_id false = refl

verdict-load :
    (m : Map Text TrustedDevice) (file : StoreFile) (id : Text) (peer : List ℕ)
    → load file ≡ ok m
    → verdict file id peer ≡ verdict (holds m) id peer
unfolding verify_peer lookup_device load
verdict-load m file id peer e =
    ap
      (λ l. elim (l >>= (λ n. ok (lookup id n)) >>= (λ td. ok (verify_found td peer))) [
        | err _ ↦ none
        | ok (v, _) ↦ some v
      ])
      e

remove_cases :
    (m : Map Text TrustedDevice) (file : StoreFile) (id : Text)
    → load file ≡ ok m
    → ((lookup id m ≡ none) × ((remove none file id).0 ≡ file))
      ⊎ ((remove none file id).0 ≡ holds (delete id m))
unfolding remove remove_loaded remove_found save
remove_cases m file id e = elim (Option-cases (lookup id m)) [
  | inl n ↦ inl (
    n,
    ap (λ l. (remove_loaded none file id l).0) e ∙ ap (λ o. (remove_found none file id m o).0) n,
  )
  | inr (td, n) ↦
      inr (
        ap (λ l. (remove_loaded none file id l).0) e
        ∙ ap (λ o. (remove_found none file id m o).0) n)
]

absent :
    (m : Map Text TrustedDevice) (id j : Text) (peer : List ℕ)
    → lookup id m ≡ none
    → verdict (holds m) j peer ≡ (if id == j then some peer_unknown else verdict (holds m) j peer)
unfolding verify_found
absent m id j peer n = elim (Bool-cases (id == j)) [
  | inr other ↦ rw (other) refl
  | inl same ↦ rw (same) (
      verdict-holds m j peer
      ∙ ap (λ k. some (verify_found (lookup k m) peer).0) (sym ((list_eq.beq_iff id j).0 same))
      ∙ ap (λ o. some (verify_found o peer).0) n)
]

-- Where the store loads and the save succeeds, a device that is removed is unknown, and every other
-- device is found as before.
pub remove_verify :
    (m : Map Text TrustedDevice) (file : StoreFile) (id : Text)
    → load file ≡ ok m
    → (j : Text) (peer : List ℕ)
    → verdict (remove none file id).0 j peer
      ≡ (if id == j then some peer_unknown else verdict (holds m) j peer)
unfolding verify_found
remove_verify m file id e j peer = elim (remove_cases m file id e) [
  | inl (n, same) ↦
      ap (λ f. verdict f j peer) same ∙ verdict-load m file j peer e ∙ absent m id j peer n
  | inr gone ↦
      ap (λ f. verdict f j peer) gone
      ∙ verdict-holds (delete id m) j peer
      ∙ ap (λ o. some (verify_found o peer).0) (lookup-delete id j m)
      ∙ by_id (id == j)
]
  where
    by_id :
        (b : Bool)
        → some (verify_found (if b then none else lookup j m) peer).0
          ≡ (if b then some peer_unknown else verdict (holds m) j peer)
    by_id true = refl
    by_id false = sym (verdict-holds m j peer)

saved_with :
    (s : SaveStep) (file : StoreFile) (id : Text) (td : TrustedDevice)
    (l : Result TrustError (Map Text TrustedDevice))
    → (trust_loaded (some s) file id td l).0 ≡ file
unfolding trust_loaded save
saved_with s file id td (err e) = refl
saved_with s file id td (ok m) = refl

removed_with :
    (s : SaveStep) (file : StoreFile) (id : Text) (l : Result TrustError (Map Text TrustedDevice))
    → (remove_loaded (some s) file id l).0 ≡ file
unfolding remove_loaded remove_found save
removed_with s file id (err e) = refl
removed_with s file id (ok m) = by_found (lookup id m)
  where
    by_found : (o : Option TrustedDevice) → (remove_found (some s) file id m o).0 ≡ file
    by_found none = refl
    by_found (some td) = refl

-- A save that fails leaves the file, whatever is trusted or removed.
pub failed_save_keeps :
    (s : SaveStep) (file : StoreFile) (id : Text) (key ed : List ℕ) (name : Text) (auto : Bool)
    (now : ℕ)
    → ((trust (some s) file id key ed name auto now).0 ≡ file)
      × ((remove (some s) file id).0 ≡ file)
unfolding trust remove
failed_save_keeps s file id key ed name auto now = (
  by_size (length key == 32) _ (saved_with s file id (new_device key ed name auto now) (load file)),
  removed_with s file id (load file),
)
  where
    by_size :
        (b : Bool) (out : StoreFile × Option TrustError)
        → out.0 ≡ file
        → (if not b then (file, some bad_key_length) else out).0 ≡ file
    by_size true out h = h
    by_size false out h = refl
