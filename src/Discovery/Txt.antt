-- ===== src/Discovery/Txt.antt =====
-- core/discovery/txt.go: what a peer announces in its TXT records. A text is the list of its code
-- points; `strconv.Atoi` and `url.QueryUnescape` are parameters.
pub mod RoundTrip
use lanos.Common.{
  ℕ, ◌+◌, Bool, true, false, not, ◌&&◌, ◌||◌, Option, none, some, List, [], ◌∷◌, ◌++◌,
  if◌then◌else◌, nat_eq, list_eq, ◌==◌, ltb, leb, length, Result, ok, err,
}
use lanos.Common.Int.{ℤ, pos, is_nonpos, pos_part}
use lanos.Common.Text.{Text, has_prefix, cut, decimal}

pub record TxtRecord : Type 0 where
  pub txt_version : Text
  pub proto : Text
  pub platform : Text
  pub port : ℤ
  pub pub_hash : Text
  pub device_name : Text
  pub ip_version : Text

pub data TxtError : Type 0 where
  invalid_number : TxtError
  invalid_name : TxtError
  missing_field : Text → TxtError
  unsupported_version : TxtError
  unsupported_proto : TxtError
  invalid_ip_version : TxtError
  invalid_hash_length : TxtError
  invalid_hash : TxtError
  invalid_port : TxtError

-- The keys, in the order of `parse_txt`'s loop over the required ones; `device-name` is not required.
abbrev pub txt_ver_key : Text
txt_ver_key = 116 ∷ 120 ∷ 116 ∷ 45 ∷ 118 ∷ 101 ∷ 114 ∷ []

abbrev pub proto_key : Text
proto_key = 112 ∷ 114 ∷ 111 ∷ 116 ∷ 111 ∷ []

abbrev pub platform_key : Text
platform_key = 112 ∷ 108 ∷ 97 ∷ 116 ∷ 102 ∷ 111 ∷ 114 ∷ 109 ∷ []

abbrev pub port_key : Text
port_key = 112 ∷ 111 ∷ 114 ∷ 116 ∷ []

abbrev pub pk_hash_key : Text
pk_hash_key = 112 ∷ 107 ∷ 45 ∷ 104 ∷ 97 ∷ 115 ∷ 104 ∷ []

abbrev pub ip_ver_key : Text
ip_ver_key = 105 ∷ 112 ∷ 45 ∷ 118 ∷ 101 ∷ 114 ∷ []

abbrev pub device_name_key : Text
device_name_key = 100 ∷ 101 ∷ 118 ∷ 105 ∷ 99 ∷ 101 ∷ 45 ∷ 110 ∷ 97 ∷ 109 ∷ 101 ∷ []

abbrev pub current_version : Text
current_version = 49 ∷ []

abbrev pub proto_prefix : Text
proto_prefix = 108 ∷ 97 ∷ 110 ∷ 111 ∷ 115 ∷ 47 ∷ []

abbrev pub only_v4 : Text
only_v4 = 52 ∷ []

abbrev pub only_v6 : Text
only_v6 = 54 ∷ []

abbrev pub dual : Text
dual = 52 ∷ 54 ∷ []

abbrev pub required_keys : List Text
required_keys = txt_ver_key ∷ proto_key ∷ platform_key ∷ port_key ∷ pk_hash_key ∷ ip_ver_key ∷ []

abbrev pub empty_record : TxtRecord
empty_record = record {
  txt_version = [];
  proto = [];
  platform = [];
  port = pos 0;
  pub_hash = [];
  device_name = [];
  ip_version = [];
}

unfoldable pub contains : Text → List Text → Bool
contains k [] = false
contains k (j ∷ ks) = j == k || contains k ks

-- The first key that is missing.
unfoldable pub first_missing : List Text → List Text → Option Text
first_missing seen [] = none
first_missing seen (k ∷ ks) = if contains k seen then first_missing seen ks else some k

unfoldable pub is_lower_hex : ℕ → Bool
is_lower_hex c = (leb 48 c && leb c 57) || (leb 97 c && leb c 102)

unfoldable pub all_hex : Text → Bool
all_hex [] = true
all_hex (c ∷ s) = is_lower_hex c && all_hex s

unfoldable pub is_ip_version : Text → Bool
is_ip_version v = v == only_v4 || v == only_v6 || v == dual

-- What `ParseTXT` does behind its loop.
unfoldable pub check_record : List Text → TxtRecord → Result TxtError TxtRecord
check_record seen r = elim (first_missing seen required_keys) [
  | some k ↦ err (missing_field k)
  | none ↦
      if not (r.txt_version == current_version)
      then err unsupported_version
      else if not (has_prefix r.proto proto_prefix)
      then err unsupported_proto
      else if not (is_ip_version r.ip_version)
      then err invalid_ip_version
      else if not (length r.pub_hash == 32)
      then err invalid_hash_length
      else if not (all_hex r.pub_hash)
      then err invalid_hash
      else if is_nonpos r.port || ltb 65535 (pos_part r.port)
      then err invalid_port
      else ok r
]

-- The key and the value of a line; without a "=", or with one in front, it is skipped.
unfoldable pub key_and_value : Text → Option (Text × Text)
key_and_value line = elim (cut 61 line) [
  | none ↦ none
  | some (key, val) ↦ if key == [] then none else some (key, val)
]

module _ (atoi : Text → Option ℤ) (query_unescape : Text → Option Text) where
  -- The switch of the loop.
  unfoldable pub set_field : TxtRecord → Text → Text → Result TxtError TxtRecord
  set_field r key val =
      if key == txt_ver_key
      then ok (record r { txt_version = val })
      else if key == proto_key
      then ok (record r { proto = val })
      else if key == platform_key
      then ok (record r { platform = val })
      else if key == port_key
      then elim (atoi val) [ none ↦ err invalid_number | some p ↦ ok (record r { port = p }) ]
      else if key == pk_hash_key
      then ok (record r { pub_hash = val })
      else if key == device_name_key
      then elim (query_unescape val) [
        | none ↦ err invalid_name
        | some name ↦ ok (record r { device_name = name })
      ]
      else if key == ip_ver_key
      then ok (record r { ip_version = val })
      else ok r

  unfoldable pub parse_lines : List Text → TxtRecord → List Text → Result TxtError TxtRecord
  parse_lines seen r [] = check_record seen r
  parse_lines seen r (line ∷ lines) = elim (key_and_value line) [
    | none ↦ parse_lines seen r lines
    | some (key, val) ↦ elim (set_field r key val) [
      | err x ↦ err x
      | ok s ↦ parse_lines (key ∷ seen) s lines
    ]
  ]

  unfoldable pub parse_txt : List Text → Result TxtError TxtRecord
  parse_txt text = parse_lines [] empty_record text

pub data BuildError : Type 0 where
  bad_ip_version bad_port empty_hash : BuildError

-- "lanos/1.0".
abbrev pub current_proto : Text
current_proto = proto_prefix ++ (49 ∷ 46 ∷ 48 ∷ [])

-- `goos` is `runtime.GOOS`, and 61 is "=".
module _ (goos : Text) (query_escape : Text → Text) where
  unfoldable pub txt_lines : ℕ → Text → Text → Text → List Text
  txt_lines p name hash version =
      (txt_ver_key ++ 61 ∷ current_version)
      ∷ (proto_key ++ 61 ∷ current_proto)
      ∷ (platform_key ++ 61 ∷ goos)
      ∷ (port_key ++ 61 ∷ decimal 5 p)
      ∷ (pk_hash_key ++ 61 ∷ hash)
      ∷ (device_name_key ++ 61 ∷ query_escape name)
      ∷ (ip_ver_key ++ 61 ∷ version)
      ∷ []

  -- `BuildTXT` for a configuration and an identity.
  unfoldable pub build_txt : ℤ → Text → Text → Text → Result BuildError (List Text)
  build_txt p name hash version =
      if not (is_ip_version version)
      then err bad_ip_version
      else if is_nonpos p || ltb 65535 (pos_part p)
      then err bad_port
      else if hash == []
      then err empty_hash
      else ok (txt_lines (pos_part p) name hash version)
