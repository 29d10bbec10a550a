-- ===== src/Receive.antt =====
-- core/receive/manager.go: the incoming transfers, behind one lock.
-- The new id (`uuid.NewString`) and the time (`time.Now`, in nanoseconds) are arguments of the
-- calls. `ExpireExpired` visits the entries in the order of the list.
mod Examples
pub mod Expiry
pub mod Consent
pub mod Limit
use lanos.Common.{
  ℕ, ◌+◌, Bool, true, false, not, ◌&&◌, ◌||◌, String, Option, none, some, List, [], ◌∷◌, ◌++◌, ltb,
  if◌then◌else◌, string_eq, nat_eq, ◌==◌, length, Result, ok, err, Eq, ◌↔◌, ◌≡◌, arith, nat_beq,
}
use lanos.Common.Int.{ℤ, pos, negsuc}
use lanos.Common.Map.{Map, lookup, insert, delete, count_by, map_values}

pub data Status : Type 0 where
  pending prompting accepting receiving completed failed rejected cancelled expired : Status

abbrev pub code : Status → ℕ
code pending = 0
code prompting = 1
code accepting = 2
code receiving = 3
code completed = 4
code failed = 5
code rejected = 6
code cancelled = 7
code expired = 8

-- The string constants are different, so `==` on them is equality of statuses.
abbrev pub is_status : Status → Status → Bool
is_status s t = nat_beq (code s) (code t)

pub record Incoming : Type 0 where
  pub id : String
  pub peer_id : String
  pub peer_name : String
  pub file_name : String
  pub file_size : ℤ
  pub save_path : String
  pub received_bytes : ℤ
  pub status : Status
  pub error : String
  pub created_at : ℕ
  pub expires_at : ℕ
  pub updated_at : ℕ

pub data ReceiveError : Type 0 where
  not_found limit_reached cannot_accept cannot_reject cannot_cancel : ReceiveError
  invalid_transition : Status → Status → ReceiveError

abbrev pub default_max_concurrent : ℕ
default_max_concurrent = 3

-- 30 seconds.
abbrev pub default_prompt_expiry : ℕ
default_prompt_expiry = 30000000000

-- The capacity of the notify channel.
abbrev pub notify_buf : ℕ
notify_buf = 64

pub record Manager : Type 0 where
  pub incomings : Map String Incoming
  pub max_active : ℕ
  pub notify : List String

abbrev pub positive_or : ℤ → ℕ → ℕ
positive_or (pos n) d = if n == 0 then d else n
positive_or (negsuc n) d = d

unfoldable pub new_manager : ℤ → Manager
new_manager max_active = record {
  incomings = [];
  max_active = positive_or max_active default_max_concurrent;
  notify = [];
}

unfoldable pub new_incoming : String → ℕ → String → String → String → ℤ → ℕ → Incoming
new_incoming id now peer_id peer_name file_name file_size expiry = record {
  id = id;
  peer_id = peer_id;
  peer_name = peer_name;
  file_name = file_name;
  file_size = file_size;
  save_path = "";
  received_bytes = pos 0;
  status = pending;
  error = "";
  created_at = now;
  expires_at = now + expiry;
  updated_at = now;
}

-- The test of `Register`, which leaves pending transfers out.
abbrev pub is_running : Incoming → Bool
is_running t = elim t.status [ prompting ↦ true | accepting ↦ true | receiving ↦ true | _ ↦ false ]

-- The test of `ActiveCount`.
abbrev pub is_active : Incoming → Bool
is_active t = is_running t || is_status t.status pending

unfoldable pub active_count : Manager → ℕ
active_count m = count_by is_active m.incomings

unfoldable pub register :
    Manager → String → ℕ → String → String → String → ℤ → ℤ → Manager × Result ReceiveError Incoming
register m id now peer_id peer_name file_name file_size expiry =
    let t =
      new_incoming id now peer_id peer_name file_name file_size
        (positive_or expiry default_prompt_expiry) in
    if ltb (count_by is_running m.incomings) m.max_active
    then (record m { incomings = insert id t m.incomings }, ok t)
    else (m, err limit_reached)

unfoldable pub values : Map String Incoming → List Incoming
values [] = []
values ((id, t) ∷ rest) = t ∷ values rest

-- `List`, in the order of the map's entries.
unfoldable pub list : Manager → List Incoming
list m = values m.incomings

unfoldable pub get : Manager → String → Result ReceiveError Incoming
get m id = elim (lookup id m.incomings) [ none ↦ err not_found | some t ↦ ok t ]

-- A send on the notify channel, which is dropped where the channel is full.
abbrev pub notified : List String → String → List String
notified ids id = if ltb (length ids) notify_buf then ids ++ id ∷ [] else ids

abbrev pub changed : Manager → String → Incoming → Manager × Result ReceiveError Incoming
changed m id t =
    (record m { incomings = insert id t m.incomings; notify = notified m.notify id }, ok t)

-- The guards of the handlers.
unfoldable pub can_accept : Status → Bool
can_accept s = elim s [ pending ↦ true | prompting ↦ true | _ ↦ false ]

unfoldable pub can_reject : Status → Bool
can_reject s = elim s [ completed ↦ false | receiving ↦ false | _ ↦ true ]

unfoldable pub can_cancel : Status → Bool
can_cancel s = elim s [ completed ↦ false | _ ↦ true ]

unfoldable pub accept : Manager → String → String → ℕ → Manager × Result ReceiveError Incoming
accept m id save_path now = elim (lookup id m.incomings) [
  | none ↦ (m, err not_found)
  | some t ↦
      if can_accept t.status
      then changed m id (record t { status = accepting; save_path = save_path; updated_at = now })
      else (m, err cannot_accept)
]

unfoldable pub reject : Manager → String → ℕ → Manager × Result ReceiveError Incoming
reject m id now = elim (lookup id m.incomings) [
  | none ↦ (m, err not_found)
  | some t ↦
      if can_reject t.status
      then changed m id (record t { status = rejected; updated_at = now })
      else (m, err cannot_reject)
]

unfoldable pub is_valid_transition : Status → Status → Bool
is_valid_transition pending to =
    is_status to prompting
    || is_status to accepting
    || is_status to cancelled
    || is_status to expired
is_valid_transition prompting to =
    is_status to accepting
    || is_status to rejected
    || is_status to cancelled
    || is_status to expired
is_valid_transition accepting to =
    is_status to receiving || is_status to failed || is_status to cancelled
is_valid_transition receiving to =
    is_status to completed || is_status to failed || is_status to cancelled
is_valid_transition completed to = false
is_valid_transition failed to = false
is_valid_transition rejected to = false
is_valid_transition cancelled to = false
is_valid_transition expired to = false

unfoldable pub update_status :
    Manager → String → Status → String → ℕ → Manager × Result ReceiveError Incoming
update_status m id status msg now = elim (lookup id m.incomings) [
  | none ↦ (m, err not_found)
  | some t ↦
      if is_status status t.status || is_valid_transition t.status status
      then changed m id (record t {
        status = status;
        updated_at = now;
        error = if msg == "" then t.error else msg;
      })
      else (m, err (invalid_transition t.status status))
]

unfoldable pub update_progress : Manager → String → ℤ → ℕ → Manager × Result ReceiveError Incoming
update_progress m id received_bytes now = elim (lookup id m.incomings) [
  | none ↦ (m, err not_found)
  | some t ↦
      let t' : Incoming = record t { received_bytes = received_bytes; updated_at = now } in
      (record m { incomings = insert id t' m.incomings }, ok t')
]

unfoldable pub remove : Manager → String → Manager × Bool
remove m id = elim (lookup id m.incomings) [
  | none ↦ (m, false)
  | some t ↦ (record m { incomings = delete id m.incomings }, true)
]

unfoldable pub cancel : Manager → String → ℕ → Manager × Result ReceiveError Incoming
cancel m id now = elim (lookup id m.incomings) [
  | none ↦ (m, err not_found)
  | some t ↦
      if can_cancel t.status
      then changed m id (record t { status = cancelled; updated_at = now })
      else (m, err cannot_cancel)
]

-- `now.After(inc.ExpiresAt)` for a transfer that waits for an answer.
unfoldable pub is_due : ℕ → Incoming → Bool
is_due now t = can_accept t.status && ltb t.expires_at now

unfoldable pub expire : ℕ → Incoming → Incoming
expire now t = if is_due now t then record t { status = expired; updated_at = now } else t

unfoldable pub due_ids : ℕ → Map String Incoming → List String
due_ids now [] = []
due_ids now ((id, t) ∷ rest) =
    let others = due_ids now rest in if is_due now t then id ∷ others else others

unfoldable pub expire_expired : Manager → ℕ → Manager × List String
expire_expired m now =
    (record m { incomings = map_values (expire now) m.incomings }, due_ids now m.incomings)
