-- ===== src/Transfer/Manager.antt =====
-- core/transfer/manager.go: the outgoing transfers, behind one lock.
-- The new id (`uuid.NewString`) and the time (`time.Now`) are arguments of the calls.
mod Examples
pub mod Budget
pub mod History
pub mod Lifetime
use lanos.Common.{
  ℕ, suc, ◌+◌, ◌≡◌, Bool, true, false, not, String, Option, none, some, List, [], ◌∷◌, ltb,
  if◌then◌else◌, string_eq, nat_eq, ◌==◌, Result, ok, err,
}
use lanos.Common.Int.{ℤ, pos, negsuc}
use lanos.Common.Map.{Map, lookup, insert, delete, count_by}
use lanos.Transfer.Status.{
  Status, pending, connecting, transferring, completed, failed, cancelled, awaiting_resume,
  StateMachine, TransitionError, new_state_machine, transition, status_beq,
}
use lanos.Transfer.Cancel.{CancelRegistry, Effect, new_cancel_registry}
use lanos.Transfer.Cancel

pub record Transfer : Type 0 where
  pub id : String
  pub peer_id : String
  pub peer_name : String
  pub file_name : String
  pub file_path : String
  pub file_size : ℤ
  pub sent_bytes : ℤ
  pub status : Status
  pub error : String
  pub created_at : ℕ
  pub updated_at : ℕ
  pub sm : StateMachine

pub data ManagerError : Type 0 where
  not_found limit_reached : ManagerError
  refused : TransitionError → ManagerError

unfoldable pub new_transfer : String → ℕ → String → String → String → String → ℤ → Transfer
new_transfer id now peer_id peer_name file_path file_name file_size = record {
  id = id;
  peer_id = peer_id;
  peer_name = peer_name;
  file_name = file_name;
  file_path = file_path;
  file_size = file_size;
  sent_bytes = pos 0;
  status = pending;
  error = "";
  created_at = now;
  updated_at = now;
  sm = new_state_machine pending;
}

abbrev pub default_max_concurrent : ℕ
default_max_concurrent = 3

pub record Manager : Type 0 where
  pub transfers : Map String Transfer
  pub max_active : ℕ
  pub cancel_reg : CancelRegistry

unfoldable pub new_manager : ℤ → Manager
new_manager max_active = record {
  transfers = [];
  max_active = elim max_active [
    | pos n ↦ if n == 0 then default_max_concurrent else n
    | negsuc n ↦ default_max_concurrent
  ];
  cancel_reg = new_cancel_registry;
}

-- The test that `Create` and `ActiveCount` share.
abbrev pub is_active : Transfer → Bool
is_active t = elim t.status [ pending ↦ true | connecting ↦ true | transferring ↦ true | _ ↦ false ]

unfoldable pub active_count : Manager → ℕ
active_count m = count_by is_active m.transfers

unfoldable pub create :
    Manager
    → String
    → ℕ
    → String
    → String
    → String
    → String
    → ℤ
    → Manager × Result ManagerError Transfer
create m id now peer_id peer_name file_path file_name file_size =
    let active = count_by is_active m.transfers in
    let t = new_transfer id now peer_id peer_name file_path file_name file_size in
    if ltb active m.max_active
    then (record m { transfers = insert id t m.transfers }, ok t)
    else (m, err limit_reached)

unfoldable pub values : Map String Transfer → List Transfer
values [] = []
values ((id, t) ∷ rest) = t ∷ values rest

-- `List`, in the order of the map's entries.
unfoldable pub list : Manager → List Transfer
list m = values m.transfers

unfoldable pub get : Manager → String → Result ManagerError Transfer
get m id = elim (lookup id m.transfers) [ none ↦ err not_found | some t ↦ ok t ]

abbrev pub store : Manager → String → Transfer → Manager × Result ManagerError Transfer
store m id t = (record m { transfers = insert id t m.transfers }, ok t)

-- The end of `UpdateStatus`: the time, and the message if there is one.
unfoldable pub touch : ℕ → String → Transfer → Transfer
touch now msg t = record t { updated_at = now; error = if msg == "" then t.error else msg }

-- `t.sm.Transition(status)` changes the machine of `t`, and its error leaves `t` as it was.
unfoldable pub move : Transfer → Status → Result ManagerError Transfer
move t status =
    let (sm', refusal) = transition t.sm status in
    elim refusal [ none ↦ ok (record t { sm = sm'; status = status }) | some e ↦ err (refused e) ]

unfoldable pub update_status :
    Manager → String → Status → String → ℕ → Manager × Result ManagerError Transfer
update_status m id status msg now = elim (lookup id m.transfers) [
  | none ↦ (m, err not_found)
  | some t ↦ elim (if not (status_beq status t.status) then move t status else ok t) [
    | err e ↦ (m, err e)
    | ok t' ↦ store m id (touch now msg t')
  ]
]

unfoldable pub update_progress : Manager → String → ℤ → ℕ → Manager × Result ManagerError Transfer
update_progress m id sent now = elim (lookup id m.transfers) [
  | none ↦ (m, err not_found)
  | some t ↦ store m id (record t { sent_bytes = sent; updated_at = now })
]

unfoldable pub remove : Manager → String → Manager × Bool
remove m id = elim (lookup id m.transfers) [
  | none ↦ (m, false)
  | some t ↦ (record m { transfers = delete id m.transfers }, true)
]

-- The registry is called after the lock is released; its answer is not looked at.
unfoldable pub cancel : Manager → String → ℕ → Manager × List Effect × Result ManagerError Transfer
cancel m id now = elim (lookup id m.transfers) [
  | none ↦ (m, [], err not_found)
  | some t ↦ elim (move t cancelled) [
    | err e ↦ (m, [], err e)
    | ok t' ↦
        let t'' : Transfer = record t' { updated_at = now } in
        let r = Cancel.cancel m.cancel_reg id in
        (record m { transfers = insert id t'' m.transfers; cancel_reg = r.0 }, r.1, ok t'')
  ]
]
