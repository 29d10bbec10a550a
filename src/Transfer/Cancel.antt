-- ===== src/Transfer/Cancel.antt =====
-- core/transfer/cancel.go: the registry of cancel functions and cleanup callbacks.
-- A callback is known by a number, and a call of one is an effect. A cleanup that panics is
-- recovered from, so it is one call like any other. The registry's lock makes each method one step.
mod Examples
pub mod Once
use lanos.Common.{
  ℕ, ◌≡◌, Bool, true, false, String, Option, none, some, List, [], ◌∷◌, ◌++◌, if◌then◌else◌,
  string_eq, length,
}
use lanos.Common.Map.{Map, lookup, insert, delete}

pub record CancelEntry : Type 0 where
  pub cancel : Option ℕ
  pub cleanup : Option ℕ
  pub cleanup_ran : Bool

pub record CancelRegistry : Type 0 where
  pub entries : Map String CancelEntry

-- What a method does besides changing the registry.
pub data Effect : Type 0 where
  cancelled : ℕ → Effect
  cleaned : ℕ → Effect

pub data CancelError : Type 0 where
  not_registered : CancelError

unfoldable pub new_cancel_registry : CancelRegistry
new_cancel_registry = record { entries = [] }

-- A nil callback is not called.
abbrev pub call : (ℕ → Effect) → Option ℕ → List Effect
call f none = []
call f (some n) = f n ∷ []

unfoldable pub run_cleanup : CancelEntry → CancelEntry × List Effect
run_cleanup e =
    if e.cleanup_ran then (e, []) else (record e { cleanup_ran = true }, call cleaned e.cleanup)

unfoldable pub register :
    CancelRegistry → String → Option ℕ → Option ℕ → CancelRegistry × List Effect
register r id cancel cleanup =
    let new : CancelEntry = record { cancel = cancel; cleanup = cleanup; cleanup_ran = false } in
    let r' : CancelRegistry = record { entries = insert id new r.entries } in
    (r', elim (lookup id r.entries) [ none ↦ [] | some old ↦ (run_cleanup old).1 ])

-- The entry leaves the map before its callbacks run.
abbrev pub fire : CancelEntry → List Effect
fire e = call cancelled e.cancel ++ (run_cleanup e).1

unfoldable pub cancel : CancelRegistry → String → CancelRegistry × List Effect × Option CancelError
cancel r id = elim (lookup id r.entries) [
  | none ↦ (r, [], some not_registered)
  | some e ↦ (record { entries = delete id r.entries }, fire e, none)
]

unfoldable pub cleanup : CancelRegistry → String → CancelRegistry × List Effect × Option CancelError
cleanup r id = elim (lookup id r.entries) [
  | none ↦ (r, [], some not_registered)
  | some e ↦ (record { entries = delete id r.entries }, (run_cleanup e).1, none)
]

unfoldable pub complete : CancelRegistry → String → CancelRegistry
complete r id = record { entries = delete id r.entries }

unfoldable pub is_registered : CancelRegistry → String → Bool
is_registered r id = elim (lookup id r.entries) [ none ↦ false | some e ↦ true ]

unfoldable pub active_count : CancelRegistry → ℕ
active_count r = length r.entries

-- The loop of `CancelAll` over the entries that it took away.
unfoldable pub fire_all : Map String CancelEntry → List Effect
fire_all [] = []
fire_all ((id, e) ∷ rest) = fire e ++ fire_all rest

unfoldable pub cancel_all : CancelRegistry → CancelRegistry × List Effect
unfolding fire_all
cancel_all r = (record { entries = [] }, fire_all r.entries)
