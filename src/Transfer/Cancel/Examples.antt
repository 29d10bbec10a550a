-- ===== src/Transfer/Cancel/Examples.antt =====
-- Calls of core/transfer/cancel.go, and the theorems at them.
use lanos.Common.{◌+◌, ◌≡◌, refl, none, some, List, [], ◌∷◌}
use lanos.Common.Map.{lookup, insert, delete}
use lanos.Transfer.Cancel.{
  CancelRegistry, new_cancel_registry, run_cleanup, register, cancel, complete,
}
use lanos.Transfer.Cancel.Once.{
  Call, registers, cancels, cleans, completes, step, run, cleanups, held, registered, dropped,
  new-IsFresh, run_account,
}

-- A registration that is replaced, cancelled twice and cleaned, and another that completes.
abbrev calls : List Call
calls =
    registers "a" (some 1) (some 7)
    ∷ registers "a" (some 2) (some 7)
    ∷ registers "b" none (some 7)
    ∷ cancels "a"
    ∷ cancels "a"
    ∷ cleans "a"
    ∷ completes "b"
    ∷ []

ran_twice : cleanups 7 (run new_cancel_registry calls).1 ≡ 2
unfolding run step register cancel run_cleanup new_cancel_registry lookup insert delete complete
ran_twice = refl

run_account_example :
    cleanups 7 (run new_cancel_registry calls).1
      + held 7 (run new_cancel_registry calls).0.entries
      + dropped 7 new_cancel_registry calls
    ≡ held 7 new_cancel_registry.entries + registered 7 calls
run_account_example = run_account 7 new_cancel_registry calls new-IsFresh

abbrev one_left : CancelRegistry
one_left = (step new_cancel_registry (registers "a" (some 1) (some 7))).0
