-- ===== src/Transfer/Cancel/Once.antt =====
-- How often a cleanup callback of core/transfer/cancel.go runs, over every history of calls.
use lanos.Common.{
  ℕ, ◌+◌, ◌≡◌, refl, false, String, Option, none, some, List, [], ◌∷◌, ◌++◌, arith, if◌then◌else◌,
  string_eq, Option-cases, nat_beq, inl, inr,
}
use lanos.Common.Map.{
  Map, lookup, delete, weight, sum_by, sum_by-insert, sum_by-delete, Distinct, insert-Distinct,
  delete-Distinct, Each, Each-insert, Each-delete, Each-head, Each-tail,
}
use lanos.Transfer.Cancel.{
  CancelEntry, CancelRegistry, Effect, cancelled, cleaned, new_cancel_registry, run_cleanup, fire,
  register, cancel, cleanup, complete, cancel_all, fire_all,
}

-- A call of a method by any goroutine.
pub data Call : Type 0 where
  registers : String → Option ℕ → Option ℕ → Call
  cancels : String → Call
  cleans : String → Call
  completes : String → Call
  cancels_all : Call

unfoldable pub step : CancelRegistry → Call → CancelRegistry × List Effect
unfolding register cancel cleanup complete cancel_all
step r (registers id c d) = register r id c d
step r (cancels id) = ((cancel r id).0, (cancel r id).1)
step r (cleans id) = ((cleanup r id).0, (cleanup r id).1)
step r (completes id) = (complete r id, [])
step r cancels_all = cancel_all r

-- The registry after the calls, and all that they did.
unfoldable pub run : CancelRegistry → List Call → CancelRegistry × List Effect
run r [] = (r, [])
run r (c ∷ cs) = ((run (step r c).0 cs).0, (step r c).1 ++ (run (step r c).0 cs).1)

abbrev one_if : ℕ → Option ℕ → ℕ
one_if n none = 0
one_if n (some m) = if nat_beq m n then 1 else 0

-- How often cleanup `n` ran.
abbrev pub cleanups : ℕ → List Effect → ℕ
cleanups n [] = 0
cleanups n (cancelled m ∷ es) = cleanups n es
cleanups n (cleaned m ∷ es) = one_if n (some m) + cleanups n es

-- How many entries still hold cleanup `n`.
abbrev pub held : ℕ → Map String CancelEntry → ℕ
held n = sum_by (λ e. one_if n e.cleanup)

-- How often `n` was registered, and how often `Complete` dropped it.
abbrev pub registered : ℕ → List Call → ℕ
registered n [] = 0
registered n (registers id c d ∷ cs) = one_if n d + registered n cs
registered n (cancels id ∷ cs) = registered n cs
registered n (cleans id ∷ cs) = registered n cs
registered n (completes id ∷ cs) = registered n cs
registered n (cancels_all ∷ cs) = registered n cs

pub dropped_by : ℕ → CancelRegistry → Call → ℕ
dropped_by n r (completes id) = weight (λ e. one_if n e.cleanup) (lookup id r.entries)
dropped_by n r (registers id c d) = 0
dropped_by n r _ = 0

pub dropped : ℕ → CancelRegistry → List Call → ℕ
dropped n r [] = 0
dropped n r (c ∷ cs) = dropped_by n r c + dropped n (step r c).0 cs

-- Each id has one entry, and no entry in the map has run its cleanup.
pub record IsFresh (r : CancelRegistry) : Type 0 where
  pub distinct : Distinct r.entries
  pub waiting : Each (λ id e. e.cleanup_ran ≡ false) r.entries

abbrev IsWaiting : String → CancelEntry → Type 0
IsWaiting id e = e.cleanup_ran ≡ false

abbrev holds : ℕ → CancelEntry → ℕ
holds n e = one_if n e.cleanup

abbrev new_entry : Option ℕ → Option ℕ → CancelEntry
new_entry c d = record { cancel = c; cleanup = d; cleanup_ran = false }

pub new-IsFresh : IsFresh new_cancel_registry
unfolding new_cancel_registry lookup
new-IsFresh = record { distinct = tt; waiting = λ id e h. ground arith }

cleanups-append :
    (n : ℕ) (es fs : List Effect) → cleanups n (es ++ fs) ≡ cleanups n es + cleanups n fs
cleanups-append n [] fs = omega arith
cleanups-append n (cancelled m ∷ es) fs = cleanups-append n es fs
cleanups-append n (cleaned m ∷ es) fs = omega (arith, cleanups-append n es fs)

cleanups-run_cleanup :
    (n : ℕ) (e : CancelEntry)
    → e.cleanup_ran ≡ false
    → cleanups n (run_cleanup e).1 ≡ one_if n e.cleanup
unfolding run_cleanup
cleanups-run_cleanup n e h = ground arith

cleanups-fire :
    (n : ℕ) (e : CancelEntry) → e.cleanup_ran ≡ false → cleanups n (fire e) ≡ one_if n e.cleanup
cleanups-fire n e h = ground (arith, cleanups-run_cleanup n e)

cleanups-fire_all :
    (n : ℕ) (m : Map String CancelEntry)
    → Distinct m
    → Each (λ id e. e.cleanup_ran ≡ false) m
    → cleanups n (fire_all m) ≡ held n m
unfolding fire_all
cleanups-fire_all n [] d w = refl
cleanups-fire_all n ((id, e) ∷ rest) d w = omega (
  arith,
  cleanups-append n (fire e) (fire_all rest),
  cleanups-fire n e (Each-head IsWaiting id e rest w),
  cleanups-fire_all n rest d.1 (Each-tail IsWaiting id e rest d.0 w),
)

delete-IsFresh :
    (id : String) (r : CancelRegistry)
    → IsFresh r
    → IsFresh (record { entries = delete id r.entries })
delete-IsFresh id r v = record {
  distinct = delete-Distinct id r.entries v.distinct;
  waiting = Each-delete IsWaiting id r.entries v.waiting;
}

pub step-IsFresh : (r : CancelRegistry) (c : Call) → IsFresh r → IsFresh (step r c).0
unfolding step new_cancel_registry
step-IsFresh r (registers id c d) v = record {
  distinct = insert-Distinct id _ r.entries v.distinct;
  waiting = Each-insert IsWaiting id _ r.entries v.waiting refl;
}
step-IsFresh r (cancels id) v = elim (Option-cases (lookup id r.entries)) [
  | inl e ↦ rw (e, step, cancel) v
  | inr (old, e) ↦ rw (e, step, cancel) (delete-IsFresh id r v)
]
step-IsFresh r (cleans id) v = elim (Option-cases (lookup id r.entries)) [
  | inl e ↦ rw (e, step, cleanup) v
  | inr (old, e) ↦ rw (e, step, cleanup) (delete-IsFresh id r v)
]
step-IsFresh r (completes id) v = delete-IsFresh id r v
step-IsFresh r cancels_all v = new-IsFresh

step_account :
    (n : ℕ) (r : CancelRegistry) (c : Call)
    → IsFresh r
    → cleanups n (step r c).1 + held n (step r c).0.entries + dropped_by n r c
      ≡ held n r.entries + registered n (c ∷ [])
unfolding step dropped_by
step_account n r (registers id c d) v = elim (Option-cases (lookup id r.entries)) [
  | inl e ↦ ground (arith, e, sum_by-insert (holds n) id (new_entry c d) r.entries)
  | inr (old, e) ↦ ground (
    arith,
    e,
    cleanups-run_cleanup n old (v.waiting id old e),
    sum_by-insert (holds n) id (new_entry c d) r.entries,
  )
]
step_account n r (cancels id) v = elim (Option-cases (lookup id r.entries)) [
  | inl e ↦ ground (arith, e)
  | inr (old, e) ↦ ground (
    arith,
    e,
    cleanups-fire n old (v.waiting id old e),
    sum_by-delete (holds n) id r.entries v.distinct,
  )
]
step_account n r (cleans id) v = elim (Option-cases (lookup id r.entries)) [
  | inl e ↦ ground (arith, e)
  | inr (old, e) ↦ ground (
    arith,
    e,
    cleanups-run_cleanup n old (v.waiting id old e),
    sum_by-delete (holds n) id r.entries v.distinct,
  )
]
step_account n r (completes id) v = omega (arith, sum_by-delete (holds n) id r.entries v.distinct)
step_account n r cancels_all v = omega (arith, cleanups-fire_all n r.entries v.distinct v.waiting)

registered-cons :
    (n : ℕ) (c : Call) (cs : List Call)
    → registered n (c ∷ cs) ≡ registered n (c ∷ []) + registered n cs
registered-cons n (registers id c d) cs = omega arith
registered-cons n _ cs = omega arith

-- Each registration of a cleanup is settled once: over any calls, the times that cleanup `n` ran,
-- the entries that still hold it and the times that `Complete` dropped it add up to the entries
-- that held it at the start and the times that it was registered.
pub run_account :
    (n : ℕ) (r : CancelRegistry) (cs : List Call)
    → IsFresh r
    → cleanups n (run r cs).1 + held n (run r cs).0.entries + dropped n r cs
      ≡ held n r.entries + registered n cs
unfolding run dropped
run_account n r [] v = omega arith
run_account n r (c ∷ cs) v = omega (
  arith,
  cleanups-append n (step r c).1 (run (step r c).0 cs).1,
  registered-cons n c cs,
  step_account n r c v,
  run_account n (step r c).0 cs (step-IsFresh r c v),
)

-- `CancelAll` runs every cleanup that was registered and not settled before, and leaves none.
pub cancel_all_account :
    (n : ℕ) (r : CancelRegistry)
    → IsFresh r
    → (cleanups n (cancel_all r).1 ≡ held n r.entries) × ((cancel_all r).0.entries ≡ [])
unfolding cancel_all
cancel_all_account n r v = (cleanups-fire_all n r.entries v.distinct v.waiting, refl)
