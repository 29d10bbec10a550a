-- ===== src/Transfer/Queue/Order.antt =====
-- Which task `popRunnableLocked` of core/transfer/queue.go takes, and when it takes one.
use mathlib.Core.List.{Memᴰ}
use text.Mathlib.TextEquality.{eq_iff}
use lanos.Common.{
  ◌≡◌, ◌≢◌, refl, inl, inr, true, false, String, none, some, List, [], ◌∷◌, ◌++◌, arith, string_eq,
  beq_refl, Bool-cases, Option-cases, All,
}
use lanos.Common.Map.{Map, lookup, Distinct}
use lanos.Transfer.Queue.{
  Task, DeviceQueue, Queue, is_runnable, first_runnable, runnable_in, any_runnable, has_runnable,
  take_runnable, pop_from, pop_runnable,
}

-- `t` stands in `ts` behind tasks none of which is runnable; `rest` is `ts` without it.
pub record IsFirst (q : Queue) (dq : DeviceQueue) (ts : List Task) (t : Task) (rest : List Task)
    : Type 0 where
  pub before : List Task
  pub after : List Task
  pub split : ts ≡ before ++ (t ∷ after)
  pub left : rest ≡ before ++ after
  pub runnable : is_runnable q dq t ≡ true
  pub blocked : All (λ u. is_runnable q dq u ≡ false) before

pub take_runnable-IsFirst :
    (q : Queue) (dq : DeviceQueue) (ts : List Task) (t : Task) (rest : List Task)
    → take_runnable q dq ts ≡ some (t, rest)
    → IsFirst q dq ts t rest
unfolding take_runnable
take_runnable-IsFirst q dq [] t rest h = cc
take_runnable-IsFirst q dq (u ∷ us) t rest h = elim (Bool-cases (is_runnable q dq u)) [
  | inl e ↦ record {
    before = [];
    after = us;
    split = ground (arith, e);
    left = ground (arith, e);
    runnable = ground (arith, e);
    blocked = tt;
  }
  | inr e ↦ elim (Option-cases (take_runnable q dq us)) [
    | inl n ↦ absurd (ground (arith, e, n))
    | inr ((w, ws), n) ↦
        let same : (w ≡ t) × (u ∷ ws ≡ rest) = ground (arith, e, n) in
        let ih = take_runnable-IsFirst q dq us w ws n in
        record {
          before = u ∷ ih.before;
          after = ih.after;
          split = cc (ih.split, same.0);
          left = cc (ih.left, same.1);
          runnable = rw (← same.0) ih.runnable;
          blocked = (e, ih.blocked);
        }
  ]
]

take_runnable-none :
    (q : Queue) (dq : DeviceQueue) (ts : List Task)
    → take_runnable q dq ts ≡ none
    → first_runnable q dq ts ≡ none
unfolding take_runnable first_runnable
take_runnable-none q dq [] h = refl
take_runnable-none q dq (t ∷ ts) h = ground (arith, take_runnable-none q dq ts)

pop_from-none :
    (q : Queue) (id : String) (dq : DeviceQueue)
    → pop_from q id ≡ none
    → lookup id q.devices ≡ some dq
    → runnable_in q dq ≡ none
unfolding pop_from runnable_in
pop_from-none q id dq h e = ground (arith, e, take_runnable-none q dq dq.pending)

pop_runnable-none :
    (q : Queue) (ids : List String) (id : String)
    → pop_runnable q ids ≡ none
    → Memᴰ id ids
    → pop_from q id ≡ none
unfolding pop_runnable
pop_runnable-none q [] id h m = elim m [ ]
pop_runnable-none q (i ∷ ids) id h (Memᴰ.head e) = elim (Option-cases (pop_from q i)) [
  | inl n ↦ cc (n, e)
  | inr (r, n) ↦ absurd (ground (arith, n))
]
pop_runnable-none q (i ∷ ids) id h (Memᴰ.tail m) = pop_runnable-none q ids id (ground arith) m

later :
    (id : String) (dq : DeviceQueue) (rest : Map String DeviceQueue) (j : String) (w : DeviceQueue)
    → lookup id rest ≡ none
    → lookup j rest ≡ some w
    → lookup j ((id, dq) ∷ rest) ≡ some w
unfolding lookup
later id dq rest j w n e = ground (arith, eq_iff id j)

any_runnable_found :
    (q : Queue) (m : Map String DeviceQueue)
    → Distinct m
    → any_runnable q m ≡ true
    → (id : String) × (dq : DeviceQueue) × (lookup id m ≡ some dq) × (runnable_in q dq ≢ none)
unfolding any_runnable
any_runnable_found q [] d h = cc
any_runnable_found q ((id, dq) ∷ rest) d h = elim (Option-cases (runnable_in q dq)) [
  | inr (t, e) ↦ (id, dq, unfold lookup in rw (beq_refl id), λ n. cc (n, e))
  | inl n ↦
      let (j, w, e, r) = any_runnable_found q rest d.1 (ground (arith, n)) in
      (j, w, later id dq rest j w d.0 e, r)
]

-- The order of the loop visits every device.
abbrev pub Visits : List String → Map String DeviceQueue → Type 0
Visits ids m = (id : String) → lookup id m ≢ none → Memᴰ id ids

-- If any device has a runnable task, then `popRunnableLocked` returns one, in whatever order it
-- visits all the devices.
pub pop_runnable_total :
    (q : Queue) (ids : List String)
    → Distinct q.devices
    → Visits ids q.devices
    → has_runnable q ≡ true
    → pop_runnable q ids ≢ none
unfolding has_runnable
pop_runnable_total q ids d visits h p =
    let (id, dq, e, r) = any_runnable_found q q.devices d h in
    r (pop_from-none q id dq (pop_runnable-none q ids id p (visits id (λ n. cc (e, n)))) e)
