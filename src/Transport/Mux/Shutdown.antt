-- ===== src/Transport/Mux/Shutdown.antt =====
-- `Mux.shutdown` of core/transport/stream.go: which streams it closes, and which it misses.
use lanos.Common.{
  ℕ, ◌≡◌, refl, sym, ap, ◌∙◌, false, ◌⊎◌, none, some, List, [], ◌∷◌, arith, nat_eq, ◌==◌, beq_refl,
  Bool-cases, Option-cases, inl, inr,
}
use mathlib.Core.Path.{subst}
use mathlib.Core.Option.{some-injective}
use lanos.Common.Map.{Map, lookup, insert, delete, lookup-insert, lookup-delete}
use lanos.Transport.Mux.{
  MuxError, HandshakeRole, Stream, Mux, close_stream, close, close_all, refs_of, shutdown,
}
use lanos.Transport.Mux.Registry.{IsValid, close_found, shutdown-IsValid}

-- The object `ref` is closed with `e`.
abbrev pub Closed : Mux → ℕ → MuxError → Type 0
Closed m ref e = (st : Stream) × (lookup ref m.objects ≡ some st) × (st.close_err ≡ some e)

abbrev Live : Mux → ℕ → Type 0
Live m ref = (st : Stream) × (lookup ref m.objects ≡ some st) × (st.close_err ≡ none)

close_stream-closed :
    (m : Mux) (r : ℕ) (st : Stream) (e d : MuxError)
    → st.close_err ≡ some d
    → close_stream m r st e ≡ m
close_stream-closed m r st e d c = ground (arith, c)

pub close_stream-live :
    (m : Mux) (r : ℕ) (st : Stream) (e : MuxError)
    → st.close_err ≡ none
    → close_stream m r st e ≡ record m {
      objects = insert r (record st { close_err = some e }) m.objects;
      streams = delete st.id m.streams;
    }
close_stream-live m r st e c = ground (arith, c)

abbrev closing : Mux → ℕ → Stream → MuxError → Mux
closing m r st e = record m {
  objects = insert r (record st { close_err = some e }) m.objects;
  streams = delete st.id m.streams;
}

-- `close` closes an open object, and does nothing else.
close_cases :
    (m : Mux) (r : ℕ) (e : MuxError)
    → (close m r e ≡ m)
      ⊎ ((st : Stream) × (lookup r m.objects ≡ some st)
          × (st.close_err ≡ none)
          × (close m r e ≡ closing m r st e))
unfolding close
close_cases m r e = elim (Option-cases (lookup r m.objects)) [
  | inl n ↦ inl (rw (close, n) refl)
  | inr (st, n) ↦ elim (Option-cases st.close_err) [
    | inr (d, c) ↦ inl (close_found m r st e n ∙ close_stream-closed m r st e d c)
    | inl c ↦ inr (st, n, c, close_found m r st e n ∙ close_stream-live m r st e c)
  ]
]

closing-Closed :
    (m : Mux) (r ref : ℕ) (st : Stream) (e d : MuxError)
    → lookup r m.objects ≡ some st
    → st.close_err ≡ none
    → Closed m ref d
    → Closed (closing m r st e) ref d
closing-Closed m r ref st e d found live (su, got, c) = (
  su,
  ground (
    arith,
    lookup-insert r ref (record st { close_err = some e }) m.objects,
    nat_eq.beq_iff r ref,
  ),
  c,
)

-- A closed stream keeps the error it was closed with.
close-Closed : (m : Mux) (r ref : ℕ) (e d : MuxError) → Closed m ref d → Closed (close m r e) ref d
close-Closed m r ref e d h = elim (close_cases m r e) [
  | inl same ↦ subst (λ n. Closed n ref d) (sym same) h
  | inr (st, found, live, at) ↦
      subst (λ n. Closed n ref d) (sym at) (closing-Closed m r ref st e d found live h)
]

close_all-Closed :
    (m : Mux) (refs : List ℕ) (ref : ℕ) (e d : MuxError)
    → Closed m ref d
    → Closed (close_all m refs e) ref d
unfolding close_all
close_all-Closed m [] ref e d h = h
close_all-Closed m (r ∷ refs) ref e d h =
    close_all-Closed (close m r e) refs ref e d (close-Closed m r ref e d h)

close_hit : (m : Mux) (ref : ℕ) (e : MuxError) → Live m ref → Closed (close m ref e) ref e
close_hit m ref e (st, found, live) =
    subst (λ n. Closed n ref e)
      (sym (close_found m ref st e found ∙ close_stream-live m ref st e live))
      (
        record st { close_err = some e },
        ground (
          arith,
          lookup-insert ref ref (record st { close_err = some e }) m.objects,
          beq_refl ref,
        ),
        refl,
      )

close_miss :
    (m : Mux) (r ref : ℕ) (e : MuxError) → r == ref ≡ false → Live m ref → Live (close m r e) ref
close_miss m r ref e apart (su, got, live) = elim (close_cases m r e) [
  | inl same ↦ subst (λ n. Live n ref) (sym same) (su, got, live)
  | inr (st, found, c, at) ↦
      subst (λ n. Live n ref) (sym at)
        (su, ground (arith, lookup-insert r ref (record st { close_err = some e }) m.objects), live)
]

close_all-hit :
    (m : Mux) (s : Map ℕ ℕ) (i ref : ℕ) (e : MuxError)
    → lookup i s ≡ some ref
    → Live m ref
    → Closed (close_all m (refs_of s) e) ref e
unfolding close_all lookup refs_of
close_all-hit m [] i ref e found live = absurd (cc found)
close_all-hit m ((j, r) ∷ s) i ref e found live = elim (Bool-cases (r == ref)) [
  | inl hit ↦ close_all-Closed (close m r e) (refs_of s) ref e e (
      subst (λ k. Closed (close m k e) ref e) (sym ((nat_eq.beq_iff r ref).0 hit))
        (close_hit m ref e live))
  | inr miss ↦
      close_all-hit (close m r e) s i ref e (ground (arith, nat_eq.beq_iff r ref))
        (close_miss m r ref e miss live)
]

close-streams :
    (m : Mux) (r i ref : ℕ) (e : MuxError)
    → lookup i (close m r e).streams ≡ some ref
    → lookup i m.streams ≡ some ref
close-streams m r i ref e h = elim (close_cases m r e) [
  | inl same ↦ sym (ap (λ n. lookup i n.streams) same) ∙ h
  | inr (st, found, c, at) ↦
      ground (arith, sym (ap (λ n. lookup i n.streams) at) ∙ h, lookup-delete st.id i m.streams)
]

close_all-streams :
    (m : Mux) (refs : List ℕ) (i ref : ℕ) (e : MuxError)
    → lookup i (close_all m refs e).streams ≡ some ref
    → lookup i m.streams ≡ some ref
unfolding close_all
close_all-streams m [] i ref e h = h
close_all-streams m (r ∷ refs) i ref e h =
    close-streams m r i ref e (close_all-streams (close m r e) refs i ref e h)

shutdown_live :
    (m : Mux) (e : MuxError)
    → m.close_err ≡ none
    → shutdown m e ≡ close_all (record m { close_err = some e }) (refs_of m.streams) e
unfolding shutdown
shutdown_live m e c = ground (arith, c)

-- Shutting down a mux that is open closes each stream of its registry with the error of the shutdown.
pub shutdown_closes :
    (side : HandshakeRole) (m : Mux) (e : MuxError) (i ref : ℕ)
    → IsValid side m
    → m.close_err ≡ none
    → lookup i m.streams ≡ some ref
    → Closed (shutdown m e) ref e
shutdown_closes side m e i ref v c found =
    let (st, got, id, live) = v.registry.registered i ref found in
    subst (λ n. Closed n ref e) (sym (shutdown_live m e c))
      (close_all-hit (record m { close_err = some e }) m.streams i ref e found (st, got, live))

-- Shutting down a mux that is open empties its registry.
pub shutdown_empties :
    (side : HandshakeRole) (m : Mux) (e : MuxError) (i : ℕ)
    → IsValid side m
    → m.close_err ≡ none
    → lookup i (shutdown m e).streams ≡ none
shutdown_empties side m e i v c = elim (Option-cases (lookup i (shutdown m e).streams)) [
  | inl n ↦ n
  | inr (ref, n) ↦
      let before =
        close_all-streams (record m { close_err = some e }) (refs_of m.streams) i ref e
          (sym (ap (λ k. lookup i k.streams) (shutdown_live m e c)) ∙ n) in
      let (st, got, gone) = shutdown_closes side m e i ref v c before in
      let (su, has, id, live) = (shutdown-IsValid m e v).registry.registered i ref n in
      absurd (cc (gone, live, some-injective _ _ (sym got ∙ has)))
]
