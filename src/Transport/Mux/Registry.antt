-- ===== src/Transport/Mux/Registry.antt =====
-- The registry of core/transport/stream.go: which streams it holds, and which IDs a side gives out.
use lanos.Common.{
  ℕ, ◌+◌, ◌%◌, ◌^◌, ◌<◌, ◌≡◌, refl, sym, ap, ◌∙◌, true, Option, none, some, List, [], ◌∷◌, arith,
  nat_eq, ◌==◌, Bool-cases, Option-cases, inl, inr,
}
use mathlib.Core.Option.{some-injective}
use lanos.Common.Map.{Map, lookup, insert, delete, lookup-insert, lookup-delete}
use lanos.Transport.Frame.{Frame}
use lanos.Transport.Mux.{
  MuxError, HandshakeRole, role_initiator, role_responder, Stream, Mux, start_id, new_mux,
  new_stream, close_stream, close, close_all, refs_of, shutdown,
}

-- A registered stream is an open object that knows its own ID, and fresh references are unused.
pub record Registry (streams : Map ℕ ℕ) (objects : Map ℕ Stream) (next_ref : ℕ) : Type 0 where
  pub registered :
      (i ref : ℕ)
      → lookup i streams ≡ some ref
      → (st : Stream) × (lookup ref objects ≡ some st) × (st.id ≡ i) × (st.close_err ≡ none)
  pub fresh : (ref : ℕ) (st : Stream) → lookup ref objects ≡ some st → ref < next_ref

pub record IsValid (side : HandshakeRole) (m : Mux) : Type 0 where
  pub registry : Registry m.streams m.objects m.next_ref
  pub parity : m.next_id % 2 ≡ start_id side
  pub wraps : m.next_id < 2 ^ 32

same_object :
    (o : Map ℕ Stream) (ref r : ℕ) (st su : Stream)
    → ref == r ≡ true
    → lookup ref o ≡ some st
    → lookup r o ≡ some su
    → st ≡ su
same_object o ref r st su same at_ref got =
    some-injective _ _ (sym at_ref ∙ ap (λ x. lookup x o) ((nat_eq.beq_iff ref r).0 same) ∙ got)

Registry-new :
    (s : Map ℕ ℕ) (o : Map ℕ Stream) (n i : ℕ)
    → Registry s o n
    → Registry
        (insert i n s)
        (insert n (record { id = i; rcv_ch = []; close_err = none }) o)
        (n + 1)
Registry-new s o n i v = record {
  registered = λ j ref e. elim (Bool-cases (i == j)) [
    | inl same ↦
        let st : Stream = record { id = i; rcv_ch = []; close_err = none } in
        (
          st,
          ground (arith, lookup-insert i j n s, lookup-insert n ref st o, nat_eq.beq_iff n ref),
          ground (arith, nat_eq.beq_iff i j),
          refl,
        )
    | inr other ↦
        let (st, found, id, live) = v.registered j ref (ground (arith, lookup-insert i j n s)) in
        let lt = v.fresh ref st found in
        (
          st,
          ground (
            arith,
            lookup-insert n ref (record { id = i; rcv_ch = []; close_err = none }) o,
            nat_eq.beq_iff n ref,
          ),
          id,
          live,
        )
  ];
  fresh = λ ref st e. ground (
    arith,
    lookup-insert n ref (record { id = i; rcv_ch = []; close_err = none }) o,
    nat_eq.beq_iff n ref,
    v.fresh ref st,
  );
}

Registry-close :
    (s : Map ℕ ℕ) (o : Map ℕ Stream) (n ref : ℕ) (st : Stream) (e : MuxError)
    → Registry s o n
    → lookup ref o ≡ some st
    → Registry (delete st.id s) (insert ref (record st { close_err = some e }) o) n
Registry-close s o n ref st e v at_ref = record {
  registered = λ j r found. elim (Bool-cases (st.id == j)) [
    | inl same ↦ absurd (ground (arith, lookup-delete st.id j s))
    | inr other ↦
        let (su, got, id, live) = v.registered j r (ground (arith, lookup-delete st.id j s)) in
        (
          su,
          elim (Bool-cases (ref == r)) [
            | inl same ↦ absurd (
                ground (
                  arith,
                  nat_eq.beq_iff st.id j,
                  id,
                  ap (λ x. x.id) (same_object o ref r st su same at_ref got),
                ))
            | inr apart ↦ ground (arith, lookup-insert ref r (record st { close_err = some e }) o)
          ],
          id,
          live,
        )
  ];
  fresh = λ r su found. ground (
    arith,
    lookup-insert ref r (record st { close_err = some e }) o,
    nat_eq.beq_iff ref r,
    v.fresh r su,
    v.fresh ref st at_ref,
  );
}

pub Registry-buffer :
    (s : Map ℕ ℕ) (o : Map ℕ Stream) (n ref : ℕ) (st : Stream) (fs : List Frame)
    → Registry s o n
    → lookup ref o ≡ some st
    → Registry s (insert ref (record st { rcv_ch = fs }) o) n
Registry-buffer s o n ref st fs v at_ref = record {
  registered = λ j r found.
      let (su, got, id, live) = v.registered j r found in
      elim (Bool-cases (ref == r)) [
        | inl same ↦ (
          record st { rcv_ch = fs },
          ground (arith, lookup-insert ref r (record st { rcv_ch = fs }) o),
          ap (λ x. x.id) (same_object o ref r st su same at_ref got) ∙ id,
          ap (λ x. x.close_err) (same_object o ref r st su same at_ref got) ∙ live,
        )
        | inr apart ↦
            (su, ground (arith, lookup-insert ref r (record st { rcv_ch = fs }) o), id, live)
      ];
  fresh = λ r su found. ground (
    arith,
    lookup-insert ref r (record st { rcv_ch = fs }) o,
    nat_eq.beq_iff ref r,
    v.fresh r su,
    v.fresh ref st at_ref,
  );
}

pub new_mux-IsValid : (r : HandshakeRole) → IsValid r (new_mux r)
unfolding new_mux lookup
new_mux-IsValid role_initiator = record {
  registry = record { registered = λ i ref e. absurd (cc e); fresh = λ ref st e. absurd (cc e) };
  parity = refl;
  wraps = omega arith;
}
new_mux-IsValid role_responder = record {
  registry = record { registered = λ i ref e. absurd (cc e); fresh = λ ref st e. absurd (cc e) };
  parity = refl;
  wraps = omega arith;
}

pub close_found :
    (m : Mux) (ref : ℕ) (st : Stream) (e : MuxError)
    → lookup ref m.objects ≡ some st
    → close m ref e ≡ close_stream m ref st e
unfolding close
close_found m ref st e found = rw (close, found) refl

module _ {side : HandshakeRole} where
  pub new_stream-IsValid : (m : Mux) (i : ℕ) → IsValid side m → IsValid side (new_stream m i).0
  unfolding new_stream
  new_stream-IsValid m i v = record {
    registry = Registry-new m.streams m.objects m.next_ref i v.registry;
    parity = v.parity;
    wraps = v.wraps;
  }

  close_stream-IsValid :
      (m : Mux) (ref i : ℕ) (fs : List Frame) (c : Option MuxError) (e : MuxError)
      → let st : Stream = record { id = i; rcv_ch = fs; close_err = c } in
        lookup ref m.objects ≡ some st → IsValid side m → IsValid side (close_stream m ref st e)
  close_stream-IsValid m ref i fs (some _) e found v = v
  close_stream-IsValid m ref i fs none e found v =
      let st : Stream = record { id = i; rcv_ch = fs; close_err = none } in
      record {
        registry = Registry-close m.streams m.objects m.next_ref ref st e v.registry found;
        parity = v.parity;
        wraps = v.wraps;
      }

  pub close-IsValid :
      (m : Mux) (ref : ℕ) (e : MuxError) → IsValid side m → IsValid side (close m ref e)
  unfolding close
  close-IsValid m ref e v = elim (Option-cases (lookup ref m.objects)) [
    | inl n ↦ rw (close, n) v
    | inr (st, found) ↦
        rw (close_found m ref st e found)
          (close_stream-IsValid m ref st.id st.rcv_ch st.close_err e found v)
  ]

  close_all-IsValid :
      (m : Mux) (refs : List ℕ) (e : MuxError) → IsValid side m → IsValid side (close_all m refs e)
  unfolding close_all
  close_all-IsValid m [] e v = v
  close_all-IsValid m (ref ∷ refs) e v =
      close_all-IsValid (close m ref e) refs e (close-IsValid m ref e v)

  pub shutdown-IsValid : (m : Mux) (e : MuxError) → IsValid side m → IsValid side (shutdown m e)
  unfolding shutdown
  shutdown-IsValid m e v = elim (Option-cases m.close_err) [
    | inl n ↦
        let closing : Mux = record m { close_err = some e } in
        rw (shutdown, n)
          (close_all-IsValid closing (refs_of m.streams) e
            (record { registry = v.registry; parity = v.parity; wraps = v.wraps }))
    | inr (c, n) ↦ rw (shutdown, n) v
  ]
