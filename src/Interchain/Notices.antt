-- ===== src/Interchain/Notices.antt =====
-- The children that a chain is told to roll back (addToMultiTxNotifyMap of
-- internal/executor/contracts/interchain.go).
use mathlib.Core.List.{append-nil, append_assoc}
use model_lib.Base.{
  ℕ, ◌≡◌, refl, true, false, String, List, [], ◌∷◌, ◌++◌, Option, none, some, inl, inr, arith,
  eq_iff, str_eq, Option-cases, if◌then◌else◌, ==_iff, lookup, lookup-insert,
}
use model_lib.Protocol.{Protocol}
use model_lib.Interchain.State.{World}
use model_lib.Interchain.Process.{
  note_ids, note_each, add_to_multi_tx_notify_map, set_notify, source_chain, dest_chain,
}

-- m[k] of a map to slices: nil where the key is missing.
abbrev pub ids_of : Option (List String) → List String
ids_of none = []
ids_of (some ids) = ids

pub lookup-note_ids :
    (chain c : String) (ids : List String) (m : List (String × List String))
    → ids_of (lookup c (note_ids chain ids m))
      ≡ (if str_eq chain c then ids_of (lookup c m) ++ ids else ids_of (lookup c m))
unfolding note_ids
lookup-note_ids chain c ids m = elim (Option-cases (lookup chain m)) [
  | inl e ↦ ground (arith, lookup-insert chain c ids m, eq_iff chain c)
  | inr (old, e) ↦ ground (arith, lookup-insert chain c (old ++ ids) m, eq_iff chain c)
]

note_each-ids :
    (p : Protocol) (first c : String) (ids : List String) (m : List (String × List String))
    → ids_of (lookup c (note_each p first ids m))
      ≡ (if str_eq (dest_chain p first) c then ids_of (lookup c m) ++ ids else ids_of (lookup c m))
unfolding note_each
note_each-ids p first c [] m = ground (arith, append-nil (ids_of (lookup c m)))
note_each-ids p first c (id ∷ ids) m = ground (
  arith,
  note_each-ids p first c ids (note_ids (dest_chain p first) (id ∷ []) m),
  lookup-note_ids (dest_chain p first) c (id ∷ []) m,
  append_assoc (ids_of (lookup c m)) (id ∷ []) ids,
)

-- Who is told of a list of children. For the sources, the chain of the first child's source is told of
-- all of them. For the destinations, too, the chain of the first child's destination is told of all of
-- them, and no other chain of any, whatever the destinations of the other children are.
pub add_to_multi_tx_notify_map_lem :
    (p : Protocol) (height : ℕ) (id : String) (ids : List String) (c : String) (w : World)
    → let old = ids_of (lookup c (w.multi_tx_notify height)) in
      (ids_of (
          lookup c ((add_to_multi_tx_notify_map p height (id ∷ ids) true w).multi_tx_notify height))
        ≡ (if str_eq (source_chain p id) c then old ++ id ∷ ids else old))
      × (ids_of (
            lookup c
              ((add_to_multi_tx_notify_map p height (id ∷ ids) false w).multi_tx_notify height))
          ≡ (if str_eq (dest_chain p id) c then old ++ id ∷ ids else old))
unfolding add_to_multi_tx_notify_map set_notify
add_to_multi_tx_notify_map_lem p height id ids c w = (
  rw ((==_iff height height).1 refl) (lookup-note_ids (source_chain p id) c (id ∷ ids) _),
  rw ((==_iff height height).1 refl) (note_each-ids p id c (id ∷ ids) _),
)
