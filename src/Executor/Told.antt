-- ===== src/Executor/Told.antt =====
-- getTimeoutIBTPsMap of internal/executor/handle.go: the map that it fills is the list of all notices,
-- sorted out by their chains.
use mathlib.Core.List.{append-nil, append_assoc}
use model_lib.Base.{
  ℕ, ◌≡◌, refl, sym, ap, ◌∙◌, String, Bool, true, false, List, [], ◌∷◌, ◌++◌, Option, none, some,
  if◌then◌else◌, str_eq, Bool-cases, inl, inr, lookup, All,
}
use model_lib.Transactions.Status.{TransactionStatus}
use model_lib.Transactions.State.{TransactionInfo, Store}
use model_lib.Interchain.Process.{note_ids}
use model_lib.Interchain.Notices.{ids_of, lookup-note_ids}
use model_lib.Executor.Timeouts.{get_timeout_list, is_global_id}
use model_lib.Executor.Notices.{
  Noted, noted, refused, panicked, and_then, IdsOfChains, Notifier, notify_chain, add_tx_id,
  add_children, add_value, add_values, get_timeout_ibtps_map,
}

module _ (n : Notifier) where
  -- A notice: the part of the id that names the chain, and the id
  abbrev Notice : Type 0
  Notice = ℕ × String

  -- Of a child, its source, and its destination where its status is final
  unfoldable pub notices_of_children : List (String × TransactionStatus) → List Notice
  notices_of_children [] = []
  notices_of_children ((id, status) ∷ children) =
      (n.notify_src, id)
      ∷ ((if n.protocol.is_final_status status then (n.notify_dest, id) ∷ [] else [])
          ++ notices_of_children children)

  unfoldable pub notices_of_info : Option TransactionInfo → List Notice
  unfolding notices_of_children
  notices_of_info none = []
  notices_of_info (some info) = notices_of_children info.child_tx_info

  -- The notices of ids that time out, in their order
  unfoldable pub notices : Store → List String → List Notice
  unfolding notices_of_info is_global_id
  notices s [] = []
  notices s (value ∷ values) =
      (if is_global_id value
        then notices_of_info (s.global_tx_info value)
        else (n.notify_src, value) ∷ [])
      ++ notices s values

  -- The ids that are for a chain
  unfoldable pub chosen : String → Noted String → String → List String
  chosen c (noted chain) id = if str_eq chain c then id ∷ [] else []
  chosen c refused id = []
  chosen c panicked id = []

  unfoldable pub ids_for : String → List Notice → List String
  unfolding chosen notify_chain
  ids_for c [] = []
  ids_for c ((flag, id) ∷ rest) = chosen c (notify_chain n flag id) id ++ ids_for c rest

  -- The notices noted one after the other
  add_each : List Notice → IdsOfChains → Noted IdsOfChains
  add_each [] m = noted m
  add_each ((flag, id) ∷ rest) m = and_then (add_tx_id n flag id m) (add_each rest)

  and_then_assoc :
      {A B C : Type 0} (x : Noted A) (f : A → Noted B) (g : B → Noted C)
      → and_then (and_then x f) g ≡ and_then x (λ a. and_then (f a) g)
  unfolding and_then
  and_then_assoc (noted a) f g = refl
  and_then_assoc refused f g = refl
  and_then_assoc panicked f g = refl

  and_then_noted : {A : Type 0} (x : Noted A) → and_then x (λ a. noted a) ≡ x
  unfolding and_then
  and_then_noted (noted a) = refl
  and_then_noted refused = refl
  and_then_noted panicked = refl

  and_then-same :
      {A B : Type 0} (x : Noted A) (f g : A → Noted B)
      → ((a : A) → f a ≡ g a)
      → and_then x f ≡ and_then x g
  unfolding and_then
  and_then-same (noted a) f g e = e a
  and_then-same refused f g e = refl
  and_then-same panicked f g e = refl

  add_each-append :
      (xs ys : List Notice) (m : IdsOfChains)
      → add_each (xs ++ ys) m ≡ and_then (add_each xs m) (add_each ys)
  unfolding add_each and_then
  add_each-append [] ys m = refl
  add_each-append ((flag, id) ∷ xs) ys m =
      and_then-same (add_tx_id n flag id m) (add_each (xs ++ ys)) _ (add_each-append xs ys)
      ∙ sym (and_then_assoc (add_tx_id n flag id m) (add_each xs) (add_each ys))

  add_children-each :
      (cs : List (String × TransactionStatus)) (m : IdsOfChains)
      → add_children n cs m ≡ add_each (notices_of_children cs) m
  unfolding add_children add_each notices_of_children and_then
  add_children-each [] m = refl
  add_children-each ((id, status) ∷ cs) m =
      and_then-same (add_tx_id n n.notify_src id m) _ _
        (behind_source (add_children-each cs) (n.protocol.is_final_status status))
    where
      behind_source :
          ((a : IdsOfChains) → add_children n cs a ≡ add_each (notices_of_children cs) a)
          → (final : Bool) (a : IdsOfChains)
          → and_then (if final then add_tx_id n n.notify_dest id a else noted a) (add_children n cs)
            ≡ add_each
                ((if final then (n.notify_dest, id) ∷ [] else []) ++ notices_of_children cs)
                a
      behind_source same true a = and_then-same (add_tx_id n n.notify_dest id a) _ _ same
      behind_source same false a = same a

  -- The notices of one id
  abbrev notices_of : Store → String → List Notice
  notices_of s v =
      if is_global_id v then notices_of_info (s.global_tx_info v) else (n.notify_src, v) ∷ []

  add_value-each :
      (s : Store) (v : String) (m : IdsOfChains)
      → (is_global_id v ≡ true → (info : TransactionInfo) × (s.global_tx_info v ≡ some info))
      → add_value n s v m ≡ add_each (notices_of s v) m
  unfolding add_value add_each and_then notices_of_info
  add_value-each s v m h = elim (Bool-cases (is_global_id v)) [
    | inl g ↦ let (info, e) = h g in rw (g, e) (add_children-each info.child_tx_info m)
    | inr g ↦ rw g (sym (and_then_noted (add_tx_id n n.notify_src v m)))
  ]

  add_values-each :
      (s : Store) (values : List String) (m : IdsOfChains)
      → All
          (λ v. is_global_id v ≡ true → (info : TransactionInfo) × (s.global_tx_info v ≡ some info))
          values
      → add_values n s values m ≡ add_each (notices s values) m
  unfolding add_values add_each notices
  add_values-each s [] m h = refl
  add_values-each s (v ∷ vs) m h =
      ap (λ x. and_then x (add_values n s vs)) (add_value-each s v m h.0)
      ∙ (and_then-same (add_each (notices_of s v) m) _ _ (λ a. add_values-each s vs a h.1)
          ∙ sym (add_each-append (notices_of s v) (notices s vs) m))

  picked :
      (b : Bool) (xs ys zs : List String)
      → (if b then xs ++ ys else xs) ++ zs ≡ xs ++ ((if b then ys else []) ++ zs)
  picked true xs ys zs = append_assoc xs ys zs
  picked false xs ys zs = refl

  add_each-ids :
      (ws : List Notice) (m : IdsOfChains)
      → All (λ w. (c : String) × (notify_chain n w.0 w.1 ≡ noted c)) ws
      → (m2 : IdsOfChains) × (add_each ws m ≡ noted m2)
        × ((c : String) → ids_of (lookup c m2) ≡ ids_of (lookup c m) ++ ids_for c ws)
  unfolding add_each ids_for add_tx_id and_then chosen
  add_each-ids [] m h = (m, refl, λ c. sym (append-nil (ids_of (lookup c m))))
  add_each-ids ((flag, id) ∷ ws) m ((chain, e), h) =
      let m1 = note_ids chain (id ∷ []) m in
      let (m2, eq, told) = add_each-ids ws m1 h in
      (
        m2,
        ap (λ x. and_then (and_then x (λ k. noted (note_ids k (id ∷ []) m))) (add_each ws)) e ∙ eq,
        λ c.
            told c
            ∙ (ap (λ x. x ++ ids_for c ws) (lookup-note_ids chain c (id ∷ []) m)
                ∙ (picked (str_eq chain c) (ids_of (lookup c m)) (id ∷ []) (ids_for c ws)
                    ∙ ap (λ x. ids_of (lookup c m) ++ (chosen c x id ++ ids_for c ws)) (sym e))),
      )

  -- Where the info of every global transaction that times out at the height is stored, and every notice
  -- names a chain, a map is made, and under each chain it has the ids of the notices for the chain, in
  -- the order of the timeout list and, within a global transaction, in the order of the iteration over
  -- its children. A child is noticed to its source, and to its destination too where its status is
  -- final.
  pub get_timeout_ibtps_map_lem :
      (height : ℕ) (s : Store)
      → All
          (λ v. is_global_id v ≡ true → (info : TransactionInfo) × (s.global_tx_info v ≡ some info))
          (get_timeout_list height s)
      → All
          (λ w. (c : String) × (notify_chain n w.0 w.1 ≡ noted c))
          (notices s (get_timeout_list height s))
      → (m : IdsOfChains) × (get_timeout_ibtps_map n height s ≡ noted m)
        × ((c : String) → ids_of (lookup c m) ≡ ids_for c (notices s (get_timeout_list height s)))
  unfolding get_timeout_ibtps_map
  get_timeout_ibtps_map_lem height s infos chains =
      let (m, eq, told) = add_each-ids (notices s (get_timeout_list height s)) [] chains in
      (m, add_values-each s (get_timeout_list height s) [] infos ∙ eq, told)
