-- ===== src/Ledger/Rows.antt =====
-- revertJournal of internal/ledger/block_journal.go undoes what Commit of
-- internal/ledger/state_accessor.go writes of one account.
use model_lib.Base.{
  some-injective, ◌≡◌, refl, ap, ◌∙◌, subst, String, false, not, List, [], ◌∷◌, Option, none, some,
  str_eq, eq_iff, if◌then◌else◌, arith, inl, inr, Bool-cases, Option-cases, has_key, Distinct, All,
}
use model_lib.Ledger.State.{InnerAccount, SimpleAccount}
use model_lib.Ledger.Journals.{
  Row, Touched, same_bytes, load, get_state_journal, Changed, entry_of, commit_states, commit_code,
  commit_inner, commit_row, revert_states, revert_row,
}

-- The original states of an account are those of the database.
abbrev pub OriginStates : SimpleAccount → (String → Option String) → List String → Type 0
OriginStates a m keys = All (λ key. load (a.origin_state key) ≡ m key) keys

not_key :
    (key j : String) (keys : List String)
    → has_key j (key ∷ keys) ≡ false
    → (str_eq key j ≡ false) × (has_key j keys ≡ false)
unfolding has_key
not_key key j keys h = (ground (arith, h), ground (arith, h))

commit_states-other :
    (a : SimpleAccount) (keys : List String) (m : String → Option String) (j : String)
    → has_key j keys ≡ false
    → commit_states a keys m j ≡ m j
unfolding commit_states has_key
commit_states-other a [] m j h = refl
commit_states-other a (key ∷ keys) m j h = ground (
  arith,
  commit_states-other a keys m j,
  commit_states-other a keys (λ x. if str_eq key x then load (a.dirty_state key) else m x) j,
)

revert_states-at :
    (ps : List (String × Option String)) (m m' : String → Option String) (j : String)
    → m j ≡ m' j
    → revert_states ps m j ≡ revert_states ps m' j
unfolding revert_states
revert_states-at [] m m' j h = h
revert_states-at (p ∷ ps) m m' j h =
    revert_states-at ps _ _ j (ap (λ x. if str_eq p.0 j then p.1 else x) h)

revert_states-other :
    (a : SimpleAccount) (keys : List String) (m : String → Option String) (j : String)
    → has_key j keys ≡ false
    → revert_states (get_state_journal a keys) m j ≡ m j
unfolding revert_states get_state_journal has_key
revert_states-other a [] m j h = refl
revert_states-other a (key ∷ keys) m j h =
    let (n, rest) = not_key key j keys h in
    elim (Bool-cases (same_bytes (load (a.origin_state key)) (load (a.dirty_state key)))) [
      | inl s ↦ rw s (revert_states-other a keys m j rest)
      | inr s ↦ rw s (revert_states-other a keys _ j rest ∙ (rw n refl))
    ]

OriginStates-other :
    (a : SimpleAccount) (key : String) (value : Option String) (keys : List String)
    (m : String → Option String)
    → has_key key keys ≡ false
    → OriginStates a m keys
    → OriginStates a (λ x. if str_eq key x then value else m x) keys
unfolding has_key
OriginStates-other a key value [] m h o = tt
OriginStates-other a key value (k ∷ keys) m h o =
    ground (arith, OriginStates-other a key value keys m, eq_iff key k, eq_iff k key)

revert-commit_states :
    (a : SimpleAccount) (keys : List String) (m : String → Option String) (j : String)
    → Distinct keys
    → OriginStates a m keys
    → revert_states (get_state_journal a keys) (commit_states a keys m) j ≡ m j
unfolding revert_states get_state_journal commit_states Distinct
revert-commit_states a [] m j d o = refl
revert-commit_states a (key ∷ keys) m j d o =
    let later : String → Option String =
      λ y. if str_eq key y then load (a.dirty_state key) else m y in
    elim (Bool-cases (same_bytes (load (a.origin_state key)) (load (a.dirty_state key)))) [
      | inl s ↦ rw s (revert-commit_states a keys m j d.1 o.1)
      | inr s ↦ rw s (elim (Bool-cases (str_eq key j)) [
        | inl b ↦
            let same : key ≡ j = (eq_iff key j).0 b in
            revert_states-other a keys _ j (subst (λ x. has_key x keys ≡ false) same d.0)
            ∙ (rw b (o.0 ∙ ap m same))
        | inr b ↦
            revert_states-at (get_state_journal a keys) _ _ j (rw b refl)
            ∙ (revert-commit_states a keys later j d.1
                  (OriginStates-other a key (load (a.dirty_state key)) keys m d.0 o.1)
                ∙ (rw b refl))
      ])
    ]

-- What the account remembers of the database is what the database has.
unfoldable pub Faithful : Touched → Row → Type 0
unfolding load has_key Distinct
Faithful t r =
    (t.account.origin_account ≡ r.inner)
    × (t.account.origin_code ≡ r.code)
    × Distinct t.keys
    × OriginStates t.account r.states t.keys

revert-commit_inner :
    (changed : Changed) (a : SimpleAccount) (old new : Option InnerAccount)
    → a.origin_account ≡ old
    → commit_inner changed a old ≡ some new
    → (if changed a.origin_account a.dirty_account
        then (if changed a.origin_account a.dirty_account then a.origin_account else none)
        else new)
      ≡ old
unfolding commit_inner
revert-commit_inner changed a old new o e =
    elim (Bool-cases (changed a.origin_account a.dirty_account)) [
      | inl b ↦ rw b o
      | inr b ↦ rw b (ground (arith, e, b))
    ]

revert-commit_code :
    (a : SimpleAccount) (old new : Option String)
    → a.origin_code ≡ old
    → commit_code a old ≡ some new
    → (if not (same_bytes a.origin_code a.dirty_code)
        then (if not (same_bytes a.origin_code a.dirty_code) then a.origin_code else none)
        else new)
      ≡ old
unfolding commit_code
revert-commit_code a old new o e = elim (Bool-cases (same_bytes a.origin_code a.dirty_code)) [
  | inr b ↦ rw b o
  | inl b ↦ rw b (ground (arith, e, b))
]

-- The journal of an account undoes what is committed of it, where the account is faithful to the
-- database (Faithful): its origin account and its origin code are what the database has, the keys that
-- it has written occur once each, and the origin value of each of them, nil where none was loaded, is
-- what the database has.
pub revert-commit_row :
    (changed : Changed) (t : Touched) (r r' : Row)
    → Faithful t r
    → commit_row changed t r ≡ some r'
    → revert_row (entry_of changed t) r' ≡ r
unfolding Faithful commit_row revert_row entry_of
revert-commit_row changed t r r' (inner, code, d, states) e =
    elim (Option-cases (commit_inner changed t.account r.inner)) [
      | inl n ↦ absurd (ground (arith, e, n))
      | inr (i, f) ↦ elim (Option-cases (commit_code t.account r.code)) [
        | inl n ↦ absurd (ground (arith, e, f, n))
        | inr (c, g) ↦
            let made : record {
              inner = i;
              code = c;
              states = commit_states t.account t.keys r.states;
            }
                ≡ r' =
              some-injective (rw (commit_row, f, g) at e) in
            subst (λ x. revert_row (entry_of changed t) x ≡ r) made
              (λ k. record {
                inner = revert-commit_inner changed t.account r.inner i inner f k;
                code = revert-commit_code t.account r.code c code g k;
                states = λ j. revert-commit_states t.account t.keys r.states j d states k;
              })
      ]
    ]
