-- ===== src/Store/Laws.antt =====
-- src/store.rs: the table of tasks under its operations.
use command_api.Prelude.{
  ℕ, ◌∙◌, ◌≡◌, refl, inl, inr, none, some, List, [], ◌∷◌, lookup, insert, remove, lookup-insert,
  lookup-remove, nat_eq, ◌==◌, if◌then◌else◌, Option-cases, Bool-cases, arith,
}
use command_api.Model.{StopReason, is_finished}
use command_api.Store.{
  TaskRecord, TaskStore, get, put, request_stop_now, cancel_all, cancel_record, cancel_records,
}

-- Every task stands once in the table, under its own id.
abbrev pub IsKeyed : List (ℕ × TaskRecord) → Type 0
IsKeyed [] = Unit {0}
IsKeyed ((id, r) ∷ rest) = (r.id ≡ id) × (lookup id rest ≡ none) × IsKeyed rest

pub get-put :
    (s : TaskStore) (r : TaskRecord) (id : ℕ)
    → get (put s r) id ≡ (if r.id == id then some r else get s id)
unfolding get put
get-put s r id = lookup-insert r.id id r s.tasks

lookup-id :
    (id : ℕ) (r : TaskRecord) (l : List (ℕ × TaskRecord))
    → IsKeyed l
    → lookup id l ≡ some r
    → r.id ≡ id
unfolding lookup
lookup-id id r [] k e = cc
lookup-id id r ((j, q) ∷ rest) (here, apart, k) e = elim (Bool-cases (j == id)) [
  | inl same ↦ let found : some q ≡ some r = rw same at e in ground (arith, here)
  | inr other ↦ lookup-id id r rest k (rw other at e)
]

pub get-id :
    (s : TaskStore) (id : ℕ) (r : TaskRecord) → IsKeyed s.tasks → get s id ≡ some r → r.id ≡ id
unfolding get
get-id s id r k e = lookup-id id r s.tasks k e

pub remove-IsKeyed : (id : ℕ) (l : List (ℕ × TaskRecord)) → IsKeyed l → IsKeyed (remove id l)
unfolding remove
remove-IsKeyed id [] k = tt
remove-IsKeyed id ((j, r) ∷ rest) k =
    ground (arith, remove-IsKeyed id rest k.2, lookup-remove id j rest)

pub put-IsKeyed : (s : TaskStore) (r : TaskRecord) → IsKeyed s.tasks → IsKeyed (put s r).tasks
unfolding put insert
put-IsKeyed s r k =
    (refl, ground (arith, lookup-remove r.id r.id s.tasks), remove-IsKeyed r.id s.tasks k)

cancel_records-lookup :
    (reason : StopReason) (id : ℕ) (l : List (ℕ × TaskRecord))
    → lookup id (cancel_records reason l)
      ≡ (elim (lookup id l) [ none ↦ none | some r ↦ some (cancel_record reason r) ])
unfolding lookup cancel_records
cancel_records-lookup reason id [] = refl
cancel_records-lookup reason id ((j, r) ∷ rest) =
    ground (arith, cancel_records-lookup reason id rest)

-- After `cancel_all` every task that had not finished carries the reason, every other task is as it
-- was, and no task is added or lost.
pub cancel_all-get :
    (s : TaskStore) (reason : StopReason) (id : ℕ)
    → get (cancel_all s reason) id ≡ (elim (get s id) [
      | none ↦ none
      | some r ↦ some (if is_finished r.state.status then r else request_stop_now reason r)
    ])
unfolding get cancel_all cancel_record
cancel_all-get s reason id =
    cancel_records-lookup reason id s.tasks ∙ elim (Option-cases (lookup id s.tasks)) [
      | inl n ↦ rw n refl
      | inr (r, f) ↦ rw f (ground arith)
    ]

cancel_records-IsKeyed :
    (reason : StopReason) (l : List (ℕ × TaskRecord))
    → IsKeyed l
    → IsKeyed (cancel_records reason l)
unfolding cancel_records cancel_record request_stop_now
cancel_records-IsKeyed reason [] k = tt
cancel_records-IsKeyed reason ((id, r) ∷ rest) (here, apart, k) = (
  ground arith,
  cancel_records-lookup reason id rest ∙ rw apart refl,
  cancel_records-IsKeyed reason rest k,
)

pub cancel_all-IsKeyed :
    (reason : StopReason) (s : TaskStore) → IsKeyed s.tasks → IsKeyed (cancel_all s reason).tasks
unfolding cancel_all
cancel_all-IsKeyed reason s k = cancel_records-IsKeyed reason s.tasks k
