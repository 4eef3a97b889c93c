-- ===== src/Runtime/Lock/Laws.antt =====
-- src/runtime.rs: whether a restart gets the lock of the directory of logs.
use command_api.Prelude.{
  ℕ, zero, suc, ◌+◌, ◌^◌, ◌<◌, true, false, ◌≡◌, refl, sym, List, [], ◌∷◌, ◌++◌, arith,
}
use command_api.Store.{TaskStore, mark_finished, is_idle}
use command_api.Runtime.Lock.{
  Executor, working, finished, Phase, waiting, saw_idle, let_go, opened, Holders, Step, mark,
  drop_arc, see_idle, drop_store, open_again, all_working, at_work, is_free, Reachable, start, step,
}

-- What a phase says about the executors: once the runtime goes on no task is at work, and once it has
-- the lock nobody else has the old store.
abbrev pub Fits : Phase → List Executor → Type 0
Fits waiting l = Unit {0}
Fits saw_idle l = at_work l ≡ 0
Fits let_go l = at_work l ≡ 0
Fits (opened true) l = l ≡ []
Fits (opened false) l = at_work l ≡ 0

pub record IsExclusive (h : Holders) : Type 0 where
  pub counted : h.store.active_count ≡ at_work h.executors
  pub small : h.store.active_count < 2 ^ 64
  pub fits : Fits h.phase h.executors

at_work-++ : (a b : List Executor) → at_work (a ++ b) ≡ at_work a + at_work b
unfolding at_work
at_work-++ [] b = omega arith
at_work-++ (working ∷ a) b = omega (arith, at_work-++ a b)
at_work-++ (finished ∷ a) b = at_work-++ a b

pub at_work-all_working : (n : ℕ) → at_work (all_working n) ≡ n
unfolding at_work all_working
at_work-all_working zero = refl
at_work-all_working (suc n) = omega (arith, at_work-all_working n)

not_empty : (a b : List Executor) (e : Executor) → a ++ e ∷ b ≡ [] → ⊥
not_empty [] b e h = cc
not_empty (x ∷ a) b e h = cc

pub at_work-working :
    (a b : List Executor) → at_work (a ++ working ∷ b) ≡ at_work (a ++ finished ∷ b) + 1
unfolding at_work
at_work-working a b = omega (arith, at_work-++ a (working ∷ b), at_work-++ a (finished ∷ b))

at_work-finished : (a b : List Executor) → at_work (a ++ finished ∷ b) ≡ at_work (a ++ b)
unfolding at_work
at_work-finished a b = omega (arith, at_work-++ a (finished ∷ b), at_work-++ a b)

mark-Fits :
    (p : Phase) (a b : List Executor) → Fits p (a ++ working ∷ b) → Fits p (a ++ finished ∷ b)
mark-Fits waiting a b h = tt
mark-Fits saw_idle a b h = omega (arith, at_work-working a b)
mark-Fits let_go a b h = omega (arith, at_work-working a b)
mark-Fits (opened true) a b h = elim (not_empty a b working h) [ ]
mark-Fits (opened false) a b h = omega (arith, at_work-working a b)

drop-Fits : (p : Phase) (a b : List Executor) → Fits p (a ++ finished ∷ b) → Fits p (a ++ b)
drop-Fits waiting a b h = tt
drop-Fits saw_idle a b h = omega (arith, at_work-finished a b)
drop-Fits let_go a b h = omega (arith, at_work-finished a b)
drop-Fits (opened true) a b h = elim (not_empty a b finished h) [ ]
drop-Fits (opened false) a b h = omega (arith, at_work-finished a b)

open-Fits : (l : List Executor) → at_work l ≡ 0 → Fits (opened (is_free let_go l)) l
unfolding is_free
open-Fits [] h = refl
open-Fits (e ∷ rest) h = h

Step-IsExclusive : {g h : Holders} → Step g h → IsExclusive g → IsExclusive h
unfolding mark_finished is_idle
Step-IsExclusive (mark {phase = phase} before after) x = record {
  counted = ground (arith, x.counted, x.small, at_work-working before after);
  small = omega arith;
  fits = mark-Fits phase before after x.fits;
}
Step-IsExclusive (drop_arc {phase = phase} before after) x = record {
  counted = omega (arith, x.counted, at_work-finished before after);
  small = x.small;
  fits = drop-Fits phase before after x.fits;
}
Step-IsExclusive (see_idle idle) x = record {
  counted = x.counted;
  small = x.small;
  fits = ground (arith, x.counted);
}
Step-IsExclusive drop_store x = record { counted = x.counted; small = x.small; fits = x.fits }
Step-IsExclusive (open_again {executors = l}) x = record {
  counted = x.counted;
  small = x.small;
  fits = open-Fits l x.fits;
}

pub Reachable-IsExclusive : (s : TaskStore) (h : Holders) → Reachable s h → IsExclusive h
Reachable-IsExclusive s _ (start executors small counted) = record {
  counted = sym counted;
  small = small;
  fits = tt;
}
Reachable-IsExclusive s h (step {a = g} r t) = Step-IsExclusive t (Reachable-IsExclusive s g r)
