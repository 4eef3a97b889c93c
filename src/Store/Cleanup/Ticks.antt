-- ===== src/Store/Cleanup/Ticks.antt =====
-- src/store.rs, `spawn_cleanup`: the cleanup at every tick of its timer.
use command_api.Prelude.{
  ℕ, ◌^◌, ◌≤◌, ◌<◌, Text, Bool, true, false, ◌≡◌, refl, ap, ◌∙◌, Option, none, some, List, [], ◌∷◌,
  arith, Option-cases, inl, inr, sym,
}
use command_api.Model.{Parse}
use command_api.Store.{TaskRecord, TaskStore, get}
use command_api.Store.Laws.{IsKeyed}
use command_api.Store.Cleanup.{cleanup_expired}
use command_api.Store.Cleanup.Laws.{
  cleanup_expired_lem, cleanup_expired-same, unless_aged, is_aged, kept,
}

-- The clock at each tick until the task is aborted.
unfoldable pub spawn_cleanup : Parse → (ticks : List ℕ) → TaskStore → TaskStore
unfolding cleanup_expired
spawn_cleanup parse [] s = s
spawn_cleanup parse (now ∷ ticks) s = spawn_cleanup parse ticks (cleanup_expired parse now s)

-- Old stays old.
is_aged_later :
    (parse : Parse) (now later retention : ℕ) (o : Option Text)
    → now ≤ later
    → is_aged parse now retention o ≡ true
    → is_aged parse later retention o ≡ true
is_aged_later parse now later retention none h e = cc
is_aged_later parse now later retention (some t) h e = elim (Option-cases (parse t)) [
  | inl n ↦ cc (rw n at e)
  | inr (f, n) ↦ let old = rw n at e in rw n (ground (arith, old))
]

aged_later :
    (parse : Parse) (now later retention : ℕ) (o : Option TaskRecord)
    → now ≤ later
    → unless_aged parse later retention (unless_aged parse now retention o)
      ≡ unless_aged parse later retention o
aged_later parse now later retention none h = refl
aged_later parse now later retention (some r) h =
    by_age (is_aged parse now retention r.state.finished_at)
      (is_aged_later parse now later retention r.state.finished_at h)
  where
    by_age :
        (old : Bool)
        → (old ≡ true → is_aged parse later retention r.state.finished_at ≡ true)
        → unless_aged parse later retention (kept old r)
          ≡ kept (is_aged parse later retention r.state.finished_at) r
    by_age true stays = ap (λ b. kept b r) (sym (stays refl))
    by_age false stays = refl

-- The clocks of the ticks do not go back.
abbrev pub Ascends : ℕ → List ℕ → Type 0
Ascends now [] = Unit {0}
Ascends now (later ∷ ticks) = (now ≤ later) × Ascends later ticks

unfoldable pub last_tick : ℕ → List ℕ → ℕ
last_tick now [] = now
last_tick now (later ∷ ticks) = last_tick later ticks

last_later :
    (now later : ℕ) (ticks : List ℕ)
    → now ≤ later
    → Ascends later ticks
    → now ≤ last_tick later ticks
unfolding last_tick
last_later now later [] h up = h
last_later now later (next ∷ ticks) h (step, up) =
    last_later now next ticks (omega (arith, h, step)) up

-- With a retention of 1 to 2^63 - 1 seconds and clocks that do not go back, the ticks of the cleanup
-- leave what the last of them alone would leave: no task that is kept at the last tick is lost at an
-- earlier one, and none that is old is kept.
pub spawn_cleanup_last :
    (parse : Parse) (now : ℕ) (ticks : List ℕ) (s : TaskStore) (id : ℕ)
    → IsKeyed s.tasks
    → 0 < s.retention_seconds
    → s.retention_seconds < 2 ^ 63
    → Ascends now ticks
    → get (spawn_cleanup parse (now ∷ ticks) s) id
      ≡ unless_aged parse (last_tick now ticks) s.retention_seconds (get s id)
unfolding spawn_cleanup last_tick
spawn_cleanup_last parse now [] s id k positive small up =
    cleanup_expired_lem parse now s id k positive small
spawn_cleanup_last parse now (later ∷ ticks) s id k positive small (h, up) =
    let t = cleanup_expired parse now s in
    let (count, retention, keyed) = cleanup_expired-same parse now s k in
    spawn_cleanup_last parse later ticks t id keyed (rw retention positive) (rw retention small) up
    ∙ rw (retention, cleanup_expired_lem parse now s id k positive small)
        (aged_later parse now (last_tick later ticks) s.retention_seconds (get s id)
          (last_later now later ticks h up))
