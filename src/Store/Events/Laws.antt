-- ===== src/Store/Events/Laws.antt =====
-- Reading back an event log to which whole or torn lines have been appended.
use command_api.Prelude.{
  ℕ, Text, true, false, ◌||◌, ◌≡◌, ◌≢◌, refl, sym, ap, ◌∙◌, inl, inr, Option, none, some, List, [],
  ◌∷◌, ◌++◌, ok, ◌>>=◌, ◌==◌, push_head, ends_with, contains, is_empty, Bool-cases, arith,
}
use command_api.Model.{TaskSnapshot}
use command_api.Store.{contents}
use command_api.Store.Events.{
  Utf8, start, within, utf8_step, utf8_from, is_utf8, lines, trim_line, or_else, read_lines,
  read_latest_snapshot,
}

-- Only whole lines.
abbrev pub IsWhole : Text → Type 0
IsWhole s = (is_empty s || ends_with 10 s) ≡ true

push_head-append :
    (x : ℕ) (ls ms : List Text) → ls ≢ [] → push_head x (ls ++ ms) ≡ push_head x ls ++ ms
push_head-append x [] ms h = absurd (h refl)
push_head-append x (l ∷ ls) ms h = refl

push_head-ne-nil : (x : ℕ) (ls : List Text) → push_head x ls ≢ []
push_head-ne-nil x [] h = cc
push_head-ne-nil x (l ∷ ls) h = cc

lines-ne-nil : (x : ℕ) (xs : Text) → lines (x ∷ xs) ≢ []
unfolding lines
lines-ne-nil x xs h = elim (Bool-cases (x == 10)) [
  | inl e ↦ cc (rw (e, lines) at h)
  | inr e ↦ push_head-ne-nil x (lines xs) (rw e at h)
]

lines-append : (log rest : Text) → IsWhole log → lines (log ++ rest) ≡ lines log ++ lines rest
unfolding lines
lines-append [] rest h = refl
lines-append (x ∷ []) rest h = ground arith
lines-append (x ∷ y ∷ xs) rest h = ground (
  arith,
  lines-append (y ∷ xs) rest h,
  lines-ne-nil y xs,
  push_head-append x (lines (y ∷ xs)) (lines rest),
)

pub lines_one : (s : Text) → contains 10 s ≡ false → lines (s ++ 10 ∷ []) ≡ (s ++ 10 ∷ []) ∷ []
unfolding lines
lines_one [] h = refl
lines_one (x ∷ xs) h = ground (arith, lines_one xs)

pub lines_torn : (x : ℕ) (s : Text) → contains 10 (x ∷ s) ≡ false → lines (x ∷ s) ≡ (x ∷ s) ∷ []
unfolding lines
lines_torn x [] h = ground arith
lines_torn x (y ∷ s) h = ground (arith, lines_torn y s)

pub trim_line_one : (s : Text) → ends_with 13 s ≡ false → trim_line (s ++ 10 ∷ []) ≡ s
unfolding trim_line
trim_line_one [] h = refl
trim_line_one (x ∷ []) h = ground arith
trim_line_one (x ∷ y ∷ []) h = ap (◌∷◌ x) (trim_line_one (y ∷ []) h)
trim_line_one (x ∷ y ∷ z ∷ s) h = ap (◌∷◌ x) (trim_line_one (y ∷ z ∷ s) h)

pub trim_line_torn : (s : Text) → contains 10 s ≡ false → trim_line s ≡ s
unfolding trim_line
trim_line_torn [] h = refl
trim_line_torn (x ∷ []) h = ground arith
trim_line_torn (x ∷ y ∷ []) h = ground arith
trim_line_torn (x ∷ y ∷ z ∷ s) h = ap (◌∷◌ x) (trim_line_torn (y ∷ z ∷ s) (ground arith))

utf8_from-newline :
    (u : Option Utf8) (s : Text) → utf8_from u s ≡ true → utf8_from u (s ++ 10 ∷ []) ≡ true
unfolding utf8_from utf8_step
utf8_from-newline none s h = cc
utf8_from-newline (some start) [] h = refl
utf8_from-newline (some (within n lo hi)) [] h = cc
utf8_from-newline (some start) (b ∷ s) h = utf8_from-newline (utf8_step start b) s h
utf8_from-newline (some (within n lo hi)) (b ∷ s) h =
    utf8_from-newline (utf8_step (within n lo hi) b) s h

pub is_utf8-newline : (s : Text) → is_utf8 s ≡ true → is_utf8 (s ++ 10 ∷ []) ≡ true
unfolding is_utf8
is_utf8-newline s h = utf8_from-newline (some start) s h

module _ (from_str : Text → Option TaskSnapshot) where
  read_lines-append :
      (latest : Option TaskSnapshot) (ls ms : List Text)
      → read_lines from_str latest (ls ++ ms)
        ≡ (read_lines from_str latest ls >>= λ found. read_lines from_str found ms)
  unfolding read_lines
  read_lines-append latest [] ms = refl
  read_lines-append latest (l ∷ ls) ms =
      ground (arith, read_lines-append (or_else (from_str (trim_line l)) latest) ls ms)

  -- A log of whole lines, in which the last snapshot is `latest`.
  abbrev pub IsLog : Option Text → Option TaskSnapshot → Type 0
  IsLog file latest = IsWhole (contents file) × (read_latest_snapshot from_str file ≡ ok latest)

  read_latest-contents :
      (file : Option Text)
      → read_latest_snapshot from_str file ≡ read_lines from_str none (lines (contents file))
  unfolding read_latest_snapshot
  read_latest-contents none = refl
  read_latest-contents (some t) = refl

  -- What is read after more bytes have been appended.
  pub read_latest-append :
      (file : Option Text) (latest : Option TaskSnapshot) (rest : Text)
      → IsLog file latest
      → read_latest_snapshot from_str (some (contents file ++ rest))
        ≡ read_lines from_str latest (lines rest)
  read_latest-append file latest rest (w, e) =
      read_latest-contents (some (contents file ++ rest))
      ∙ ap (read_lines from_str none) (lines-append (contents file) rest w)
      ∙ read_lines-append none (lines (contents file)) (lines rest)
      ∙ ap (λ m. m >>= λ found. read_lines from_str found (lines rest))
          (sym (read_latest-contents file) ∙ e)
