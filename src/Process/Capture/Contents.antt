-- ===== src/Process/Capture/Contents.antt =====
-- src/process/mod.rs, `copy_output`: what the output files hold.
use mathlib.Core.List.{append_assoc, append-nil}
use command_api.Prelude.{
  ℕ, zero, suc, ◌+◌, ◌-◌, ◌%◌, ◌^◌, ◌≤◌, ◌<◌, min, Text, Bool, true, false, ◌≡◌, refl, sym, ap, ◌∙◌,
  inl, inr, List, [], ◌∷◌, ◌++◌, if◌then◌else◌, ltb, take, take-all, length, Bool-cases, arith,
}
use command_api.Model.{OutputStream}
use command_api.Model
use command_api.Store.{TaskRecord, Write, whole, contents}
use command_api.Store.Output.{file_of}
use command_api.Process.Capture.{write_piece, copy_round, capture}
use command_api.Process.Capture.Bounds.{produced_bytes, AllWhole}

abbrev pub log_of : OutputStream → TaskRecord → Text
log_of x r = contents (file_of x r.directory)

abbrev is_same : OutputStream → OutputStream → Bool
is_same Model.stdout Model.stdout = true
is_same Model.stderr Model.stderr = true
is_same OutputStream.combined OutputStream.combined = true
is_same _ _ = false

-- What the task wrote to one stream.
abbrev pub produced : OutputStream → List (OutputStream × Text × Write) → Text
produced x [] = []
produced x ((y, piece, w) ∷ rest) = (if is_same x y then piece else []) ++ produced x rest

write_piece-log_of :
    (x y : OutputStream) (piece : Text) (r : TaskRecord)
    → log_of x (write_piece y piece whole r).0 ≡ log_of x r ++ (if is_same x y then piece else [])
unfolding write_piece
write_piece-log_of Model.stdout Model.stdout piece r = refl
write_piece-log_of Model.stderr Model.stderr piece r = refl
write_piece-log_of OutputStream.combined OutputStream.combined piece r = refl
write_piece-log_of x y piece r = sym (append-nil _)

write_piece-succeeds :
    (y : OutputStream) (piece : Text) (r : TaskRecord) → (write_piece y piece whole r).1 ≡ true
unfolding write_piece
write_piece-succeeds y piece r = refl

take-none : (n : ℕ) (piece : Text) → n ≡ 0 → take n piece ≡ []
take-none zero piece h = refl
take-none (suc n) piece h = absurd (omega arith)

if-nil : (b : Bool) → ◌≡◌ {A = Text} (if b then [] else []) []
if-nil true = refl
if-nil false = refl

-- A round appends what the limit still allows of its piece to the file of its stream.
copy_round-log_of :
    (limit : ℕ) (x y : OutputStream) (piece : Text) (r : TaskRecord)
    → log_of x (copy_round limit y piece whole r).0
      ≡ log_of x r
        ++ (if is_same x y then take (min (limit - r.captured_bytes) (length piece)) piece else [])
unfolding copy_round
copy_round-log_of limit x y piece r =
    let allowed = min (limit - r.captured_bytes) (length piece) in
    ground (
      arith,
      write_piece-log_of x y (take allowed piece)
          (record r { captured_bytes = (r.captured_bytes + length piece) % 2 ^ 64 }),
      write_piece-succeeds y (take allowed piece)
          (record r { captured_bytes = (r.captured_bytes + length piece) % 2 ^ 64 }),
      take-none allowed piece,
      append-nil (log_of x r),
    )

copy_round-captured :
    (limit : ℕ) (y : OutputStream) (piece : Text) (r : TaskRecord)
    → r.captured_bytes + length piece < 2 ^ 64
    → (copy_round limit y piece whole r).0.captured_bytes ≡ r.captured_bytes + length piece
unfolding copy_round write_piece
copy_round-captured limit Model.stdout piece r h = ground arith
copy_round-captured limit y piece r h = ground arith

take-length-add : (s t : Text) (n : ℕ) → take (length s + n) (s ++ t) ≡ s ++ take n t
take-length-add [] t n = let e : 0 + n ≡ n = omega arith in ap (λ k. take k t) e
take-length-add (y ∷ s) t n =
    let e : suc (length s) + n ≡ suc (length s + n) = omega arith in
    ap (λ k. take k (y ∷ (s ++ t))) e ∙ ap (◌∷◌ y) (take-length-add s t n)

take_within : (n : ℕ) (s t : Text) → n ≤ length s → take n (s ++ t) ≡ take n s
take_within zero s t h = refl
take_within (suc n) [] t h = absurd (omega arith)
take_within (suc n) (y ∷ s) t h = ap (◌∷◌ y) (take_within n s t (omega arith))

module _ (limit : ℕ) (x : OutputStream) where
  -- Output within the limit is stored whole: each file grows by exactly what the task wrote to its
  -- stream, in order, however the readers interleave, if every write succeeds.
  pub capture_complete :
      (r : TaskRecord) (rounds : List (OutputStream × Text × Write))
      → limit < 2 ^ 64
      → AllWhole rounds
      → r.captured_bytes + produced_bytes rounds ≤ limit
      → log_of x (capture limit r rounds) ≡ log_of x r ++ produced x rounds
  unfolding capture
  capture_complete r [] l a h = sym (append-nil _)
  capture_complete r ((y, piece, w) ∷ rest) l (e, a) h =
      let c = copy_round-captured limit y piece r (omega arith) in
      rw e (
        capture_complete (copy_round limit y piece whole r).0 rest l a (omega arith)
        ∙ ap (λ t. t ++ produced x rest) (copy_round-log_of limit x y piece r)
        ∙ append_assoc (log_of x r) _ (produced x rest)
        ∙ rw (take-all (min (limit - r.captured_bytes) (length piece)) piece (omega arith)))

  -- Past the limit nothing is stored.
  capture_full :
      (r : TaskRecord) (rounds : List (OutputStream × Text × Write))
      → AllWhole rounds
      → r.captured_bytes + produced_bytes rounds < 2 ^ 64
      → limit ≤ r.captured_bytes
      → log_of x (capture limit r rounds) ≡ log_of x r
  unfolding capture
  capture_full r [] a h l = refl
  capture_full r ((y, piece, w) ∷ rest) (e, a) h l =
      let c = copy_round-captured limit y piece r (omega arith) in
      rw e (
        capture_full (copy_round limit y piece whole r).0 rest a (omega arith) (omega arith)
        ∙ copy_round-log_of limit x y piece r
        ∙ rw (take-none (min (limit - r.captured_bytes) (length piece)) piece (omega arith), if-nil)
            (append-nil (log_of x r)))

  cut_short :
      (r : TaskRecord) (y : OutputStream) (piece more : Text)
      → (n : ℕ) × ((if is_same x y
            then take (min (limit - r.captured_bytes) (length piece)) piece
            else [])
          ≡ take n ((if is_same x y then piece else []) ++ more))
  cut_short r y piece more = elim (Bool-cases (is_same x y)) [
    | inl e ↦ (
      min (limit - r.captured_bytes) (length piece),
      rw e (
          sym
            (take_within (min (limit - r.captured_bytes) (length piece)) piece more (omega arith))),
    )
    | inr e ↦ (0, rw e)
  ]

  -- Each file grows by a prefix of what the task wrote to its stream: nothing is stored out of order
  -- or after a gap, however the readers interleave, if every write succeeds and the task produces
  -- fewer than 2^64 bytes.
  pub capture_prefix :
      (r : TaskRecord) (rounds : List (OutputStream × Text × Write))
      → AllWhole rounds
      → r.captured_bytes + produced_bytes rounds < 2 ^ 64
      → (n : ℕ) × (log_of x (capture limit r rounds) ≡ log_of x r ++ take n (produced x rounds))
  unfolding capture
  capture_prefix r [] a h = (0, sym (append-nil _))
  capture_prefix r ((y, piece, w) ∷ rest) (e, a) h =
      let c = copy_round-captured limit y piece r (omega arith) in
      let r' = (copy_round limit y piece whole r).0 in
      elim (Bool-cases (ltb limit (r.captured_bytes + length piece))) [
        | inl over ↦
            let (n, cut) = cut_short r y piece (produced x rest) in
            (
              n,
              rw e (
                  capture_full r' rest a (omega arith) (ground arith)
                  ∙ copy_round-log_of limit x y piece r
                  ∙ ap (◌++◌ (log_of x r)) cut),
            )
        | inr under ↦
            let (n, grown) = capture_prefix r' rest a (omega arith) in
            let own : Text = if is_same x y then piece else [] in
            (
              length own + n,
              rw e (
                  grown
                  ∙ ap (λ t. t ++ take n (produced x rest))
                      (copy_round-log_of limit x y piece r
                        ∙ rw (
                            take-all (min (limit - r.captured_bytes) (length piece)) piece
                              (ground arith)))
                  ∙ append_assoc (log_of x r) own (take n (produced x rest))
                  ∙ ap (◌++◌ (log_of x r)) (sym (take-length-add own (produced x rest) n))),
            )
      ]
