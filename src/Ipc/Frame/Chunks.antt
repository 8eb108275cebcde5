-- ===== src/Ipc/Frame/Chunks.antt =====
-- ReadFrame against a description of it that knows nothing of the buffer.
use mathlib.Core.Path.{subst}
use offbeat.Ipc.Frame.{
  read_frame, read_frame_loop, finish_frame, frame_step, without_last, ending_error, buffer_full,
  message_too_large, delimiter, max_message_bytes, frame_newline, Frame, Slice, Ending, SliceEnd,
  read_slice, ended,
}
use mathlib.Core.List.{append_assoc}
use offbeat.Prelude.{
  sym, ◌∙◌, length-append, arith, ◌&&◌, ◌≤◌, Bool, refl, true, ◌<◌, ◌+◌, ok, zero, inr, ==_iff, err,
  ap, length, [], false, inl, ltb, Bool-cases, if◌then◌else◌, some, none, ◌++◌, ◌==◌, ◌∷◌, Option,
  suc, List, ℕ, ◌≡◌,
}

-- The bytes before the first newline, and those behind it if there is one.
unfoldable pub split_line : List ℕ → List ℕ × Option (List ℕ)
split_line [] = ([], none)
split_line (b ∷ bs) =
    let (before, behind) = split_line bs in
    if b == frame_newline then ([], some bs) else (b ∷ before, behind)

-- The frame that the bytes hold behind those in `buf`.
unfoldable pub framed : Ending → List ℕ → List ℕ × Option (List ℕ) → Frame
framed ending buf (before, some rest) =
    if ltb max_message_bytes (length (buf ++ before))
    then err message_too_large
    else ok (buf ++ before, rest)
framed ending buf (before, none) =
    if ltb (max_message_bytes + 1) (length (buf ++ before))
    then err message_too_large
    else err (ending_error ending)

-- What one slice says of the split of all the bytes.
abbrev Sliced : SliceEnd → ℕ → List ℕ → Slice → Type 0
Sliced delimiter size bytes s =
    (before : List ℕ) × (s.line ≡ before ++ frame_newline ∷ [])
    × (split_line bytes ≡ (before, some s.rest))
Sliced buffer_full size bytes s =
    (length s.line ≡ size)
    × (bytes ≡ s.line ++ s.rest)
    × (split_line bytes ≡ (s.line ++ (split_line s.rest).0, (split_line s.rest).1))
Sliced ended size bytes s = split_line bytes ≡ (s.line, none)

Sliced-cons :
    (b : ℕ) (room : ℕ) (bytes : List ℕ) (e : SliceEnd) (s : Slice)
    → (b == frame_newline) ≡ false
    → Sliced e room bytes s
    → Sliced e (suc room) (b ∷ bytes) (record s { line = b ∷ s.line })
unfolding split_line
Sliced-cons b room bytes delimiter s n (before, l, p) =
    (b ∷ before, ap (λ x. b ∷ x) l, rw n (rw p refl))
Sliced-cons b room bytes buffer_full s n (l, a, p) = (ap suc l, ap (λ x. b ∷ x) a, rw n (rw p refl))
Sliced-cons b room bytes ended s n p = rw n (rw p refl)

read_slice-Sliced :
    (size : ℕ) (bytes : List ℕ)
    → Sliced (read_slice size bytes).slice_end size bytes (read_slice size bytes)
unfolding read_slice
read_slice-Sliced zero bytes = (refl, refl, refl)
read_slice-Sliced (suc room) [] = unfold split_line in refl
read_slice-Sliced (suc room) (b ∷ bytes) = elim (Bool-cases (b == frame_newline)) [
  | inl e ↦
      rw e ([], ap (λ x. x ∷ []) ((==_iff b frame_newline).0 e), unfold split_line in rw e refl)
  | inr e ↦ rw e (
      Sliced-cons b room bytes (read_slice room bytes).slice_end (read_slice room bytes) e
        (read_slice-Sliced room bytes))
]

without_last-append : (xs : List ℕ) (b : ℕ) → without_last (xs ++ b ∷ []) ≡ xs
unfolding without_last
without_last-append [] b = refl
without_last-append (x ∷ []) b = refl
without_last-append (x ∷ y ∷ xs) b = ap (λ zs. x ∷ zs) (without_last-append (y ∷ xs) b)

framed_moved :
    (ending : Ending) (buf line before : List ℕ) (behind : Option (List ℕ))
    → framed ending (buf ++ line) (before, behind) ≡ framed ending buf (line ++ before, behind)
unfolding framed
framed_moved ending buf line before (some rest) = rw (append_assoc buf line before) refl
framed_moved ending buf line before none = rw (append_assoc buf line before) refl

-- Bytes beyond the bound are too many, wherever the newline is.
framed_large :
    (ending : Ending) (buf line before : List ℕ) (behind : Option (List ℕ))
    → max_message_bytes + 1 < length buf + length line
    → framed ending buf (line ++ before, behind) ≡ err message_too_large
unfolding framed
framed_large ending buf line before (some rest) h =
    ground (arith, length-append buf (line ++ before), length-append line before)
framed_large ending buf line before none h =
    ground (arith, length-append buf (line ++ before), length-append line before)

abbrev is_over : List ℕ → Slice → Bool
is_over buf s = ltb 0 (length s.line) && ltb (max_message_bytes + 1) (length buf + length s.line)

-- One round, of which the next one is right.
module _ (ending : Ending) (buf : List ℕ) (size : ℕ) (bytes : List ℕ) where
  over_large :
      (e : SliceEnd) (s : Slice)
      → Sliced e size bytes s
      → is_over buf s ≡ true
      → framed ending buf (split_line bytes) ≡ err message_too_large
  over_large delimiter s (before, l, p) h = rw p (
      unfold framed in
      ground
        (arith, ap length l, length-append before (frame_newline ∷ []), length-append buf before))
  over_large buffer_full s (l, a, p) h =
      rw p
        (framed_large ending buf s.line (split_line s.rest).0 (split_line s.rest).1 (ground arith))
  over_large ended s p h = rw p (unfold framed in ground (arith, length-append buf s.line))

  step_right :
      (again : List ℕ → List ℕ → Option Frame) (e : SliceEnd) (s : Slice)
      → Sliced e size bytes s
      → length buf ≤ max_message_bytes + 1
      → is_over buf s ≡ false
      → (e ≡ buffer_full
          → again (buf ++ s.line) s.rest ≡ some (framed ending (buf ++ s.line) (split_line s.rest)))
      → frame_step again ending buf e s ≡ some (framed ending buf (split_line bytes))
  unfolding frame_step
  step_right again delimiter s (before, l, p) k h next = rw p (
      rw l (
        rw (← append_assoc buf before (frame_newline ∷ [])) (
          rw (without_last-append (buf ++ before) frame_newline)
            (unfold finish_frame framed in refl))))
  step_right again buffer_full s (l, a, p) k h next =
      next refl
      ∙ ap some (framed_moved ending buf s.line (split_line s.rest).0 (split_line s.rest).1)
      ∙ ap (λ x. some (framed ending buf x)) (sym p)
  step_right again ended s p k h next =
      rw p (unfold framed in ground (arith, length-append buf s.line))

loop_right :
    (fuel size : ℕ) (ending : Ending) (buf bytes : List ℕ)
    → 0 < size
    → length bytes < fuel
    → length buf ≤ max_message_bytes + 1
    → read_frame_loop fuel size ending buf bytes ≡ some (framed ending buf (split_line bytes))
unfolding read_frame_loop
loop_right zero size ending buf bytes z h k = elim h [ ]
loop_right (suc fuel) size ending buf bytes z h k =
    let s = read_slice size bytes in
    let sliced = read_slice-Sliced size bytes in
    elim (Bool-cases (is_over buf s)) [
      | inl e ↦ rw e (ap some (sym (over_large ending buf size bytes s.slice_end s sliced e)))
      | inr e ↦ rw e (
          step_right ending buf size bytes (λ b r. read_frame_loop fuel size ending b r) s.slice_end
            s sliced k e
            (λ full.
              let (l, a, p) = subst (λ x. Sliced x size bytes s) full sliced in
              loop_right fuel size ending (buf ++ s.line) s.rest z
                (omega (arith, ap length a, length-append s.line s.rest))
                (ground (arith, length-append buf s.line))))
    ]

-- With a buffer of at least one byte ReadFrame always ends, and whatever the buffer's size its
-- result is that of splitting all the bytes at the first newline: the bytes before it and those
-- behind it, or an error if the frame is too large or the connection ends without a newline.
pub read_frame-framed :
    (size : ℕ) (ending : Ending) (bytes : List ℕ)
    → 0 < size
    → read_frame size ending bytes ≡ some (framed ending [] (split_line bytes))
unfolding read_frame
read_frame-framed size ending bytes z =
    loop_right (length bytes + 1) size ending [] bytes z (omega arith) (omega arith)
