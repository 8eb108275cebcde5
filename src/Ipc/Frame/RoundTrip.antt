-- ===== src/Ipc/Frame/RoundTrip.antt =====
-- What WriteFrame writes, ReadFrame reads.
use offbeat.Ipc.Frame.{max_message_bytes, frame_newline, read_frame, Ending, write_frame}
use offbeat.Ipc.Frame.Chunks.{framed, read_frame-framed, split_line}
use mathlib.Core.List.{append_assoc}
use offbeat.Prelude.{
  inr, ==_iff, inl, none, Bool-cases, Option, refl, ap, ◌∙◌, length-append, arith, [], ◌∷◌, ◌++◌,
  ◌+◌, false, ok, some, ◌≤◌, length, ◌==◌, All, ◌<◌, List, ℕ, ◌≡◌,
}

abbrev pub HasNoNewline : List ℕ → Type 0
HasNoNewline bytes = All (λ b. (b == frame_newline) ≡ false) bytes

split_line-append :
    (msg rest : List ℕ)
    → HasNoNewline msg
    → split_line (msg ++ frame_newline ∷ rest) ≡ (msg, some rest)
unfolding split_line
split_line-append [] rest h = refl
split_line-append (b ∷ msg) rest h = rw h.0 (rw (split_line-append msg rest h.1) refl)

-- A message of at most 1 MiB with no newline is written, with one byte more, and reading from these
-- bytes, whatever follows them and whatever the reader's buffer, gives the message and leaves
-- what follows.
pub read_frame-write_frame :
    (size : ℕ) (ending : Ending) (msg rest : List ℕ)
    → 0 < size
    → HasNoNewline msg
    → length msg ≤ max_message_bytes
    → (written : List ℕ) × (write_frame msg ≡ ok written)
      × (length written ≡ length msg + 1)
      × (read_frame size ending (written ++ rest) ≡ some (ok (msg, rest)))
unfolding write_frame
read_frame-write_frame size ending msg rest z h k = (
  msg ++ frame_newline ∷ [],
  ground arith,
  length-append msg (frame_newline ∷ []),
  rw (append_assoc msg (frame_newline ∷ []) rest) (
      read_frame-framed size ending (msg ++ frame_newline ∷ rest) z
      ∙ ap (λ x. some (framed ending [] x)) (split_line-append msg rest h)
      ∙ unfold framed in ground arith),
)

abbrev SplitsOff : List ℕ → List ℕ × Option (List ℕ) → Type 0
SplitsOff bytes (before, none) = Unit
SplitsOff bytes (before, some rest) = (bytes ≡ before ++ frame_newline ∷ rest) × HasNoNewline before

SplitsOff-cons :
    (b : ℕ) (bytes before : List ℕ) (behind : Option (List ℕ))
    → (b == frame_newline) ≡ false
    → SplitsOff bytes (before, behind)
    → SplitsOff (b ∷ bytes) (b ∷ before, behind)
SplitsOff-cons b bytes before none n h = tt
SplitsOff-cons b bytes before (some rest) n h = (ap (λ x. b ∷ x) h.0, (n, h.1))

split_line-SplitsOff : (bytes : List ℕ) → SplitsOff bytes (split_line bytes)
unfolding split_line
split_line-SplitsOff [] = tt
split_line-SplitsOff (b ∷ bytes) = elim (Bool-cases (b == frame_newline)) [
  | inl e ↦ rw e (ap (λ x. x ∷ bytes) ((==_iff b frame_newline).0 e), tt)
  | inr e ↦ rw e (
      SplitsOff-cons b bytes (split_line bytes).0 (split_line bytes).1 e
        (split_line-SplitsOff bytes))
]

abbrev IsFrameOf : List ℕ → List ℕ → List ℕ → Type 0
IsFrameOf bytes payload rest =
    (length payload ≤ max_message_bytes)
    × (bytes ≡ payload ++ frame_newline ∷ rest)
    × HasNoNewline payload

framed_inverse :
    (ending : Ending) (bytes payload rest : List ℕ) (s : List ℕ × Option (List ℕ))
    → SplitsOff bytes s
    → framed ending [] s ≡ ok (payload, rest)
    → IsFrameOf bytes payload rest
unfolding framed
framed_inverse ending bytes payload rest (before, none) h e = ground arith
framed_inverse ending bytes payload rest (before, some behind) h e =
    let same : (before ≡ payload) × (behind ≡ rest) = ground arith in
    let small : length before ≤ max_message_bytes = ground arith in
    rw (← same.0) (rw (← same.1) (small, h.0, h.1))

-- Every frame that ReadFrame returns has at most 1 MiB, holds no newline, and is what stands before
-- the first newline of the bytes; what is left are the bytes behind it.
pub read_frame_bounds :
    (size : ℕ) (ending : Ending) (bytes payload rest : List ℕ)
    → 0 < size
    → read_frame size ending bytes ≡ some (ok (payload, rest))
    → (length payload ≤ max_message_bytes)
      × (bytes ≡ payload ++ frame_newline ∷ rest)
      × HasNoNewline payload
read_frame_bounds size ending bytes payload rest z h =
    framed_inverse ending bytes payload rest (split_line bytes) (split_line-SplitsOff bytes)
      (cc (read_frame-framed size ending bytes z))
