-- ===== src/Ipc/Frame.antt =====
-- internal/ipc/protocol.go: ReadFrame and WriteFrame, over a connection as the list of the bytes
-- still to come and the way in which it ends. `size` is the size of the bufio.Reader's buffer.
pub mod Chunks
pub mod RoundTrip
use offbeat.Prelude.{
  ok, zero, err, ◌&&◌, ◌++◌, ◌+◌, ◌==◌, length, ltb, none, some, suc, Option, [], if◌then◌else◌,
  ◌∷◌, List, Result, ℕ, Bool,
}

abbrev pub max_message_bytes : ℕ
max_message_bytes = 1048576

abbrev pub frame_newline : ℕ
frame_newline = 10

-- How the connection ends behind its last byte: io.EOF, or any other error.
pub data Ending : Type 0 where
  eof broken : Ending

pub data FrameError : Type 0 where
  message_too_large unexpected_eof connection_broken : FrameError

-- The error of ReadSlice: none, bufio.ErrBufferFull, or the connection's own.
pub data SliceEnd : Type 0 where
  delimiter buffer_full ended : SliceEnd

pub record Slice : Type 0 where
  pub line : List ℕ
  pub slice_end : SliceEnd
  pub rest : List ℕ

-- bufio.Reader.ReadSlice('\n')
unfoldable pub read_slice : ℕ → List ℕ → Slice
read_slice zero bytes = record { line = []; slice_end = buffer_full; rest = bytes }
read_slice (suc room) [] = record { line = []; slice_end = ended; rest = [] }
read_slice (suc room) (b ∷ bytes) =
    let more = read_slice room bytes in
    if b == frame_newline
    then record { line = b ∷ []; slice_end = delimiter; rest = bytes }
    else record more { line = b ∷ more.line }

-- buf[:len(buf)-1]
unfoldable pub without_last : List ℕ → List ℕ
without_last [] = []
without_last (b ∷ []) = []
without_last (b ∷ c ∷ bs) = b ∷ without_last (c ∷ bs)

unfoldable pub ending_error : Ending → FrameError
ending_error eof = unexpected_eof
ending_error broken = connection_broken

-- A frame and the bytes behind it.
abbrev pub Frame : Type 0
Frame = Result FrameError (List ℕ × List ℕ)

unfoldable pub finish_frame : List ℕ → List ℕ → Frame
finish_frame payload rest =
    if ltb max_message_bytes (length payload) then err message_too_large else ok (payload, rest)

-- The body of the loop behind the call of ReadSlice; `again` is its next round.
unfoldable pub frame_step :
    (List ℕ → List ℕ → Option Frame) → Ending → List ℕ → SliceEnd → Slice → Option Frame
frame_step again ending buf delimiter s = some (finish_frame (without_last (buf ++ s.line)) s.rest)
frame_step again ending buf buffer_full s = again (buf ++ s.line) s.rest
frame_step again ending buf ended s = some (err (ending_error ending))

-- The loop, with fuel for its rounds; `none` means that it ran out.
unfoldable pub read_frame_loop : ℕ → ℕ → Ending → List ℕ → List ℕ → Option Frame
read_frame_loop zero size ending buf bytes = none
read_frame_loop (suc fuel) size ending buf bytes =
    let s = read_slice size bytes in
    if ltb 0 (length s.line) && ltb (max_message_bytes + 1) (length buf + length s.line)
    then some (err message_too_large)
    else frame_step (λ b r. read_frame_loop fuel size ending b r) ending buf s.slice_end s

-- A round that does not end the loop takes at least one byte.
unfoldable pub read_frame : ℕ → Ending → List ℕ → Option Frame
read_frame size ending bytes = read_frame_loop (length bytes + 1) size ending [] bytes

-- The bytes that WriteFrame writes, to a writer that takes them all.
unfoldable pub write_frame : List ℕ → Result FrameError (List ℕ)
write_frame msg =
    if ltb max_message_bytes (length msg)
    then err message_too_large
    else ok (msg ++ frame_newline ∷ [])
