-- ===== src/Ipc/Serve.antt =====
-- internal/ipc/protocol.go: Serve, for one connection: what it writes. Deadlines and logging are left
-- out; a handler is a function from a request to its result or error, encoding/json is the
-- argument `encode`, `none` where it fails, and the connection takes all bytes.
use offbeat.Ipc.Frame.Chunks.{read_frame-framed, split_line, framed}
use offbeat.Ipc.Request.Sound.{IsConsistent, unmarshal_request-IsConsistent}
use offbeat.Ipc.Frame.{
  frame_newline, message_too_large, FrameError, max_message_bytes, write_frame, read_frame, Ending,
  Frame,
}
use offbeat.Prelude.{
  ◌∷◌, ◌++◌, ◌≤◌, arith, length, ltb, ==_iff, [], ap, refl, true, ◌<◌, Bool-cases, not,
  if◌then◌else◌, is_empty, none, err, false, some, ◌≡◌, List, negsuc, ok, Option, Result, ◌==◌, ℕ,
  Text, Bool, ℤ, pos, ◌⊎◌, inl, inr,
}
use offbeat.Youtube.Strings.{Unicode}
use offbeat.Ipc.Validate.{Url}
use offbeat.Ipc.Request.{unmarshal_request, RequestError, Codec, Request}

pub data ErrorCode : Type 0 where
  invalid_request unsupported_version failed_precondition internal : ErrorCode

-- An error that a handler returns: an ipc.Error with its code, or any other.
pub data HandlerError : Type 0 where
  structured : ErrorCode → HandlerError
  unstructured : HandlerError

-- Response, with one of Result and Error; the version is always 1.
abbrev pub Response : Type 0 → Type 0
Response R = Result ErrorCode R

abbrev pub protocol_version : ℕ
protocol_version = 1

unfoldable pub response_of : {R : Type 0} → Result HandlerError R → Response R
response_of (ok a) = ok a
response_of (err (structured c)) = err c
response_of (err unstructured) = err internal

abbrev is_version : ℤ → Bool
is_version (pos n) = n == protocol_version
is_version (negsuc n) = false

-- Behind the decoding of the request.
unfoldable pub dispatch :
    {R : Type 0} → (Request → Result HandlerError R) → Result RequestError Request → Response R
unfolding response_of
dispatch handler (err e) = err invalid_request
dispatch handler (ok r) =
    if is_empty r.command
    then err invalid_request
    else if not (is_version r.version)
    then err unsupported_version
    else response_of (handler r)

-- The errors of Serve behind its handler: nothing is written then.
pub data ServeError : Type 0 where
  not_encoded : ServeError
  not_framed : FrameError → ServeError

abbrev written : Result FrameError (List ℕ) → Result ServeError (List ℕ)
written (err e) = err (not_framed e)
written (ok line) = ok line

abbrev write_encoded : Option (List ℕ) → Result ServeError (List ℕ)
write_encoded none = err not_encoded
write_encoded (some data') = written (write_frame data')

-- The bytes that writeResponse writes.
unfoldable pub write_response :
    {R : Type 0} → (Response R → Option (List ℕ)) → Response R → Result ServeError (List ℕ)
unfolding write_frame
write_response encode response = write_encoded (encode response)

-- What is written of an encoded response: one line, or nothing.
pub data IsWritten (encoded : Option (List ℕ)) : Result ServeError (List ℕ) → Type 0 where
  failed_to_encode : encoded ≡ none → IsWritten encoded (err not_encoded)
  too_long :
      {bytes : List ℕ}
      → encoded ≡ some bytes
      → max_message_bytes < length bytes
      → IsWritten encoded (err (not_framed message_too_large))
  one_line :
      {bytes : List ℕ}
      → encoded ≡ some bytes
      → length bytes ≤ max_message_bytes
      → IsWritten encoded (ok (bytes ++ frame_newline ∷ []))

write_encoded-IsWritten : (encoded : Option (List ℕ)) → IsWritten encoded (write_encoded encoded)
unfolding write_frame
write_encoded-IsWritten none = failed_to_encode refl
write_encoded-IsWritten (some bytes) = elim (Bool-cases (ltb max_message_bytes (length bytes))) [
  | inl e ↦ rw e (too_long refl (ground (arith, e)))
  | inr e ↦ rw e (one_line refl (ground (arith, e)))
]

module _ (U : Unicode) (J : Codec) (parse_url : Text → Option Url) where
  unfoldable pub answer : {R : Type 0} → (Request → Result HandlerError R) → Frame → Response R
  unfolding dispatch
  answer handler (err e) = err invalid_request
  answer handler (ok (frame, rest)) = dispatch handler (unmarshal_request U J parse_url frame)

  abbrev answered :
      {R : Type 0}
      → (Request → Result HandlerError R)
      → (Response R → Option (List ℕ))
      → Option Frame
      → Option (Result ServeError (List ℕ))
  answered handler encode none = none
  answered handler encode (some f) = some (write_response encode (answer handler f))

  -- What is written to the connection, or the error.
  unfoldable pub serve :
      {R : Type 0}
      → (Request → Result HandlerError R)
      → (Response R → Option (List ℕ))
      → ℕ
      → Ending
      → List ℕ
      → Option (Result ServeError (List ℕ))
  unfolding write_response
  serve handler encode size ending bytes = answered handler encode (read_frame size ending bytes)

  -- Whether a response is the handler's to an acceptable request, or a refusal.
  abbrev pub IsAnswer : {R : Type 0} → (Request → Result HandlerError R) → Response R → Type 0
  IsAnswer handler response =
      ((r : Request) × IsConsistent U parse_url r
        × (r.version ≡ pos protocol_version)
        × (is_empty r.command ≡ false)
        × (response ≡ response_of (handler r)))
      ⊎ ((response ≡ err invalid_request) ⊎ (response ≡ err unsupported_version))

  version_one : (z : ℤ) → is_version z ≡ true → z ≡ pos protocol_version
  version_one (pos n) h = ap pos ((==_iff n 1).0 h)
  version_one (negsuc n) h = cc

  dispatch-IsAnswer :
      {R : Type 0} (handler : Request → Result HandlerError R) (bytes : List ℕ)
      (p : Result RequestError Request)
      → unmarshal_request U J parse_url bytes ≡ p
      → IsAnswer handler (dispatch handler p)
  unfolding dispatch
  dispatch-IsAnswer handler bytes (err e) h = inr (inl refl)
  dispatch-IsAnswer handler bytes (ok r) h = elim (Bool-cases (is_empty r.command)) [
    | inl e ↦ rw e (inr (inl refl))
    | inr e ↦ elim (Bool-cases (is_version r.version)) [
      | inl v ↦ rw e (
          rw v (
            inl (
              r,
              unmarshal_request-IsConsistent U J parse_url bytes r h,
              version_one r.version v,
              e,
              refl,
            )))
      | inr v ↦ rw e (rw v (inr (inr refl)))
    ]
  ]

  answer-IsAnswer :
      {R : Type 0} (handler : Request → Result HandlerError R) (f : Frame)
      → IsAnswer handler (answer handler f)
  unfolding answer
  answer-IsAnswer handler (err e) = inr (inl refl)
  answer-IsAnswer handler (ok (frame, rest)) =
      dispatch-IsAnswer handler frame (unmarshal_request U J parse_url frame) refl

  -- Whatever the bytes, with a buffer of at least one byte Serve ends, and it makes one response: the
  -- reply of the handler to a consistent request of version 1 with a command, or a refusal as
  -- invalid or of an unsupported version. It writes the encoded response and a newline if that can
  -- be encoded and has at most 1 MiB, and else returns an error and writes nothing; errors of the
  -- connection itself are left out.
  pub serve-IsAnswer :
      {R : Type 0} (handler : Request → Result HandlerError R)
      (encode : Response R → Option (List ℕ)) (size : ℕ) (ending : Ending) (bytes : List ℕ)
      → 0 < size
      → (response : Response R) × (outcome : Result ServeError (List ℕ)) × (serve handler encode
            size ending bytes
          ≡ some outcome)
        × IsAnswer handler response
        × IsWritten (encode response) outcome
  unfolding serve write_response
  serve-IsAnswer handler encode size ending bytes z =
      let f = framed ending [] (split_line bytes) in
      (
        answer handler f,
        write_response encode (answer handler f),
        ap (answered handler encode) (read_frame-framed size ending bytes z),
        answer-IsAnswer handler f,
        write_encoded-IsWritten (encode (answer handler f)),
      )
