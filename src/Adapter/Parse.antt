-- ===== src/Adapter/Parse.antt =====
-- internal/app/adapter.go: the messages of the adapter.
pub mod Sound
use offbeat.Prelude.{
  Text, String, Bool, Option, List, ℕ, ℤ, true, false, none, some, not, [], ◌∷◌, ◌++◌, ◌==◌, ◌&&◌,
  ◌||◌, pos, negsuc, is_negative, if◌then◌else◌, text_eq, is_empty, length, codes, ltb, Result, ok,
  err, ◌>>=◌, ◌>>◌, refuse_if,
}
use offbeat.Desired.State.{Candidate}
use offbeat.Desired.Validation.{ArtworkUrl}
use offbeat.Ipc.Request.{field}
use offbeat.Adapter.Json.{Json, Fields, RawCollectionError, only_fields, is_given}
use offbeat.Adapter.Candidate.{parse_candidate_snapshot}

pub data ProtocolError : Type 0 where
  unsupported_version invalid_message : ProtocolError

pub data LogLevel : Type 0 where
  debug info warn error : LogLevel

-- snapshotResponse: a candidate or a collection error.
pub data SnapshotAnswer : Type 0 where
  candidate_snapshot : Candidate → SnapshotAnswer
  collection_failed : RawCollectionError → SnapshotAnswer

pub record SnapshotResponse : Type 0 where
  pub request_id : Text
  pub answer : SnapshotAnswer

pub data AdapterMessage : Type 0 where
  snapshot_response : SnapshotResponse → AdapterMessage
  log : LogLevel → Text → AdapterMessage

abbrev pub given : {A : Type 0} → Option A → Result ProtocolError A
given none = err invalid_message
given (some a) = ok a

abbrev pub is_version_one : ℤ → Bool
is_version_one (pos n) = n == 1
is_version_one (negsuc n) = false

abbrev pub level_of : Text → Option LogLevel
level_of name =
    if text_eq name (codes "debug")
    then some debug
    else if text_eq name (codes "info")
    then some info
    else if text_eq name (codes "warn")
    then some warn
    else if text_eq name (codes "error")
    then some error
    else none

abbrev pub refuse_version : ℤ → Result ProtocolError (Unit {0})
refuse_version v = refuse_if (not (is_version_one v)) unsupported_version

-- The numbers of fields and their names.
abbrev pub has_shape : ℕ → List Text → Fields → Bool
has_shape n names fs = (length fs == n) && only_fields names fs

abbrev pub is_bad_offset : Option ℤ → Bool
is_bad_offset none = false
is_bad_offset (some n) = is_negative n

abbrev pub is_collection_error : RawCollectionError → Bool
is_collection_error v = not (is_empty v.operation || is_empty v.message || is_bad_offset v.offset)

module _ (J : Json) where
  -- json.Unmarshal(fields[name], …), an error also for a missing field
  abbrev pub int_field : String → Fields → Result ProtocolError ℤ
  int_field name fs = given (field (codes name) fs) >>= (λ raw. given (J.int raw))

  abbrev pub string_field : String → Fields → Result ProtocolError Text
  string_field name fs = given (field (codes name) fs) >>= (λ raw. given (J.string raw))

  -- A text that must not be empty.
  abbrev pub present_field : String → Fields → Result ProtocolError Text
  present_field name fs = do s ← string_field name fs; refuse_if (is_empty s) invalid_message; ok s

  abbrev pub version_and_type : String → Fields → Result ProtocolError (Unit {0})
  version_and_type expected fs = do
    version ← int_field "version" fs
    refuse_version version
    kind ← string_field "type" fs
    refuse_if (not (text_eq kind (codes expected))) invalid_message

  -- The version, where it is given.
  abbrev pub version_if_given : Option Text → Result ProtocolError (Unit {0})
  version_if_given none = ok tt
  version_if_given (some raw) = given (J.int raw) >>= refuse_version

  -- parseHello: the credential
  unfoldable pub parse_hello : Text → Result ProtocolError Text
  unfolding only_fields field
  parse_hello raw = do
    fs ← given (J.fields raw)
    refuse_if (not (has_shape 3 (codes "version" ∷ codes "type" ∷ codes "credential" ∷ []) fs))
        invalid_message
    version_and_type "hello" fs
    present_field "credential" fs

  unfoldable pub parse_adapter_log : Text → Result ProtocolError (LogLevel × Text)
  unfolding only_fields field
  parse_adapter_log raw = do
    fs ← given (J.fields raw)
    refuse_if
        (not
          (has_shape 4 (codes "version" ∷ codes "type" ∷ codes "level" ∷ codes "message" ∷ []) fs))
        invalid_message
    version_and_type "log" fs
    name ← string_field "level" fs
    message ← present_field "message" fs
    level ← given (level_of name)
    ok (level, message)

  -- parseCollectionError, after the check of the raw value's fields
  unfoldable pub parse_collection_error : Text → Result ProtocolError RawCollectionError
  unfolding only_fields field
  parse_collection_error raw = do
    fs ← given (J.fields raw)
    refuse_if (ltb (length fs) 2 || ltb 3 (length fs)) invalid_message
    refuse_if
        (not (is_given (field (codes "operation") fs) && is_given (field (codes "message") fs)))
        invalid_message
    refuse_if (not (only_fields (codes "operation" ∷ codes "offset" ∷ codes "message" ∷ []) fs))
        invalid_message
    v ← given (J.collection_error raw)
    refuse_if (not (is_collection_error v)) invalid_message
    ok v

  abbrev pub response_fields : List Text
  response_fields =
      codes "version" ∷ codes "type" ∷ codes "request_id" ∷ codes "snapshot" ∷ codes "error" ∷ []

  module _ (parse_url : Text → Option ArtworkUrl) where
    -- The snapshot, or else the error.
    abbrev pub answer_of : Option Text → Option Text → Result ProtocolError SnapshotAnswer
    answer_of (some raw) failure = do
      c ← given (parse_candidate_snapshot J parse_url raw)
      refuse_if (is_given failure) invalid_message
      ok (candidate_snapshot c)
    answer_of none none = err invalid_message
    answer_of none (some raw) = do v ← parse_collection_error raw; ok (collection_failed v)

    unfoldable pub parse_snapshot_response : Text → Result ProtocolError SnapshotResponse
    unfolding only_fields field parse_candidate_snapshot parse_collection_error
    parse_snapshot_response raw = do
      fs ← given (J.fields raw)
      version_if_given (field (codes "version") fs)
      refuse_if (not (has_shape 4 response_fields fs)) invalid_message
      version_and_type "snapshot.response" fs
      request_id ← present_field "request_id" fs
      answer ← answer_of (field (codes "snapshot") fs) (field (codes "error") fs)
      ok (record { request_id = request_id; answer = answer })

    abbrev pub message_of : Text → Text → Result ProtocolError AdapterMessage
    message_of raw kind =
        if text_eq kind (codes "snapshot.response")
        then (parse_snapshot_response raw >>= (λ r. ok (snapshot_response r)))
        else if text_eq kind (codes "log")
        then (parse_adapter_log raw >>= (λ entry. ok (log entry.0 entry.1)))
        else err invalid_message

    -- acceptAdapterMessage and the first step of acceptSnapshotResponse: what the message says.
    unfoldable pub parse_adapter_message : Text → Result ProtocolError AdapterMessage
    unfolding field parse_snapshot_response parse_adapter_log
    parse_adapter_message raw = do
      fs ← given (J.fields raw)
      version_if_given (field (codes "version") fs)
      kind ← string_field "type" fs
      message_of raw kind
