-- ===== src/Adapter/Parse/Sound.antt =====
-- internal/app/adapter.go: what a message that the adapter sends may say.
use offbeat.Ipc.Request.{field}
use offbeat.Adapter.Candidate.Commits.{parse_candidate_snapshot-IsCandidate}
use offbeat.Adapter.Candidate.{parse_candidate_snapshot}
use offbeat.Desired.Candidate.{state_from_candidate}
use offbeat.Desired.Candidate.Total.{Returns}
use offbeat.Adapter.Candidate.Sound.{IsCandidate}
use offbeat.Desired.Validation.{ArtworkUrl}
use offbeat.Adapter.Json.{only_fields, is_given, RawCollectionError, Fields, Json}
use offbeat.Adapter.Parse.{
  level_of, version_and_type, response_fields, has_shape, version_if_given, message_of,
  parse_adapter_log, parse_adapter_message, parse_snapshot_response, string_field, invalid_message,
  collection_failed, log, present_field, candidate_snapshot, is_collection_error, snapshot_response,
  AdapterMessage, SnapshotAnswer, answer_of, parse_collection_error, given,
}
use offbeat.Prelude.{
  [], ◌&&◌, ◌∷◌, codes, ◌||◌, length, text_eq, if◌then◌else◌, ltb, ◌>>◌, refuse_if, Bool, String,
  Text, Option, ok, err, some, none, ◌≡◌, false, true, not, Result, refl, is_empty, Ensures, on_ok,
  on_err, ◌>>=◌,
}

-- A step whose value does not matter.
Ensures-any :
    {A B E : Type 0} {P : B → Type 0} (r : Result E A) (f : A → Result E B)
    → ((a : A) → Ensures P (f a))
    → Ensures P (r >>= f)
Ensures-any (err e) f k = on_err e
Ensures-any (ok a) f k = k a

Ensures-then :
    {A B E : Type 0} {Q : A → Type 0} {P : B → Type 0} (r : Result E A) (f : A → Result E B)
    → Ensures Q r
    → ((a : A) → Q a → Ensures P (f a))
    → Ensures P (r >>= f)
Ensures-then (err e) f h k = on_err e
Ensures-then (ok a) f (on_ok _ h) k = k a h

Ensures-given :
    {A : Type 0} (P : A → Type 0) (o : Option A)
    → ((a : A) → o ≡ some a → P a)
    → Ensures P (given o)
Ensures-given P none k = on_err _
Ensures-given P (some a) k = on_ok a (k a refl)

Ensures-if :
    {A E : Type 0} {P : A → Type 0} (b : Bool) (x y : Result E A)
    → Ensures P x
    → Ensures P y
    → Ensures P (if b then x else y)
Ensures-if true x y h k = h
Ensures-if false x y h k = k

module _ (J : Json) (parse_url : Text → Option ArtworkUrl) where
  IsAnswer : SnapshotAnswer → Type 0
  IsAnswer (candidate_snapshot c) = IsCandidate J parse_url c × Returns (state_from_candidate c)
  IsAnswer (collection_failed v) = is_collection_error v ≡ true

  pub IsMessage : AdapterMessage → Type 0
  IsMessage (snapshot_response r) = (is_empty r.request_id ≡ false) × IsAnswer r.answer
  IsMessage (log level message) = is_empty message ≡ false

  present_field-present :
      (name : String) (fs : Fields) → Ensures (λ s. is_empty s ≡ false) (present_field J name fs)
  present_field-present name fs =
      Ensures-any (string_field J name fs) _ (λ s. present s (is_empty s) refl)
    where
      present :
          (s : Text) (b : Bool)
          → is_empty s ≡ b
          → Ensures (λ s. is_empty s ≡ false) (refuse_if b invalid_message >> ok s)
      present s true e = on_err _
      present s false e = on_ok s e

  parse_collection_error-IsAnswer :
      (raw : Text) → Ensures (λ v. is_collection_error v ≡ true) (parse_collection_error J raw)
  unfolding parse_collection_error
  parse_collection_error-IsAnswer raw = Ensures-any (given (J.fields raw)) _ (λ fs.
      Ensures-any (refuse_if (ltb (length fs) 2 || ltb 3 (length fs)) invalid_message) _ (λ a.
        Ensures-any
          (refuse_if
            (not (is_given (field (codes "operation") fs) && is_given (field (codes "message") fs)))
            invalid_message)
          _
          (λ b.
            Ensures-any
              (refuse_if
                (not (only_fields (codes "operation" ∷ codes "offset" ∷ codes "message" ∷ []) fs))
                invalid_message)
              _
              (λ c.
                Ensures-any (given (J.collection_error raw)) _
                  (λ v. checked v (is_collection_error v) refl)))))
    where
      checked :
          (v : RawCollectionError) (b : Bool)
          → is_collection_error v ≡ b
          → Ensures (λ v. is_collection_error v ≡ true) (refuse_if (not b) invalid_message >> ok v)
      checked v true e = on_ok v e
      checked v false e = on_err _

  answer_of-IsAnswer :
      (snapshot failure : Option Text) → Ensures IsAnswer (answer_of J parse_url snapshot failure)
  unfolding IsAnswer
  answer_of-IsAnswer (some raw) failure =
      Ensures-then (given (parse_candidate_snapshot J parse_url raw)) _
        (Ensures-given (λ c. IsCandidate J parse_url c × Returns (state_from_candidate c))
          (parse_candidate_snapshot J parse_url raw)
          (parse_candidate_snapshot-IsCandidate J parse_url raw))
        (λ c h. Ensures-any (refuse_if (is_given failure) invalid_message) _ (λ t. on_ok _ h))
  answer_of-IsAnswer none none = on_err _
  answer_of-IsAnswer none (some raw) =
      Ensures-then (parse_collection_error J raw) _ (parse_collection_error-IsAnswer raw)
        (λ v h. on_ok _ h)

  parse_snapshot_response-IsMessage :
      (raw : Text)
      → Ensures (λ r. IsMessage (snapshot_response r)) (parse_snapshot_response J parse_url raw)
  unfolding parse_snapshot_response IsMessage
  parse_snapshot_response-IsMessage raw = Ensures-any (given (J.fields raw)) _ (λ fs.
      Ensures-any (version_if_given J (field (codes "version") fs)) _ (λ a.
        Ensures-any (refuse_if (not (has_shape 4 (response_fields J) fs)) invalid_message) _ (λ b.
          Ensures-any (version_and_type J "snapshot.response" fs) _ (λ c.
            Ensures-then (present_field J "request_id" fs) _ (present_field-present "request_id" fs)
              (λ request_id present.
                Ensures-then
                  (answer_of J parse_url (field (codes "snapshot") fs) (field (codes "error") fs)) _
                  (answer_of-IsAnswer (field (codes "snapshot") fs) (field (codes "error") fs))
                  (λ answer h. on_ok _ (present, h)))))))

  parse_adapter_log-IsMessage :
      (raw : Text) → Ensures (λ entry. IsMessage (log entry.0 entry.1)) (parse_adapter_log J raw)
  unfolding parse_adapter_log IsMessage
  parse_adapter_log-IsMessage raw = Ensures-any (given (J.fields raw)) _ (λ fs.
      Ensures-any
        (refuse_if
          (not (
            has_shape 4 (codes "version" ∷ codes "type" ∷ codes "level" ∷ codes "message" ∷ []) fs))
          invalid_message)
        _
        (λ a. Ensures-any (version_and_type J "log" fs) _ (λ b.
          Ensures-any (string_field J "level" fs) _ (λ name.
            Ensures-then (present_field J "message" fs) _ (present_field-present "message" fs)
              (λ message present.
                Ensures-any (given (level_of name)) _ (λ level. on_ok _ present))))))

  message_of-IsMessage : (raw kind : Text) → Ensures IsMessage (message_of J parse_url raw kind)
  message_of-IsMessage raw kind =
      Ensures-if (text_eq kind (codes "snapshot.response")) _ _
        (Ensures-then (parse_snapshot_response J parse_url raw) _
          (parse_snapshot_response-IsMessage raw) (λ r h. on_ok _ h))
        (Ensures-if (text_eq kind (codes "log")) _ _
          (Ensures-then (parse_adapter_log J raw) _ (parse_adapter_log-IsMessage raw)
            (λ entry h. on_ok _ h))
          (on_err _))

  -- Every message that the adapter's connection accepts, for any JSON decoder and URL parser: a
  -- snapshot response has a request ID that is not empty and either a candidate that is
  -- consistent and makes a state without a nil dereference, or an error with an operation, a message and
  -- no negative offset; a log entry has a text.
  pub parse_adapter_message-IsMessage :
      (raw : Text) → Ensures IsMessage (parse_adapter_message J parse_url raw)
  unfolding parse_adapter_message
  parse_adapter_message-IsMessage raw = Ensures-any (given (J.fields raw)) _ (λ fs.
      Ensures-any (version_if_given J (field (codes "version") fs)) _
        (λ a. Ensures-any (string_field J "type" fs) _ (λ kind. message_of-IsMessage raw kind)))
