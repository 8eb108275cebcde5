-- ===== src/Ipc/Request.antt =====
-- internal/ipc/protocol.go: Request.UnmarshalJSON. A raw JSON value is its text; what encoding/json
-- makes of one is the parameter Codec, whose decoders are `none` where Decode returns an error
-- (an unknown field, another type, data behind the value). An error keeps its cause.
pub mod Sound
use offbeat.Prelude.{
  ◌==◌, length, not, refuse_if, is_negative, [], is_empty, ◌&&◌, abs, some, ◌∷◌, codes, err, false,
  is_positive, none, ok, text_eq, true, List, Option, Result, String, if◌then◌else◌, ◌||◌, ℕ, Text,
  Bool, ℤ, ◌>>=◌, ◌>>◌,
}
use offbeat.Youtube.Strings.{trim_space, is_one_of, Unicode}
use offbeat.Ipc.Validate.{
  validate_youtube_video_id, validate_acquisition_source, validate_manual_mapping_track_uri,
  validate_acquisition_track_uri, Url,
}

pub record AcquireRequest : Type 0 where
  pub track_uri : Text
  pub source_url : Text

pub record MissingRequest : Type 0 where
  pub after_uri : Text
  pub state_revision : ℕ

pub record ManualMappingRequest : Type 0 where
  pub track_uri : Text
  pub video_id : Text
  pub expected_video_id : Text

pub record AcquisitionChoice : Type 0 where
  pub track_uri : Text
  pub video_id : Text
  pub selection_receipt : Text
  pub expected_title : Text
  pub expected_artists : List Text
  pub expected_artist_uris : List Text
  pub expected_album : Text
  pub expected_album_uri : Text
  pub expected_duration_ms : ℤ
  pub rejection_reason : Text
  pub acknowledge_rejection : Text

-- The page arguments of `missing`, before they are checked.
pub record MissingPage : Type 0 where
  pub after_uri : Text
  pub state_revision : Option ℤ

-- The calls of encoding/json. `object` is the decoding into a map: each name once, the empty map for
-- null.
pub record Codec : Type 0 where
  pub object : Text → Option (List (Text × Text))
  pub int : Text → Option ℤ
  pub string : Text → Option Text
  pub missing_page : Text → Option MissingPage
  pub acquire : Text → Option AcquireRequest
  pub track_uri : Text → Option Text
  pub acquisition_id : Text → Option ℤ
  pub after_id : Text → Option ℤ
  pub mapping : Text → Option ManualMappingRequest
  pub after_uri : Text → Option Text
  pub choice : Text → Option AcquisitionChoice

-- The fields of Request; a record of one text or number is that text or number.
pub record Request : Type 0 where
  pub version : ℤ
  pub command : Text
  pub missing : Option MissingRequest
  pub acquire : Option AcquireRequest
  pub acquisition_inspect : Option Text
  pub acquisition_status : Option ℕ
  pub acquisition_list : Option ℕ
  pub acquisition_retry : Option ℕ
  pub manual_mapping : Option ManualMappingRequest
  pub manual_mapping_list : Option Text
  pub acquisition_choice : Option AcquisitionChoice
  pub review_list : Option Text

pub data RequestError : Type 0 where
  malformed unknown_field no_version no_command : RequestError
  misplaced bad_continuation bad_track_uri bad_source bad_id : RequestError
  no_arguments bad_video_id bad_choice : RequestError

abbrev pub Parsed : Type 0 → Type 0
Parsed A = Result RequestError A

unfoldable pub field : Text → List (Text × Text) → Option Text
field name [] = none
field name ((k, v) ∷ fs) = if text_eq k name then some v else field name fs

abbrev request_fields : List Text
request_fields =
    codes "version"
    ∷ codes "command"
    ∷ codes "missing"
    ∷ codes "acquire"
    ∷ codes "acquisition_inspect"
    ∷ codes "acquisition_status"
    ∷ codes "acquisition_list"
    ∷ codes "acquisition_retry"
    ∷ codes "manual_mapping"
    ∷ codes "manual_mapping_list"
    ∷ codes "acquisition_choice"
    ∷ codes "review_list"
    ∷ []

unfoldable pub all_known : List (Text × Text) → Bool
unfolding is_one_of
all_known [] = true
all_known ((k, v) ∷ fs) = is_one_of k request_fields && all_known fs

abbrev pub decoded : {A : Type 0} → Option A → Parsed A
decoded none = err malformed
decoded (some a) = ok a

abbrev is_command : Text → String → Bool
is_command c s = text_eq c (codes s)

abbrev is_given : {A : Type 0} → Option A → Bool
is_given none = false
is_given (some a) = true

unfoldable pub is_mapping_change : Text → Bool
is_mapping_change c =
    is_command c "acquire.mapping.set"
    || is_command c "acquire.mapping.show"
    || is_command c "acquire.mapping.remove"

unfoldable pub missing_request : MissingPage → Option ℤ → Parsed MissingRequest
missing_request page none = err bad_continuation
missing_request page (some revision) =
    if is_empty page.after_uri || is_negative revision
    then err bad_continuation
    else ok (record { after_uri = page.after_uri; state_revision = abs revision })

unfoldable pub positive_id : ℤ → Parsed ℕ
positive_id id = if is_positive id then ok (abs id) else err bad_id

-- `if !valid { return err }` in front of what was parsed.
abbrev pub checked : {A : Type 0} → Bool → RequestError → A → Parsed A
checked valid e a = if valid then ok a else err e

unfoldable pub mapping_request : Text → ManualMappingRequest → Parsed ManualMappingRequest
mapping_request command m = do
  refuse_if (not (validate_manual_mapping_track_uri m.track_uri)) bad_track_uri
  refuse_if (is_command command "acquire.mapping.set" && not (validate_youtube_video_id m.video_id))
      bad_video_id
  refuse_if (not (is_command command "acquire.mapping.set") && not (is_empty m.video_id)) misplaced
  refuse_if
      (not (is_empty m.expected_video_id)
        && (is_command command "acquire.mapping.show"
            || not (validate_youtube_video_id m.expected_video_id)))
      bad_video_id
  ok m

unfoldable pub choice_request : AcquisitionChoice → Parsed AcquisitionChoice
choice_request c = do
  refuse_if (not (validate_manual_mapping_track_uri c.track_uri)) bad_track_uri
  refuse_if (not (validate_youtube_video_id c.video_id)) bad_video_id
  refuse_if
      (is_empty c.expected_title
        || (length c.expected_artists == 0)
        || not (length c.expected_artist_uris == length c.expected_artists)
        || not (is_positive c.expected_duration_ms)
        || (not (is_empty c.acknowledge_rejection)
            && not (text_eq c.acknowledge_rejection c.rejection_reason)))
      bad_choice
  ok c

module _ (U : Unicode) (J : Codec) (parse_url : Text → Option Url) where
  unfoldable pub is_json_null : Text → Bool
  is_json_null raw = text_eq (trim_space U raw) (codes "null")

  -- `if raw, ok := fields[name]; ok { … }`: absent, refused, or decoded and checked.
  unfoldable pub argument :
      {A B : Type 0} → Option Text → Bool → (Text → Option A) → (A → Parsed B) → Parsed (Option B)
  unfolding is_json_null
  argument none allowed decode check = ok none
  argument (some raw) allowed decode check = do
    refuse_if (not allowed || is_json_null raw) misplaced
    a ← decoded (decode raw)
    b ← check a
    ok (some b)

  unfoldable pub required : Option Text → RequestError → Parsed Text
  unfolding is_json_null
  required none e = err e
  required (some raw) e = if is_json_null raw then err e else ok raw

  unfoldable pub acquire_request : AcquireRequest → Parsed AcquireRequest
  acquire_request a = do
    refuse_if (not (validate_acquisition_track_uri U a.track_uri)) bad_track_uri
    refuse_if (not (validate_acquisition_source U parse_url a.source_url)) bad_source
    ok a

  -- The arguments, behind the version and the command.
  unfoldable pub arguments : List (Text × Text) → ℤ → Text → Parsed Request
  arguments fields version command = do
    missing ←
        argument (field (codes "missing") fields) (is_command command "missing") J.missing_page
          (λ p. missing_request p p.state_revision)
    acquire ←
        argument (field (codes "acquire") fields) (is_command command "acquire") J.acquire
          acquire_request
    inspect ←
        argument (field (codes "acquisition_inspect") fields) (is_command command "acquire.inspect")
          J.track_uri (λ u. checked (validate_acquisition_track_uri U u) bad_track_uri u)
    status ←
        argument (field (codes "acquisition_status") fields) (is_command command "acquire.status")
          J.acquisition_id positive_id
    list ←
        argument (field (codes "acquisition_list") fields)
          (is_command command "acquire.status" && not (is_given status)) J.after_id positive_id
    retry ←
        argument (field (codes "acquisition_retry") fields) (is_command command "acquire.retry")
          J.acquisition_id positive_id
    refuse_if (is_command command "acquire" && not (is_given acquire)) no_arguments
    refuse_if (is_command command "acquire.inspect" && not (is_given inspect)) no_arguments
    refuse_if (is_command command "acquire.retry" && not (is_given retry)) no_arguments
    mapping ←
        argument (field (codes "manual_mapping") fields) (is_mapping_change command) J.mapping
          (mapping_request command)
    mapping_list ←
        argument (field (codes "manual_mapping_list") fields)
          (is_command command "acquire.mapping.list") J.after_uri
          (λ u. checked (validate_manual_mapping_track_uri u) bad_track_uri u)
    refuse_if (is_mapping_change command && not (is_given mapping)) no_arguments
    choice ←
        argument (field (codes "acquisition_choice") fields) (is_command command "acquire.select")
          J.choice choice_request
    refuse_if (is_command command "acquire.select" && not (is_given choice)) no_arguments
    review ←
        argument (field (codes "review_list") fields) (is_command command "review.list") J.after_uri
          (λ u. checked (validate_manual_mapping_track_uri u) bad_track_uri u)
    ok (record {
      version = version;
      command = command;
      missing = missing;
      acquire = acquire;
      acquisition_inspect = inspect;
      acquisition_status = status;
      acquisition_list = list;
      acquisition_retry = retry;
      manual_mapping = mapping;
      manual_mapping_list = mapping_list;
      acquisition_choice = choice;
      review_list = review;
    })

  unfoldable pub unmarshal_request : Text → Parsed Request
  unmarshal_request bytes = do
    fields ← decoded (J.object bytes)
    refuse_if (not (all_known fields)) unknown_field
    raw_version ← required (field (codes "version") fields) no_version
    version ← decoded (J.int raw_version)
    raw_command ← required (field (codes "command") fields) no_command
    command ← decoded (J.string raw_command)
    arguments fields version command
