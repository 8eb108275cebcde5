-- ===== src/Ipc/Request/Sound.antt =====
-- What every request that is accepted carries: the arguments of its command and no others, checked.
use offbeat.Youtube.Strings.{Unicode}
use offbeat.Ipc.Validate.{
  validate_acquisition_source, validate_acquisition_track_uri, Url,
  validate_manual_mapping_track_uri, validate_youtube_video_id,
}
use offbeat.Ipc.Request.{
  no_command, no_version, field, required, unmarshal_request, bad_track_uri, AcquireRequest,
  acquire_request, arguments, decoded, misplaced, is_json_null, is_mapping_change, argument, Parsed,
  Request, Codec, is_given, MissingRequest, checked, is_command, ManualMappingRequest, MissingPage,
  RequestError, AcquisitionChoice, choice_request, mapping_request, missing_request, positive_id,
}
use offbeat.Prelude.{
  text_eq_iff, codes, ◌>>=◌, List, Ensures-ok, Ensures-refuse_if, Ensures-bind, ◌||◌, on_ok,
  Ensures, refl, [], ◌∷◌, byte_len, zero, inr, negsuc, inl, length, suc, Bool-cases, arith,
  is_empty, is_positive, none, not, pos, false, ok, some, true, ◌&&◌, Option, ℤ, ◌≡◌, Bool, Text,
  ◌<◌, ℕ,
}

-- Arguments that only a command of the kind `wanted` may have, of which `P` holds.
abbrev pub Allowed : {A : Type 0} → Bool → (A → Type 0) → Option A → Type 0
Allowed wanted P none = Unit
Allowed wanted P (some a) = (wanted ≡ true) × P a

-- Arguments that exactly the commands of the kind `wanted` have.
abbrev pub Required : {A : Type 0} → Bool → (A → Type 0) → Option A → Type 0
Required wanted P none = wanted ≡ false
Required wanted P (some a) = (wanted ≡ true) × P a

required_of_allowed :
    {A : Type 0} (wanted : Bool) (P : A → Type 0) (o : Option A)
    → Allowed wanted P o
    → (wanted && not (is_given o)) ≡ false
    → Required wanted P o
required_of_allowed wanted P none h k = ground arith
required_of_allowed wanted P (some a) h k = h

abbrev pub IsPositive : ℕ → Type 0
IsPositive id = 0 < id

abbrev pub IsMappable : Text → Type 0
IsMappable u = validate_manual_mapping_track_uri u ≡ true

abbrev pub MappingIsValid : Text → ManualMappingRequest → Type 0
MappingIsValid command m =
    IsMappable m.track_uri
    × (validate_youtube_video_id m.video_id ≡ is_command command "acquire.mapping.set")
    × (is_command command "acquire.mapping.set" ≡ false → is_empty m.video_id ≡ true)
    × (is_empty m.expected_video_id ≡ false
        → (is_command command "acquire.mapping.show" ≡ false)
          × (validate_youtube_video_id m.expected_video_id ≡ true))

abbrev pub ChoiceIsValid : AcquisitionChoice → Type 0
ChoiceIsValid c =
    IsMappable c.track_uri
    × (validate_youtube_video_id c.video_id ≡ true)
    × (is_positive c.expected_duration_ms ≡ true)
    × (is_empty c.expected_title ≡ false)
    × (0 < length c.expected_artists)
    × (length c.expected_artist_uris ≡ length c.expected_artists)
    × (is_empty c.acknowledge_rejection ≡ false → c.acknowledge_rejection ≡ c.rejection_reason)

missing_request_lem :
    (p : MissingPage) (o : Option ℤ) (m : MissingRequest)
    → missing_request p o ≡ ok m
    → is_empty m.after_uri ≡ false
unfolding missing_request
missing_request_lem p none m h = cc
missing_request_lem p (some revision) m h = ground arith

positive_id_lem : (z : ℤ) (id : ℕ) → positive_id z ≡ ok id → IsPositive id
unfolding positive_id
positive_id_lem (pos zero) id h = cc
positive_id_lem (pos (suc n)) id h = ground arith
positive_id_lem (negsuc n) id h = cc

checked_lem :
    {A : Type 0} (valid : A → Bool) (e : RequestError) (a b : A)
    → checked (valid a) e a ≡ ok b
    → valid b ≡ true
checked_lem valid e a b h = elim (Bool-cases (valid a)) [
  | inl t ↦ let same : a ≡ b = ground (arith, t) in rw (← same) t
  | inr f ↦ ground (arith, f)
]

video_id_of_empty : (v : Text) → is_empty v ≡ true → validate_youtube_video_id v ≡ false
unfolding validate_youtube_video_id
video_id_of_empty [] h = unfold byte_len in refl
video_id_of_empty (c ∷ v) h = cc

mapping_request_lem :
    (command : Text) (a m : ManualMappingRequest)
    → mapping_request command a ≡ ok m
    → MappingIsValid command m
unfolding mapping_request
mapping_request_lem command a m h =
    (ground arith, ground (arith, video_id_of_empty m.video_id), ground arith, ground arith)

choice_request_lem : (a c : AcquisitionChoice) → choice_request a ≡ ok c → ChoiceIsValid c
unfolding choice_request
choice_request_lem a c h = (
  ground arith,
  ground arith,
  ground arith,
  ground arith,
  ground arith,
  ground arith,
  λ e. ground (arith, e, (text_eq_iff c.acknowledge_rejection c.rejection_reason).0),
)

-- The arguments of a request against its command.
pub record IsConsistent (U : Unicode) (parse_url : Text → Option Url) (r : Request) : Type 0 where
  pub missing :
      Allowed (is_command r.command "missing") (λ m. is_empty m.after_uri ≡ false) r.missing
  pub acquire :
      Required
        (is_command r.command "acquire")
        (λ a.
          (validate_acquisition_track_uri U a.track_uri ≡ true)
          × (validate_acquisition_source U parse_url a.source_url ≡ true))
        r.acquire
  pub inspect :
      Required
        (is_command r.command "acquire.inspect")
        (λ u. validate_acquisition_track_uri U u ≡ true)
        r.acquisition_inspect
  pub status : Allowed (is_command r.command "acquire.status") IsPositive r.acquisition_status
  pub list :
      Allowed
        (is_command r.command "acquire.status" && not (is_given r.acquisition_status))
        IsPositive
        r.acquisition_list
  pub retry : Required (is_command r.command "acquire.retry") IsPositive r.acquisition_retry
  pub mapping : Required (is_mapping_change r.command) (MappingIsValid r.command) r.manual_mapping
  pub mapping_list :
      Allowed (is_command r.command "acquire.mapping.list") IsMappable r.manual_mapping_list
  pub choice : Required (is_command r.command "acquire.select") ChoiceIsValid r.acquisition_choice
  pub review : Allowed (is_command r.command "review.list") IsMappable r.review_list

module _ (U : Unicode) (J : Codec) (parse_url : Text → Option Url) where
  argument-Allowed :
      {A B : Type 0} (P : B → Type 0) (o : Option Text) (wanted : Bool) (decode : Text → Option A)
      (check : A → Parsed B)
      → ((a : A) (b : B) → check a ≡ ok b → P b)
      → Ensures (Allowed wanted P) (argument U J parse_url o wanted decode check)
  unfolding argument
  argument-Allowed P none wanted decode check h = on_ok none tt
  argument-Allowed P (some raw) wanted decode check h =
      Ensures-refuse_if (not wanted || is_json_null U J parse_url raw) misplaced _ (λ w.
        Ensures-bind (decoded (decode raw)) _
          (λ a e1. Ensures-bind (check a) _ (λ b e2. on_ok (some b) (ground arith, h a b e2))))

  argument_lem :
      {A B : Type 0} (P : B → Type 0) (o : Option Text) (wanted : Bool) (decode : Text → Option A)
      (check : A → Parsed B) (r : Option B)
      → argument U J parse_url o wanted decode check ≡ ok r
      → ((a : A) (b : B) → check a ≡ ok b → P b)
      → Allowed wanted P r
  argument_lem P o wanted decode check r e h =
      Ensures-ok (argument U J parse_url o wanted decode check) r
        (argument-Allowed P o wanted decode check h) e

  acquire_request_lem :
      (a b : AcquireRequest)
      → acquire_request U J parse_url a ≡ ok b
      → (validate_acquisition_track_uri U b.track_uri ≡ true)
        × (validate_acquisition_source U parse_url b.source_url ≡ true)
  unfolding acquire_request
  acquire_request_lem a b h = ground arith

  -- The rule for an argument whose check gives `P`.
  Ensures-argument :
      {A B : Type 0} {P : B → Type 0} {check : A → Parsed B} {Q : Request → Type 0}
      → ((a : A) (b : B) → check a ≡ ok b → P b)
      → (o : Option Text) (wanted : Bool) (decode : Text → Option A) (f : Option B → Parsed Request)
      → ((r : Option B) → Allowed wanted P r → Ensures Q (f r))
      → Ensures Q (argument U J parse_url o wanted decode check >>= f)
  Ensures-argument {P} {check} h o wanted decode f k =
      Ensures-bind (argument U J parse_url o wanted decode check) f
        (λ r e. k r (argument_lem P o wanted decode check r e h))

  consistent :
      (r : Request)
      → Allowed (is_command r.command "missing") (λ m. is_empty m.after_uri ≡ false) r.missing
      → Allowed
          (is_command r.command "acquire")
          (λ a.
            (validate_acquisition_track_uri U a.track_uri ≡ true)
            × (validate_acquisition_source U parse_url a.source_url ≡ true))
          r.acquire
      → Allowed
          (is_command r.command "acquire.inspect")
          (λ u. validate_acquisition_track_uri U u ≡ true)
          r.acquisition_inspect
      → Allowed (is_command r.command "acquire.status") IsPositive r.acquisition_status
      → Allowed
          (is_command r.command "acquire.status" && not (is_given r.acquisition_status))
          IsPositive
          r.acquisition_list
      → Allowed (is_command r.command "acquire.retry") IsPositive r.acquisition_retry
      → (is_command r.command "acquire" && not (is_given r.acquire)) ≡ false
      → (is_command r.command "acquire.inspect" && not (is_given r.acquisition_inspect)) ≡ false
      → (is_command r.command "acquire.retry" && not (is_given r.acquisition_retry)) ≡ false
      → Allowed (is_mapping_change r.command) (MappingIsValid r.command) r.manual_mapping
      → Allowed (is_command r.command "acquire.mapping.list") IsMappable r.manual_mapping_list
      → (is_mapping_change r.command && not (is_given r.manual_mapping)) ≡ false
      → Allowed (is_command r.command "acquire.select") ChoiceIsValid r.acquisition_choice
      → (is_command r.command "acquire.select" && not (is_given r.acquisition_choice)) ≡ false
      → Allowed (is_command r.command "review.list") IsMappable r.review_list
      → Ensures {E = RequestError} (IsConsistent U parse_url) (ok r)
  consistent r a1 a2 a3 a4 a5 a6 r1 r2 r3 a7 a8 r4 a9 r5 a10 = on_ok r (record {
    missing = a1;
    acquire = required_of_allowed _ _ r.acquire a2 r1;
    inspect = required_of_allowed _ _ r.acquisition_inspect a3 r2;
    status = a4;
    list = a5;
    retry = required_of_allowed _ _ r.acquisition_retry a6 r3;
    mapping = required_of_allowed _ _ r.manual_mapping a7 r4;
    mapping_list = a8;
    choice = required_of_allowed _ _ r.acquisition_choice a9 r5;
    review = a10;
  })

  arguments-IsConsistent :
      (fields : List (Text × Text)) (version : ℤ) (c : Text)
      → Ensures (IsConsistent U parse_url) (arguments U J parse_url fields version c)
  unfolding arguments
  arguments-IsConsistent fields version c =
      Ensures-argument (λ p m. missing_request_lem p p.state_revision m) _ _ _ _
        (λ missing a1. Ensures-argument acquire_request_lem _ _ _ _ (λ acquire a2.
          Ensures-argument (checked_lem (validate_acquisition_track_uri U) bad_track_uri) _ _ _ _
            (λ inspect a3. Ensures-argument positive_id_lem _ _ _ _ (λ status a4.
              Ensures-argument positive_id_lem _ _ _ _ (λ list a5.
                Ensures-argument positive_id_lem _ _ _ _ (λ retry a6. Ensures-refuse_if _ _ _ (λ r1.
                  Ensures-refuse_if _ _ _ (λ r2. Ensures-refuse_if _ _ _ (λ r3.
                    Ensures-argument (mapping_request_lem c) _ _ _ _ (λ mapping a7.
                      Ensures-argument (checked_lem validate_manual_mapping_track_uri bad_track_uri)
                        _ _ _ _
                        (λ mapping_list a8. Ensures-refuse_if _ _ _ (λ r4.
                          Ensures-argument choice_request_lem _ _ _ _ (λ choice a9.
                            Ensures-refuse_if _ _ _ (λ r5.
                              Ensures-argument
                                (checked_lem validate_manual_mapping_track_uri bad_track_uri) _ _ _
                                _
                                (λ review a10.
                                  consistent _ a1 a2 a3 a4 a5 a6 r1 r2 r3 a7 a8 r4 a9 r5
                                    a10)))))))))))))))

  -- A request that is decoded has exactly the arguments that its command requires or allows, and
  -- each of them has passed its check.
  pub unmarshal_request-IsConsistent :
      (bytes : Text) (r : Request)
      → unmarshal_request U J parse_url bytes ≡ ok r
      → IsConsistent U parse_url r
  unfolding unmarshal_request
  unmarshal_request-IsConsistent bytes r h =
      let all : Ensures {E = RequestError} (IsConsistent U parse_url)
          (unmarshal_request U J parse_url bytes) =
        Ensures-bind (decoded (J.object bytes)) _ (λ fields e1. Ensures-refuse_if _ _ _ (λ r1.
          Ensures-bind (required U J parse_url (field (codes "version") fields) no_version) _
            (λ raw_version e2. Ensures-bind (decoded (J.int raw_version)) _ (λ version e3.
              Ensures-bind (required U J parse_url (field (codes "command") fields) no_command) _
                (λ raw_command e4.
                  Ensures-bind (decoded (J.string raw_command)) _
                    (λ command e5. arguments-IsConsistent fields version command)))))) in
      Ensures-ok (unmarshal_request U J parse_url bytes) r all h
