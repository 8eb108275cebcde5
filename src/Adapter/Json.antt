-- ===== src/Adapter/Json.antt =====
-- internal/app/adapter.go: the JSON of the adapter. A raw value is its text; encoding/json is the
-- parameter Json, whose results are `none` where the code gets an error.
use offbeat.Prelude.{
  ◌++◌, Text, Bool, Option, List, ℤ, true, false, none, some, [], ◌∷◌, ◌==◌, ◌&&◌, if◌then◌else◌,
  length,
}
use offbeat.Ipc.Request.{field}
use offbeat.Youtube.Strings.{is_one_of}

abbrev pub Fields : Type 0
Fields = List (Text × Text)

-- The structs that the code decodes into; a nil slice or pointer is `none`.
pub record RawSnapshot : Type 0 where
  pub kind : Text
  pub playlists : Option (List Text)
  pub liked_songs : Text

pub record RawPlaylist : Type 0 where
  pub uri : Text
  pub name : Text
  pub entries : Option (List Text)

pub record RawTrack : Type 0 where
  pub uri : Text
  pub name : Text
  pub artists : List Text
  pub album : Text
  pub duration_ms : ℤ
  pub album_artist : Text
  pub track_number : Option ℤ
  pub disc_number : Option ℤ
  pub release_date : Text
  pub artwork_url : Text

pub record RawNamedUri : Type 0 where
  pub uri : Text
  pub name : Text

pub record RawCollectionError : Type 0 where
  pub operation : Text
  pub offset : Option ℤ
  pub message : Text

-- `fields` is json.Unmarshal into a map, each name once; `members` is what a Decoder reads of an
-- object with nothing after it, in order, a name maybe more than once.
pub record Json : Type 0 where
  pub fields : Text → Option Fields
  pub members : Text → Option Fields
  pub int : Text → Option ℤ
  pub string : Text → Option Text
  pub snapshot : Text → Option RawSnapshot
  pub playlist : Text → Option RawPlaylist
  pub liked : Text → Option (Option (List Text))
  pub track : Text → Option RawTrack
  pub named_uri : Text → Option RawNamedUri
  pub collection_error : Text → Option RawCollectionError

abbrev pub is_given : {A : Type 0} → Option A → Bool
is_given none = false
is_given (some a) = true

unfoldable pub and_then : {A B : Type 0} → Option A → (A → Option B) → Option B
and_then none f = none
and_then (some a) f = f a

-- `if !valid { return … }`
unfoldable pub only_if : {A : Type 0} → Bool → Option A → Option A
only_if b r = if b then r else none

-- The names of the fields are among these.
unfoldable pub only_fields : List Text → Fields → Bool
unfolding is_one_of
only_fields names [] = true
only_fields names ((k, v) ∷ fs) = is_one_of k names && only_fields names fs

-- All of these names have a field.
unfoldable pub has_fields : List Text → Fields → Bool
unfolding field
has_fields [] fs = true
has_fields (n ∷ ns) fs = is_given (field n fs) && has_fields ns fs

unfoldable pub exact_fields_with_optional : Fields → List Text → List Text → Bool
unfolding only_fields has_fields
exact_fields_with_optional fs required optional =
    has_fields required fs && only_fields (required ++ optional) fs

-- The loop of decodeObject: a name that came before is refused.
unfoldable pub distinct_members : Fields → Fields → Option Fields
unfolding field
distinct_members seen [] = some seen
distinct_members seen ((k, v) ∷ ms) =
    let rest = distinct_members ((k, v) ∷ seen) ms in if is_given (field k seen) then none else rest

module _ (J : Json) where
  unfoldable pub decode_object : Text → Option Fields
  unfolding distinct_members
  decode_object raw = and_then (J.members raw) (distinct_members [])

  abbrev is_exact : List Text → Option Fields → Bool
  is_exact names none = false
  is_exact names (some fs) = (length fs == length names) && has_fields names fs

  -- decodeExactObject: the target, decoded by json.Unmarshal
  unfoldable pub decode_exact_object :
      {A : Type 0} → (Text → Option A) → Text → List Text → Option A
  unfolding decode_object has_fields
  decode_exact_object target raw names = only_if (is_exact names (decode_object raw)) (target raw)
