-- ===== src/Adapter/Witnesses.antt =====
-- A small JSON and a run of the adapter, on which the theorems apply.
use offbeat.Adapter.Session.{
  not_applied, accept_snapshot_response, begin_sync, complete_snapshot_response,
}
use offbeat.Adapter.Candidate.Commits.{parse_candidate_snapshot-IsCandidate}
use offbeat.Desired.Candidate.{state_from_candidate}
use offbeat.Desired.Candidate.Total.{Returns}
use offbeat.Adapter.Session.Steps.Safe.{run-Safe, Safe}
use offbeat.Adapter.Session.Steps.Tokens.{run-Counted, Counted}
use offbeat.Adapter.Session.Steps.{
  connect, open_session, hello_accepted, sync, respond, committed, perform, Action, run, act,
}
use offbeat.Adapter.Parse.Sound.{parse_adapter_message-IsMessage, IsMessage}
use offbeat.Adapter.Parse.{warn, log, parse_adapter_message}
use offbeat.Adapter.Candidate.Sound.{IsCandidate}
use offbeat.Adapter.Candidate.{parse_candidate_snapshot}
use offbeat.Desired.State.{unsupported, Candidate}
use offbeat.Desired.Validation.{ArtworkUrl}
use offbeat.Adapter.Json.{Fields, Json, and_then, only_if}
use offbeat.Adapter.Session.Steps.Once.{run-Once, Once}
use offbeat.Adapter.Session.Steps.Wait.{run-Wait, Wait}
use offbeat.Prelude.{
  Text, List, Option, pos, codes, [], ◌∷◌, none, some, ok, ◌≡◌, refl, Ensures, if◌then◌else◌,
  text_eq, ◌<◌, arith,
}

-- The members of the objects "s", "p", "l" and "e", and of a log entry for any other raw value.
members_of : Text → Option Fields
members_of raw =
    if text_eq raw (codes "s")
    then some (
        (codes "kind", codes "candidate")
        ∷ (codes "playlists", [])
        ∷ (codes "liked_songs", codes "l")
        ∷ [])
    else if text_eq raw (codes "p")
    then some ((codes "uri", []) ∷ (codes "name", []) ∷ (codes "entries", []) ∷ [])
    else if text_eq raw (codes "l")
    then some ((codes "entries", []) ∷ [])
    else if text_eq raw (codes "e")
    then some ((codes "position", codes "0") ∷ (codes "kind", codes "unsupported") ∷ [])
    else some (
        (codes "version", codes "1")
        ∷ (codes "type", codes "log")
        ∷ (codes "level", codes "warn")
        ∷ (codes "message", codes "hello")
        ∷ [])

abbrev small_json : Json
small_json = record {
  fields = members_of;
  members = members_of;
  int = λ raw. some (pos (if text_eq raw (codes "1") then 1 else 0));
  string = λ raw. some raw;
  snapshot = λ raw. some (record {
    kind = codes "candidate";
    playlists = some (codes "p" ∷ []);
    liked_songs = codes "l";
  });
  playlist = λ raw. some (record {
    uri = codes "spotify:playlist:1";
    name = codes "Mix";
    entries = some (codes "e" ∷ []);
  });
  liked = λ raw. some (some []);
  track = λ raw. none;
  named_uri = λ raw. none;
  collection_error = λ raw. none;
}

abbrev no_url : Text → Option ArtworkUrl
no_url s = none

abbrev small_candidate : Candidate
small_candidate = record {
  playlists =
      record {
        uri = codes "spotify:playlist:1";
        name = codes "Mix";
        position = 0;
        entries = record { position = 0; kind = unsupported; track = none; source_uri = [] } ∷ [];
      }
      ∷ [];
  liked_songs = [];
}

small_snapshot : parse_candidate_snapshot small_json no_url (codes "s") ≡ some small_candidate
unfolding parse_candidate_snapshot members_of and_then only_if text_eq
small_snapshot = refl

parse_candidate_snapshot-IsCandidate_example :
    IsCandidate small_json no_url small_candidate × Returns (state_from_candidate small_candidate)
parse_candidate_snapshot-IsCandidate_example =
    parse_candidate_snapshot-IsCandidate small_json no_url (codes "s") small_candidate
      small_snapshot

small_log : parse_adapter_message small_json no_url (codes "entry") ≡ ok (log warn (codes "hello"))
unfolding parse_adapter_message members_of text_eq
small_log = refl

parse_adapter_message-IsMessage_example :
    Ensures (IsMessage small_json no_url) (parse_adapter_message small_json no_url (codes "entry"))
parse_adapter_message-IsMessage_example =
    parse_adapter_message-IsMessage small_json no_url (codes "entry")

-- A session, a request, its response and the commit's completion, the latest first.
abbrev trace : List Action
trace =
    perform 0
    ∷ committed 0 (some (codes "offline")) not_applied
    ∷ respond 7 (codes "r")
    ∷ sync (codes "r")
    ∷ hello_accepted 7
    ∷ open_session 7
    ∷ connect 7
    ∷ []

run-Counted_example : Counted (run trace)
run-Counted_example = run-Counted trace

run-Safe_example : Safe (run trace)
run-Safe_example = run-Safe trace

run-Once_example : Once (run trace) 0
run-Once_example = run-Once trace 0

one_request : 0 < (run trace).next
unfolding run act accept_snapshot_response begin_sync text_eq complete_snapshot_response
one_request = omega arith

run-Wait_example : Wait (run trace) 0
run-Wait_example = run-Wait trace 0 one_request
