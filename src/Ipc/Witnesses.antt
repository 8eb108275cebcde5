-- ===== src/Ipc/Witnesses.antt =====
-- A short line, a mapping and a retry request, on which the theorems of the protocol apply.
use offbeat.Ipc.Frame.Chunks.{read_frame-framed, split_line, framed}
use offbeat.Ipc.Request.Sound.{unmarshal_request-IsConsistent, IsConsistent}
use offbeat.Ipc.Validate.Mapping.{check_mapping_of_valid}
use offbeat.Ipc.Frame.RoundTrip.{read_frame_bounds, HasNoNewline, read_frame-write_frame}
use offbeat.Ipc.Serve.{
  IsWritten, ServeError, serve-IsAnswer, IsAnswer, HandlerError, serve, Response,
}
use offbeat.Ipc.Request.{
  Codec, Request, unmarshal_request, all_known, required, field, arguments, argument, positive_id,
  is_mapping_change,
}
use offbeat.Db.Mapping.{check_mapping}
use offbeat.Ipc.Validate.{Url, validate_manual_mapping_track_uri, validate_youtube_video_id}
use offbeat.Ipc.Frame.{
  read_frame_loop, read_slice, frame_step, finish_frame, without_last, frame_newline,
  max_message_bytes, read_frame, write_frame, eof,
}
use offbeat.Youtube.Strings.{trim_space}
use offbeat.Prelude.{
  byte_len, Text, List, Option, ℕ, pos, codes, [], ◌∷◌, ◌++◌, none, some, ok, ◌≡◌, ◌≤◌, true, refl,
  text_eq, arith, Result, length,
}
use offbeat.Youtube.Witnesses.{ascii}

abbrev line : List ℕ
line = codes "ok"

read_frame-framed_example :
    read_frame 1 eof (line ++ frame_newline ∷ [])
    ≡ some (framed eof [] (split_line (line ++ frame_newline ∷ [])))
read_frame-framed_example = read_frame-framed 1 eof (line ++ frame_newline ∷ []) (omega arith)

read_frame-write_frame_example :
    (written : List ℕ) × (write_frame line ≡ ok written)
    × (length written ≡ 3)
    × (read_frame 16 eof (written ++ line) ≡ some (ok (line, line)))
read_frame-write_frame_example =
    read_frame-write_frame 16 eof line line (omega arith) (refl, (refl, tt)) (omega arith)

line_read : read_frame 2 eof (line ++ frame_newline ∷ []) ≡ some (ok (line, []))
unfolding read_frame read_frame_loop read_slice frame_step finish_frame without_last
line_read = refl

read_frame_bounds_example :
    (length line ≤ max_message_bytes)
    × (line ++ frame_newline ∷ [] ≡ line ++ frame_newline ∷ [])
    × HasNoNewline line
read_frame_bounds_example =
    read_frame_bounds 2 eof (line ++ frame_newline ∷ []) line [] (omega arith) line_read

abbrev a_track : Text
a_track = codes "spotify:track:4uLU6hMCjMI75M1A2tKUQC"

abbrev a_video : Text
a_video = codes "dQw4w9WgXcQ"

a_track_valid : validate_manual_mapping_track_uri a_track ≡ true
unfolding validate_manual_mapping_track_uri byte_len
a_track_valid = refl

a_video_valid : validate_youtube_video_id a_video ≡ true
unfolding validate_youtube_video_id byte_len
a_video_valid = refl

check_mapping_of_valid_example : check_mapping a_track a_video ≡ true
check_mapping_of_valid_example = check_mapping_of_valid a_track a_video a_track_valid a_video_valid

-- Every object is the request to retry the work 5.
abbrev retry_codec : Codec
retry_codec = record {
  object = λ raw. some (
      (codes "version", codes "1")
      ∷ (codes "command", codes "acquire.retry")
      ∷ (codes "acquisition_retry", codes "5")
      ∷ []);
  int = λ raw. some (pos 1);
  string = λ raw. some raw;
  missing_page = λ raw. none;
  acquire = λ raw. none;
  track_uri = λ raw. none;
  acquisition_id = λ raw. some (pos 5);
  after_id = λ raw. none;
  mapping = λ raw. none;
  after_uri = λ raw. none;
  choice = λ raw. none;
}

abbrev no_url : Text → Option Url
no_url s = none

abbrev retry : Request
retry = record {
  version = pos 1;
  command = codes "acquire.retry";
  missing = none;
  acquire = none;
  acquisition_inspect = none;
  acquisition_status = none;
  acquisition_list = none;
  acquisition_retry = some 5;
  manual_mapping = none;
  manual_mapping_list = none;
  acquisition_choice = none;
  review_list = none;
}

retry_parsed : unmarshal_request ascii retry_codec no_url line ≡ ok retry
unfolding unmarshal_request all_known text_eq required field trim_space arguments argument
    positive_id is_mapping_change
retry_parsed = refl

unmarshal_request-IsConsistent_example : IsConsistent ascii no_url retry
unmarshal_request-IsConsistent_example =
    unmarshal_request-IsConsistent ascii retry_codec no_url line retry retry_parsed

abbrev handler : Request → Result HandlerError ℕ
handler r = ok 7

-- An encoder of two letters.
abbrev encode : Response ℕ → Option (List ℕ)
encode response = some line

serve-IsAnswer_example :
    (response : Response ℕ) × (outcome : Result ServeError (List ℕ)) × (serve ascii retry_codec
        no_url handler encode 16 eof
        (line ++ frame_newline ∷ [])
      ≡ some outcome)
    × IsAnswer ascii retry_codec no_url handler response
    × IsWritten (encode response) outcome
serve-IsAnswer_example =
    serve-IsAnswer ascii retry_codec no_url handler encode 16 eof (line ++ frame_newline ∷ [])
      (omega arith)
