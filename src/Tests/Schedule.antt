-- ===== src/Tests/Schedule.antt =====
-- Runs of the pipes of client/src/journal_client.ts, move by move.
use data_plane_gateway.Prelude.{
  ℕ, ◌≡◌, refl, sym, subst, true, false, Option, none, some, List, [], ◌∷◌, ◌++◌, ◌+◌, ◌*◌, ◌≤◌,
  flatten,
}
use data_plane_gateway.Text.{Text, codes, starts_with, text_eq}
use data_plane_gateway.Text.Split.{split}
use data_plane_gateway.Json.{Json, num, obj, end, field, lookup}
use data_plane_gateway.Json.Parse.{parse}
use data_plane_gateway.Utf8.{idle, run}
use data_plane_gateway.Streams.{Stream, Ending, closed, prepend}
use data_plane_gateway.Streams.TextDecoder.{points_to_send, enqueue_text, text_decoder_stream}
use data_plane_gateway.Streams.SplitStream.{split_stream}
use data_plane_gateway.Streams.Stages.{parse_json_stream, unwrap_result}
use data_plane_gateway.Schedule.Through.{upstream, transform, flush}
use data_plane_gateway.Schedule.Runs.{Run, start, moved, taken}
use data_plane_gateway.Schedule.Pipes.{text_part, line_part, json_part, read_part, read_start}
use data_plane_gateway.Json.Scan.{read_number}
use data_plane_gateway.Json.Stringify.{stringify}
use data_plane_gateway.Json.RoundTrip.Values.{IsJson}
use data_plane_gateway.Utf8.{decode}
use data_plane_gateway.Schedule.Cuts.{Cuts}
use data_plane_gateway.Schedule.Runs.{Ended}
use data_plane_gateway.Schedule.Pipes.Moves.{Run-read-moves}
use data_plane_gateway.Schedule.Pipes.Read.{
  Run-read-Ended, Run-read-printed, Run-read-printed_whole,
}

-- {"result":1} and a line break behind it, in one chunk.
abbrev line : Text
line = codes "{\"result\":1}"

abbrev bytes : List ℕ
bytes = codes "{\"result\":1}\n"

abbrev whole_body : Stream (List ℕ)
whole_body = record { chunks = bytes ∷ []; ending = closed }

abbrev read_body : Stream (List ℕ)
read_body = record { chunks = []; ending = closed }

abbrev result : Json
result = obj (field (codes "result") (num (codes "1")) end)

-- The stages, with their queues.
abbrev text_before : text_part.State
text_before = record {
  inner = whole_body;
  own = record { started = false; decoder = idle };
  queue = [];
  status = none;
}

abbrev text_behind : List Text → Option Ending → text_part.State
text_behind q e = record {
  inner = read_body;
  own = record { started = true; decoder = idle };
  queue = q;
  status = e;
}

abbrev line_of : text_part.State → List Text → Option Ending → line_part.State
line_of i q e = record { inner = i; own = some []; queue = q; status = e }

abbrev json_of : line_part.State → List Json → Option Ending → json_part.State
json_of i q e = record { inner = i; own = tt; queue = q; status = e }

abbrev read_of : json_part.State → List (Option Json) → Option Ending → read_part.State
read_of i q e = record { inner = i; own = tt; queue = q; status = e }

-- A state of the pipe in which all queues but one are empty and no stage has ended.
abbrev at_read : line_part.State → read_part.State
at_read i = read_of (json_of i [] none) [] none

at_start : at_read (line_of text_before [] none) ≡ read_start whole_body
unfolding text_decoder_stream split_stream parse_json_stream unwrap_result
at_start = refl

line_moves :
    (i i' : line_part.State) → line_part.Step i i' → read_part.Step (at_read i) (at_read i')
line_moves i i' s = upstream (json_of i' [] none) refl (upstream i' refl s refl) refl

text_moves :
    (i i' : text_part.State)
    → text_part.Step i i'
    → read_part.Step (at_read (line_of i [] none)) (at_read (line_of i' [] none))
text_moves i i' s = line_moves (line_of i [] none) (line_of i' [] none) (upstream i' refl s refl)

decodes : text_part.Step text_before (text_behind (bytes ∷ []) none)
unfolding text_decoder_stream run points_to_send enqueue_text prepend
decodes =
    transform bytes read_body (record { started = true; decoder = idle }) (bytes ∷ []) refl refl
      refl refl

splits :
    line_part.Step
      (line_of (text_behind (bytes ∷ []) none) [] none)
      (line_of (text_behind [] none) (line ∷ []) none)
unfolding split_stream split starts_with
splits = transform bytes (text_behind [] none) (some []) (line ∷ []) refl refl refl refl

parses :
    json_part.Step
      (json_of (line_of (text_behind [] none) (line ∷ []) none) [] none)
      (json_of (line_of (text_behind [] none) [] none) (result ∷ []) none)
unfolding parse_json_stream parse text_eq
parses = transform line (line_of (text_behind [] none) [] none) tt (result ∷ []) refl refl refl refl

unwraps :
    (i : line_part.State)
    → read_part.Step
        (read_of (json_of i (result ∷ []) none) [] none)
        (read_of (json_of i [] none) (some (num (codes "1")) ∷ []) none)
unfolding unwrap_result lookup text_eq
unwraps i =
    transform result (json_of i [] none) tt (some (num (codes "1")) ∷ []) refl refl refl refl

text_ends : text_part.Step (text_behind [] none) (text_behind [] (some closed))
unfolding text_decoder_stream run points_to_send enqueue_text
text_ends = flush [] refl refl refl refl

-- The pipe when the text has ended and the reader has taken the result.
abbrev taken_state : read_part.State
taken_state = at_read (line_of (text_behind [] (some closed)) [] none)

abbrev closed_line : line_part.State
closed_line = line_of (text_behind [] (some closed)) [] (some closed)

abbrev closed_state : read_part.State
closed_state = read_of (json_of closed_line [] (some closed)) [] (some closed)

-- The text ends before the reader takes the result, which waits in the queue.
abbrev waiting : text_part.State → read_part.State
waiting i = read_of (json_of (line_of i [] none) [] none) (some (num (codes "1")) ∷ []) none

taken-Run : Run read_part (read_start whole_body) (some (num (codes "1")) ∷ []) 6 taken_state
taken-Run =
    taken
      (moved
        (moved
          (moved
            (moved
              (moved
                (subst (λ x. Run read_part (read_start whole_body) [] 0 x) (sym at_start) start)
                (text_moves text_before (text_behind (bytes ∷ []) none) decodes))
              (line_moves _ (line_of (text_behind [] none) (line ∷ []) none) splits))
            (upstream _ refl parses refl))
          (unwraps (line_of (text_behind [] none) [] none)))
        (upstream _ refl (upstream _ refl (upstream _ refl text_ends refl) refl) refl))
      refl

Run-read-moves_example : 6 ≤ 2 * 1 + 3 * 13 + 5
unfolding decode flatten
Run-read-moves_example = Run-read-moves (bytes ∷ []) closed taken-Run

Run-read-printed_example :
    (rest : List (Option Json)) × ((some (num (codes "1")) ∷ []) ++ rest
      ≡ some (num (codes "1")) ∷ [])
unfolding decode flatten stringify IsJson read_number
Run-read-printed_example =
    Run-read-printed (num (codes "1") ∷ []) [] (bytes ∷ []) closed (refl, tt) tt refl taken-Run

-- The run carried on to some end.
abbrev finished : Ended read_part (read_start whole_body) (some (num (codes "1")) ∷ [])
finished = Run-read-Ended whole_body taken-Run

Run-read-printed_whole_example :
    (some (num (codes "1")) ∷ finished.0 ≡ some (num (codes "1")) ∷ []) × (finished.3 ≡ closed)
unfolding decode flatten stringify IsJson read_number
Run-read-printed_whole_example =
    Run-read-printed_whole (num (codes "1") ∷ []) [] (bytes ∷ []) finished.3 (refl, tt) tt refl
      finished.4 finished.5
