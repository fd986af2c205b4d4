-- ===== src/Schedule/Pipes.antt =====
-- The pipes of client/src/journal_client.ts as they run: the stages behind the body of a response in
-- `read`, and those of `parseJournalDocuments`.
pub mod Read
pub mod Documents
pub mod Moves
use data_plane_gateway.Prelude.{ℕ, ◌+◌, ◌≤◌, ◌≡◌, refl, ap, ◌∙◌, ◌⊎◌, Option, List, length, arith}
use data_plane_gateway.Text.{Text, codes}
use data_plane_gateway.Json.{Json}
use data_plane_gateway.Streams.{Stream, Ending, Transformer, pipe_through}
use data_plane_gateway.Streams.TextDecoder.{text_decoder_stream}
use data_plane_gateway.Streams.SplitStream.{Buffer, split_stream}
use data_plane_gateway.Streams.Stages.{parse_json_stream, unwrap_result}
use data_plane_gateway.Streams.Content.{decode_content}
use data_plane_gateway.JournalClient.{read_stages, parse_journal_documents}
use data_plane_gateway.Schedule.Cuts.{Cuts}
use data_plane_gateway.Schedule.System.{System, IsSound}
use data_plane_gateway.Schedule.Body.{body, body-IsSound}
use data_plane_gateway.Schedule.Through.{stage_rest, stage_moves, through, stage_start}
use data_plane_gateway.Schedule.Through.Laws.{through-IsSound, rest-start}
use data_plane_gateway.Schedule.Runs.{Run, Ended, Run-moves, Run-Ended, Run-Closes, Run-prefix}

abbrev pub lines : Transformer Buffer Text Text
lines = split_stream (codes "\n")

-- The part of the pipe of `read` up to each stage.
abbrev pub text_part : System Text
text_part = through text_decoder_stream (body (List ℕ))

abbrev pub line_part : System Text
line_part = through lines text_part

abbrev pub json_part : System Json
json_part = through parse_json_stream line_part

abbrev pub read_part : System (Option Json)
read_part = through unwrap_result json_part

-- All stages start with empty queues, and the body with what the network is to deliver.
abbrev pub text_start : Stream (List ℕ) → text_part.State
text_start b = stage_start text_decoder_stream (body (List ℕ)) b

abbrev pub line_start : Stream (List ℕ) → line_part.State
line_start b = stage_start lines text_part (text_start b)

abbrev pub json_start : Stream (List ℕ) → json_part.State
json_start b = stage_start parse_json_stream line_part (line_start b)

abbrev pub read_start : Stream (List ℕ) → read_part.State
read_start b = stage_start unwrap_result json_part (json_start b)

pub read_part-IsSound : IsSound read_part
read_part-IsSound = through-IsSound unwrap_result json_part (
    through-IsSound parse_json_stream line_part (
      through-IsSound lines text_part
        (through-IsSound text_decoder_stream (body (List ℕ)) (body-IsSound (List ℕ)))))

pub text_rest :
    (b : Stream (List ℕ)) → text_part.rest (text_start b) ≡ pipe_through text_decoder_stream b
text_rest b = rest-start text_decoder_stream (body (List ℕ)) b

pub line_rest :
    (b : Stream (List ℕ))
    → line_part.rest (line_start b) ≡ pipe_through lines (pipe_through text_decoder_stream b)
line_rest b = rest-start lines text_part (text_start b) ∙ ap (pipe_through lines) (text_rest b)

pub json_rest :
    (b : Stream (List ℕ))
    → json_part.rest (json_start b)
      ≡ pipe_through parse_json_stream (pipe_through lines (pipe_through text_decoder_stream b))
json_rest b =
    rest-start parse_json_stream line_part (line_start b)
    ∙ ap (pipe_through parse_json_stream) (line_rest b)

pub read_rest : (b : Stream (List ℕ)) → read_part.rest (read_start b) ≡ read_stages b
unfolding read_stages
read_rest b =
    rest-start unwrap_result json_part (json_start b)
    ∙ ap (pipe_through unwrap_result) (json_rest b)

-- The stages of `parseJournalDocuments`, behind any stream of messages.
module _ (sys : System (Option Json)) where
  abbrev pub content_part : System Text
  content_part = through decode_content sys

  abbrev pub content_line_part : System Text
  content_line_part = through lines content_part

  abbrev pub document_part : System Json
  document_part = through parse_json_stream content_line_part

  abbrev pub content_start : sys.State → content_part.State
  content_start i = stage_start decode_content sys i

  abbrev pub content_line_start : sys.State → content_line_part.State
  content_line_start i = stage_start lines content_part (content_start i)

  abbrev pub document_start : sys.State → document_part.State
  document_start i = stage_start parse_json_stream content_line_part (content_line_start i)

  pub document_part-IsSound : IsSound sys → IsSound document_part
  document_part-IsSound sound =
      through-IsSound parse_json_stream content_line_part
        (through-IsSound lines content_part (through-IsSound decode_content sys sound))

  content_line_rest :
      (i : sys.State)
      → content_line_part.rest (content_line_start i)
        ≡ pipe_through lines (pipe_through decode_content (sys.rest i))
  content_line_rest i =
      rest-start lines content_part (content_start i)
      ∙ ap (pipe_through lines) (rest-start decode_content sys i)

  pub document_rest :
      (i : sys.State) → document_part.rest (document_start i) ≡ parse_journal_documents (sys.rest i)
  unfolding parse_journal_documents
  document_rest i =
      rest-start parse_json_stream content_line_part (content_line_start i)
      ∙ ap (pipe_through parse_json_stream) (content_line_rest i)
