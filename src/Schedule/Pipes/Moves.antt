-- ===== src/Schedule/Pipes/Moves.antt =====
-- How many moves a run of `read` of client/src/journal_client.ts can have.
use data_plane_gateway.Prelude.{ℕ, ◌+◌, ◌*◌, ◌≤◌, ◌≡◌, ap, Option, List, flatten, length, arith}
use data_plane_gateway.Text.{Text}
use data_plane_gateway.Json.{Json}
use data_plane_gateway.Streams.{Stream, Ending, Transformer, pipe_through}
use data_plane_gateway.Streams.Stages.{parse_json_stream, unwrap_result}
use data_plane_gateway.Streams.TextDecoder.{text_decoder_stream}
use data_plane_gateway.Streams.TextDecoder.Laws.{received, text_decoder_stream_lem}
use data_plane_gateway.Streams.Lengths.{
  length-pipe_through, length-lines, text_decoder_stream-IsThin, parse_json_stream-IsThin,
  unwrap_result-IsThin,
}
use data_plane_gateway.JournalClient.{read_stages}
use data_plane_gateway.Schedule.System.{System}
use data_plane_gateway.Schedule.Body.{body}
use data_plane_gateway.Schedule.Through.{stage_rest, stage_moves, stage_start}
use data_plane_gateway.Schedule.Runs.{Run, Run-moves}
use data_plane_gateway.Schedule.Pipes.{
  lines, text_part, line_part, json_part, read_part, text_start, line_start, json_start, read_start,
  read_part-IsSound, text_rest, line_rest, json_rest, read_rest,
}

moves-start :
    {S A B : Type 0} (t : Transformer S A B) (sys : System A) (i : sys.State) (r : Stream B)
    → stage_rest t sys (stage_start t sys i) ≡ r
    → stage_moves t sys (stage_start t sys i) ≡ sys.moves i + 1 + length r.chunks
moves-start t sys i r h = unfold stage_moves in ap (λ s. sys.moves i + 1 + length s.chunks) h

module _ (b : Stream (List ℕ)) where
  abbrev texts : Stream Text
  texts = pipe_through text_decoder_stream b

  abbrev text_lines : Stream Text
  text_lines = pipe_through lines texts

  abbrev parsed : Stream Json
  parsed = pipe_through parse_json_stream text_lines

  abbrev unwrapped : Stream (Option Json)
  unwrapped = pipe_through unwrap_result parsed

  read_moves :
      read_part.moves (read_start b)
      ≡ length b.chunks
        + length texts.chunks
        + length text_lines.chunks
        + length parsed.chunks
        + length unwrapped.chunks
        + 4
  read_moves = omega (
    arith,
    moves-start text_decoder_stream (body (List ℕ)) b texts (text_rest b),
    moves-start lines text_part (text_start b) text_lines (line_rest b),
    moves-start parse_json_stream line_part (line_start b) parsed (json_rest b),
    moves-start unwrap_result json_part (json_start b) unwrapped
        (unfold read_stages in read_rest b),
  )

  read_bound :
      read_part.moves (read_start b) ≤ 2 * length b.chunks + 3 * length (flatten texts.chunks) + 5
  read_bound = omega (
    arith,
    read_moves,
    length-pipe_through text_decoder_stream 1 text_decoder_stream-IsThin b,
    length-lines b'\n' texts,
    length-pipe_through parse_json_stream 0 parse_json_stream-IsThin text_lines,
    length-pipe_through unwrap_result 0 unwrap_result-IsThin parsed,
  )

-- In whatever order the network, the stages and the reader of `read` take turns, they make at most
-- two moves for each chunk of the body, three for each code unit of its text, and five more.
pub Run-read-moves :
    (chunks : List (List ℕ)) (e : Ending) {ds : List (Option Json)} {n : ℕ} {y : read_part.State}
    → Run read_part (read_start (record { chunks = chunks; ending = e })) ds n y
    → n ≤ 2 * length chunks + 3 * length (received e (flatten chunks)) + 5
Run-read-moves chunks e r =
    let (t, q, h, _) = text_decoder_stream_lem chunks e in
    omega (
      arith,
      Run-moves read_part read_part-IsSound r,
      read_bound (record { chunks = chunks; ending = e }),
      ap (λ s. length (flatten s.chunks)) q,
      ap length h,
    )
