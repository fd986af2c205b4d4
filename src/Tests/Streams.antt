-- ===== src/Tests/Streams.antt =====
-- Runs of the stages of client/src/streams.ts.
use data_plane_gateway.Prelude.{ℕ, ◌≡◌, refl, none, some, List, [], ◌∷◌, arith, flatten}
use data_plane_gateway.Text.{Text, codes, text_eq, starts_with}
use data_plane_gateway.Text.Split.{split}
use data_plane_gateway.Js.{returned, type_error}
use data_plane_gateway.Json.{truthy, Json, null, num, str, obj, Fields, end, field, lookup}
use data_plane_gateway.Json.Stringify.{json_value}
use data_plane_gateway.Base64.{btoa}
use data_plane_gateway.Streams.{Stream, closed, errored, pipe_through}
use data_plane_gateway.Streams.SplitStream.{split_stream}
use data_plane_gateway.Streams.SplitStream.Laws.{split_stream_lem}
use data_plane_gateway.Streams.Stages.{parse_json_stream, unwrap_result}
use data_plane_gateway.Streams.Stages.Laws.{unwrap_result_lem}
use data_plane_gateway.Json.Fuel.Whole.{IsReadAs}
use data_plane_gateway.Streams.Stages.Fuel.{parse_json_stream_fuel}
use data_plane_gateway.Prelude.{◌↔◌}
use data_plane_gateway.Streams.ReadToEnd.{read_stream_to_end}
use data_plane_gateway.Streams.ReadToEnd.Laws.{read_stream_to_end_falsy}

abbrev cut_lines : Stream Text
cut_lines = record { chunks = codes "a\nb" ∷ codes "c\nd" ∷ []; ending = closed }

split_stream_lem_example :
    pipe_through (split_stream (codes "\n")) cut_lines
    ≡ record { chunks = codes "a" ∷ codes "bc" ∷ []; ending = closed }
unfolding split flatten starts_with
split_stream_lem_example = split_stream_lem (codes "\n") cut_lines (omega arith)

abbrev some_texts : Stream Text
some_texts = record {
  chunks = codes "1" ∷ codes "[" ∷ codes "null" ∷ [];
  ending = errored type_error;
}

abbrev result_fields : Fields
result_fields = field (codes "result") (num (codes "1")) end

unwrap_result_lem_example :
    (pipe_through unwrap_result
        (record { chunks = obj result_fields ∷ obj end ∷ []; ending = closed })
      ≡ record { chunks = some (num (codes "1")) ∷ none ∷ []; ending = closed })
    × (pipe_through unwrap_result
          (record { chunks = obj result_fields ∷ obj end ∷ null ∷ obj end ∷ []; ending = closed })
        ≡ record { chunks = some (num (codes "1")) ∷ none ∷ []; ending = errored type_error })
unfolding lookup text_eq
unwrap_result_lem_example = unwrap_result_lem (result_fields ∷ end ∷ []) closed (obj end ∷ [])

abbrev content_of : List ℕ → Fields
content_of bytes =
    field (codes "offset") (str (codes "3")) (field (codes "content") (str (btoa bytes)) end)

abbrev two_messages : List (Fields × List ℕ)
two_messages = (content_of (0x7b ∷ 0xc3 ∷ 0xa9 ∷ []), 0x7b ∷ 0xe9 ∷ []) ∷ (content_of [], []) ∷ []

abbrev some_numbers : List Json
some_numbers = num (codes "1") ∷ num (codes "2") ∷ []

read_stream_to_end_falsy_example :
    read_stream_to_end (record {
      chunks = num (codes "1") ∷ num (codes "2") ∷ num (codes "0") ∷ num (codes "3") ∷ [];
      ending = errored type_error;
    })
    ≡ returned some_numbers
unfolding truthy
read_stream_to_end_falsy_example =
    read_stream_to_end_falsy some_numbers (num (codes "3") ∷ []) (num (codes "0"))
      (errored type_error) (refl, (refl, tt)) refl

parse_json_stream_fuel_example :
    ((parse_json_stream.transform tt (codes "[[1]") ≡ returned (tt, null ∷ []))
      ↔ IsReadAs (codes "[[1]") null)
    × ((parse_json_stream.transform tt (codes "[[1]") ≡ returned (tt, []))
        ↔ (¬ ((w : Json) × IsReadAs (codes "[[1]") w)))
parse_json_stream_fuel_example = parse_json_stream_fuel (codes "[[1]") null
