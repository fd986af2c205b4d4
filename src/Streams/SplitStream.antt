-- ===== src/Streams/SplitStream.antt =====
-- `splitStream` of client/src/streams.ts.
pub mod Laws
use data_plane_gateway.Prelude.{
  Option, none, some, List, [], ◌∷◌, ◌++◌, init, last?, length, ◌==◌, if◌then◌else◌,
}
use data_plane_gateway.Text.{Text, codes}
use data_plane_gateway.Text.Split.{split}
use data_plane_gateway.Js.{Outcome, returned, thrown, type_error}
use data_plane_gateway.Streams.{Transformer}

-- The variable `buffer`. The last part of a split without parts is `undefined`.
abbrev pub Buffer : Type 0
Buffer = Option Text

-- buffer + chunk, where `undefined` is converted to a string
unfoldable pub append_chunk : Buffer → Text → Text
append_chunk none chunk = codes "undefined" ++ chunk
append_chunk (some s) chunk = s ++ chunk

-- All parts but the last are enqueued, and the last one is the new buffer.
unfoldable pub queue_lines : Text → Text → Buffer × List Text
unfolding split
queue_lines split_on buffer = let parts = split buffer split_on in (last? parts, init parts)

unfoldable pub transform : Text → Buffer → Text → Outcome (Buffer × List Text)
unfolding append_chunk queue_lines
transform split_on buffer chunk = returned (queue_lines split_on (append_chunk buffer chunk))

unfoldable pub flush : Text → Buffer → Outcome (List Text)
unfolding queue_lines
flush split_on none = thrown type_error
flush split_on (some s) = if length s == 0 then returned [] else returned (queue_lines split_on s).1

unfoldable pub split_stream : Text → Transformer Buffer Text Text
unfolding transform flush
split_stream split_on = record {
  start = some [];
  transform = transform split_on;
  flush = flush split_on;
}
