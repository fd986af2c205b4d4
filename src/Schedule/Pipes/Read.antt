-- ===== src/Schedule/Pipes/Read.antt =====
-- What a reader is given of `read` of client/src/journal_client.ts, in whatever order the network,
-- the stages and the reader take turns.
use data_plane_gateway.Prelude.{
  ℕ, ◌≡◌, refl, ap, ◌∙◌, subst, Option, some, List, ◌++◌, map, flatten, All,
}
use data_plane_gateway.Text.{Text}
use data_plane_gateway.Json.{Json, obj}
use data_plane_gateway.Json.RoundTrip.Values.{IsJson}
use data_plane_gateway.Json.RoundTrip.Lines.{IsLine}
use data_plane_gateway.Streams.{Stream, Ending, closed}
use data_plane_gateway.Streams.TextDecoder.Laws.{received}
use data_plane_gateway.JournalClient.{read_stages}
use data_plane_gateway.JournalClient.RoundTrip.{printed, wrapped_fields, read_stages-printed}
use data_plane_gateway.Schedule.Cuts.{Cuts, Cuts-closed}
use data_plane_gateway.Schedule.Runs.{Run, Ended, Run-Ended, Run-Closes, Run-prefix}
use data_plane_gateway.Schedule.Pipes.{read_part, read_start, read_part-IsSound, read_rest}

pub Run-read_stages :
    (b : Stream (List ℕ)) {ds : List (Option Json)} {n : ℕ} {y : read_part.State} (e : Ending)
    → Run read_part (read_start b) ds n y
    → read_part.Closes y e
    → Cuts (read_stages b) (record { chunks = ds; ending = e })
Run-read_stages b {ds} {y} e r c =
    subst (λ s. Cuts s (record { chunks = ds; ending = e })) (read_rest b)
      (Run-Closes read_part read_part-IsSound r e c)

pub Run-read-Ended :
    (b : Stream (List ℕ)) {ds : List (Option Json)} {n : ℕ} {y : read_part.State}
    → Run read_part (read_start b) ds n y
    → Ended read_part (read_start b) ds
Run-read-Ended b r = Run-Ended read_part read_part-IsSound r

-- If the bytes of a body spell values of JSON, each as the `result` of an object on a line of its
-- own, then at any time, in whatever order the network, the stages and the reader take turns, the
-- reader of `read` was given the first ones of these values, in their order; whether the body closes
-- or fails. The values are any whose numbers are literals of JSON, whose strings hold code units of
-- 16 bits, and whose objects repeat no name.
pub Run-read-printed :
    (ds : List Json) (tail : Text) (chunks : List (List ℕ)) (e : Ending)
    {given : List (Option Json)} {n : ℕ} {y : read_part.State}
    → All IsJson ds
    → IsLine tail
    → received e (flatten chunks) ≡ printed (map obj (map wrapped_fields ds)) ++ tail
    → Run read_part (read_start (record { chunks = chunks; ending = e })) given n y
    → (rest : List (Option Json)) × (given ++ rest ≡ map some ds)
Run-read-printed ds tail chunks e h k q r =
    let (rest, p) = Run-prefix read_part read_part-IsSound r in
    (
      rest,
      p
          ∙ ap (λ s. s.chunks)
              (read_rest (record { chunks = chunks; ending = e })
                ∙ read_stages-printed ds tail chunks e h k q),
    )

-- If the bytes of a body that closes spell values of JSON, each as the `result` of an object on a
-- line of its own, then in whatever order the network, the stages and the reader take turns, a
-- reader of `read` that is told of the end was given these values and is told that the stream
-- closed. The values are any whose numbers are literals of JSON, whose strings hold code units of 16
-- bits, and whose objects repeat no name.
pub Run-read-printed_whole :
    (ds : List Json) (tail : Text) (chunks : List (List ℕ)) (e : Ending)
    {given : List (Option Json)} {n : ℕ} {y : read_part.State}
    → All IsJson ds
    → IsLine tail
    → received closed (flatten chunks) ≡ printed (map obj (map wrapped_fields ds)) ++ tail
    → Run read_part (read_start (record { chunks = chunks; ending = closed })) given n y
    → read_part.Closes y e
    → (given ≡ map some ds) × (e ≡ closed)
Run-read-printed_whole ds tail chunks e {given} h k q r c =
    let p = Cuts-closed _ _ refl (
      subst (λ s. Cuts s (record { chunks = given; ending = e }))
        (read_stages-printed ds tail chunks closed h k q)
        (Run-read_stages (record { chunks = chunks; ending = closed }) e r c)) in
    (ap (λ s. s.chunks) p, ap (λ s. s.ending) p)
