-- ===== src/Lib.antt =====
-- Verification of the data plane gateway: of its client library (client/src), which browsers use to
-- list journals and shards and to read journals through the gateway's HTTP interface, and of the gRPC
-- proxies behind that interface.
--
-- The program and its model, file by file:
--   Result        client/src/result.ts: the class Result. A side that is missing is `none`, and
--                 the tests `if (this.value)` go through the truth of a type's values.
--   Util          client/src/util.ts: SortBy (sortBy), TrimUrl (trimUrl), Fetch (doFetch and the
--                 class ResponseError).
--   Selector      client/src/selector.ts: Selector with toLabelSet; Journal and Shard hold the
--                 methods of the two subclasses. A method that changes `this` is a function to the
--                 new selector. Bag views a selector as a multiset of labels, and Posted as the JSON
--                 that is sent.
--   Streams       client/src/streams.ts: SplitStream (splitStream), Stages (parseJSONStream and
--                 unwrapResult), Content (decodeContent), ReadToEnd (readStreamToEnd). A stream is
--                 the chunks that its reader is given and the way it ends, closed or with an error;
--                 a transformer is its variables, its function `transform`, which enqueues chunks or
--                 throws, and its function `flush`.
--   JournalClient client/src/journal_client.ts: list, read, parseJournalDocuments. Below it, Documents
--                 and RoundTrip are about what the streams deliver, Laws and Read about list and read
--                 as calls, Requests about what the gateway is sent, Responses about the calls from the
--                 bytes of a response on, and Rejections about the errors with which their promises are
--                 rejected.
--   Schedule      the pipes of client/src/journal_client.ts and readStreamToEnd as they run, move by
--                 move. A System is a part of a pipe, seen by whoever reads from it: its moves inside,
--                 its handing over of chunks and its end. Body is the body of a response, Through a
--                 TransformStream with its queue, Reader the loop of readStreamToEnd; Pipes puts the
--                 stages of read and of parseJournalDocuments together.
--   ShardClient   client/src/shard_client.ts: list, stat.
--   Gen           client/src/gen: the messages of the broker and of the consumer as records of
--                 optional members, with their JSON. Broker and Consumer hold one file for each
--                 group of messages.
--   Gateway       journal_server.go and shard_server.go, the gRPC side of the gateway itself:
--                 Authorizer (PassThroughAuthorizer), Relay (the methods of JournalProxy but
--                 Append), Append (JournalProxy.Append), Shards (ShardProxy). A stream that is
--                 received from is its messages and the error that ends it, io.EOF or another; one
--                 that is sent to is a function to the error of each Send. Rounds runs the loops of
--                 List and Read for a number of rounds on a stream that need not end.
--   EndToEnd      from the broker's stream through the gateway to the documents of the client.
--   Tests         runs on concrete inputs.
--
-- How the parts interact: the clients build a label selector (Selector), send it as JSON (Util.Fetch),
-- branch on the Result, and turn the body of the response into JSON, or, for a read, into a stream
-- through the stages of Streams. An async function is an Action: it is given the requests that were
-- sent so far, and returns its outcome, a value or what was thrown, with the requests sent by then.
--
-- Streams are modelled twice. In Streams and JournalClient a pipe turns the whole of one stream into
-- another: this is what a pipe in one turn delivers. In Schedule, the body, the stages and the reader
-- take turns in any order; a stage may take chunks while the reader waits, and what it enqueues waits
-- in a queue. A stage that fails empties its queue, as a ReadableStream does, so that chunks in front
-- of an error may be lost, and then an error takes the place of a later one.
--
-- JavaScript and the browser: Js (outcomes, truth), Text (strings as lists of UTF-16 code units,
-- their comparison, endsWith, split), Sort (Array.prototype.sort, as an insertion sort, which is
-- stable as the language asks), Json (values, JSON.parse, JSON.stringify, member access), Base64
-- (atob), Utf8 (TextDecoder) and Streams.TextDecoder (TextDecoderStream). A number of JSON is kept as
-- its literal, since the client computes with none. Prelude holds shared lemmas.
--
-- Parameters: the network, a function from the requests sent before and a request to a response or
-- an exception; for the gateway, the contexts, their metadata, and the clients of the broker and the
-- consumer. Nothing is assumed of them. EndToEnd has the HTTP gateway, a library, as a function from
-- the messages of a stream to the chunks of a body, and assumes what is documented of it, that each
-- message is the `result` of a JSON object on a line of its own.
--
-- Bounds and fuel: code units and bytes are numbers; decodeContent keeps the 8 bits of a Uint8Array.
-- JSON.parse recurs on fuel, three rounds for each code unit of the text and three for the end, since a
-- value, its first code unit and a separator each cost one round. Json.RoundTrip.Whole counts them for
-- printed texts, and Json.Fuel for any text that some fuel reads. Gateway.Rounds counts the rounds of a
-- loop that need not end. Runs of Schedule are finite sequences of moves, and the moves of a state bound
-- them. Everything else recurs on the structure of its input.
--
-- Not modelled: the high water marks of the streams (a stage may run ahead of its reader by any number
-- of chunks), cancellation, Object.freeze, members that a value inherits from its prototype, and the
-- order of members whose names are integers. client/dist is generated from client/src. main.go is the
-- wiring of libraries.
pub mod Prelude
pub mod Text
pub mod Js
pub mod Json
pub mod Result
pub mod Util
pub mod Sort
pub mod Gen
pub mod Selector
pub mod Base64
pub mod Utf8
pub mod Streams
pub mod JournalClient
pub mod Gateway
pub mod Schedule
pub mod EndToEnd
pub mod Tests
pub mod ShardClient
