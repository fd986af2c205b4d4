-- ===== src/Tests/Data.antt =====
-- Values that the tests of client/src share.
use data_plane_gateway.Prelude.{true, false, none, some, [], ◌∷◌}
use data_plane_gateway.Text.{Text, codes}
use data_plane_gateway.Js.{network_error}
use data_plane_gateway.Json.{num, str, obj, Fields, end, field}
use data_plane_gateway.Util.TrimUrl.{Url}
use data_plane_gateway.Streams.{closed}
use data_plane_gateway.Util.Fetch.{Response, Network, resolved, rejected}
use data_plane_gateway.Gen.Broker.Journal.{ProtocolListResponse}
use data_plane_gateway.Gen.Broker.Messages.{ProtocolReadRequest}
use data_plane_gateway.Gen.Consumer.Shard.{ConsumerListResponse}

abbrev pub gateway : Url
gateway = record { href = codes "https://host/" }

-- A response that the network delivers in one or two chunks.
abbrev pub respond : Text → Text → Response
respond first second = record {
  ok = true;
  status = 200;
  body = some (record { chunks = first ∷ second ∷ []; ending = closed });
}

abbrev pub refuse : Text → Response
refuse body = record {
  ok = false;
  status = 401;
  body = some (record { chunks = body ∷ []; ending = closed });
}

abbrev pub always : Response → Network
always r sent request = resolved r

abbrev pub offline : Network
offline sent request = rejected network_error

-- {"code":16,"message":"no"}, as a unary call is refused.
abbrev pub denial : Text
denial = codes "{\"code\":16,\"message\":\"no\"}"

abbrev pub denial_fields : Fields
denial_fields =
    field (codes "code") (num (codes "16")) (field (codes "message") (str (codes "no")) end)

-- {"error":{"httpStatus":"Unauthorized"}}, as a stream is refused.
abbrev pub stream_denial : Text
stream_denial = codes "{\"error\":{\"httpStatus\":\"Unauthorized\"}}"

abbrev pub stream_denial_inner : Fields
stream_denial_inner = field (codes "httpStatus") (str (codes "Unauthorized")) end

abbrev pub stream_denial_fields : Fields
stream_denial_fields = field (codes "error") (obj stream_denial_inner) end

-- {"journals":[{"modRevision":"7"}]}
abbrev pub journal_list : ProtocolListResponse
journal_list = record {
  status = none;
  header = none;
  journals = some (record { spec = none; mod_revision = some (codes "7"); route = none } ∷ []);
}

-- {"shards":[{"modRevision":"7"}]}
abbrev pub shard_list : ConsumerListResponse
shard_list = record {
  status = none;
  header = none;
  shards =
      some
        (record { spec = none; mod_revision = some (codes "7"); route = none; status = none } ∷ []);
  extension = none;
}

abbrev pub read_from_start : ProtocolReadRequest
read_from_start = record {
  header = none;
  journal = some (codes "a/b");
  offset = some (codes "0");
  block = none;
  do_not_proxy = none;
  metadata_only = none;
  end_offset = none;
  begin_mod_time = none;
}
