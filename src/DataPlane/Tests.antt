-- ===== src/DataPlane/Tests.antt =====
-- The data plane's theorems at concrete policies, requests, frames and receipts.
use canonical_api_server_rs.Prelude.{
  ℕ, ◌≡◌, refl, ◌↔◌, true, false, List, [], ◌∷◌, none, some, Option, ok, codes, replicate, arith,
  byte_length, trim,
}
use canonical_api_server_rs.DataPlane.{
  AsyncStatus, pending, published, processing, succeeded, failed, dead_letter, validate_identifier,
  validate_resource, valid_route_name,
}
use canonical_api_server_rs.DataPlane.Frames.{IsFramed, decode_frame-encode_frame}
use canonical_api_server_rs.DataPlane.Policies.{
  DirectDatabasePolicy, direct_database_role, JetStreamPolicy, validate_jet_stream,
}
use canonical_api_server_rs.DataPlane.Receipts.{
  AsyncReceipt, can_transition_to, IsFinal, IsFinal-iff, transition, follow, IsAfter,
  follow-IsAfter,
}
use canonical_api_server_rs.DataPlane.Requests.{
  direct_read_only_database, WebApiRequest, WebApiResponse, read, web_api_contract, api_audience,
  validate_for, IsAdmissible, validate_for_iff,
}

abbrev payload : List ℕ
payload = 7 ∷ 8 ∷ 9 ∷ []

decode_frame-encode_frame_example : IsFramed payload 10
decode_frame-encode_frame_example = decode_frame-encode_frame payload 10 (omega arith)

abbrev direct : DirectDatabasePolicy
direct = record {
  role_name = direct_database_role;
  transaction_read_only = true;
  forced_row_level_security = true;
  statement_timeout_ms = 5000;
  lock_timeout_ms = 1000;
  row_limit = 1000;
}

abbrev stream : JetStreamPolicy
stream = record {
  stream = codes "WEB_API";
  request_subject = codes "web.requests";
  status_subject = codes "web.status";
  durable_consumer = codes "api";
  outbox_table = codes "outbox";
  inbox_table = codes "inbox";
  status_table = codes "status";
  ack_timeout_ms = 30000;
  dedupe_window_seconds = 3600;
  max_message_bytes = 65536;
  max_deliveries = 5;
}

stream_is_valid : validate_jet_stream stream ≡ ok tt
unfolding validate_jet_stream valid_route_name byte_length
stream_is_valid = refl

abbrev receipt : AsyncReceipt ℕ
receipt = record {
  operation_id = codes "op";
  dedupe_key = codes "key";
  status = pending;
  attempt = 0;
  metadata = 5;
}

-- A failed attempt and a second one that succeeds
abbrev history : List AsyncStatus
history = published ∷ processing ∷ failed ∷ published ∷ processing ∷ succeeded ∷ []

abbrev done : AsyncReceipt ℕ
done = record receipt { status = succeeded; attempt = 2 }

follow-history : follow receipt history ≡ ok done
unfolding follow transition
follow-history = refl

follow-IsAfter_example : IsAfter receipt history done
follow-IsAfter_example = follow-IsAfter receipt done history (omega arith) follow-history

IsFinal-iff_example :
    ((next : AsyncStatus) → can_transition_to dead_letter next ≡ false) ↔ IsFinal dead_letter
IsFinal-iff_example = IsFinal-iff dead_letter

abbrev request : WebApiRequest ℕ
request = record {
  contract = web_api_contract;
  request_id = codes "r-1";
  tenant_id = codes "t-1";
  subject = codes "user:1";
  audience = api_audience;
  operation = read;
  resource = codes "/quotes";
  payload = 3;
  dedupe_key = none;
}

abbrev to_vec : WebApiRequest ℕ → Option (List ℕ)
to_vec r = some (replicate 100 r.payload)

request_is_admitted : validate_for to_vec request direct_read_only_database ≡ ok tt
unfolding validate_for validate_identifier validate_resource byte_length trim
request_is_admitted = refl

validate_for_iff_example :
    (validate_for to_vec request direct_read_only_database ≡ ok tt)
    ↔ IsAdmissible to_vec request direct_read_only_database
validate_for_iff_example = validate_for_iff to_vec request direct_read_only_database

abbrev response : WebApiResponse ℕ
response = record {
  contract = web_api_contract;
  request_id = codes "r-1";
  status = 200;
  payload = 3;
}
