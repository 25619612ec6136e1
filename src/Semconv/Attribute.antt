-- ===== src/Semconv/Attribute.antt =====
-- attribute.KeyValue of OpenTelemetry, and the attribute names of its semantic conventions that the
-- extractors and the metrics use.
use opentelemetry_go_auto_in.Base.{ℕ, Bool, List, Str, codes}
use opentelemetry_go_auto_in.Base.Int.{ℤ}

-- attribute.Value; a float64 is the number of its bits.
pub data AttrValue : Type 0 where
  string_value : Str → AttrValue
  int_value : ℤ → AttrValue
  bool_value : Bool → AttrValue
  float64_value : ℕ → AttrValue
  string_slice_value : List Str → AttrValue

pub record KeyValue : Type 0 where
  pub key : Str
  pub value : AttrValue

abbrev pub string_attr : Str → Str → KeyValue
string_attr k s = record { key = k; value = string_value s }

abbrev pub int_attr : Str → ℤ → KeyValue
int_attr k n = record { key = k; value = int_value n }

abbrev pub http_request_method_key : Str
http_request_method_key = codes "http.request.method"

abbrev pub http_response_status_code_key : Str
http_response_status_code_key = codes "http.response.status_code"

abbrev pub http_route_key : Str
http_route_key = codes "http.route"

abbrev pub url_scheme_key : Str
url_scheme_key = codes "url.scheme"

abbrev pub url_path_key : Str
url_path_key = codes "url.path"

abbrev pub url_query_key : Str
url_query_key = codes "url.query"

abbrev pub url_full_key : Str
url_full_key = codes "url.full"

abbrev pub user_agent_original_key : Str
user_agent_original_key = codes "user_agent.original"

abbrev pub error_type_key : Str
error_type_key = codes "error.type"

abbrev pub server_address_key : Str
server_address_key = codes "server.address"

abbrev pub server_port_key : Str
server_port_key = codes "server.port"

abbrev pub network_transport_key : Str
network_transport_key = codes "network.transport"

abbrev pub network_type_key : Str
network_type_key = codes "network.type"

abbrev pub network_protocol_name_key : Str
network_protocol_name_key = codes "network.protocol.name"

abbrev pub network_protocol_version_key : Str
network_protocol_version_key = codes "network.protocol.version"

abbrev pub network_local_address_key : Str
network_local_address_key = codes "network.local.address"

abbrev pub network_local_port_key : Str
network_local_port_key = codes "network.local.port"

abbrev pub network_peer_address_key : Str
network_peer_address_key = codes "network.peer.address"

abbrev pub network_peer_port_key : Str
network_peer_port_key = codes "network.peer.port"

abbrev pub rpc_system_key : Str
rpc_system_key = codes "rpc.system"

abbrev pub rpc_service_key : Str
rpc_service_key = codes "rpc.service"

abbrev pub rpc_method_key : Str
rpc_method_key = codes "rpc.method"

abbrev pub db_system_name_key : Str
db_system_name_key = codes "db.system.name"

abbrev pub db_query_text_key : Str
db_query_text_key = codes "db.query.text"

abbrev pub db_operation_name_key : Str
db_operation_name_key = codes "db.operation.name"

abbrev pub db_collection_name_key : Str
db_collection_name_key = codes "db.collection.name"

abbrev pub db_operation_batch_size_key : Str
db_operation_batch_size_key = codes "db.operation.batch.size"

abbrev pub db_namespace_key : Str
db_namespace_key = codes "db.namespace"

abbrev pub messaging_destination_temporary_key : Str
messaging_destination_temporary_key = codes "messaging.destination.temporary"

abbrev pub messaging_destination_name_key : Str
messaging_destination_name_key = codes "messaging.destination.name"

abbrev pub messaging_destination_template_key : Str
messaging_destination_template_key = codes "messaging.destination.template"

abbrev pub messaging_destination_partition_id_key : Str
messaging_destination_partition_id_key = codes "messaging.destination.partition.id"

abbrev pub messaging_destination_anonymous_key : Str
messaging_destination_anonymous_key = codes "messaging.destination.anonymous"

abbrev pub messaging_message_conversation_id_key : Str
messaging_message_conversation_id_key = codes "messaging.message.conversation_id"

abbrev pub messaging_message_body_size_key : Str
messaging_message_body_size_key = codes "messaging.message.body.size"

abbrev pub messaging_message_envelope_size_key : Str
messaging_message_envelope_size_key = codes "messaging.message.envelope.size"

abbrev pub messaging_client_id_key : Str
messaging_client_id_key = codes "messaging.client.id"

abbrev pub messaging_operation_name_key : Str
messaging_operation_name_key = codes "messaging.operation.name"

abbrev pub messaging_system_key : Str
messaging_system_key = codes "messaging.system"

abbrev pub messaging_message_id_key : Str
messaging_message_id_key = codes "messaging.message.id"

abbrev pub messaging_batch_message_count_key : Str
messaging_batch_message_count_key = codes "messaging.batch.message_count"
