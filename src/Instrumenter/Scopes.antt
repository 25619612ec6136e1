-- ===== src/Instrumenter/Scopes.antt =====
-- The tables of pkg/inst-api/instrumenter/span_suppressor.go: the span key and the span kind that
-- an instrumentation scope stands for.
use opentelemetry_go_auto_in.Base.{Bool, true, false, [], ◌∷◌, Str, codes}
use opentelemetry_go_auto_in.Base.Dict.{Dict}

-- trace.SpanKind of the OpenTelemetry API
pub data SpanKind : Type 0 where
  unspecified internal server client producer consumer : SpanKind

pub SpanKind-discrete : Discrete SpanKind
SpanKind-discrete = hlevel

abbrev pub kind_eq : SpanKind → SpanKind → Bool
kind_eq unspecified unspecified = true
kind_eq internal internal = true
kind_eq server server = true
kind_eq client client = true
kind_eq producer producer = true
kind_eq consumer consumer = true
kind_eq _ _ = false

-- pkg/inst-api/utils/span_key.go: the keys that the tables below use
abbrev pub db_client_key : Str
db_client_key = codes "opentelemetry-traces-span-key-db-client"

abbrev pub http_client_key : Str
http_client_key = codes "opentelemetry-traces-span-key-http-client"

abbrev pub http_server_key : Str
http_server_key = codes "opentelemetry-traces-span-key-http-server"

abbrev pub rpc_client_key : Str
rpc_client_key = codes "opentelemetry-traces-span-key-rpc-client"

abbrev pub rpc_server_key : Str
rpc_server_key = codes "opentelemetry-traces-span-key-rpc-server"

-- pkg/inst-api/utils/scope.go: the scope names that the tables below use
abbrev pub fast_http_client_scope_name : Str
fast_http_client_scope_name = codes "pkg/rules/fasthttp/fasthttp_client_setup.go"

abbrev pub fast_http_server_scope_name : Str
fast_http_server_scope_name = codes "pkg/rules/fasthttp/fasthttp_server_setup.go"

abbrev pub net_http_client_scope_name : Str
net_http_client_scope_name = codes "pkg/rules/http/client_setup.go"

abbrev pub net_http_server_scope_name : Str
net_http_server_scope_name = codes "pkg/rules/http/server_setup.go"

abbrev pub hertz_http_client_scope_name : Str
hertz_http_client_scope_name = codes "pkg/rules/hertz/client/hertz_client_setup.go"

abbrev pub hertz_http_server_scope_name : Str
hertz_http_server_scope_name = codes "pkg/rules/hertz/server/hertz_server_setup.go"

abbrev pub fiber_v2_server_scope_name : Str
fiber_v2_server_scope_name = codes "pkg/rules/fiberv2/fiber_server_setup_v2.go"

abbrev pub elasticsearch_scope_name : Str
elasticsearch_scope_name = codes "pkg/rules/elasticsearch/es_client_setup.go"

abbrev pub grpc_client_scope_name : Str
grpc_client_scope_name = codes "pkg/rules/grpc/grpc_client_setup.go"

abbrev pub grpc_server_scope_name : Str
grpc_server_scope_name = codes "pkg/rules/grpc/grpc_server_setup.go"

abbrev pub trpcgo_client_scope_name : Str
trpcgo_client_scope_name = codes "pkg/rules/trpc/trpc_client_setup.go"

abbrev pub trpcgo_server_scope_name : Str
trpcgo_server_scope_name = codes "pkg/rules/trpc/trpc_server_setup.go"

abbrev pub database_sql_scope_name : Str
database_sql_scope_name = codes "pkg/rules/databasesql/setup.go"

abbrev pub go_redis_v9_scope_name : Str
go_redis_v9_scope_name = codes "pkg/rules/goredis/setup.go"

abbrev pub go_redis_v8_scope_name : Str
go_redis_v8_scope_name = codes "pkg/rules/goredisv8/setup.go"

abbrev pub redigo_scope_name : Str
redigo_scope_name = codes "pkg/rules/redigo/redigo_client_setup.go"

abbrev pub mongo_scope_name : Str
mongo_scope_name = codes "pkg/rules/mongo/client_setup.go"

abbrev pub gorm_scope_name : Str
gorm_scope_name = codes "pkg/rules/gorm/setup.go"

abbrev pub gopg_scope_name : Str
gopg_scope_name = codes "pkg/rules/gopg/setup.go"

abbrev pub kitex_client_scope_name : Str
kitex_client_scope_name = codes "pkg/rules/kitex/kitex_client_setup.go"

abbrev pub kitex_server_scope_name : Str
kitex_server_scope_name = codes "pkg/rules/kitex/kitex_server_setup.go"

-- var scopeKey
unfoldable pub scope_key_table : Dict Str
scope_key_table =
    (fast_http_client_scope_name, http_client_key)
    ∷ (fast_http_server_scope_name, http_server_key)
    ∷ (net_http_client_scope_name, http_client_key)
    ∷ (net_http_server_scope_name, http_server_key)
    ∷ (hertz_http_client_scope_name, http_client_key)
    ∷ (hertz_http_server_scope_name, http_server_key)
    ∷ (fiber_v2_server_scope_name, http_server_key)
    ∷ (elasticsearch_scope_name, http_client_key)
    ∷ (grpc_client_scope_name, rpc_client_key)
    ∷ (grpc_server_scope_name, rpc_server_key)
    ∷ (trpcgo_client_scope_name, rpc_client_key)
    ∷ (trpcgo_server_scope_name, rpc_server_key)
    ∷ (database_sql_scope_name, db_client_key)
    ∷ (go_redis_v9_scope_name, db_client_key)
    ∷ (go_redis_v8_scope_name, db_client_key)
    ∷ (redigo_scope_name, db_client_key)
    ∷ (mongo_scope_name, db_client_key)
    ∷ (gorm_scope_name, db_client_key)
    ∷ (gopg_scope_name, db_client_key)
    ∷ []

-- var kindKey
unfoldable pub kind_key_table : Dict SpanKind
kind_key_table =
    (fast_http_client_scope_name, SpanKind.client)
    ∷ (fast_http_server_scope_name, SpanKind.server)
    ∷ (net_http_client_scope_name, SpanKind.client)
    ∷ (net_http_server_scope_name, SpanKind.server)
    ∷ (hertz_http_client_scope_name, SpanKind.client)
    ∷ (hertz_http_server_scope_name, SpanKind.server)
    ∷ (fiber_v2_server_scope_name, SpanKind.server)
    ∷ (elasticsearch_scope_name, SpanKind.client)
    ∷ (grpc_client_scope_name, SpanKind.client)
    ∷ (grpc_server_scope_name, SpanKind.server)
    ∷ (trpcgo_client_scope_name, SpanKind.client)
    ∷ (trpcgo_server_scope_name, SpanKind.server)
    ∷ (kitex_client_scope_name, SpanKind.client)
    ∷ (kitex_server_scope_name, SpanKind.server)
    ∷ (database_sql_scope_name, SpanKind.client)
    ∷ (go_redis_v9_scope_name, SpanKind.client)
    ∷ (go_redis_v8_scope_name, SpanKind.client)
    ∷ (redigo_scope_name, SpanKind.client)
    ∷ (mongo_scope_name, SpanKind.client)
    ∷ (gorm_scope_name, SpanKind.client)
    ∷ (gopg_scope_name, SpanKind.client)
    ∷ []
