-- ===== src/Semconv/Rpc.antt =====
-- pkg/inst-api-semconv/instrumenter/rpc: the attributes and the span name of RPC clients and servers,
-- whose extractors share OnStart and OnEnd.
use opentelemetry_go_auto_in.Base.{
  ◌||◌, Option, List, [], ◌∷◌, ◌++◌, if◌then◌else◌, Str, codes, str_eq,
}
use opentelemetry_go_auto_in.Semconv.Attribute.{
  KeyValue, string_attr, rpc_system_key, rpc_service_key, rpc_method_key, server_address_key,
}

module _ (Ctx Request Response : Type 0) where
  pub record RpcAttrsGetter : Type 0 where
    pub get_system : Request → Str
    pub get_service : Request → Str
    pub get_method : Request → Str
    pub get_server_address : Request → Str

  unfoldable pub rpc_on_start : RpcAttrsGetter → List KeyValue → Ctx → Request → List KeyValue × Ctx
  rpc_on_start g attrs ctx request = (
    attrs
        ++ (string_attr rpc_system_key (g.get_system request)
            ∷ string_attr rpc_service_key (g.get_service request)
            ∷ string_attr rpc_method_key (g.get_method request)
            ∷ string_attr server_address_key (g.get_server_address request)
            ∷ []),
    ctx,
  )

  unfoldable pub rpc_on_end :
      RpcAttrsGetter → List KeyValue → Ctx → Request → Response → Option Str → List KeyValue × Ctx
  rpc_on_end g attrs ctx request response error = (attrs, ctx)

  unfoldable pub rpc_span_name : RpcAttrsGetter → Request → Str
  rpc_span_name g request =
      let service = g.get_service request in
      let method = g.get_method request in
      if str_eq service [] || str_eq method []
      then codes "RPC request"
      else service ++ codes "/" ++ method
