-- ===== src/Semconv/Net.antt =====
-- pkg/inst-api-semconv/instrumenter/net: the network and URL attributes. The getters are what a rule
-- for a library plugs in; `to_lower` is strings.ToLower.
use opentelemetry_go_auto_in.Base.{List, [], ◌∷◌, ◌++◌, if◌then◌else◌, Option, Str}
use opentelemetry_go_auto_in.Base.Int.{ℤ, pos, ltb_ℤ}
use opentelemetry_go_auto_in.Semconv.Attribute.{
  KeyValue, string_attr, int_attr, network_transport_key, network_type_key,
  network_protocol_name_key, network_protocol_version_key, network_local_address_key,
  network_local_port_key, network_peer_address_key, network_peer_port_key, url_scheme_key,
  url_path_key, url_query_key,
}

module _ (to_lower : Str → Str) (Ctx Request Response : Type 0) where
  pub record NetworkAttrsGetter : Type 0 where
    pub get_network_type : Request → Response → Str
    pub get_network_transport : Request → Response → Str
    pub get_network_protocol_name : Request → Response → Str
    pub get_network_protocol_version : Request → Response → Str
    pub get_network_local_inet_address : Request → Response → Str
    pub get_network_local_port : Request → Response → ℤ
    pub get_network_peer_inet_address : Request → Response → Str
    pub get_network_peer_port : Request → Response → ℤ

  pub record UrlAttrsGetter : Type 0 where
    pub get_url_scheme : Request → Str
    pub get_url_path : Request → Str
    pub get_url_query : Request → Str

  -- `if port > 0 { attributes = append(attributes, …) }`
  abbrev pub port_attr : Str → ℤ → List KeyValue
  port_attr k port = if ltb_ℤ (pos 0) port then int_attr k port ∷ [] else []

  unfoldable pub network_on_start :
      NetworkAttrsGetter → List KeyValue → Ctx → Request → List KeyValue × Ctx
  network_on_start g attrs ctx request = (attrs, ctx)

  unfoldable pub network_on_end :
      NetworkAttrsGetter
      → List KeyValue
      → Ctx
      → Request
      → Response
      → Option Str
      → List KeyValue × Ctx
  network_on_end g attrs ctx request response error =
      let named =
        attrs
        ++ (string_attr network_transport_key (g.get_network_transport request response)
            ∷ string_attr network_type_key (to_lower (g.get_network_type request response))
            ∷ string_attr network_protocol_name_key
                (to_lower (g.get_network_protocol_name request response))
            ∷ string_attr network_protocol_version_key
                (to_lower (g.get_network_protocol_version request response))
            ∷ string_attr network_local_address_key
                (g.get_network_local_inet_address request response)
            ∷ string_attr network_peer_address_key
                (g.get_network_peer_inet_address request response)
            ∷ []) in
      let local =
        named ++ port_attr network_local_port_key (g.get_network_local_port request response) in
      (local ++ port_attr network_peer_port_key (g.get_network_peer_port request response), ctx)

  unfoldable pub url_on_start : UrlAttrsGetter → List KeyValue → Ctx → Request → List KeyValue × Ctx
  url_on_start u attrs ctx request = (
    attrs
        ++ (string_attr url_scheme_key (u.get_url_scheme request)
            ∷ string_attr url_path_key (u.get_url_path request)
            ∷ string_attr url_query_key (u.get_url_query request)
            ∷ []),
    ctx,
  )

  unfoldable pub url_on_end :
      UrlAttrsGetter → List KeyValue → Ctx → Request → Response → Option Str → List KeyValue × Ctx
  url_on_end u attrs ctx request response error = (attrs, ctx)
