-- ===== src/Semconv/Db.antt =====
-- pkg/inst-api-semconv/instrumenter/db: the attributes and the span name of database clients.
-- `itoa` is strconv.Itoa, `show` is fmt.Sprintf of %v, and `experimental` says whether the
-- environment enables the experimental attributes.
use mathlib.Core.List.{append-nil, append_assoc}
use opentelemetry_go_auto_in.Base.{
  ℕ, suc, ◌≡◌, refl, inl, inr, Bool, true, false, not, ◌&&◌, Option, none, List, [], ◌∷◌, ◌++◌,
  arith, if◌then◌else◌, Bool-cases, Str, codes, str_eq,
}
use opentelemetry_go_auto_in.Base.Int.{ℤ, pos, ltb_ℤ}
use opentelemetry_go_auto_in.Semconv.Attribute.{
  KeyValue, string_attr, int_attr, db_system_name_key, db_query_text_key, db_operation_name_key,
  server_address_key, db_collection_name_key, db_operation_batch_size_key, db_namespace_key,
}
use opentelemetry_go_auto_in.Semconv.Http.{filtered}
use opentelemetry_go_auto_in.Semconv.Shadow.{metric_attrs}
use opentelemetry_go_auto_in.Semconv.Metrics.{db_metrics_conv}

module _ (itoa : ℕ → Str) (experimental : Bool) (Ctx Request Response Param : Type 0)
    (show : Param → Str) where
  -- A getter with state, such as a cache of parsed statements, is one at the point of the call.
  pub record DbClientAttrsGetter : Type 0 where
    pub get_system : Request → Str
    pub get_server_address : Request → Str
    pub get_db_namespace : Request → Str
    pub get_batch_size : Request → ℤ
    pub get_statement : Request → Str
    pub get_operation : Request → Str
    pub get_collection : Request → Str
    pub get_parameters : Request → List Param

  -- DbClientCommonAttrsExtractor.OnEnd
  unfoldable pub db_common_on_end :
      DbClientAttrsGetter
      → Option (List KeyValue → List KeyValue)
      → List KeyValue
      → Ctx
      → Request
      → List KeyValue × Ctx
  db_common_on_end g filter attrs ctx request =
      (filtered filter (attrs ++ string_attr db_system_name_key (g.get_system request) ∷ []), ctx)

  -- DbClientAttrsExtractor
  unfoldable pub db_client_on_start :
      Option (List KeyValue → List KeyValue) → List KeyValue → Ctx → Request → List KeyValue × Ctx
  db_client_on_start filter attrs ctx request = (filtered filter attrs, ctx)

  -- The parameters of the query, from number `i` on
  abbrev pub param_attrs : ℕ → List Param → List KeyValue
  param_attrs i [] = []
  param_attrs i (p ∷ params) =
      string_attr (codes "db.query.parameter." ++ itoa i) (show p) ∷ param_attrs (suc i) params

  abbrev pub batch_attrs : ℤ → List KeyValue
  batch_attrs size =
      if ltb_ℤ (pos 0) size then int_attr db_operation_batch_size_key size ∷ [] else []

  abbrev pub namespace_attrs : Str → List KeyValue
  namespace_attrs name = if str_eq name [] then [] else string_attr db_namespace_key name ∷ []

  unfoldable pub db_client_on_end :
      DbClientAttrsGetter
      → Option (List KeyValue → List KeyValue)
      → List KeyValue
      → Ctx
      → Request
      → Response
      → Option Str
      → List KeyValue × Ctx
  unfolding db_common_on_end
  db_client_on_end g filter attrs ctx request response error =
      let (common, ctx1) = db_common_on_end g filter attrs ctx request in
      let named =
        common
        ++ (string_attr db_query_text_key (g.get_statement request)
            ∷ string_attr db_operation_name_key (g.get_operation request)
            ∷ string_attr server_address_key (g.get_server_address request)
            ∷ string_attr db_collection_name_key (g.get_collection request)
            ∷ []) in
      let batched = named ++ batch_attrs (g.get_batch_size request) in
      let spaced = batched ++ namespace_attrs (g.get_db_namespace request) in
      let params = if experimental then param_attrs 0 (g.get_parameters request) else [] in
      (filtered filter spaced ++ params, ctx1)

  unfoldable pub db_span_name : DbClientAttrsGetter → Request → Str
  db_span_name g request =
      let operation = g.get_operation request in
      let target = g.get_collection request in
      let system = g.get_system request in
      if not (str_eq operation []) && not (str_eq target [])
      then operation ++ codes " " ++ target
      else if not (str_eq operation [])
      then operation
      else if not (str_eq system [])
      then system
      else codes "DB"

  metric_attrs-append :
      (conv : List Str) (xs ys : List KeyValue)
      → metric_attrs conv (xs ++ ys) ≡ metric_attrs conv xs ++ metric_attrs conv ys
  metric_attrs-append conv [] ys = refl
  metric_attrs-append conv (x ∷ xs) ys = ground (arith, metric_attrs-append conv xs ys)

  metric_attrs-param_attrs :
      (i : ℕ) (params : List Param) → metric_attrs db_metrics_conv (param_attrs i params) ≡ []
  unfolding str_eq
  metric_attrs-param_attrs i [] = refl
  metric_attrs-param_attrs i (p ∷ params) = metric_attrs-param_attrs (suc i) params

  metric_attrs-batch_attrs : (size : ℤ) → metric_attrs db_metrics_conv (batch_attrs size) ≡ []
  unfolding str_eq
  metric_attrs-batch_attrs size = elim (Bool-cases (ltb_ℤ (pos 0) size)) [
    | inl some_batch ↦ rw some_batch refl
    | inr no_batch ↦ rw no_batch refl
  ]

  metric_attrs-namespace_attrs :
      (name : Str) → metric_attrs db_metrics_conv (namespace_attrs name) ≡ namespace_attrs name
  unfolding str_eq
  metric_attrs-namespace_attrs [] = refl
  metric_attrs-namespace_attrs (c ∷ name) = refl

  metric_attrs-params :
      (b : Bool) (params : List Param)
      → metric_attrs db_metrics_conv (if b then param_attrs 0 params else []) ≡ []
  metric_attrs-params true params = metric_attrs-param_attrs 0 params
  metric_attrs-params false params = refl

  -- With no filter, what the duration metric of a database keeps of the attributes that a client's
  -- span gets at its end is what it keeps of the earlier ones, the system, the operation, the
  -- server's address and the namespace, if there is one: neither the statement and the collection
  -- nor the parameters of the query are in it.
  pub db_client_on_end-metric_attrs :
      (g : DbClientAttrsGetter) (attrs : List KeyValue) (ctx : Ctx) (request : Request)
      (response : Response) (error : Option Str)
      → metric_attrs db_metrics_conv (db_client_on_end g none attrs ctx request response error).0
        ≡ metric_attrs db_metrics_conv attrs
          ++ (string_attr db_system_name_key (g.get_system request)
              ∷ string_attr db_operation_name_key (g.get_operation request)
              ∷ string_attr server_address_key (g.get_server_address request)
              ∷ namespace_attrs (g.get_db_namespace request))
  unfolding db_client_on_end db_common_on_end str_eq
  db_client_on_end-metric_attrs g attrs ctx request response error = simp (
    metric_attrs-append db_metrics_conv,
    metric_attrs-batch_attrs,
    metric_attrs-namespace_attrs,
    metric_attrs-params,
    append-nil,
    append_assoc,
  )
