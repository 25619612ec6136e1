-- ===== src/Semconv/Message.antt =====
-- pkg/inst-api-semconv/instrumenter/message: the span key, the attributes and the span name of
-- messages that are published, received or processed.
use opentelemetry_go_auto_in.Base.{
  ◌≡◌, refl, Bool, true, Option, none, some, List, [], ◌∷◌, ◌++◌, if◌then◌else◌, Outcome, ok,
  panicked, Str, codes, str_eq, inl, inr, Bool-cases,
}
use opentelemetry_go_auto_in.Base.Int.{ℤ}
use opentelemetry_go_auto_in.Semconv.Attribute.{
  AttrValue, string_value, bool_value, KeyValue, string_attr, int_attr,
  messaging_destination_temporary_key, messaging_destination_name_key,
  messaging_destination_template_key, messaging_destination_partition_id_key,
  messaging_destination_anonymous_key, messaging_message_conversation_id_key,
  messaging_message_body_size_key, messaging_message_envelope_size_key, messaging_client_id_key,
  messaging_operation_name_key, messaging_system_key, messaging_message_id_key,
  messaging_batch_message_count_key,
}

-- pkg/inst-api/utils/span_key.go: the keys of messages
abbrev pub producer_key : Str
producer_key = codes "opentelemetry-traces-span-key-producer"

abbrev pub consumer_receive_key : Str
consumer_receive_key = codes "opentelemetry-traces-span-key-consumer-receive"

abbrev pub consumer_process_key : Str
consumer_process_key = codes "opentelemetry-traces-span-key-consumer-process"

-- A MessageOperation is a string; GetSpanKey knows three.
abbrev pub publish_operation : Str
publish_operation = codes "publish"

abbrev pub receive_operation : Str
receive_operation = codes "receive"

abbrev pub process_operation : Str
process_operation = codes "process"

unfoldable pub message_span_key : Str → Outcome Str
message_span_key operation =
    if str_eq operation publish_operation
    then ok producer_key
    else if str_eq operation receive_operation
    then ok consumer_receive_key
    else if str_eq operation process_operation
    then ok consumer_process_key
    else panicked

module _ (Ctx Request Response : Type 0) where
  pub record MessageAttrsGetter : Type 0 where
    pub get_system : Request → Str
    pub get_destination : Request → Str
    pub get_destination_template : Request → Str
    pub is_temporary_destination : Request → Bool
    pub is_anonymous_destination : Request → Bool
    pub get_conversation_id : Request → Str
    pub get_message_body_size : Request → ℤ
    pub get_message_envelop_size : Request → ℤ
    pub get_message_id : Request → Response → Str
    pub get_client_id : Request → Str
    pub get_batch_message_count : Request → Response → ℤ
    pub get_destination_partition_id : Request → Str

  abbrev pub destination_attrs : MessageAttrsGetter → Request → List KeyValue
  destination_attrs g request =
      if g.is_temporary_destination request
      then record { key = messaging_destination_temporary_key; value = bool_value true }
        ∷ string_attr messaging_destination_name_key (codes "(temporary)")
        ∷ []
      else string_attr messaging_destination_name_key (g.get_destination request)
        ∷ string_attr messaging_destination_template_key (g.get_destination_template request)
        ∷ []

  abbrev pub partition_attrs : Str → List KeyValue
  partition_attrs partition =
      if str_eq partition []
      then []
      else string_attr messaging_destination_partition_id_key partition ∷ []

  abbrev pub anonymous_attrs : Bool → List KeyValue
  anonymous_attrs anonymous =
      if anonymous
      then record { key = messaging_destination_anonymous_key; value = bool_value true } ∷ []
      else []

  unfoldable pub message_on_start :
      MessageAttrsGetter → Str → List KeyValue → Ctx → Request → List KeyValue × Ctx
  message_on_start g operation attrs ctx request =
      let placed = attrs ++ destination_attrs g request in
      let parted = placed ++ partition_attrs (g.get_destination_partition_id request) in
      let marked = parted ++ anonymous_attrs (g.is_anonymous_destination request) in
      (
        marked
            ++ (string_attr messaging_message_conversation_id_key (g.get_conversation_id request)
                ∷ int_attr messaging_message_body_size_key (g.get_message_body_size request)
                ∷ int_attr messaging_message_envelope_size_key (g.get_message_envelop_size request)
                ∷ string_attr messaging_client_id_key (g.get_client_id request)
                ∷ string_attr messaging_operation_name_key operation
                ∷ string_attr messaging_system_key (g.get_system request)
                ∷ []),
        ctx,
      )

  unfoldable pub message_on_end :
      MessageAttrsGetter
      → List KeyValue
      → Ctx
      → Request
      → Response
      → Option Str
      → List KeyValue × Ctx
  message_on_end g attrs ctx request response error = (
    attrs
        ++ (string_attr messaging_message_id_key (g.get_message_id request response)
            ∷ int_attr messaging_batch_message_count_key
                (g.get_batch_message_count request response)
            ∷ []),
    ctx,
  )

  abbrev pub destination_name : MessageAttrsGetter → Request → Str
  destination_name g request =
      if g.is_temporary_destination request then codes "(temporary)" else g.get_destination request

  abbrev pub named_operation : Str → Str → Str
  named_operation name operation =
      if str_eq operation [] then name else name ++ codes " " ++ operation

  unfoldable pub message_span_name : MessageAttrsGetter → Str → Request → Str
  message_span_name g operation request =
      let name = destination_name g request in
      named_operation (if str_eq name [] then codes "unknown" else name) operation

  -- The value of the first attribute of that key.
  abbrev pub attr_value : Str → List KeyValue → Option AttrValue
  unfolding str_eq
  attr_value k [] = none
  attr_value k (a ∷ attrs) = if str_eq a.key k then some a.value else attr_value k attrs

  -- The attributes that a message's span starts with give the name of the destination, and the
  -- span's name is that name, or "unknown" if it is empty, with the operation behind it, if that is
  -- not empty.
  pub message_on_start-span_name :
      (g : MessageAttrsGetter) (operation : Str) (ctx : Ctx) (request : Request)
      → let (attrs, ctx') = message_on_start g operation [] ctx request in
        (name : Str) × (attr_value messaging_destination_name_key attrs ≡ some (string_value name))
        × (message_span_name g operation request
            ≡ named_operation (if str_eq name [] then codes "unknown" else name) operation)
  unfolding message_on_start message_span_name str_eq
  message_on_start-span_name g operation ctx request =
      elim (Bool-cases (g.is_temporary_destination request)) [
        | inl temporary ↦ (codes "(temporary)", rw temporary refl, rw temporary refl)
        | inr lasting ↦ (g.get_destination request, rw lasting refl, rw lasting refl)
      ]
