-- ===== src/Message.antt =====
-- Messages and the keys of sessions of crates/netbaiot-transports/src/mqtt/broker/mod.rs. A text is its
-- list of code points, an `i64` its number plus 2^63; the copy-on-write of SharedPublishProperties leaves
-- no trace.
use netbaiot.Prelude.{
  ℕ, ◌+◌, ◌%◌, ◌≡◌, ap, ◌↔◌, Bool, true, false, ◌&&◌, Option, none, some, List, [], ◌∷◌, arith, leb,
  if◌then◌else◌, Eq, nat_eq, str_eq, str_eq_iff, string_eq, length, usize_limit, saturating_add,
}
use netbaiot.Topic.{byte_length}

pub record DeviceKey : Type 0 where
  pub tenant_id : List ℕ
  pub product_id : List ℕ
  pub device_id : List ℕ

pub record SessionKey : Type 0 where
  pub device : DeviceKey
  pub client_id : List ℕ

abbrev pub device_key_beq : DeviceKey → DeviceKey → Bool
device_key_beq a b =
    str_eq a.tenant_id b.tenant_id
    && (str_eq a.product_id b.product_id && str_eq a.device_id b.device_id)

device_key_eq-path :
    (a b : DeviceKey)
    → a.tenant_id ≡ b.tenant_id
    → a.product_id ≡ b.product_id
    → a.device_id ≡ b.device_id
    → a ≡ b
device_key_eq-path a b h k l = λ i. record { tenant_id = h i; product_id = k i; device_id = l i }

pub device_key_beq_iff : (a b : DeviceKey) → (device_key_beq a b ≡ true) ↔ (a ≡ b)
device_key_beq_iff a b = (
  λ h. ground (
    arith,
    str_eq_iff a.tenant_id b.tenant_id,
    str_eq_iff a.product_id b.product_id,
    str_eq_iff a.device_id b.device_id,
    device_key_eq-path a b,
  ),
  λ h. ground (
    arith,
    str_eq_iff a.tenant_id b.tenant_id,
    str_eq_iff a.product_id b.product_id,
    str_eq_iff a.device_id b.device_id,
    ap DeviceKey.tenant_id h,
    ap DeviceKey.product_id h,
    ap DeviceKey.device_id h,
  ),
)

instance abbrev pub device_key_eq : Eq DeviceKey
device_key_eq = record { beq = device_key_beq; beq_iff = device_key_beq_iff }

pub data BrokerError : Type 0 where
  overloaded : BrokerError
  invalid : BrokerError
  conflict : BrokerError
  internal : BrokerError

abbrev pub session_key_beq : SessionKey → SessionKey → Bool
session_key_beq a b = device_key_beq a.device b.device && str_eq a.client_id b.client_id

session_key_eq-path : (a b : SessionKey) → a.device ≡ b.device → a.client_id ≡ b.client_id → a ≡ b
session_key_eq-path a b h k = λ i. record { device = h i; client_id = k i }

pub session_key_beq_iff : (a b : SessionKey) → (session_key_beq a b ≡ true) ↔ (a ≡ b)
session_key_beq_iff a b = (
  λ h. ground (
    arith,
    device_key_beq_iff a.device b.device,
    str_eq_iff a.client_id b.client_id,
    session_key_eq-path a b,
  ),
  λ h. ground (
    arith,
    device_key_beq_iff a.device b.device,
    str_eq_iff a.client_id b.client_id,
    ap SessionKey.device h,
    ap SessionKey.client_id h,
  ),
)

instance abbrev pub session_key_eq : Eq SessionKey
session_key_eq = record { beq = session_key_beq; beq_iff = session_key_beq_iff }

abbrev pub state_overhead : ℕ
state_overhead = 64

pub record PublishProperties : Type 0 where
  pub payload_format : Option ℕ
  pub expires_at_ms : Option ℕ
  pub content_type : Option (List ℕ)
  pub response_topic : Option (List ℕ)
  pub correlation_data : Option (List ℕ)
  pub user_properties : List (List ℕ × List ℕ)

abbrev pub no_properties : PublishProperties
no_properties = record {
  payload_format = none;
  expires_at_ms = none;
  content_type = none;
  response_topic = none;
  correlation_data = none;
  user_properties = [];
}

abbrev pub is_none : {A : Type 0} → Option A → Bool
is_none none = true
is_none (some a) = false

-- `self == &Self::default()`
abbrev pub is_default : PublishProperties → Bool
is_default p =
    is_none p.payload_format
    && is_none p.expires_at_ms
    && is_none p.content_type
    && is_none p.response_topic
    && is_none p.correlation_data
    && elim p.user_properties [ [] ↦ true | _ ∷ _ ↦ false ]

abbrev pub option_bytes : (List ℕ → ℕ) → Option (List ℕ) → ℕ
option_bytes measure none = 0
option_bytes measure (some value) = measure value

-- A sum of `usize`, which wraps.
unfoldable pub user_bytes : List (List ℕ × List ℕ) → ℕ
user_bytes [] = 0
user_bytes ((key, value) ∷ pairs) =
    (saturating_add (saturating_add (byte_length key) (byte_length value)) 64 + user_bytes pairs)
    % usize_limit

unfoldable pub properties_bytes : PublishProperties → ℕ
properties_bytes p =
    if is_default p
    then 0
    else saturating_add
        (saturating_add
          (saturating_add (saturating_add 128 (option_bytes byte_length p.content_type))
            (option_bytes byte_length p.response_topic))
          (option_bytes length p.correlation_data))
        (user_bytes p.user_properties)

pub record BrokerMessage : Type 0 where
  pub topic : List ℕ
  pub payload : List ℕ
  pub qos : ℕ
  pub retain : Bool
  pub properties : PublishProperties

unfoldable pub message_bytes : BrokerMessage → ℕ
message_bytes m =
    saturating_add
      (saturating_add (saturating_add (byte_length m.topic) (length m.payload)) state_overhead)
      (properties_bytes m.properties)

abbrev pub due : Option ℕ → ℕ → Bool
due none now = false
due (some deadline) now = leb deadline now

abbrev pub expired : BrokerMessage → ℕ → Bool
expired m now = due m.properties.expires_at_ms now
