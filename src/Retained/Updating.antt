-- ===== src/Retained/Updating.antt =====
-- `update_retained` of crates/netbaiot-transports/src/mqtt/broker/retained.rs as an update of the map of
-- retained messages.
use mathlib.Core.Path.{subst}
use netbaiot.Prelude.{
  Result, ℕ, ◌+◌, ◌≤◌, ◌≡◌, refl, sym, ◌∙◌, inl, inr, false, Option, none, some, List, arith,
  if◌then◌else◌, Bool-cases, nat_eq, str_eq, str_eq_iff, string_eq, length, ok,
}
use netbaiot.Prelude.Map.{lookup, insert, remove, lookup-insert, lookup-remove, beq_self}
use netbaiot.Prelude.Totals.{total-insert}
use netbaiot.Message.{BrokerError, BrokerMessage, DeviceKey, SessionKey}
use netbaiot.Retained.{
  RetainedLimits, RetainedMessage, RetainedState, charge_of, retained_charge, over_limits,
  no_payload, check_retained_update,
}
use netbaiot.Retained.Update.{
  update_retained_expiry, delete_retained, store_retained, update_retained,
}
use netbaiot.Retained.Promise.{usage_of_tenant, reserved_of_tenant, AreLimits, IsWithin}
use netbaiot.Retained.Tally.{IsTallied, lookup-raised}
use netbaiot.Retained.Storing.{
  CountsOld, old-counts, base_state, added_state, base-IsTallied, added-IsTallied, delete-result,
  store-result,
}
use netbaiot.Retained.Allowed.{length-total, length-removed, base-usage, allowed_room}

base-IsWithin :
    (limits : RetainedLimits) (s : RetainedState) (topic : List ℕ) (old : Option RetainedMessage)
    (count bytes : ℕ)
    → IsWithin limits s
    → IsTallied s
    → CountsOld s old count bytes
    → IsWithin limits (base_state s topic old count bytes)
base-IsWithin limits s topic none count bytes within tallied counted =
    let fewer = length-removed topic s.retained tallied.distinct in
    record {
      messages = omega (arith, fewer, within.messages);
      bytes = omega (arith, within.bytes);
      tenant_messages = within.tenant_messages;
      tenant_bytes = within.tenant_bytes;
    }
base-IsWithin limits s topic (some old) count bytes within tallied counted =
    let fewer = length-removed topic s.retained tallied.distinct in
    record {
      messages = omega (arith, fewer, within.messages);
      bytes = omega (arith, within.bytes);
      tenant_messages = λ tenant. ground (
        arith,
        base-usage s topic (some old) count bytes tenant counted,
        within.tenant_messages tenant,
      );
      tenant_bytes = λ tenant. ground (
        arith,
        base-usage s topic (some old) count bytes tenant counted,
        within.tenant_bytes tenant,
      );
    }

added-IsWithin :
    (limits : RetainedLimits) (base : RetainedState) (r : RetainedMessage)
    → IsWithin limits base
    → lookup r.message.topic base.retained ≡ none
    → length base.retained + base.retained_reserved_count + 1 ≤ limits.max_retained_messages
    → base.retained_bytes + charge_of r + base.retained_reserved_bytes ≤ limits.max_retained_bytes
    → (usage_of_tenant base r.tenant_id).0 + (reserved_of_tenant base r.tenant_id).0 + 1
      ≤ limits.max_retained_messages_per_tenant
    → (usage_of_tenant base r.tenant_id).1 + charge_of r + (reserved_of_tenant base r.tenant_id).1
      ≤ limits.max_retained_bytes_per_tenant
    → IsWithin limits (added_state base r)
added-IsWithin limits base r within absent a b c d =
    let more = total-insert (λ k v. 1) r.message.topic r base.retained in
    let before = length-total base.retained in
    let after = length-total (insert r.message.topic r base.retained) in
    record {
      messages = ground (arith, more, before, after, absent);
      bytes = ground arith;
      tenant_messages = λ tenant. ground (
        arith,
        lookup-raised r base.retained_tenant_usage tenant,
        within.tenant_messages tenant,
        str_eq_iff r.tenant_id tenant,
      );
      tenant_bytes = λ tenant. ground (
        arith,
        lookup-raised r base.retained_tenant_usage tenant,
        within.tenant_bytes tenant,
        str_eq_iff r.tenant_id tenant,
      );
    }

-- An update that succeeds: the accounts hold and stay within the limits, and the topic has this value.
pub record IsUpdated (limits : RetainedLimits) (s : RetainedState) (topic : List ℕ)
    (value : Option RetainedMessage) (p : RetainedState × Result BrokerError (Unit {0}))
    : Type 0 where
  pub succeeds : p.1 ≡ ok tt
  pub tallied : IsTallied p.0
  pub within : IsWithin limits p.0
  pub retained :
      (other : List ℕ)
      → lookup other p.0.retained ≡ (if str_eq topic other then value else lookup other s.retained)

expiry-IsUpdated :
    (limits : RetainedLimits) (s t : RetainedState) (topic : List ℕ)
    (value : Option RetainedMessage) (deadline : Option ℕ)
    → IsTallied t
    → IsWithin limits t
    → ((other : List ℕ)
        → lookup other t.retained ≡ (if str_eq topic other then value else lookup other s.retained))
    → IsUpdated limits s topic value (update_retained_expiry t topic deadline, ok tt)
unfolding update_retained_expiry
expiry-IsUpdated limits s t topic value deadline tallied within retained = record {
  succeeds = refl;
  tallied = record {
    distinct = tallied.distinct;
    bytes = tallied.bytes;
    counts = tallied.counts;
    tenant_bytes = tallied.tenant_bytes;
  };
  within = record {
    messages = within.messages;
    bytes = within.bytes;
    tenant_messages = within.tenant_messages;
    tenant_bytes = within.tenant_bytes;
  };
  retained = retained;
}

delete-IsUpdated :
    (limits : RetainedLimits) (s : RetainedState) (topic : List ℕ) (old : Option RetainedMessage)
    → IsTallied s
    → IsWithin limits s
    → lookup topic s.retained ≡ old
    → IsUpdated limits s topic none (delete_retained s topic old)
unfolding delete_retained
delete-IsUpdated limits s topic none tallied within found =
    expiry-IsUpdated limits s s topic none none tallied within
      (λ other. ground (arith, found, str_eq_iff topic other))
delete-IsUpdated limits s topic (some old) tallied within found =
    let (count, bytes, counted) = old-counts s topic (some old) tallied found in
    let t = base_state s topic (some old) count bytes in
    subst (IsUpdated limits s topic none) (sym (delete-result s topic old count bytes counted)) (
      expiry-IsUpdated limits s t topic none none
        (base-IsTallied s topic (some old) count bytes tallied found counted)
        (base-IsWithin limits s topic (some old) count bytes within tallied counted)
        (λ other. lookup-remove topic other s.retained))

base_rest :
    (s : RetainedState) (topic : List ℕ) (old : Option RetainedMessage) (count bytes : ℕ)
    → ((base_state s topic old count bytes).retained ≡ remove topic s.retained)
      × ((base_state s topic old count bytes).retained_reserved_count ≡ s.retained_reserved_count)
      × ((base_state s topic old count bytes).retained_reserved_bytes ≡ s.retained_reserved_bytes)
      × ((base_state s topic old count bytes).retained_reserved_tenants
          ≡ s.retained_reserved_tenants)
base_rest s topic none count bytes = (refl, refl, refl, refl)
base_rest s topic (some old) count bytes = (refl, refl, refl, refl)

store-IsUpdated :
    (limits : RetainedLimits) (s : RetainedState) (r : RetainedMessage)
    (old : Option RetainedMessage)
    → AreLimits limits
    → IsTallied s
    → IsWithin limits s
    → lookup r.message.topic s.retained ≡ old
    → over_limits s r.tenant_id old (charge_of r) limits ≡ false
    → IsUpdated limits s r.message.topic (some r) (store_retained s r old)
store-IsUpdated limits s r old sane tallied within found allowed =
    let topic = r.message.topic in
    let (count, bytes, counted) = old-counts s topic old tallied found in
    let base = base_state s topic old count bytes in
    let (a, b, c, d) =
      allowed_room limits s r.tenant_id topic old count bytes (charge_of r) sane within tallied
        found counted allowed in
    let (kept, reserved_count, reserved_bytes, reserved) = base_rest s topic old count bytes in
    let base_tallied = base-IsTallied s topic old count bytes tallied found counted in
    let base_within = base-IsWithin limits s topic old count bytes within tallied counted in
    let gone : lookup topic base.retained ≡ none =
      rw kept (lookup-remove topic topic s.retained ∙ rw (beq_self topic) refl) in
    subst (IsUpdated limits s topic (some r))
      (sym (
        store-result s r old count bytes counted (omega (arith, c, sane.tenant_messages))
          (omega (arith, d, sane.tenant_bytes))))
      (expiry-IsUpdated limits s (added_state base r) topic (some r)
        r.message.properties.expires_at_ms
        (added-IsTallied base r base_tallied gone (omega (arith, b, sane.bytes)))
        (added-IsWithin limits base r base_within gone (rw reserved_count a) (rw reserved_bytes b)
          (rw reserved c) (rw reserved d))
        (λ other.
          lookup-insert topic other r base.retained
          ∙ rw kept (ground (arith, lookup-remove topic other s.retained))))

check-allows :
    (limits : RetainedLimits) (s : RetainedState) (owner : DeviceKey) (origin : Option SessionKey)
    (message : BrokerMessage)
    → no_payload message ≡ false
    → check_retained_update s owner origin message limits ≡ ok tt
    → over_limits s owner.tenant_id
        (lookup message.topic s.retained)
        (retained_charge message origin)
        limits
      ≡ false
unfolding check_retained_update
check-allows limits s owner origin message full allowed = ground (arith, full, allowed)

-- What an allowed update leaves under its topic.
abbrev pub new_value : DeviceKey → Option SessionKey → BrokerMessage → Option RetainedMessage
new_value owner origin message =
    if no_payload message
    then none
    else some (record { tenant_id = owner.tenant_id; message = message; origin = origin })

-- Where the usages count the retained messages, these and the reservations are within the limits, and
-- `check_retained_update` allows a message: `update_retained` succeeds and sets its topic to it, or
-- clears the topic for a message without payload, leaves the other topics, and the usages and limits
-- hold again.
pub update_retained-IsUpdated :
    (limits : RetainedLimits) (s : RetainedState) (owner : DeviceKey) (origin : Option SessionKey)
    (message : BrokerMessage)
    → AreLimits limits
    → IsTallied s
    → IsWithin limits s
    → check_retained_update s owner origin message limits ≡ ok tt
    → IsUpdated limits s message.topic
        (new_value owner origin message)
        (update_retained s owner origin message limits)
unfolding update_retained
update_retained-IsUpdated limits s owner origin message sane tallied within allowed =
    let r : RetainedMessage = record {
      tenant_id = owner.tenant_id;
      message = message;
      origin = origin;
    } in
    elim (Bool-cases (no_payload message)) [
      | inl empty ↦ rw empty (
          delete-IsUpdated limits s message.topic (lookup message.topic s.retained) tallied within
            refl)
      | inr full ↦
          let fits = check-allows limits s owner origin message full allowed in
          rw (full, allowed)
            (store-IsUpdated limits s r (lookup message.topic s.retained) sane tallied within refl
              fits)
    ]
