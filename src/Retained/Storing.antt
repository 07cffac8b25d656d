-- ===== src/Retained/Storing.antt =====
-- `update_retained` of crates/netbaiot-transports/src/mqtt/broker/retained.rs keeps the usages and does
-- what `check_retained_update` allows.
use netbaiot.Prelude.{
  ℕ, ◌+◌, ◌-◌, ◌≤◌, ◌<◌, ◌≡◌, refl, sym, ap, ◌∙◌, inl, inr, Option, none, some, List, arith,
  Option-cases, nat_eq, str_eq_iff, string_eq, ok, usize_limit, saturating_add,
}
use netbaiot.Prelude.Map.{lookup, insert, remove, insert-Distinct, remove-Distinct, beq_self}
use netbaiot.Prelude.Totals.{total-insert, total-remove, total-absent, entry-within}
use netbaiot.Retained.{RetainedMessage, RetainedState, charge_of, old_charge}
use netbaiot.Retained.Update.{
  proceed, update_retained_expiry, without_expiry, delete_retained, without_old, put_retained,
  store_retained,
}
use netbaiot.Retained.Promise.{usage_of_tenant}
use netbaiot.Retained.Tally.{
  bytes_weight, count_in, bytes_in, IsTallied, no_messages, lowered, raised, usage_remove-ok,
  usage_add-ok, lookup-lowered, lookup-raised,
}

-- How the usage counts a message that is retained.
abbrev pub IsCounted : RetainedState → RetainedMessage → ℕ → ℕ → Type 0
IsCounted s old count bytes =
    (lookup old.tenant_id s.retained_tenant_usage ≡ some (count, bytes))
    × (1 ≤ count)
    × (charge_of old ≤ bytes)
    × (count ≡ 1 → bytes ≡ charge_of old)

old-IsCounted :
    (s : RetainedState) (topic : List ℕ) (old : RetainedMessage)
    → IsTallied s
    → lookup topic s.retained ≡ some old
    → (count : ℕ) × (bytes : ℕ) × IsCounted s old count bytes
old-IsCounted s topic old tallied found =
    let tenant = old.tenant_id in
    let counts = tallied.counts tenant in
    let bytes = tallied.tenant_bytes tenant in
    let one = entry-within (count_in tenant) topic s.retained in
    let all = entry-within (bytes_in tenant) topic s.retained in
    let others = total-remove (count_in tenant) topic s.retained tallied.distinct in
    let other_bytes = total-remove (bytes_in tenant) topic s.retained tallied.distinct in
    let none_left = no_messages tenant (remove topic s.retained) in
    let self = beq_self tenant in
    let impossible : ¬ (lookup tenant s.retained_tenant_usage ≡ none) =
      λ absent. ground (arith, counts, one, found, absent, self) in
    elim (Option-cases (lookup tenant s.retained_tenant_usage)) [
      | inl absent ↦ elim (impossible absent) [ ]
      | inr ((count, held), present) ↦ (
        count,
        held,
        (
          present,
          ground (arith, counts, one, found, present, self),
          ground (arith, bytes, all, found, present, self),
          λ last.
              ground
                (arith, counts, bytes, others, other_bytes, none_left, found, present, self, last),
        ),
      )
    ]

abbrev pub removed_state : RetainedState → List ℕ → RetainedMessage → ℕ → ℕ → RetainedState
removed_state s topic old count bytes = record s {
  retained = remove topic s.retained;
  retained_bytes = s.retained_bytes - charge_of old;
  retained_tenant_usage = lowered old count bytes s.retained_tenant_usage;
}

removed-IsTallied :
    (s : RetainedState) (topic : List ℕ) (old : RetainedMessage) (count bytes : ℕ)
    → IsTallied s
    → lookup topic s.retained ≡ some old
    → IsCounted s old count bytes
    → IsTallied (removed_state s topic old count bytes)
removed-IsTallied s topic old count bytes tallied found (present, some_left, enough, alone) =
    record {
      distinct = remove-Distinct topic s.retained tallied.distinct;
      bytes = ground (
        arith,
        total-remove bytes_weight topic s.retained tallied.distinct,
        found,
        tallied.bytes,
      );
      counts = λ tenant. ground (
        arith,
        lookup-lowered old count bytes s.retained_tenant_usage tenant alone some_left,
        total-remove (count_in tenant) topic s.retained tallied.distinct,
        tallied.counts tenant,
        found,
        present,
        str_eq_iff old.tenant_id tenant,
      );
      tenant_bytes = λ tenant. ground (
        arith,
        lookup-lowered old count bytes s.retained_tenant_usage tenant alone some_left,
        total-remove (bytes_in tenant) topic s.retained tallied.distinct,
        tallied.tenant_bytes tenant,
        found,
        present,
        str_eq_iff old.tenant_id tenant,
      );
    }

abbrev pub added_state : RetainedState → RetainedMessage → RetainedState
added_state s r = record s {
  retained = insert r.message.topic r s.retained;
  retained_bytes = saturating_add s.retained_bytes (charge_of r);
  retained_tenant_usage = raised r s.retained_tenant_usage;
}

pub added-IsTallied :
    (s : RetainedState) (r : RetainedMessage)
    → IsTallied s
    → lookup r.message.topic s.retained ≡ none
    → s.retained_bytes + charge_of r < usize_limit
    → IsTallied (added_state s r)
added-IsTallied s r tallied absent fits = record {
  distinct = insert-Distinct r.message.topic r s.retained tallied.distinct;
  bytes =
      ground (arith, total-insert bytes_weight r.message.topic r s.retained, absent, tallied.bytes);
  counts = λ tenant. ground (
    arith,
    lookup-raised r s.retained_tenant_usage tenant,
    total-insert (count_in tenant) r.message.topic r s.retained,
    tallied.counts tenant,
    absent,
    str_eq_iff r.tenant_id tenant,
  );
  tenant_bytes = λ tenant. ground (
    arith,
    lookup-raised r s.retained_tenant_usage tenant,
    total-insert (bytes_in tenant) r.message.topic r s.retained,
    tallied.tenant_bytes tenant,
    absent,
    str_eq_iff r.tenant_id tenant,
  );
}

-- The state without the old message of a topic, where there is one.
abbrev pub base_state : RetainedState → List ℕ → Option RetainedMessage → ℕ → ℕ → RetainedState
base_state s topic none count bytes = record s {
  retained = remove topic s.retained;
  retained_bytes = s.retained_bytes - 0;
}
base_state s topic (some old) count bytes = removed_state s topic old count bytes

abbrev pub CountsOld : RetainedState → Option RetainedMessage → ℕ → ℕ → Type 0
CountsOld s none count bytes = Unit {0}
CountsOld s (some old) count bytes = IsCounted s old count bytes

pub old-counts :
    (s : RetainedState) (topic : List ℕ) (old : Option RetainedMessage)
    → IsTallied s
    → lookup topic s.retained ≡ old
    → (count : ℕ) × (bytes : ℕ) × CountsOld s old count bytes
old-counts s topic none tallied found = (0, 0, tt)
old-counts s topic (some old) tallied found = old-IsCounted s topic old tallied found

pub base-IsTallied :
    (s : RetainedState) (topic : List ℕ) (old : Option RetainedMessage) (count bytes : ℕ)
    → IsTallied s
    → lookup topic s.retained ≡ old
    → CountsOld s old count bytes
    → IsTallied (base_state s topic old count bytes)
base-IsTallied s topic none count bytes tallied found counted = record {
  distinct = remove-Distinct topic s.retained tallied.distinct;
  bytes = omega (arith, total-absent bytes_weight topic s.retained found, tallied.bytes);
  counts =
      λ tenant. tallied.counts tenant ∙ sym (total-absent (count_in tenant) topic s.retained found);
  tenant_bytes = λ tenant.
      tallied.tenant_bytes tenant ∙ sym (total-absent (bytes_in tenant) topic s.retained found);
}
base-IsTallied s topic (some old) count bytes tallied found counted =
    removed-IsTallied s topic old count bytes tallied found counted

pub delete-result :
    (s : RetainedState) (topic : List ℕ) (old : RetainedMessage) (count bytes : ℕ)
    → IsCounted s old count bytes
    → delete_retained s topic (some old)
      ≡ (update_retained_expiry (removed_state s topic old count bytes) topic none, ok tt)
unfolding delete_retained
delete-result s topic old count bytes (present, some_left, enough, alone) =
    ap (λ p. proceed p (without_expiry topic))
      (usage_remove-ok
        (record s {
          retained = remove topic s.retained;
          retained_bytes = s.retained_bytes - charge_of old;
        })
        old count bytes present some_left enough)

-- The state that a stored message leaves.
abbrev pub stored_state : RetainedState → RetainedMessage → RetainedState
stored_state base r =
    update_retained_expiry (added_state base r) r.message.topic r.message.properties.expires_at_ms

without_old-result :
    (s : RetainedState) (topic : List ℕ) (old : Option RetainedMessage) (count bytes : ℕ)
    → CountsOld s old count bytes
    → without_old (record s { retained = remove topic s.retained }) old ≡ (
      record s {
        retained = remove topic s.retained;
        retained_tenant_usage = (base_state s topic old count bytes).retained_tenant_usage;
      },
      ok tt,
    )
without_old-result s topic none count bytes counted = refl
without_old-result s topic (some old) count bytes (present, some_left, enough, alone) =
    usage_remove-ok (record s { retained = remove topic s.retained }) old count bytes present
      some_left enough

put-result :
    (w : RetainedState) (r : RetainedMessage) (old : Option RetainedMessage)
    → (usage_of_tenant w r.tenant_id).0 + 1 < usize_limit
    → (usage_of_tenant w r.tenant_id).1 + charge_of r < usize_limit
    → put_retained r old w
      ≡ (stored_state (record w { retained_bytes = w.retained_bytes - old_charge old }) r, ok tt)
unfolding put_retained
put-result w r old count_fits bytes_fit =
    ap
      (λ p. proceed p (λ after. (
        update_retained_expiry (record after { retained = insert r.message.topic r after.retained })
            r.message.topic r.message.properties.expires_at_ms,
        ok tt,
      )))
      (usage_add-ok
        (record w {
          retained_bytes = saturating_add (w.retained_bytes - old_charge old) (charge_of r);
        })
        r count_fits bytes_fit)

pub store-result :
    (s : RetainedState) (r : RetainedMessage) (old : Option RetainedMessage) (count bytes : ℕ)
    → CountsOld s old count bytes
    → let base = base_state s r.message.topic old count bytes in
      (usage_of_tenant base r.tenant_id).0 + 1 < usize_limit
      → (usage_of_tenant (base_state s r.message.topic old count bytes) r.tenant_id).1 + charge_of r
        < usize_limit
      → store_retained s r old
        ≡ (stored_state (base_state s r.message.topic old count bytes) r, ok tt)
unfolding store_retained
store-result s r none count bytes counted count_fits bytes_fit =
    put-result (record s { retained = remove r.message.topic s.retained }) r none count_fits
      bytes_fit
store-result s r (some old) count bytes counted count_fits bytes_fit =
    ap (λ p. proceed p (put_retained r (some old)))
      (without_old-result s r.message.topic (some old) count bytes counted)
    ∙ put-result
        (record s {
          retained = remove r.message.topic s.retained;
          retained_tenant_usage = lowered old count bytes s.retained_tenant_usage;
        })
        r (some old) count_fits bytes_fit
