-- ===== src/Retained/Tally.antt =====
-- The usages of crates/netbaiot-transports/src/mqtt/broker/retained.rs count the retained messages and
-- their bytes, and `retained_usage_add` and `retained_usage_remove` move them.
use netbaiot.Prelude.{
  ℕ, ◌+◌, ◌-◌, ◌≤◌, ◌<◌, ◌≡◌, ap, ◌∙◌, inl, inr, some, List, arith, ◌==◌, if◌then◌else◌, Bool-cases,
  nat_eq, str_eq, string_eq, ok, usize_limit, checked_add, checked_sub,
}
use netbaiot.Prelude.Map.{lookup, insert, remove, Distinct, lookup-insert, lookup-remove}
use netbaiot.Prelude.Totals.{total, total-vanishes}
use netbaiot.Retained.{
  RetainedMessage, RetainedState, charge_of, pair_or_default, retained_usage_add, usage_removed,
  count_removed, bytes_removed, count_added, bytes_added, retained_usage_remove,
}
use netbaiot.Retained.Promise.{usage_of_tenant}

abbrev pub bytes_weight : List ℕ → RetainedMessage → ℕ
bytes_weight topic r = charge_of r

abbrev pub count_in : List ℕ → List ℕ → RetainedMessage → ℕ
count_in tenant topic r = if str_eq r.tenant_id tenant then 1 else 0

abbrev pub bytes_in : List ℕ → List ℕ → RetainedMessage → ℕ
bytes_in tenant topic r = if str_eq r.tenant_id tenant then charge_of r else 0

pub record IsTallied (s : RetainedState) : Type 0 where
  pub distinct : Distinct s.retained
  pub bytes : s.retained_bytes ≡ total bytes_weight s.retained
  pub counts : (tenant : List ℕ) → (usage_of_tenant s tenant).0 ≡ total (count_in tenant) s.retained
  pub tenant_bytes :
      (tenant : List ℕ) → (usage_of_tenant s tenant).1 ≡ total (bytes_in tenant) s.retained

-- Without messages a tenant has no bytes.
pub no_messages :
    (tenant : List ℕ) (m : List (List ℕ × RetainedMessage))
    → total (count_in tenant) m ≡ 0
    → total (bytes_in tenant) m ≡ 0
no_messages tenant m z =
    total-vanishes (count_in tenant) (bytes_in tenant) m (λ k v h. ground arith) z

abbrev pub lowered : RetainedMessage → ℕ → ℕ → List (List ℕ × (ℕ × ℕ)) → List (List ℕ × (ℕ × ℕ))
lowered r count bytes usages =
    if (count - 1) == 0
    then remove r.tenant_id usages
    else insert r.tenant_id (count - 1, bytes - charge_of r) usages

abbrev pub raised : RetainedMessage → List (List ℕ × (ℕ × ℕ)) → List (List ℕ × (ℕ × ℕ))
raised r usages =
    let usage = pair_or_default (lookup r.tenant_id usages) in
    insert r.tenant_id (usage.0 + 1, usage.1 + charge_of r) usages

-- The message is among those that the usage counts, alone where the count is one.
pub usage_remove-ok :
    (s : RetainedState) (r : RetainedMessage) (count bytes : ℕ)
    → lookup r.tenant_id s.retained_tenant_usage ≡ some (count, bytes)
    → 1 ≤ count
    → charge_of r ≤ bytes
    → retained_usage_remove s r
      ≡ (record s { retained_tenant_usage = lowered r count bytes s.retained_tenant_usage }, ok tt)
unfolding retained_usage_remove
usage_remove-ok s r count bytes found some_left enough =
    let fewer : checked_sub count 1 ≡ some (count - 1) = ground arith in
    let less : checked_sub bytes (charge_of r) ≡ some (bytes - charge_of r) = ground arith in
    ap (usage_removed s r) found
    ∙ ap (count_removed s r bytes) fewer
    ∙ ap (bytes_removed s r (count - 1) bytes) less

pub usage_add-ok :
    (s : RetainedState) (r : RetainedMessage)
    → (usage_of_tenant s r.tenant_id).0 + 1 < usize_limit
    → (usage_of_tenant s r.tenant_id).1 + charge_of r < usize_limit
    → retained_usage_add s r
      ≡ (record s { retained_tenant_usage = raised r s.retained_tenant_usage }, ok tt)
unfolding retained_usage_add
usage_add-ok s r count_fits bytes_fit =
    let usage = usage_of_tenant s r.tenant_id in
    let more : checked_add usage.0 1 ≡ some (usage.0 + 1) = ground arith in
    let above : checked_add usage.1 (charge_of r) ≡ some (usage.1 + charge_of r) = ground arith in
    ap (count_added s r usage.1) more ∙ ap (bytes_added s r (usage.0 + 1)) above

pub lookup-lowered :
    (r : RetainedMessage) (count bytes : ℕ) (usages : List (List ℕ × (ℕ × ℕ))) (tenant : List ℕ)
    → (count ≡ 1 → bytes ≡ charge_of r)
    → 1 ≤ count
    → pair_or_default (lookup tenant (lowered r count bytes usages)) ≡ (
        if str_eq r.tenant_id tenant
        then (count - 1, bytes - charge_of r)
        else pair_or_default (lookup tenant usages))
lookup-lowered r count bytes usages tenant alone some_left = elim (Bool-cases ((count - 1) == 0)) [
  | inl last ↦
      let one : count ≡ 1 = ground arith in
      let all = alone one in ground (arith, last, all, lookup-remove r.tenant_id tenant usages)
  | inr more ↦
      ground (arith, more, lookup-insert r.tenant_id tenant (count - 1, bytes - charge_of r) usages)
]

pub lookup-raised :
    (r : RetainedMessage) (usages : List (List ℕ × (ℕ × ℕ))) (tenant : List ℕ)
    → pair_or_default (lookup tenant (raised r usages)) ≡ (
        if str_eq r.tenant_id tenant
        then (
          (pair_or_default (lookup r.tenant_id usages)).0 + 1,
          (pair_or_default (lookup r.tenant_id usages)).1 + charge_of r,
        )
        else pair_or_default (lookup tenant usages))
lookup-raised r usages tenant =
    let usage = pair_or_default (lookup r.tenant_id usages) in
    ground (arith, lookup-insert r.tenant_id tenant (usage.0 + 1, usage.1 + charge_of r) usages)
