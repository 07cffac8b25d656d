-- ===== src/Broker/Deadlines.antt =====
-- `DeadlineIndex` of crates/netbaiot-transports/src/mqtt/broker/expiry.rs. The first key of a bucket is
-- the first of its list.
use netbaiot.Prelude.{
  ℕ, Bool, true, false, Option, none, some, List, [], ◌∷◌, ltb, leb, ◌==◌, if◌then◌else◌, Eq,
  nat_eq, string_eq,
}
use netbaiot.Prelude.Map.{lookup, insert, remove}
use netbaiot.Prelude.Sets.{add, discard, insert_ordered}
use netbaiot.Broker.{DeadlineIndex}

-- `entry(deadline).or_default()` and `get_mut(deadline)` read a bucket that is not there as empty.
abbrev pub or_empty : {K : Type 0} → Option (List K) → List K
or_empty none = []
or_empty (some bucket) = bucket

abbrev pub same_deadline : Option ℕ → Option ℕ → Bool
same_deadline none none = true
same_deadline none (some d) = false
same_deadline (some d) none = false
same_deadline (some d) (some c) = d == c

module _ {K : Type 0} ⦃e : Eq K⦄ where
  abbrev pub no_deadlines : DeadlineIndex K
  no_deadlines = record { by_deadline = []; by_key = [] }

  unfoldable pub has_due : DeadlineIndex K → ℕ → Bool
  has_due i now = elim i.by_deadline [ [] ↦ false | (deadline, bucket) ∷ rest ↦ leb deadline now ]

  unfoldable pub left_bucket : ℕ → List K → List (ℕ × List K) → List (ℕ × List K)
  left_bucket old [] buckets = remove old buckets
  left_bucket old (k ∷ bucket) buckets = insert_ordered old (k ∷ bucket) buckets

  abbrev pub without_key : K → ℕ → List (ℕ × List K) → Option (List K) → List (ℕ × List K)
  without_key key old buckets none = buckets
  without_key key old buckets (some bucket) = left_bucket old (discard key bucket) buckets

  abbrev pub taken_out : DeadlineIndex K → K → Option ℕ → DeadlineIndex K
  taken_out i key none = i
  taken_out i key (some old) = record {
    by_deadline = without_key key old i.by_deadline (lookup old i.by_deadline);
    by_key = remove key i.by_key;
  }

  unfoldable pub take_out : DeadlineIndex K → K → DeadlineIndex K
  take_out i key = taken_out i key (lookup key i.by_key)

  unfoldable pub put_in : DeadlineIndex K → K → Option ℕ → DeadlineIndex K
  put_in i key none = i
  put_in i key (some deadline) = record {
    by_deadline =
        insert_ordered deadline (add key (or_empty (lookup deadline i.by_deadline))) i.by_deadline;
    by_key = insert key deadline i.by_key;
  }

  unfoldable pub update : DeadlineIndex K → K → Option ℕ → DeadlineIndex K
  update i key deadline =
      if same_deadline (lookup key i.by_key) deadline
      then i
      else put_in (take_out i key) key deadline

  unfoldable pub pop_due : DeadlineIndex K → ℕ → DeadlineIndex K × Option K
  pop_due i now = elim i.by_deadline [
    | [] ↦ (i, none)
    | (deadline, []) ∷ rest ↦ (i, none)
    | (deadline, key ∷ bucket) ∷ rest ↦
        if ltb now deadline then (i, none) else (update i key none, some key)
  ]
