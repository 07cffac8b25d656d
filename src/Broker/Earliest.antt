-- ===== src/Broker/Earliest.antt =====
-- The index of deadlines of crates/netbaiot-transports/src/mqtt/broker/expiry.rs as a map from keys to
-- deadlines: what `update` files, and which key `pop_due` takes.
use netbaiot.Prelude.{
  ℕ, ◌≤◌, ◌<◌, ◌≡◌, refl, sym, ap, ◌∙◌, ◌⊎◌, inl, inr, Bool, true, false, Option, none, some, List,
  [], ◌∷◌, arith, ltb, if◌then◌else◌, ltb→lt, Bool-cases, Option-cases, Eq, nat_eq, string_eq,
}
use netbaiot.Prelude.Map.{lookup, lookup-insert, beq_self}
use netbaiot.Prelude.Sets.{contains, Ascending, Above-less, Above-absent}
use netbaiot.Broker.{DeadlineIndex}
use netbaiot.Broker.Deadlines.{same_deadline, take_out, put_in, update, pop_due}
use netbaiot.Broker.Due.{IsIndexed, is_at, bucket_at, update-IsIndexed, lookup-taken_out}

first_least :
    {V : Type 0} (d j : ℕ) (v w : V) (m : List (ℕ × V))
    → Ascending ((j, w) ∷ m)
    → lookup d ((j, w) ∷ m) ≡ some v
    → j ≤ d
unfolding lookup
first_least d j v w m a h = ground (arith, Above-less d j m, Above-absent d m, a.0)

same_deadline-equal : (a b : Option ℕ) → same_deadline a b ≡ true → a ≡ b
same_deadline-equal none none h = refl
same_deadline-equal none (some b) h = cc
same_deadline-equal (some a) none h = cc
same_deadline-equal (some a) (some b) h = ground (arith, h)

is_at-moved :
    (same : Bool) (deadline before : Option ℕ) (d : ℕ) (held : Bool)
    → held ≡ is_at before d
    → is_at (if same then deadline else before) d ≡ (if same then is_at deadline d else held)
is_at-moved true deadline before d held h = refl
is_at-moved false deadline before d held h = sym h

module _ {K : Type 0} ⦃e : Eq K⦄ where
  lookup-put_in :
      (i : DeadlineIndex K) (key j : K) (deadline : Option ℕ)
      → lookup key i.by_key ≡ none
      → lookup j (put_in i key deadline).by_key
        ≡ (if e.beq key j then deadline else lookup j i.by_key)
  unfolding put_in
  lookup-put_in i key j none absent = ground (arith, e.beq_iff key j)
  lookup-put_in i key j (some deadline) absent = lookup-insert key j deadline i.by_key

  lookup-update :
      (i : DeadlineIndex K) (key j : K) (deadline : Option ℕ)
      → lookup j (update i key deadline).by_key
        ≡ (if e.beq key j then deadline else lookup j i.by_key)
  unfolding update take_out
  lookup-update i key j deadline =
      let out = lookup-taken_out i key in
      let absent : lookup key (take_out i key).by_key ≡ none =
        out key (lookup key i.by_key) refl ∙ (rw (beq_self key) refl) in
      let put = lookup-put_in (take_out i key) key j deadline absent in
      let other = out j (lookup key i.by_key) refl in
      elim (Bool-cases (same_deadline (lookup key i.by_key) deadline)) [
        | inl same ↦
            ground
              (arith, same, same_deadline-equal (lookup key i.by_key) deadline, e.beq_iff key j)
        | inr moved ↦ ground (arith, moved, put, other)
      ]

  -- In an index whose maps agree, for any keys, deadlines and times: after `update` they agree again; the
  -- key has the new deadline and every other key j the one it had; and the bucket of a time d, which
  -- `pop_due` reads, holds the key just if d is its new deadline, and j just if d is the one of j.
  pub update-bucket_at :
      (i : DeadlineIndex K) (key j : K) (deadline : Option ℕ) (d : ℕ)
      → IsIndexed i
      → IsIndexed (update i key deadline)
        × (lookup j (update i key deadline).by_key
            ≡ (if e.beq key j then deadline else lookup j i.by_key))
        × (contains j (bucket_at d (update i key deadline).by_deadline)
            ≡ (if e.beq key j then is_at deadline d else contains j (bucket_at d i.by_deadline)))
  update-bucket_at i key j deadline d indexed =
      let after = update-IsIndexed i key deadline indexed in
      let now = lookup-update i key j deadline in
      (
        after,
        now,
        after.agrees j d
            ∙ ap (λ o. is_at o d) now
            ∙ is_at-moved (e.beq key j) deadline (lookup j i.by_key) d
                (contains j (bucket_at d i.by_deadline)) (indexed.agrees j d),
      )

  -- The deadlines in a bucket are those of the first bucket or later ones.
  least_deadline :
      (deadline : ℕ) (bucket : List K) (rest : List (ℕ × List K)) (keys : List (K × ℕ))
      → IsIndexed (record { by_deadline = (deadline, bucket) ∷ rest; by_key = keys })
      → (j : K) (d : ℕ) → lookup j keys ≡ some d
      → deadline ≤ d
  unfolding contains
  least_deadline deadline bucket rest keys indexed j d found =
      let agrees = indexed.agrees j d in
      elim (Option-cases (lookup d ((deadline, bucket) ∷ rest))) [
        | inl absent ↦ ground (arith, absent, agrees, found)
        | inr (other, present) ↦ first_least d deadline other bucket rest indexed.ascending present
      ]

  -- The key that `pop_due` takes and its deadline, against the deadline of some key.
  abbrev pub Takes : DeadlineIndex K → ℕ → ℕ → K → ℕ → Type 0
  Takes i now d key deadline =
      ((pop_due i now).1 ≡ some key)
      × (lookup key i.by_key ≡ some deadline)
      × (deadline ≤ now)
      × (deadline ≤ d)

  -- Either no key is due or one of the earliest deadline is taken.
  abbrev pub Answers : DeadlineIndex K → ℕ → ℕ → Type 0
  Answers i now d =
      (((pop_due i now).1 ≡ none) × (now < d))
      ⊎ ((key : K) × (deadline : ℕ) × Takes i now d key deadline
          × ((pop_due i now).0 ≡ update i key none))

  buckets-Answers :
      (buckets : List (ℕ × List K)) (keys : List (K × ℕ)) (now : ℕ) (j : K) (d : ℕ)
      → IsIndexed (record { by_deadline = buckets; by_key = keys })
      → lookup j keys ≡ some d
      → Answers (record { by_deadline = buckets; by_key = keys }) now d
  unfolding pop_due contains lookup
  buckets-Answers [] keys now j d indexed found = ground (arith, found, indexed.agrees j d)
  buckets-Answers ((deadline, []) ∷ rest) keys now j d indexed found =
      elim (indexed.filled deadline (ground arith)) [ ]
  buckets-Answers ((deadline, key ∷ bucket) ∷ rest) keys now j d indexed found =
      let least = least_deadline deadline (key ∷ bucket) rest keys indexed j d found in
      let here = indexed.agrees key deadline in
      elim (Bool-cases (ltb now deadline)) [
        | inl later ↦ inl (ground (arith, later), omega (arith, ltb→lt now deadline later, least))
        | inr now_due ↦ inr (
          key,
          deadline,
          (
            ground (arith, now_due),
            ground (arith, here, beq_self key),
            ground (arith, now_due),
            least,
          ),
          ground (arith, now_due),
        )
      ]

  -- In an index whose maps agree, where a key j has the deadline d: `pop_due` either takes no key, and
  -- then d lies after the present time, or it takes a key whose deadline has come, is no later than d,
  -- and what is left is the index without that key.
  pub pop_due-earliest :
      (i : DeadlineIndex K) (now : ℕ) (j : K) (d : ℕ)
      → IsIndexed i
      → lookup j i.by_key ≡ some d
      → Answers i now d
  pop_due-earliest i now j d indexed found =
      buckets-Answers i.by_deadline i.by_key now j d indexed found
