-- ===== src/Trie/Merging.antt =====
-- What merging subscriptions of one session keeps, by `merge_subscribers` of
-- crates/netbaiot-transports/src/mqtt/broker/subscription.rs.
use netbaiot.Prelude.{
  ◌≤◌, ◌≡◌, refl, ap, ◌≢◌, ◌⊎◌, inl, inr, none, some, List, [], ◌∷◌, arith, leb, Bool-cases, nat_eq,
  string_eq,
}
use netbaiot.Trie.{Subscription, merge}
use netbaiot.Trie.Match.{joins}
use netbaiot.Trie.Route.{In}

-- Merging keeps the highest QoS, which is that of one of the merged subscriptions.
joins-le :
    (xs : List Subscription) (a r : Subscription) → joins (some a) xs ≡ some r → a.qos ≤ r.qos
unfolding merge
joins-le [] a r h = ground arith
joins-le (x ∷ xs) a r h = omega (arith, joins-le xs (merge a x) r h)

joins-In-le :
    (xs : List Subscription) (a r s : Subscription)
    → joins (some a) xs ≡ some r
    → In s xs
    → s.qos ≤ r.qos
unfolding merge
joins-In-le [] a r s h i = elim i [ ]
joins-In-le (x ∷ xs) a r s h (inl p) =
    omega (arith, joins-le xs (merge a x) r h, ap (λ (t : Subscription). t.qos) p)
joins-In-le (x ∷ xs) a r s h (inr i) = joins-In-le xs (merge a x) r s h i

joins_attained :
    (xs : List Subscription) (a r : Subscription)
    → joins (some a) xs ≡ some r
    → (a.qos ≡ r.qos) ⊎ ((s : Subscription) × In s xs × (s.qos ≡ r.qos))
unfolding merge
joins_attained [] a r h = inl (ground arith)
joins_attained (x ∷ xs) a r h = elim (joins_attained xs (merge a x) r h) [
  | inl p ↦ elim (Bool-cases (leb x.qos a.qos)) [
    | inl le ↦ inl (ground arith)
    | inr gt ↦ inr (x, inl refl, ground arith)
  ]
  | inr (s, i, p) ↦ inr (s, inr i, p)
]

pub joins_list :
    (xs : List Subscription) (r : Subscription)
    → joins none xs ≡ some r
    → ((s : Subscription) → In s xs → s.qos ≤ r.qos)
      × ((s : Subscription) × In s xs × (s.qos ≡ r.qos))
joins_list [] r h = cc
joins_list (x ∷ xs) r h = (
  λ s i. elim i [
    | inl p ↦ omega (arith, joins-le xs x r h, ap (λ (t : Subscription). t.qos) p)
    | inr j ↦ joins-In-le xs x r s h j
  ],
  elim (joins_attained xs x r h) [ inl p ↦ (x, inl refl, p) | inr (s, i, p) ↦ (s, inr i, p) ],
)

pub joins-ne-none : (xs : List Subscription) (a : Subscription) → joins (some a) xs ≢ none
joins-ne-none [] a h = cc
joins-ne-none (x ∷ xs) a h = joins-ne-none xs (merge a x) h

pub no_joins : (xs : List Subscription) (s : Subscription) → joins none xs ≡ none → In s xs → ⊥
no_joins [] s h i = i
no_joins (x ∷ xs) s h i = joins-ne-none xs x h
