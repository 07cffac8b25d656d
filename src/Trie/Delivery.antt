-- ===== src/Trie/Delivery.antt =====
-- `matching` of crates/netbaiot-transports/src/mqtt/broker/subscription.rs against `topic_matches` of
-- broker/routing.rs: who gets a message, and with which options.
use netbaiot.Prelude.{
  ℕ, ◌+◌, ◌≤◌, ◌≡◌, refl, sym, ap, ◌∙◌, inl, inr, true, false, ◌&&◌, ◌||◌, none, some, List, [],
  ◌∷◌, arith, ◌==◌, Bool-cases, Eq, nat_eq, str_eq, str_eq_iff, string_eq, length, All,
}
use netbaiot.Prelude.{list_beq, list_beq_iff}
use netbaiot.Prelude.Map.{lookup}
use netbaiot.Topic.{
  slash, plus_level, hash_level, split, push_front, contains, valid_topic, starts_with,
  starts_with_any, topic_matches,
}
use netbaiot.Trie.{Subscription, SubscriptionTrie, matching}
use netbaiot.Trie.Merging.{joins_list, no_joins}
use netbaiot.Trie.Match.{joins, found, split-split_once, length-split-le, lookup-match_at}
use netbaiot.Trie.Visits.{Reaches-found}
use netbaiot.Trie.Route.{In, IsPlain, blocked, route, found-Reaches}
use netbaiot.Trie.Model.{pair_beq, pair_eq, Table, at_path, Refines, at_path-split}

split-blocked :
    (filter : List ℕ)
    → blocked (split filter)
      ≡ (str_eq filter hash_level || str_eq filter plus_level || starts_with_any filter)
unfolding split starts_with_any starts_with list_beq
split-blocked [] = refl
split-blocked (c ∷ []) = ground arith
split-blocked (c ∷ d ∷ text) = ground (arith, split-split_once text)

-- `topic_matches` by levels.
pub topic_matches-route :
    (filter topic : List ℕ)
    → topic_matches filter topic ≡ route (starts_with b'$' topic) (split filter) (split topic)
unfolding topic_matches
topic_matches-route filter topic = rw (split-blocked filter)

push_front-lacks :
    (c x : ℕ) (levels : List (List ℕ))
    → (c == x) ≡ false
    → All (λ level. contains c level ≡ false) levels
    → All (λ level. contains c level ≡ false) (push_front x levels)
unfolding contains
push_front-lacks c x [] h a = ground arith
push_front-lacks c x (level ∷ levels) h a = ground arith

split-lacks :
    (c : ℕ) (text : List ℕ)
    → contains c text ≡ false
    → All (λ level. contains c level ≡ false) (split text)
unfolding contains split
split-lacks c [] h = (refl, tt)
split-lacks c (x ∷ text) h = elim (Bool-cases (x == slash)) [
  | inl e ↦ rw e (refl, split-lacks c text (ground arith))
  | inr e ↦
      rw e (push_front-lacks c x (split text) (ground arith) (split-lacks c text (ground arith)))
]

IsPlain-lacks :
    (levels : List (List ℕ))
    → All (λ level. contains b'+' level ≡ false) levels
    → All (λ level. contains b'#' level ≡ false) levels
    → IsPlain levels
unfolding contains list_beq
IsPlain-lacks [] p h = tt
IsPlain-lacks ([] ∷ levels) p h = ((refl, refl), IsPlain-lacks levels p.1 h.1)
IsPlain-lacks ((c ∷ level) ∷ levels) p h =
    ((ground arith, ground arith), IsPlain-lacks levels p.1 h.1)

-- The levels of a valid topic name are no wildcards.
valid_topic-IsPlain :
    (topic : List ℕ) (max_bytes max_depth : ℕ)
    → valid_topic topic max_bytes max_depth false ≡ true
    → IsPlain (split topic)
unfolding valid_topic
valid_topic-IsPlain topic max_bytes max_depth h =
    IsPlain-lacks (split topic) (split-lacks b'+' topic (ground arith))
      (split-lacks b'#' topic (ground arith))

module _ {K : Type 0} ⦃e : Eq K⦄ where
  at_path-filter :
      (path : List (List ℕ)) (key : K) (m : Table K) (s : Subscription)
      → at_path path key m ≡ some s
      → (f : List ℕ) × (lookup (f, key) m ≡ some s) × (split f ≡ path)
  unfolding at_path lookup pair_beq
  at_path-filter path key [] s h = cc
  at_path-filter path key (((g, j), t) ∷ m) s h =
      elim (Bool-cases (list_beq (split g) path && e.beq j key)) [
        | inl hit ↦ (g, ground (arith, str_eq_iff g g), ground (arith, list_beq_iff (split g) path))
        | inr miss ↦
            let (f, there, same) = at_path-filter path key m s (rw miss at h) in
            (f, ground (arith, str_eq_iff g f, list_beq_iff (split f) path), same)
      ]

  lookup-matching :
      (topic : List ℕ) (key : K) (trie : SubscriptionTrie K) (m : Table K)
      → Refines trie m
      → lookup key (matching topic trie)
        ≡ joins none (found (split topic) trie.root (starts_with b'$' topic) key)
  unfolding matching lookup
  lookup-matching topic key trie m r =
      lookup-match_at (length topic + 2) trie.root (some topic) (starts_with b'$' topic) key []
        r.is_map (omega (arith, length-split-le topic))

  -- The table's entries that match are what the walk finds.
  found-entry :
      (topic : List ℕ) (max_bytes max_depth : ℕ) (key : K) (trie : SubscriptionTrie K) (m : Table K)
      (s : Subscription)
      → Refines trie m
      → valid_topic topic max_bytes max_depth false ≡ true
      → In s (found (split topic) trie.root (starts_with b'$' topic) key)
      → (f : List ℕ) × (lookup (f, key) m ≡ some s) × (topic_matches f topic ≡ true)
  found-entry topic max_bytes max_depth key trie m s r valid i =
      let (path, there, fits) =
        found-Reaches (split topic) trie.root (starts_with b'$' topic) key s
          (valid_topic-IsPlain topic max_bytes max_depth valid) i in
      let (f, listed, same) = at_path-filter path key m s (sym (r.same path key) ∙ there) in
      (
        f,
        listed,
        topic_matches-route f topic
            ∙ ap (λ p. route (starts_with b'$' topic) p (split topic)) same
            ∙ fits,
      )

  entry-found :
      (topic : List ℕ) (max_bytes max_depth : ℕ) (key : K) (trie : SubscriptionTrie K) (m : Table K)
      (f : List ℕ) (s : Subscription)
      → Refines trie m
      → valid_topic topic max_bytes max_depth false ≡ true
      → lookup (f, key) m ≡ some s
      → topic_matches f topic ≡ true
      → In s (found (split topic) trie.root (starts_with b'$' topic) key)
  entry-found topic max_bytes max_depth key trie m f s r valid there fits =
      Reaches-found (split f) (split topic) trie.root (starts_with b'$' topic) key s
        (valid_topic-IsPlain topic max_bytes max_depth valid)
        (r.same (split f) key ∙ at_path-split f key m ∙ there)
        (sym (topic_matches-route f topic) ∙ fits)

  -- For a valid topic name, a session that the walk finds has a subscription of its own that matches
  -- the topic and carries the QoS found, and no matching subscription of it has a higher QoS.
  pub matching_sound :
      (topic : List ℕ) (max_bytes max_depth : ℕ) (key : K) (trie : SubscriptionTrie K) (m : Table K)
      (result : Subscription)
      → Refines trie m
      → valid_topic topic max_bytes max_depth false ≡ true
      → lookup key (matching topic trie) ≡ some result
      → ((f : List ℕ) × (s : Subscription) × (lookup (f, key) m ≡ some s)
          × (topic_matches f topic ≡ true)
          × (s.qos ≡ result.qos))
        × ((f : List ℕ) (s : Subscription)
            → lookup (f, key) m ≡ some s
            → topic_matches f topic ≡ true
            → s.qos ≤ result.qos)
  matching_sound topic max_bytes max_depth key trie m result r valid h =
      let (above, (s, i, q)) =
        joins_list (found (split topic) trie.root (starts_with b'$' topic) key) result
          (sym (lookup-matching topic key trie m r) ∙ h) in
      let (f, there, fits) = found-entry topic max_bytes max_depth key trie m s r valid i in
      (
        (f, s, there, fits, q),
        λ g t listed matches.
            above t (entry-found topic max_bytes max_depth key trie m g t r valid listed matches),
      )

  -- And a session that it does not find has no subscription that matches.
  pub matching_complete :
      (topic : List ℕ) (max_bytes max_depth : ℕ) (key : K) (trie : SubscriptionTrie K) (m : Table K)
      (f : List ℕ) (s : Subscription)
      → Refines trie m
      → valid_topic topic max_bytes max_depth false ≡ true
      → lookup key (matching topic trie) ≡ none
      → lookup (f, key) m ≡ some s
      → topic_matches f topic ≡ false
  matching_complete topic max_bytes max_depth key trie m f s r valid h there =
      elim (Bool-cases (topic_matches f topic)) [
        | inl fits ↦ absurd (
            no_joins _ s (sym (lookup-matching topic key trie m r) ∙ h)
              (entry-found topic max_bytes max_depth key trie m f s r valid there fits))
        | inr misses ↦ misses
      ]
