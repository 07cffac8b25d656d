-- ===== src/Trie/Uplink.antt =====
-- The counter `uplink_subscriptions` of the trie in
-- crates/netbaiot-transports/src/mqtt/broker/subscription.rs, by which the broker skips the routing of
-- device uplinks.
use netbaiot.Prelude.{
  ℕ, ◌≡◌, sym, ◌∙◌, inl, inr, Bool, true, false, ◌||◌, none, some, List, [], ◌∷◌, arith,
  Option-cases, Eq, nat_eq, str_eq, str_eq_iff, string_eq,
}
use netbaiot.Prelude.{list_beq}
use netbaiot.Prelude.Map.{lookup}
use netbaiot.Topic.{plus_level, hash_level, split, valid_topic, topic_matches, levels_match}
use netbaiot.Trie.{Subscription, SubscriptionTrie, matching, filter_may_match_uplink, last_level}
use netbaiot.Trie.Model.{pair_beq, pair_eq, Table, uplinks, Refines}
use netbaiot.Trie.Delivery.{topic_matches-route, matching_sound}

abbrev pub up_level : List ℕ
up_level = b'u' ∷ b'p' ∷ []

abbrev may_end_up : List ℕ → Bool
may_end_up level = str_eq level up_level || str_eq level plus_level || str_eq level hash_level

levels_match-up :
    (path levels : List (List ℕ))
    → levels_match path levels ≡ true
    → last_level levels ≡ up_level
    → may_end_up (last_level path) ≡ true
unfolding levels_match last_level list_beq
levels_match-up [] [] h up = cc
levels_match-up [] (l ∷ ls) h up = cc
levels_match-up (p ∷ ps) [] h up = cc
levels_match-up (p ∷ []) (l ∷ []) h up =
    ground (
      arith,
      str_eq_iff p hash_level,
      str_eq_iff p plus_level,
      str_eq_iff l p,
      str_eq_iff p up_level,
    )
levels_match-up (p ∷ []) (l ∷ m ∷ ls) h up = ground arith
levels_match-up (p ∷ q ∷ ps) (l ∷ []) h up = ground arith
levels_match-up (p ∷ q ∷ ps) (l ∷ m ∷ ls) h up = ground (arith, levels_match-up (q ∷ ps) (m ∷ ls))

topic_matches-uplink :
    (filter topic : List ℕ)
    → topic_matches filter topic ≡ true
    → last_level (split topic) ≡ up_level
    → filter_may_match_uplink filter ≡ true
unfolding filter_may_match_uplink
topic_matches-uplink filter topic h up =
    levels_match-up (split filter) (split topic) (ground (arith, topic_matches-route filter topic))
      up

module _ {K : Type 0} ⦃e : Eq K⦄ where
  uplinks-zero :
      (f : List ℕ) (key : K) (m : Table K) (s : Subscription)
      → uplinks m ≡ 0
      → lookup (f, key) m ≡ some s
      → filter_may_match_uplink f ≡ false
  unfolding uplinks lookup pair_beq
  uplinks-zero f key [] s h there = cc
  uplinks-zero f key (((g, j), t) ∷ m) s h there =
      ground (arith, str_eq_iff g f, uplinks-zero f key m s)

  -- A counter of zero never hides a delivery: the walk for a valid topic name that ends in the level
  -- `up` then finds nobody.
  pub uplink_counter_sound :
      (topic : List ℕ) (max_bytes max_depth : ℕ) (key : K) (trie : SubscriptionTrie K) (m : Table K)
      → Refines trie m
      → valid_topic topic max_bytes max_depth false ≡ true
      → last_level (split topic) ≡ up_level
      → trie.uplink_subscriptions ≡ 0
      → lookup key (matching topic trie) ≡ none
  uplink_counter_sound topic max_bytes max_depth key trie m r valid up zero_count =
      elim (Option-cases (lookup key (matching topic trie))) [
        | inl nobody ↦ nobody
        | inr (result, h) ↦
            let ((f, s, there, fits, _), _) =
              matching_sound topic max_bytes max_depth key trie m result r valid h in
            absurd (contradiction f s there fits)
      ]
    where
      contradiction :
          (f : List ℕ) (s : Subscription)
          → lookup (f, key) m ≡ some s
          → topic_matches f topic ≡ true
          → ⊥
      contradiction f s there fits = cc (
        topic_matches-uplink f topic fits up,
        uplinks-zero f key m s (sym r.counted ∙ zero_count) there,
      )
