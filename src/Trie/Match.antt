-- ===== src/Trie/Match.antt =====
-- The walk `match_at` of crates/netbaiot-transports/src/mqtt/broker/subscription.rs as a list: for each
-- subscriber, the subscriptions that the walk merges, in their order.
use mathlib.Core.List.{append-nil}
use netbaiot.Prelude.{
  ℕ, zero, suc, ◌+◌, ◌≤◌, ◌<◌, ◌≡◌, refl, sym, ap, ◌∙◌, inl, inr, Bool, true, false, Option, none,
  some, List, [], ◌∷◌, ◌++◌, arith, if◌then◌else◌, Option-cases, Eq, nat_eq, string_eq, length,
}
use netbaiot.Prelude.Map.{lookup, insert, Distinct, lookup-insert}
use netbaiot.Topic.{push_front, split, plus_level, hash_level}
use netbaiot.Trie.{
  visit, merge_from, Subscription, merge, Node, node, subscribers, children_of, get_child,
  split_once, merge_subscribers, match_at, subs_at,
}
use netbaiot.Trie.Content.{IsMap}

abbrev pub join : Option Subscription → Option Subscription → Option Subscription
join none s = s
join (some a) none = some a
join (some a) (some b) = some (merge a b)

abbrev pub joins : Option Subscription → List Subscription → Option Subscription
joins o [] = o
joins o (s ∷ more) = joins (join o (some s)) more

joins-append :
    (xs ys : List Subscription) (o : Option Subscription)
    → joins o (xs ++ ys) ≡ joins (joins o xs) ys
joins-append [] ys o = refl
joins-append (x ∷ xs) ys o = joins-append xs ys (join o (some x))

joins-append_twice :
    (xs ys zs : List Subscription) (o : Option Subscription)
    → joins o (xs ++ ys ++ zs) ≡ joins (joins (joins o xs) ys) zs
joins-append_twice xs ys zs o =
    joins-append (xs ++ ys) zs o ∙ ap (λ p. joins p zs) (joins-append xs ys o)

abbrev pub to_list : Option Subscription → List Subscription
to_list none = []
to_list (some s) = s ∷ []

joins-to_list : (o s : Option Subscription) → joins o (to_list s) ≡ join o s
joins-to_list none none = refl
joins-to_list none (some s) = refl
joins-to_list (some a) none = refl
joins-to_list (some a) (some b) = refl

abbrev pub listed :
    {K : Type 0} → Option (Node K) → (Node K → List Subscription) → List Subscription
listed none listing = []
listed (some n) listing = listing n

-- What is left of a topic, as levels.
abbrev pub levels_of : Option (List ℕ) → List (List ℕ)
levels_of none = []
levels_of (some text) = split text

pub split-split_once :
    (text : List ℕ) → split text ≡ (split_once text).0 ∷ levels_of (split_once text).1
unfolding split split_once
split-split_once [] = refl
split-split_once (c ∷ text) = ground (arith, split-split_once text)

length-push_front-le :
    (c : ℕ) (levels : List (List ℕ)) → length (push_front c levels) ≤ length levels + 1
length-push_front-le c [] = omega arith
length-push_front-le c (level ∷ levels) = omega arith

pub length-split-le : (text : List ℕ) → length (split text) ≤ length text + 1
unfolding split
length-split-le [] = omega arith
length-split-le (c ∷ text) =
    ground (arith, length-push_front-le c (split text), length-split-le text)

module _ {K : Type 0} ⦃e : Eq K⦄ where
  lookup-merge_one :
      (key j : K) (s : Subscription) (output : List (K × Subscription))
      → lookup key (elim (lookup j output) [
        | none ↦ insert j s output
        | some existing ↦ insert j (merge existing s) output
      ])
        ≡ (if e.beq j key then join (lookup key output) (some s) else lookup key output)
  lookup-merge_one key j s output = elim (Option-cases (lookup j output)) [
    | inl absent ↦ rw absent (ground (arith, lookup-insert j key s output, e.beq_iff j key, absent))
    | inr (old, there) ↦
        rw there (ground (arith, lookup-insert j key (merge old s) output, e.beq_iff j key, there))
  ]

  pub lookup-merge_subscribers :
      (key : K) (subs output : List (K × Subscription))
      → Distinct subs
      → lookup key (merge_subscribers output subs) ≡ join (lookup key output) (lookup key subs)
  unfolding merge_subscribers lookup
  lookup-merge_subscribers key [] output d = ground arith
  lookup-merge_subscribers key ((j, s) ∷ more) output d =
      lookup-merge_subscribers key more _ d.1
      ∙ rw (lookup-merge_one key j s output) (ground (arith, e.beq_iff j key))

  -- `visit` merges what its walk merges at the child, if there is one.
  lookup-visit :
      (key : K) (o : Option (Node K))
      (walk : Node K → List (K × Subscription) → List (K × Subscription))
      (listing : Node K → List Subscription) (output : List (K × Subscription))
      → ((c : Node K) (out : List (K × Subscription))
          → o ≡ some c
          → lookup key (walk c out) ≡ joins (lookup key out) (listing c))
      → lookup key (visit o walk output) ≡ joins (lookup key output) (listed o listing)
  lookup-visit key none walk listing output h = refl
  lookup-visit key (some c) walk listing output h = h c output refl

  abbrev pub hash_part : Node K → Bool → K → List Subscription
  hash_part n dollar key =
      if dollar
      then []
      else listed (get_child hash_level (children_of n)) (λ c. to_list (lookup key (subscribers c)))

  -- The subscriptions of a subscriber along the walk.
  unfoldable pub found : List (List ℕ) → Node K → Bool → K → List Subscription
  found [] n dollar key = hash_part n dollar key ++ to_list (lookup key (subscribers n))
  found (level ∷ levels) n dollar key =
      let below = λ (c : Node K). found levels c false key in
      hash_part n dollar key
      ++ listed (get_child level (children_of n)) below
      ++ (if dollar then [] else listed (get_child plus_level (children_of n)) below)

  IsMap-child :
      (l : List ℕ) (n c : Node K) → IsMap n → get_child l (children_of n) ≡ some c → IsMap c
  unfolding subs_at
  IsMap-child l n c m e at = rw (e, subs_at) at (m (l ∷ at))

  IsMap-subscribers : (n : Node K) → IsMap n → Distinct (subscribers n)
  unfolding subs_at
  IsMap-subscribers n m = m []

  lookup-hash_part :
      (n : Node K) (dollar : Bool) (key : K) (output : List (K × Subscription))
      → IsMap n
      → lookup key (
          if dollar
          then output
          else visit (get_child hash_level (children_of n)) (λ c. merge_from c) output)
        ≡ joins (lookup key output) (hash_part n dollar key)
  lookup-hash_part n true key output m = refl
  lookup-hash_part n false key output m =
      lookup-visit key (get_child hash_level (children_of n)) _ _ output λ c out e.
        lookup-merge_subscribers key (subscribers c) out
          (IsMap-subscribers c (IsMap-child hash_level n c m e))
        ∙ sym (joins-to_list (lookup key out) (lookup key (subscribers c)))

  -- The walk merges just what `found` lists, once the fuel covers the levels that are left.
  pub lookup-match_at :
      (fuel : ℕ) (n : Node K) (remaining : Option (List ℕ)) (dollar : Bool) (key : K)
      (output : List (K × Subscription))
      → IsMap n
      → length (levels_of remaining) < fuel
      → lookup key (match_at fuel n remaining dollar output)
        ≡ joins (lookup key output) (found (levels_of remaining) n dollar key)
  unfolding match_at found
  lookup-match_at zero n remaining dollar key output m h = absurd (omega arith)
  lookup-match_at (suc fuel) (node subs children) none dollar key output m h =
      lookup-merge_subscribers key subs _ (IsMap-subscribers (node subs children) m)
      ∙ rw (lookup-hash_part (node subs children) dollar key output m) (
          sym (joins-to_list _ (lookup key subs))
          ∙ sym (joins-append (hash_part (node subs children) dollar key) _ (lookup key output)))
  lookup-match_at (suc fuel) (node subs children) (some text) true key output m h =
      let level : List ℕ = (split_once text).0 in
      let rest : Option (List ℕ) = (split_once text).1 in
      let shorter : length (levels_of rest) < fuel =
        omega (arith, ap length (split-split_once text)) in
      rw (split-split_once text) (
        lookup-visit key (get_child level children) _ (λ c. found (levels_of rest) c false key)
          output
          (λ c out e.
            lookup-match_at fuel c rest false key out (IsMap-child level (node subs children) c m e)
              shorter)
        ∙ sym (
            ap (joins (lookup key output)) (
              append-nil
                (listed (get_child level children) (λ c. found (levels_of rest) c false key)))))
  lookup-match_at (suc fuel) (node subs children) (some text) false key output m h =
      let level : List ℕ = (split_once text).0 in
      let rest : Option (List ℕ) = (split_once text).1 in
      let n : Node K = node subs children in
      let below : (Node K → List Subscription) = λ c. found (levels_of rest) c false key in
      let shorter : length (levels_of rest) < fuel =
        omega (arith, ap length (split-split_once text)) in
      rw (split-split_once text) (
        lookup-visit key (get_child plus_level children) _ below _ (λ c out e.
          lookup-match_at fuel c rest false key out (IsMap-child plus_level n c m e) shorter)
        ∙ ap (λ o. joins o (listed (get_child plus_level children) below))
            (lookup-visit key (get_child level children) _ below _ (λ c out e.
                lookup-match_at fuel c rest false key out (IsMap-child level n c m e) shorter)
              ∙ ap (λ o. joins o (listed (get_child level children) below))
                  (lookup-hash_part n false key output m))
        ∙ sym (
            joins-append_twice (hash_part n false key) (listed (get_child level children) below)
              (listed (get_child plus_level children) below) (lookup key output)))
