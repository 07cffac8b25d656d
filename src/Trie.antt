-- ===== src/Trie.antt =====
-- The subscription trie of crates/netbaiot-transports/src/mqtt/broker/subscription.rs, with the types
-- of broker/mod.rs. A session key is any type with a decidable equality.
pub mod Content
pub mod Match
pub mod Route
pub mod Visits
pub mod Model
pub mod History
pub mod Delivery
pub mod Merging
pub mod Uplink
mod Runs
use netbaiot.Prelude.{
  Result, ℕ, zero, suc, ◌+◌, ◌-◌, ◌*◌, ◌/◌, ◌%◌, ◌^◌, ◌≤◌, ◌<◌, min, max, ◌≡◌, refl, sym, ap, ◌∙◌,
  ◌≢◌, ◌↔◌, ◌⊎◌, inl, inr, Bool, true, false, not, ◌&&◌, ◌||◌, Option, none, some, List, [], ◌∷◌,
  ◌++◌, map, arith, ltb, leb, ◌==◌, if◌then◌else◌, leb→le, ltb→lt, ==_iff, Bool-cases, Option-cases,
  Eq, nat_eq, str_eq, str_eq_iff, string_eq, length, get_elem?, take, drop, All, length-append,
  take-append-drop, take-append, drop-append, length-take, length-drop, ok, err, ◌>>=◌, ◌>>◌,
  ensure, ok_or, Result-cases, usize_limit, checked_add, checked_mul, checked_sub, saturating_add,
  lt_wf,
}
use netbaiot.Prelude.Map.{lookup, insert, remove}
use netbaiot.Topic.{split, slash, plus_level, hash_level, is_empty, starts_with}

pub record Subscription : Type 0 where
  pub qos : ℕ
  pub no_local : Bool
  pub retain_as_published : Bool
  pub retain_handling : ℕ

mutual
  pub data Node (K : Type 0) : Type 0 where
    node : List (K × Subscription) → Children K → Node K

  pub data Children (K : Type 0) : Type 0 where
    leaf : Children K
    child : List ℕ → Node K → Children K → Children K

-- `existing.qos.max(…)`, `&=` and `|=`; `retain_handling` stays the first one's.
unfoldable pub merge : Subscription → Subscription → Subscription
merge existing subscription = record existing {
  qos = max existing.qos subscription.qos;
  no_local = existing.no_local && subscription.no_local;
  retain_as_published = existing.retain_as_published || subscription.retain_as_published;
}

module _ {K : Type 0} where
  abbrev pub subscribers : Node K → List (K × Subscription)
  subscribers (node subs children) = subs

  abbrev pub children_of : Node K → Children K
  children_of (node subs children) = children

  abbrev pub empty_node : Node K
  empty_node = node [] leaf

  -- `children.get(level)`, `children.insert(level, …)` and `children.remove(level)`.
  unfoldable pub get_child : List ℕ → Children K → Option (Node K)
  get_child level leaf = none
  get_child level (child name n more) = if str_eq name level then some n else get_child level more

  unfoldable pub set_child : List ℕ → Node K → Children K → Children K
  set_child level c leaf = child level c leaf
  set_child level c (child name n more) =
      if str_eq name level then child name c more else child name n (set_child level c more)

  unfoldable pub remove_child : List ℕ → Children K → Children K
  remove_child level leaf = leaf
  remove_child level (child name n more) =
      if str_eq name level then remove_child level more else child name n (remove_child level more)

  abbrev pub or_default : Option (Node K) → Node K
  or_default none = empty_node
  or_default (some n) = n

  abbrev pub no_children : Children K → Bool
  no_children leaf = true
  no_children (child name n more) = false

-- `if let Some(child) = found { walk(child, output) }`
abbrev pub visit : {K O : Type 0} → Option (Node K) → (Node K → O → O) → O → O
visit none walk output = output
visit (some n) walk output = walk n output

-- `remaining.split_once('/')`, with `rest` none where there is no slash.
unfoldable pub split_once : List ℕ → List ℕ × Option (List ℕ)
split_once [] = ([], none)
split_once (c ∷ text) =
    let (level, rest) = split_once text in if c == slash then ([], some text) else (c ∷ level, rest)

-- The last level of a filter, and `filter_may_match_uplink`.
unfoldable pub last_level : List (List ℕ) → List ℕ
last_level [] = []
last_level (level ∷ []) = level
last_level (level ∷ next ∷ more) = last_level (next ∷ more)

unfoldable pub filter_may_match_uplink : List ℕ → Bool
filter_may_match_uplink filter =
    let level = last_level (split filter) in
    str_eq level (b'u' ∷ b'p' ∷ []) || str_eq level plus_level || str_eq level hash_level

module _ {K : Type 0} ⦃e : Eq K⦄ where
  -- `output.entry(key).and_modify(merge).or_insert(subscription)` for each subscriber.
  unfoldable pub merge_subscribers :
      List (K × Subscription) → List (K × Subscription) → List (K × Subscription)
  merge_subscribers output [] = output
  merge_subscribers output ((key, s) ∷ more) =
      merge_subscribers
        (elim (lookup key output) [
          | none ↦ insert key s output
          | some existing ↦ insert key (merge existing s) output
        ])
        more

  -- The walk of `insert` to the node of the filter, and what it does there.
  unfoldable pub insert_at : List (List ℕ) → K → Subscription → Node K → Node K
  insert_at [] key s (node subs children) = node (insert key s subs) children
  insert_at (level ∷ levels) key s (node subs children) =
      node subs
        (set_child level (insert_at levels key s (or_default (get_child level children))) children)

  -- The node after the removal, `*removed`, and the returned "this node is empty".
  unfoldable pub remove_at : List (List ℕ) → K → Node K → Node K × Bool × Bool
  remove_at [] key (node subs children) =
      let subs' = remove key subs in
      (
        node subs' children,
        elim (lookup key subs) [ none ↦ false | some s ↦ true ],
        is_empty subs' && no_children children,
      )
  remove_at (level ∷ levels) key (node subs children) = elim (get_child level children) [
    | none ↦ (node subs children, false, is_empty subs && no_children children)
    | some c ↦
        let (c', removed, hollow) = remove_at levels key c in
        let children' =
          if hollow then remove_child level children else set_child level c' children in
        (node subs children', removed, is_empty subs && no_children children')
  ]

  abbrev pub merge_from : Node K → List (K × Subscription) → List (K × Subscription)
  merge_from hash output = merge_subscribers output (subscribers hash)

  -- `fuel` bounds the levels that are left to walk.
  unfoldable pub match_at :
      ℕ → Node K → Option (List ℕ) → Bool → List (K × Subscription) → List (K × Subscription)
  match_at zero n remaining dollar_root output = output
  match_at (suc fuel) (node subs children) remaining dollar_root output =
      let merged =
        if dollar_root
        then output
        else visit (get_child hash_level children) (λ hash. merge_from hash) output in
      elim remaining [
        | none ↦ merge_subscribers merged subs
        | some text ↦
            let (level, rest) = split_once text in
            let found = visit (get_child level children) (λ n. match_at fuel n rest false) merged in
            if dollar_root
            then found
            else visit (get_child plus_level children) (λ n. match_at fuel n rest false) found
      ]

pub record SubscriptionTrie (K : Type 0) : Type 0 where
  pub root : Node K
  pub uplink_subscriptions : ℕ

module _ {K : Type 0} where
  -- `SubscriptionTrie::default()`
  abbrev pub empty_trie : SubscriptionTrie K
  empty_trie = record { root = empty_node; uplink_subscriptions = 0 }

  -- The subscribers at a path, and the subscription of one of them: what `subscribers.insert` at the
  -- end of the walk finds there before it writes.
  unfoldable pub subs_at : List (List ℕ) → Node K → List (K × Subscription)
  subs_at [] n = subscribers n
  subs_at (level ∷ levels) n = elim (get_child level (children_of n)) [
    | none ↦ []
    | some c ↦ subs_at levels c
  ]

module _ {K : Type 0} ⦃e : Eq K⦄ where
  unfoldable pub get : List (List ℕ) → K → Node K → Option Subscription
  get levels key n = lookup key (subs_at levels n)

  unfoldable pub insert_filter : List ℕ → K → Subscription → SubscriptionTrie K → SubscriptionTrie K
  insert_filter filter key s trie = record {
    root = insert_at (split filter) key s trie.root;
    uplink_subscriptions = (elim (get (split filter) key trie.root) [
      | none ↦
          if filter_may_match_uplink filter
          then trie.uplink_subscriptions + 1
          else trie.uplink_subscriptions
      | some old ↦ trie.uplink_subscriptions
    ]);
  }

  unfoldable pub remove_filter : List ℕ → K → SubscriptionTrie K → SubscriptionTrie K
  remove_filter filter key trie =
      let (root, removed, hollow) = remove_at (split filter) key trie.root in
      record {
        root = root;
        uplink_subscriptions =
            if removed && filter_may_match_uplink filter
            then trie.uplink_subscriptions - 1
            else trie.uplink_subscriptions;
      }

  -- A topic has one level more than slashes, so its length and two rounds are enough.
  unfoldable pub matching : List ℕ → SubscriptionTrie K → List (K × Subscription)
  matching topic trie =
      match_at (length topic + 2) trie.root (some topic) (starts_with b'$' topic) []
