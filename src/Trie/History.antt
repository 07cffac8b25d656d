-- ===== src/Trie/History.antt =====
-- `insert` and `remove` of the trie in crates/netbaiot-transports/src/mqtt/broker/subscription.rs keep it
-- in step with the flat table, over any history.
use netbaiot.Prelude.{
  ℕ, ◌≡◌, refl, ◌&&◌, none, some, List, [], ◌∷◌, arith, if◌then◌else◌, Eq, nat_eq, string_eq,
}
use netbaiot.Prelude.{list_beq}
use netbaiot.Prelude.Map.{
  lookup, insert, remove, insert-Distinct, remove-Distinct, lookup-insert, lookup-remove,
}
use netbaiot.Topic.{split}
use netbaiot.Trie.{
  Subscription, Node, SubscriptionTrie, empty_trie, subs_at, get, insert_at, remove_at,
  insert_filter, remove_filter,
}
use netbaiot.Trie.Content.{
  subs_at-empty, subs_at-insert, subs_at-remove, remove_at-removed, insert_at-IsMap,
  remove_at-IsMap,
}
use netbaiot.Trie.Model.{
  pair_eq, Table, at_path, uplinks, Refines, at_path-insert, at_path-remove, at_path-split,
  uplinks-insert, uplinks-remove,
}

module _ {K : Type 0} ⦃e : Eq K⦄ where
  get-insert_at :
      (f : List ℕ) (key : K) (s : Subscription) (n : Node K) (path : List (List ℕ)) (k : K)
      → get path k (insert_at (split f) key s n)
        ≡ (if list_beq (split f) path && e.beq key k then some s else get path k n)
  unfolding get
  get-insert_at f key s n path k =
      ground (arith, subs_at-insert (split f) path key s n, lookup-insert key k s (subs_at path n))

  get-remove_at :
      (f : List ℕ) (key : K) (n : Node K) (path : List (List ℕ)) (k : K)
      → get path k (remove_at (split f) key n).0
        ≡ (if list_beq (split f) path && e.beq key k then none else get path k n)
  unfolding get
  get-remove_at f key n path k =
      ground (arith, subs_at-remove (split f) path key n, lookup-remove key k (subs_at path n))

  -- Subscribing in the trie is writing the table's entry.
  pub insert_filter-Refines :
      (filter : List ℕ) (key : K) (s : Subscription) (trie : SubscriptionTrie K) (m : Table K)
      → Refines trie m
      → Refines (insert_filter filter key s trie) (insert (filter, key) s m)
  unfolding insert_filter
  insert_filter-Refines filter key s trie m r = record {
    same = λ path k. ground (
      arith,
      get-insert_at filter key s trie.root path k,
      at_path-insert filter key s m path k,
      r.same path k,
    );
    is_map = insert_at-IsMap (split filter) key s trie.root r.is_map;
    distinct = insert-Distinct (filter, key) s m r.distinct;
    counted = ground (
      arith,
      uplinks-insert filter key s m,
      r.same (split filter) key,
      at_path-split filter key m,
      r.counted,
    );
  }

  -- Unsubscribing in the trie, with its pruning of empty nodes, is removing the table's entry.
  pub remove_filter-Refines :
      (filter : List ℕ) (key : K) (trie : SubscriptionTrie K) (m : Table K)
      → Refines trie m
      → Refines (remove_filter filter key trie) (remove (filter, key) m)
  unfolding remove_filter get
  remove_filter-Refines filter key trie m r = record {
    same = λ path k. ground (
      arith,
      get-remove_at filter key trie.root path k,
      at_path-remove filter key m path k,
      r.same path k,
    );
    is_map = remove_at-IsMap (split filter) key trie.root r.is_map;
    distinct = remove-Distinct (filter, key) m r.distinct;
    counted = ground (
      arith,
      uplinks-remove filter key m r.distinct,
      remove_at-removed (split filter) key trie.root,
      r.same (split filter) key,
      at_path-split filter key m,
      r.counted,
    );
  }

  pub empty-Refines : Refines {K = K} empty_trie []
  unfolding get at_path uplinks lookup
  empty-Refines = record {
    same = λ path k. rw (subs_at-empty path);
    is_map = λ path. rw (subs_at-empty path) tt;
    distinct = tt;
    counted = refl;
  }

-- A history of subscribing and unsubscribing.
pub data Change (K : Type 0) : Type 0 where
  subscribe : List ℕ → K → Subscription → Change K
  unsubscribe : List ℕ → K → Change K

module _ {K : Type 0} ⦃e : Eq K⦄ where
  unfoldable pub apply : Change K → SubscriptionTrie K → SubscriptionTrie K
  apply (subscribe filter key s) trie = insert_filter filter key s trie
  apply (unsubscribe filter key) trie = remove_filter filter key trie

  unfoldable pub apply_table : Change K → Table K → Table K
  apply_table (subscribe filter key s) m = insert (filter, key) s m
  apply_table (unsubscribe filter key) m = remove (filter, key) m

  unfoldable pub run : List (Change K) → SubscriptionTrie K → SubscriptionTrie K
  run [] trie = trie
  run (c ∷ cs) trie = run cs (apply c trie)

  unfoldable pub run_table : List (Change K) → Table K → Table K
  run_table [] m = m
  run_table (c ∷ cs) m = run_table cs (apply_table c m)

  pub apply-Refines :
      (c : Change K) (trie : SubscriptionTrie K) (m : Table K)
      → Refines trie m
      → Refines (apply c trie) (apply_table c m)
  unfolding apply apply_table
  apply-Refines (subscribe filter key s) trie m r = insert_filter-Refines filter key s trie m r
  apply-Refines (unsubscribe filter key) trie m r = remove_filter-Refines filter key trie m r

  -- Over any history of subscribing and unsubscribing, the trie holds at each path what the flat
  -- table holds, no session twice, and its uplink counter is the number of the table's filters that
  -- may match a topic ending in `/up`.
  pub run-Refines :
      (cs : List (Change K)) (trie : SubscriptionTrie K) (m : Table K)
      → Refines trie m
      → Refines (run cs trie) (run_table cs m)
  unfolding run run_table
  run-Refines [] trie m r = r
  run-Refines (c ∷ cs) trie m r =
      run-Refines cs (apply c trie) (apply_table c m) (apply-Refines c trie m r)
