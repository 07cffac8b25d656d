-- ===== src/Trie/Content.antt =====
-- What `insert` and `remove` of crates/netbaiot-transports/src/mqtt/broker/subscription.rs do to the
-- subscribers at every path of the trie.
use netbaiot.Prelude.{
  ℕ, ◌≡◌, refl, inl, inr, true, false, ◌&&◌, none, some, List, [], ◌∷◌, arith, if◌then◌else◌,
  Bool-cases, Option-cases, Eq, nat_eq, str_eq, str_eq_iff, string_eq,
}
use netbaiot.Prelude.{list_beq}
use netbaiot.Prelude.Map.{lookup, insert, remove, Distinct, insert-Distinct, remove-Distinct}
use netbaiot.Topic.{is_empty}
use netbaiot.Trie.{
  Subscription, Node, node, Children, leaf, child, subscribers, children_of, empty_node, get_child,
  set_child, remove_child, or_default, no_children, insert_at, remove_at, subs_at,
}

module _ {K : Type 0} where
  pub get_child-set :
      (l m : List ℕ) (c : Node K) (children : Children K)
      → get_child l (set_child m c children) ≡ (if str_eq m l then some c else get_child l children)
  unfolding get_child set_child
  get_child-set l m c leaf = refl
  get_child-set l m c (child name n more) =
      ground (arith, str_eq_iff name m, str_eq_iff name l, str_eq_iff m l, get_child-set l m c more)

  pub get_child-remove :
      (l m : List ℕ) (children : Children K)
      → get_child l (remove_child m children) ≡ (if str_eq m l then none else get_child l children)
  unfolding get_child remove_child
  get_child-remove l m leaf = ground arith
  get_child-remove l m (child name n more) =
      ground
        (arith, str_eq_iff name m, str_eq_iff name l, str_eq_iff m l, get_child-remove l m more)

  pub subs_at-empty : (ls : List (List ℕ)) → subs_at {K = K} ls empty_node ≡ []
  unfolding subs_at get_child
  subs_at-empty [] = refl
  subs_at-empty (l ∷ ls) = refl

  pub subs_at-or_default :
      (l : List ℕ) (ls : List (List ℕ)) (subs : List (K × Subscription)) (children : Children K)
      → subs_at ls (or_default (get_child l children)) ≡ subs_at (l ∷ ls) (node subs children)
  unfolding subs_at
  subs_at-or_default l ls subs children =
      ground (arith, Option-cases (get_child l children), subs_at-empty ls)

module _ {K : Type 0} ⦃e : Eq K⦄ where
  pub subs_at-insert :
      (path at : List (List ℕ)) (key : K) (s : Subscription) (n : Node K)
      → subs_at at (insert_at path key s n)
        ≡ (if list_beq path at then insert key s (subs_at at n) else subs_at at n)
  unfolding insert_at subs_at list_beq
  subs_at-insert [] [] key s (node subs children) = refl
  subs_at-insert [] (m ∷ ms) key s (node subs children) = refl
  subs_at-insert (l ∷ ls) [] key s (node subs children) = refl
  subs_at-insert (l ∷ ls) (m ∷ ms) key s (node subs children) = ground (
    arith,
    get_child-set m l (insert_at ls key s (or_default (get_child l children))) children,
    subs_at-insert ls ms key s (or_default (get_child l children)),
    subs_at-or_default l ms subs children,
    str_eq_iff l m,
  )

  -- A node that the removal reports as empty holds nothing at any path.
  hollow-subs_at :
      (n : Node K) (at : List (List ℕ))
      → (is_empty (subscribers n) && no_children (children_of n)) ≡ true
      → subs_at at n ≡ []
  unfolding subs_at get_child
  hollow-subs_at (node [] leaf) [] h = refl
  hollow-subs_at (node [] leaf) (m ∷ ms) h = refl
  hollow-subs_at (node [] (child name c more)) at h = cc
  hollow-subs_at (node (x ∷ xs) children) at h = cc

  remove_at-hollow :
      (path : List (List ℕ)) (key : K) (n : Node K)
      → (remove_at path key n).2 ≡ (
          is_empty (subscribers (remove_at path key n).0)
          && no_children (children_of (remove_at path key n).0))
  unfolding remove_at
  remove_at-hollow [] key (node subs children) = refl
  remove_at-hollow (l ∷ ls) key (node subs children) = elim (Option-cases (get_child l children)) [
    | inl e ↦ rw (e, remove_at)
    | inr (c, e) ↦ rw (e, remove_at)
  ]

  pub subs_at-remove :
      (path at : List (List ℕ)) (key : K) (n : Node K)
      → subs_at at (remove_at path key n).0
        ≡ (if list_beq path at then remove key (subs_at at n) else subs_at at n)
  unfolding remove_at subs_at list_beq remove
  subs_at-remove [] [] key (node subs children) = refl
  subs_at-remove [] (m ∷ ms) key (node subs children) = refl
  subs_at-remove (l ∷ ls) [] key (node subs children) =
      ground (arith, Option-cases (get_child l children))
  subs_at-remove (l ∷ ls) (m ∷ ms) key (node subs children) =
      elim (Option-cases (get_child l children)) [
        | inl e ↦ ground (arith, e, str_eq_iff l m)
        | inr (c, e) ↦ ground (
          arith,
          e,
          get_child-set m l (remove_at ls key c).0 children,
          get_child-remove m l children,
          subs_at-remove ls ms key c,
          remove_at-hollow ls key c,
          hollow-subs_at (remove_at ls key c).0 ms,
          str_eq_iff l m,
        )
      ]

  -- `*removed` says whether the key was subscribed at the path.
  pub remove_at-removed :
      (path : List (List ℕ)) (key : K) (n : Node K)
      → (remove_at path key n).1
        ≡ (elim (lookup key (subs_at path n)) [ none ↦ false | some s ↦ true ])
  unfolding remove_at subs_at lookup
  remove_at-removed [] key (node subs children) = refl
  remove_at-removed (l ∷ ls) key (node subs children) = elim (Option-cases (get_child l children)) [
    | inl e ↦ rw (e, remove_at)
    | inr (c, e) ↦ rw (e, remove_at) (remove_at-removed ls key c)
  ]

  -- At no path does a key stand twice.
  abbrev pub IsMap : Node K → Type 0
  IsMap n = (at : List (List ℕ)) → Distinct (subs_at at n)

  pub insert_at-IsMap :
      (path : List (List ℕ)) (key : K) (s : Subscription) (n : Node K)
      → IsMap n
      → IsMap (insert_at path key s n)
  insert_at-IsMap path key s n h at =
      rw (subs_at-insert path at key s n) (elim (Bool-cases (list_beq path at)) [
        | inl e ↦ rw e (insert-Distinct key s (subs_at at n) (h at))
        | inr e ↦ rw e (h at)
      ])

  pub remove_at-IsMap :
      (path : List (List ℕ)) (key : K) (n : Node K) → IsMap n → IsMap (remove_at path key n).0
  remove_at-IsMap path key n h at =
      rw (subs_at-remove path at key n) (elim (Bool-cases (list_beq path at)) [
        | inl e ↦ rw e (remove-Distinct key (subs_at at n) (h at))
        | inr e ↦ rw e (h at)
      ])
