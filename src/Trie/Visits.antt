-- ===== src/Trie/Visits.antt =====
-- The converse of Route: the walk of crates/netbaiot-transports/src/mqtt/broker/subscription.rs visits
-- every path that matches.
use mathlib.Core.Path.{subst}
use netbaiot.Prelude.{
  ℕ, ◌≡◌, refl, sym, ◌∙◌, ◌≢◌, ◌⊎◌, inl, inr, Bool, true, false, none, some, List, [], ◌∷◌, ◌++◌,
  arith, Option-cases, Eq, nat_eq, str_eq_iff, string_eq,
}
use netbaiot.Prelude.Map.{lookup}
use netbaiot.Topic.{plus_level, hash_level, levels_match, is_empty}
use netbaiot.Trie.{Subscription, Node, subscribers, children_of, get_child, subs_at, get}
use netbaiot.Trie.Match.{listed, hash_part, found}
use netbaiot.Trie.Route.{In, In-append_left, In-append_right, IsPlain, route, get-child, get-here}

is_empty-eq_nil : (xs : List (List ℕ)) → is_empty xs ≡ true → xs ≡ []
is_empty-eq_nil [] h = refl
is_empty-eq_nil (x ∷ xs) h = cc

route_end :
    (p : List ℕ) (ps : List (List ℕ)) (dollar : Bool)
    → route dollar (p ∷ ps) [] ≡ true
    → (p ≡ hash_level) × (ps ≡ []) × (dollar ≡ false)
unfolding levels_match
route_end p ps dollar h =
    ground (arith, str_eq_iff p hash_level, str_eq_iff p plus_level, is_empty-eq_nil ps)

route_step :
    (p l : List ℕ) (ps ls : List (List ℕ)) (dollar : Bool)
    → route dollar (p ∷ ps) (l ∷ ls) ≡ true
    → ((p ≡ hash_level) × (ps ≡ []) × (dollar ≡ false))
      ⊎ (((p ≡ plus_level) × (dollar ≡ false) × (levels_match ps ls ≡ true))
          ⊎ ((p ≡ l) × (levels_match ps ls ≡ true)))
unfolding levels_match
route_step p l ps ls dollar h =
    ground
      (arith, str_eq_iff p hash_level, str_eq_iff p plus_level, str_eq_iff l p, is_empty-eq_nil ps)

module _ {K : Type 0} ⦃e : Eq K⦄ where
  In-found_hash :
      (levels : List (List ℕ)) (n c : Node K) (key : K) (s : Subscription)
      → get_child hash_level (children_of n) ≡ some c
      → lookup key (subscribers c) ≡ some s
      → In s (found levels n false key)
  unfolding found
  In-found_hash [] n c key s p h = rw (p, h) (inl refl)
  In-found_hash (level ∷ levels) n c key s p h = rw (p, h) (inl refl)

  In-found_level :
      (levels : List (List ℕ)) (level : List ℕ) (n c : Node K) (dollar : Bool) (key : K)
      (s : Subscription)
      → get_child level (children_of n) ≡ some c
      → In s (found levels c false key)
      → In s (found (level ∷ levels) n dollar key)
  unfolding found
  In-found_level levels level n c dollar key s p i =
      In-append_left s (hash_part n dollar key ++ listed (get_child level (children_of n)) _) _ (
        In-append_right s (hash_part n dollar key) (listed (get_child level (children_of n)) _)
          (rw p i))

  In-found_plus :
      (levels : List (List ℕ)) (level : List ℕ) (n c : Node K) (key : K) (s : Subscription)
      → get_child plus_level (children_of n) ≡ some c
      → In s (found levels c false key)
      → In s (found (level ∷ levels) n false key)
  unfolding found
  In-found_plus levels level n c key s p i =
      In-append_right s (hash_part n false key ++ listed (get_child level (children_of n)) _) _
        (rw p i)

  none_missing :
      (l : List ℕ) (path : List (List ℕ)) (n : Node K) (key : K)
      → get_child l (children_of n) ≡ none
      → (s : Subscription) → get (l ∷ path) key n ≢ some s
  unfolding get subs_at lookup
  none_missing l path n key p s = rw (p, subs_at) (λ h. cc)

  get-child_some :
      (l : List ℕ) (path : List (List ℕ)) (n : Node K) (key : K) (s : Subscription)
      → get (l ∷ path) key n ≡ some s
      → (c : Node K) × (get_child l (children_of n) ≡ some c) × (get path key c ≡ some s)
  get-child_some l path n key s h = elim (Option-cases (get_child l (children_of n))) [
    | inl p ↦ absurd (missing p)
    | inr (c, p) ↦ (c, p, sym (get-child l path n c key p) ∙ h)
  ]
    where
      missing : get_child l (children_of n) ≡ none → ⊥
      missing p = none_missing l path n key p s h

  Reaches_hash :
      (p : List ℕ) (ps levels : List (List ℕ)) (n : Node K) (dollar : Bool) (key : K)
      (s : Subscription)
      → p ≡ hash_level
      → ps ≡ []
      → dollar ≡ false
      → get (p ∷ ps) key n ≡ some s
      → In s (found levels n dollar key)
  Reaches_hash p ps levels n dollar key s is_hash ends open_root there =
      let (c, at, below) = get-child_some p ps n key s there in
      subst (λ d. In s (found levels n d key)) (sym open_root)
        (In-found_hash levels n c key s
          (subst (λ q. get_child q (children_of n) ≡ some c) is_hash at)
          (sym (get-here c key) ∙ subst (λ q. get q key c ≡ some s) ends below))

  -- And whatever stands at a path that matches is merged.
  pub Reaches-found :
      (path levels : List (List ℕ)) (n : Node K) (dollar : Bool) (key : K) (s : Subscription)
      → IsPlain levels
      → get path key n ≡ some s
      → route dollar path levels ≡ true
      → In s (found levels n dollar key)
  Reaches-found [] [] n dollar key s plain there fits =
      unfold found in
      In-append_right s (hash_part n dollar key) _ (rw (sym (get-here n key) ∙ there) (inl refl))
  Reaches-found [] (l ∷ ls) n dollar key s plain there fits = unfold levels_match in ground arith
  Reaches-found (p ∷ ps) [] n dollar key s plain there fits =
      let (is_hash, ends, open_root) = route_end p ps dollar fits in
      Reaches_hash p ps [] n dollar key s is_hash ends open_root there
  Reaches-found (p ∷ ps) (l ∷ ls) n dollar key s plain there fits =
      elim (route_step p l ps ls dollar fits) [
        | inl (is_hash, ends, open_root) ↦
            Reaches_hash p ps (l ∷ ls) n dollar key s is_hash ends open_root there
        | inr (inl (is_plus, open_root, more)) ↦
            let (c, at, below) = get-child_some p ps n key s there in
            subst (λ d. In s (found (l ∷ ls) n d key)) (sym open_root)
              (In-found_plus ls l n c key s
                (subst (λ q. get_child q (children_of n) ≡ some c) is_plus at)
                (Reaches-found ps ls c false key s plain.1 below more))
        | inr (inr (same, more)) ↦
            let (c, at, below) = get-child_some p ps n key s there in
            In-found_level ls l n c dollar key s
              (subst (λ q. get_child q (children_of n) ≡ some c) same at)
              (Reaches-found ps ls c false key s plain.1 below more)
      ]
