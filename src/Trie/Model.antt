-- ===== src/Trie/Model.antt =====
-- The trie of crates/netbaiot-transports/src/mqtt/broker/subscription.rs against a flat table of
-- subscriptions, keyed by the filter's text and the session.
use netbaiot.Prelude.{
  ℕ, ◌+◌, ◌≡◌, refl, sym, ap, ◌∙◌, ◌↔◌, Bool, true, ◌&&◌, Option, none, some, List, [], ◌∷◌, ◌++◌,
  arith, if◌then◌else◌, Eq, nat_eq, str_eq, str_eq_iff, string_eq,
}
use netbaiot.Prelude.{list_beq, list_beq_iff}
use netbaiot.Prelude.Map.{lookup, insert, remove, Distinct}
use netbaiot.Topic.{slash, split, push_front}
use netbaiot.Trie.Match.{split-split_once, levels_of}
use netbaiot.Trie.{split_once, Subscription, SubscriptionTrie, get, filter_may_match_uplink}
use netbaiot.Trie.Content.{IsMap}

-- The text whose levels these are.
unsplit : List (List ℕ) → List ℕ
unsplit [] = []
unsplit (level ∷ []) = level
unsplit (level ∷ next ∷ more) = level ++ slash ∷ unsplit (next ∷ more)

unsplit-push_front :
    (c : ℕ) (l : List ℕ) (ls : List (List ℕ))
    → unsplit (push_front c (l ∷ ls)) ≡ c ∷ unsplit (l ∷ ls)
unfolding unsplit
unsplit-push_front c l [] = refl
unsplit-push_front c l (m ∷ ms) = refl

unsplit-nil : (l : List ℕ) (ls : List (List ℕ)) → unsplit ([] ∷ l ∷ ls) ≡ slash ∷ unsplit (l ∷ ls)
unfolding unsplit
unsplit-nil l ls = refl

unsplit-split : (text : List ℕ) → unsplit (split text) ≡ text
unfolding split
unsplit-split [] = unfold unsplit in refl
unsplit-split (c ∷ text) =
    let ih = unsplit-split text in
    let shape = split-split_once text in
    ground (
      arith,
      ih,
      shape,
      unsplit-push_front c (split_once text).0 (levels_of (split_once text).1),
      unsplit-nil (split_once text).0 (levels_of (split_once text).1),
    )

pub split_injective : (a b : List ℕ) → split a ≡ split b → a ≡ b
split_injective a b h = sym (unsplit-split a) ∙ ap unsplit h ∙ unsplit-split b

module _ {K : Type 0} ⦃e : Eq K⦄ where
  unfoldable pub pair_beq : List ℕ × K → List ℕ × K → Bool
  pair_beq (a, j) (b, k) = str_eq a b && e.beq j k

  pub pair_beq_iff : (p q : List ℕ × K) → (pair_beq p q ≡ true) ↔ (p ≡ q)
  unfolding pair_beq
  pair_beq_iff (a, j) (b, k) = (
    λ h. ground (arith, str_eq_iff a b, e.beq_iff j k),
    λ h. ground (arith, str_eq_iff a b, e.beq_iff j k),
  )

  instance abbrev pub pair_eq : Eq (List ℕ × K)
  pair_eq = record { beq = pair_beq; beq_iff = pair_beq_iff }

-- A flat table, and the subscription that it has for a path of levels.
abbrev pub Table : Type 0 → Type 0
Table K = List ((List ℕ × K) × Subscription)

module _ {K : Type 0} ⦃e : Eq K⦄ where
  unfoldable pub at_path : List (List ℕ) → K → Table K → Option Subscription
  at_path path key [] = none
  at_path path key (((f, j), s) ∷ m) =
      if list_beq (split f) path && e.beq j key then some s else at_path path key m

  -- How many entries have a filter that may match a topic ending in `/up`.
  unfoldable pub uplinks : Table K → ℕ
  uplinks [] = 0
  uplinks (((f, j), s) ∷ m) = if filter_may_match_uplink f then uplinks m + 1 else uplinks m

  pub record Refines (trie : SubscriptionTrie K) (m : Table K) : Type 0 where
    pub same : (path : List (List ℕ)) (key : K) → get path key trie.root ≡ at_path path key m
    pub is_map : IsMap trie.root
    pub distinct : Distinct m
    pub counted : trie.uplink_subscriptions ≡ uplinks m

  pub at_path-insert :
      (f : List ℕ) (key : K) (s : Subscription) (m : Table K) (path : List (List ℕ)) (k : K)
      → at_path path k (insert (f, key) s m)
        ≡ (if list_beq (split f) path && e.beq key k then some s else at_path path k m)
  unfolding at_path insert pair_beq
  at_path-insert f key s [] path k = refl
  at_path-insert f key s (((g, j), t) ∷ m) path k = ground (
    arith,
    at_path-insert f key s m path k,
    str_eq_iff g f,
    e.beq_iff j key,
    e.beq_iff key k,
    e.beq_iff j k,
    list_beq_iff (split g) path,
    list_beq_iff (split f) path,
    split_injective g f,
  )

  pub at_path-remove :
      (f : List ℕ) (key : K) (m : Table K) (path : List (List ℕ)) (k : K)
      → at_path path k (remove (f, key) m)
        ≡ (if list_beq (split f) path && e.beq key k then none else at_path path k m)
  unfolding at_path remove pair_beq
  at_path-remove f key [] path k = ground arith
  at_path-remove f key (((g, j), t) ∷ m) path k = ground (
    arith,
    at_path-remove f key m path k,
    str_eq_iff g f,
    e.beq_iff j key,
    e.beq_iff key k,
    e.beq_iff j k,
    list_beq_iff (split g) path,
    list_beq_iff (split f) path,
    split_injective g f,
  )

  pub uplinks-insert :
      (f : List ℕ) (key : K) (s : Subscription) (m : Table K)
      → uplinks (insert (f, key) s m) ≡ (elim (lookup (f, key) m) [
        | none ↦ if filter_may_match_uplink f then uplinks m + 1 else uplinks m
        | some old ↦ uplinks m
      ])
  unfolding uplinks insert lookup pair_beq
  uplinks-insert f key s [] = refl
  uplinks-insert f key s (((g, j), t) ∷ m) =
      ground (arith, uplinks-insert f key s m, str_eq_iff g f)

  uplinks-remove_absent :
      (f : List ℕ) (key : K) (m : Table K)
      → lookup (f, key) m ≡ none
      → uplinks (remove (f, key) m) ≡ uplinks m
  unfolding uplinks remove lookup
  uplinks-remove_absent f key [] h = refl
  uplinks-remove_absent f key (((g, j), t) ∷ m) h = ground (arith, uplinks-remove_absent f key m)

  pub uplinks-remove :
      (f : List ℕ) (key : K) (m : Table K)
      → Distinct m
      → uplinks m ≡ (elim (lookup (f, key) m) [
        | none ↦ uplinks (remove (f, key) m)
        | some old ↦
            if filter_may_match_uplink f
            then uplinks (remove (f, key) m) + 1
            else uplinks (remove (f, key) m)
      ])
  unfolding uplinks remove lookup
  uplinks-remove f key [] d = refl
  uplinks-remove f key (((g, j), t) ∷ m) d = ground (
    arith,
    uplinks-remove f key m d.1,
    uplinks-remove_absent f key m,
    pair_beq_iff (g, j) (f, key),
  )

  pub at_path-split :
      (f : List ℕ) (key : K) (m : Table K) → at_path (split f) key m ≡ lookup (f, key) m
  unfolding at_path lookup pair_beq
  at_path-split f key [] = refl
  at_path-split f key (((g, j), s) ∷ m) = ground (
    arith,
    at_path-split f key m,
    list_beq_iff (split g) (split f),
    split_injective g f,
    str_eq_iff g f,
  )
