-- ===== src/Trie/Route.antt =====
-- Which paths the walk of crates/netbaiot-transports/src/mqtt/broker/subscription.rs visits: those whose
-- levels match the topic's, by the loop of `topic_matches` in broker/routing.rs.
use netbaiot.Prelude.{
  ℕ, ◌≡◌, refl, sym, ap, ◌∙◌, ◌⊎◌, inl, inr, Bool, true, false, ◌&&◌, ◌||◌, Option, none, some,
  List, [], ◌∷◌, ◌++◌, arith, if◌then◌else◌, Eq, nat_eq, str_eq, str_eq_iff, string_eq, All,
}
use netbaiot.Prelude.{list_beq}
use netbaiot.Prelude.Map.{lookup}
use netbaiot.Topic.{plus_level, hash_level, levels_match, is_empty}
use netbaiot.Trie.{Subscription, Node, subscribers, children_of, get_child, subs_at, get}
use netbaiot.Trie.Match.{listed, to_list, hash_part, found}

abbrev pub In : {A : Type 0} → A → List A → Type 0
In x [] = ⊥
In x (y ∷ ys) = (x ≡ y) ⊎ In x ys

In-append : {A : Type 0} (x : A) (xs ys : List A) → In x (xs ++ ys) → In x xs ⊎ In x ys
In-append x [] ys i = inr i
In-append x (y ∷ xs) ys (inl e) = inl (inl e)
In-append x (y ∷ xs) ys (inr i) = elim (In-append x xs ys i) [ inl l ↦ inl (inr l) | inr r ↦ inr r ]

pub In-append_left : {A : Type 0} (x : A) (xs ys : List A) → In x xs → In x (xs ++ ys)
In-append_left x [] ys i = elim i [ ]
In-append_left x (y ∷ xs) ys (inl e) = inl e
In-append_left x (y ∷ xs) ys (inr i) = inr (In-append_left x xs ys i)

pub In-append_right : {A : Type 0} (x : A) (xs ys : List A) → In x ys → In x (xs ++ ys)
In-append_right x [] ys i = i
In-append_right x (y ∷ xs) ys i = inr (In-append_right x xs ys i)

-- A topic's level is never a wildcard.
abbrev pub IsPlain : List (List ℕ) → Type 0
IsPlain = All (λ level. (str_eq level hash_level ≡ false) × (str_eq level plus_level ≡ false))

-- The filters that `topic_matches` keeps from a topic that begins with `$`.
abbrev pub blocked : List (List ℕ) → Bool
blocked [] = false
blocked (level ∷ levels) = str_eq level plus_level || (str_eq level hash_level && is_empty levels)

abbrev pub route : Bool → List (List ℕ) → List (List ℕ) → Bool
route dollar path levels = if dollar && blocked path then false else levels_match path levels

abbrev pub Reaches :
    {K : Type 0} ⦃e : Eq K⦄ → List (List ℕ) → Node K → Bool → K → Subscription → Type 0
Reaches levels n dollar key s =
    (path : List (List ℕ)) × (get path key n ≡ some s) × (route dollar path levels ≡ true)

In-to_list : (s : Subscription) (o : Option Subscription) → In s (to_list o) → o ≡ some s
In-to_list s none i = elim i [ ]
In-to_list s (some t) (inl p) = ap some (sym p)
In-to_list s (some t) (inr i) = elim i [ ]

levels_match-hash : (levels : List (List ℕ)) → levels_match (hash_level ∷ []) levels ≡ true
unfolding levels_match list_beq
levels_match-hash [] = refl
levels_match-hash (level ∷ levels) = refl

levels_match-plus :
    (path levels : List (List ℕ)) (level : List ℕ)
    → levels_match (plus_level ∷ path) (level ∷ levels) ≡ levels_match path levels
unfolding levels_match list_beq
levels_match-plus path levels level = refl

levels_match-level :
    (path levels : List (List ℕ)) (level : List ℕ)
    → str_eq level hash_level ≡ false
    → str_eq level plus_level ≡ false
    → levels_match (level ∷ path) (level ∷ levels) ≡ levels_match path levels
unfolding levels_match
levels_match-level path levels level h p = rw (h, p) (ground (arith, str_eq_iff level level))

module _ {K : Type 0} ⦃e : Eq K⦄ where
  In-listed :
      (s : Subscription) (o : Option (Node K)) (listing : Node K → List Subscription)
      → In s (listed o listing)
      → (c : Node K) × (o ≡ some c) × In s (listing c)
  In-listed s none listing i = elim i [ ]
  In-listed s (some c) listing i = (c, refl, i)

  pub get-child :
      (l : List ℕ) (path : List (List ℕ)) (n c : Node K) (key : K)
      → get_child l (children_of n) ≡ some c
      → get (l ∷ path) key n ≡ get path key c
  unfolding get subs_at
  get-child l path n c key p = rw (p, subs_at)

  pub get-here : (n : Node K) (key : K) → get [] key n ≡ lookup key (subscribers n)
  unfolding get subs_at
  get-here n key = refl

  hash_part-Reaches :
      (levels : List (List ℕ)) (n : Node K) (dollar : Bool) (key : K) (s : Subscription)
      → In s (hash_part n dollar key)
      → Reaches levels n dollar key s
  hash_part-Reaches levels n true key s i = elim i [ ]
  hash_part-Reaches levels n false key s i =
      let (c, p, j) = In-listed s (get_child hash_level (children_of n)) _ i in
      (
        hash_level ∷ [],
        get-child hash_level [] n c key p
            ∙ get-here c key
            ∙ In-to_list s (lookup key (subscribers c)) j,
        levels_match-hash levels,
      )

  plus_Reaches :
      (level : List ℕ) (levels : List (List ℕ)) (n : Node K) (dollar : Bool) (key : K)
      (s : Subscription)
      → ((c : Node K) → In s (found levels c false key) → Reaches levels c false key s)
      → In s (
          if dollar
          then []
          else listed (get_child plus_level (children_of n)) (λ c. found levels c false key))
      → Reaches (level ∷ levels) n dollar key s
  plus_Reaches level levels n true key s below i = elim i [ ]
  plus_Reaches level levels n false key s below i =
      let (c, p, j) = In-listed s (get_child plus_level (children_of n)) _ i in
      let (path, there, fits) = below c j in
      (
        plus_level ∷ path,
        get-child plus_level path n c key p ∙ there,
        levels_match-plus path levels level ∙ fits,
      )

  -- Whatever the walk merges stands at a path that matches.
  pub found-Reaches :
      (levels : List (List ℕ)) (n : Node K) (dollar : Bool) (key : K) (s : Subscription)
      → IsPlain levels
      → In s (found levels n dollar key)
      → Reaches levels n dollar key s
  unfolding found
  found-Reaches [] n dollar key s plain i = elim (In-append s (hash_part n dollar key) _ i) [
    | inl h ↦ hash_part-Reaches [] n dollar key s h
    | inr h ↦ (
      [],
      get-here n key ∙ In-to_list s (lookup key (subscribers n)) h,
      unfold levels_match in ground arith,
    )
  ]
  found-Reaches (level ∷ levels) n dollar key s plain i =
      let below : (Node K → List Subscription) = λ c. found levels c false key in
      let exact : List Subscription = listed (get_child level (children_of n)) below in
      let hash : List Subscription = hash_part n dollar key in
      let plus : List Subscription =
        if dollar then [] else listed (get_child plus_level (children_of n)) below in
      elim (In-append s (hash ++ exact) plus i) [
        | inl front ↦ elim (In-append s hash exact front) [
          | inl h ↦ hash_part-Reaches (level ∷ levels) n dollar key s h
          | inr h ↦
              let (c, p, j) = In-listed s (get_child level (children_of n)) below h in
              let (path, there, fits) = found-Reaches levels c false key s plain.1 j in
              (
                level ∷ path,
                get-child level path n c key p ∙ there,
                ground (arith, levels_match-level path levels level, plain.0),
              )
        ]
        | inr back ↦
            plus_Reaches level levels n dollar key s
              (λ c j. found-Reaches levels c false key s plain.1 j) back
      ]
