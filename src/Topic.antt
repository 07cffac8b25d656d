-- ===== src/Topic.antt =====
-- Topic names and filters: `valid_utf8`, `valid_filter` and `valid_topic` of
-- crates/netbaiot-mqtt-wire/src/lib.rs, and `topic_matches` and the access rules of
-- crates/netbaiot-transports/src/mqtt/broker/routing.rs. A text is the list of its code points.
use netbaiot.Prelude.{
  ℕ, ◌+◌, ◌%◌, Bool, true, false, not, ◌&&◌, ◌||◌, List, [], ◌∷◌, ltb, leb, ◌==◌, if◌then◌else◌,
  nat_eq, str_eq, string_eq, length,
}

abbrev pub slash : ℕ
slash = b'/'

abbrev pub plus_level : List ℕ
plus_level = b'+' ∷ []

abbrev pub hash_level : List ℕ
hash_level = b'#' ∷ []

unfoldable pub contains : ℕ → List ℕ → Bool
contains c [] = false
contains c (x ∷ xs) = c == x || contains c xs

abbrev pub push_front : ℕ → List (List ℕ) → List (List ℕ)
push_front c [] = (c ∷ []) ∷ []
push_front c (level ∷ levels) = (c ∷ level) ∷ levels

-- `text.split('/')`, which yields one level at least.
unfoldable pub split : List ℕ → List (List ℕ)
split [] = [] ∷ []
split (c ∷ text) = if c == slash then [] ∷ split text else push_front c (split text)

-- The bytes of a code point in UTF-8, and `text.len()`.
unfoldable pub utf8_width : ℕ → ℕ
utf8_width c =
    if ltb c 0x80 then 1 else (if ltb c 0x800 then 2 else (if ltb c 0x10000 then 3 else 4))

unfoldable pub byte_length : List ℕ → ℕ
byte_length [] = 0
byte_length (c ∷ text) = utf8_width c + byte_length text

-- The characters that `valid_utf8` refuses; its input here is a `&str`, already UTF-8.
unfoldable pub forbidden : ℕ → Bool
forbidden code =
    code == 0
    || (leb 0x0001 code && leb code 0x001f)
    || (leb 0x007f code && leb code 0x009f)
    || (leb 0xfdd0 code && leb code 0xfdef)
    || leb 0xfffe (code % 0x10000)

unfoldable pub valid_characters : List ℕ → Bool
valid_characters [] = true
valid_characters (c ∷ text) = not (forbidden c) && valid_characters text

abbrev pub is_empty {ℓ} : {A : Type ℓ} → List A → Bool
is_empty [] = true
is_empty (x ∷ xs) = false

-- The `while let` loop over the levels; `levels.peek().is_some()` asks for a further level.
unfoldable pub valid_levels : List (List ℕ) → Bool
valid_levels [] = true
valid_levels (level ∷ levels) =
    let rest = valid_levels levels in
    if (contains b'+' level && not (str_eq level plus_level))
      || (contains b'#' level && (not (str_eq level hash_level) || not (is_empty levels)))
    then false
    else rest

unfoldable pub valid_filter : List ℕ → Bool
valid_filter filter = valid_levels (split filter)

unfoldable pub valid_topic : List ℕ → ℕ → ℕ → Bool → Bool
valid_topic topic max_bytes max_depth filter =
    not (is_empty topic)
    && leb (byte_length topic) max_bytes
    && leb (length (split topic)) max_depth
    && valid_characters topic
    && (if filter then valid_filter topic else not (contains b'+' topic || contains b'#' topic))

-- The loop of `topic_matches` over the levels of the filter and of the topic.
unfoldable pub levels_match : List (List ℕ) → List (List ℕ) → Bool
levels_match [] topics = is_empty topics
levels_match (level ∷ filters) [] = if str_eq level hash_level then is_empty filters else false
levels_match (level ∷ filters) (topic ∷ topics) =
    let rest = levels_match filters topics in
    if str_eq level hash_level
    then is_empty filters
    else (if str_eq level plus_level then rest else (if str_eq topic level then rest else false))

unfoldable pub starts_with : ℕ → List ℕ → Bool
starts_with c [] = false
starts_with c (x ∷ xs) = x == c

-- `filter.starts_with("+/")`
unfoldable pub starts_with_any : List ℕ → Bool
starts_with_any [] = false
starts_with_any (c ∷ text) = c == b'+' && starts_with slash text

unfoldable pub topic_matches : List ℕ → List ℕ → Bool
topic_matches filter topic =
    if starts_with b'$' topic
      && (str_eq filter hash_level || str_eq filter plus_level || starts_with_any filter)
    then false
    else levels_match (split filter) (split topic)
