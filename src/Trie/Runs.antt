-- ===== src/Trie/Runs.antt =====
-- Tests of the subscription trie, and its theorems at concrete inputs. Sessions are numbers.
use netbaiot.Prelude.{ℕ, ◌≤◌, ◌≡◌, refl, true, false, none, some, List, [], ◌∷◌, nat_eq, string_eq}
use netbaiot.Prelude.{list_beq}
use netbaiot.Prelude.Map.{lookup, insert, remove}
use netbaiot.Topic.{
  split, contains, utf8_width, byte_length, forbidden, valid_characters, valid_topic, starts_with,
  topic_matches,
}
use netbaiot.Trie.{
  Subscription, SubscriptionTrie, empty_trie, merge, get_child, set_child, remove_child, split_once,
  last_level, filter_may_match_uplink, merge_subscribers, insert_at, remove_at, match_at, subs_at,
  get, insert_filter, remove_filter, matching,
}
use netbaiot.Trie.Model.{pair_beq, pair_eq, Table, Refines}
use netbaiot.Trie.History.{
  Change, subscribe, unsubscribe, apply, run, apply_table, run_table, empty-Refines, run-Refines,
}
use netbaiot.Trie.Delivery.{matching_sound, matching_complete}
use netbaiot.Trie.Uplink.{up_level, uplink_counter_sound}

-- "a/+", "a/b", "$SYS/x" and "#".
abbrev any_below_a : List ℕ
any_below_a = b'a' ∷ b'/' ∷ b'+' ∷ []

abbrev a_b : List ℕ
a_b = b'a' ∷ b'/' ∷ b'b' ∷ []

abbrev a_up : List ℕ
a_up = b'a' ∷ b'/' ∷ b'u' ∷ b'p' ∷ []

abbrev with_qos : ℕ → Subscription
with_qos q = record { qos = q; no_local = false; retain_as_published = false; retain_handling = 0 }

abbrev history : List (Change ℕ)
history =
    subscribe any_below_a 1 (with_qos 1)
    ∷ subscribe a_b 1 (with_qos 2)
    ∷ subscribe a_b 2 (with_qos 0)
    ∷ unsubscribe a_b 2
    ∷ []

abbrev plain_history : List (Change ℕ)
plain_history = subscribe a_b 1 (with_qos 2) ∷ []

abbrev built : SubscriptionTrie ℕ
built = run history empty_trie

abbrev table : Table ℕ
table = run_table history []

table_lem : lookup (a_b, 1) table ≡ some (with_qos 2)
unfolding run_table apply_table lookup insert remove pair_beq list_beq
table_lem = refl

matching-built : lookup 1 (matching a_b built) ≡ some (with_qos 2)
unfolding run apply lookup insert remove list_beq matching match_at insert_filter remove_filter
    insert_at remove_at get subs_at get_child set_child remove_child split split_once
    merge_subscribers merge starts_with
matching-built = refl

matching-built_two : lookup 2 (matching a_b built) ≡ none
unfolding run apply lookup insert remove list_beq matching match_at insert_filter remove_filter
    insert_at remove_at get subs_at get_child set_child remove_child split split_once
    merge_subscribers merge starts_with
matching-built_two = refl

a_b_valid : valid_topic a_b 100 8 false ≡ true
unfolding valid_topic contains byte_length utf8_width forbidden valid_characters split
a_b_valid = refl

a_up_valid : valid_topic a_up 100 8 false ≡ true
unfolding valid_topic contains byte_length utf8_width forbidden valid_characters split
a_up_valid = refl

built-Refines : Refines built table
built-Refines = run-Refines history empty_trie [] empty-Refines

run-Refines_example : Refines built table
run-Refines_example = run-Refines history empty_trie [] empty-Refines

matching_sound_example :
    ((f : List ℕ) × (s : Subscription) × (lookup (f, 1) table ≡ some s)
      × (topic_matches f a_b ≡ true)
      × (s.qos ≡ 2))
    × ((f : List ℕ) (s : Subscription)
        → lookup (f, 1) table ≡ some s
        → topic_matches f a_b ≡ true
        → s.qos ≤ 2)
matching_sound_example =
    matching_sound a_b 100 8 1 built table (with_qos 2) built-Refines a_b_valid matching-built

abbrev one : SubscriptionTrie ℕ
one = run plain_history empty_trie

abbrev one_table : Table ℕ
one_table = run_table plain_history []

one-Refines : Refines one one_table
one-Refines = run-Refines plain_history empty_trie [] empty-Refines

one_listed : lookup (a_b, 1) one_table ≡ some (with_qos 2)
unfolding run_table apply_table lookup insert remove pair_beq list_beq
one_listed = refl

one_up : lookup 1 (matching a_up one) ≡ none
unfolding run apply lookup insert list_beq matching match_at insert_filter insert_at get subs_at
    get_child set_child split split_once merge_subscribers merge starts_with
one_up = refl

one_uplinks : one.uplink_subscriptions ≡ 0
unfolding run apply lookup list_beq insert_filter get subs_at get_child split last_level
    filter_may_match_uplink
one_uplinks = refl

a_up_last : last_level (split a_up) ≡ up_level
unfolding last_level split
a_up_last = refl

matching_complete_example : topic_matches a_b a_up ≡ false
matching_complete_example =
    matching_complete a_up 100 8 1 one one_table a_b (with_qos 2) one-Refines a_up_valid one_up
      one_listed

uplink_counter_sound_example : lookup 1 (matching a_up one) ≡ none
uplink_counter_sound_example =
    uplink_counter_sound a_up 100 8 1 one one_table one-Refines a_up_valid a_up_last one_uplinks
