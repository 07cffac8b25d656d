-- ===== src/Classifier/Runs.antt =====
-- The classifier at concrete inputs.
use netbaiot.Prelude.{ℕ, ◌≡◌, refl, none, some, List, [], ◌∷◌, ◌++◌, nat_eq, string_eq, ok}
use netbaiot.Wire.{fixed_header, valid_flags, remaining_length, remaining_loop}
use netbaiot.Classifier.{mqtt, is_prefix, classify_connect, classify_mqtt, classify_prefix}

-- The start of a CONNECT of MQTT 3.1.1, and one byte less of it.
abbrev cut : List ℕ
cut = 16 ∷ 12 ∷ 0 ∷ 4 ∷ 77 ∷ 81 ∷ 84 ∷ 84 ∷ []

classifies : classify_prefix (cut ++ (4 ∷ [])) 1000 1000 ≡ ok (some mqtt)
unfolding classify_prefix classify_mqtt classify_connect is_prefix fixed_header valid_flags
    remaining_length remaining_loop
classifies = refl

waits : classify_prefix cut 1000 1000 ≡ ok none
unfolding classify_prefix classify_mqtt classify_connect is_prefix fixed_header valid_flags
    remaining_length remaining_loop
waits = refl
