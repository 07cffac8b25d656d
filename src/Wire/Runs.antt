-- ===== src/Wire/Runs.antt =====
-- Tests of the MQTT header code, and its theorems at concrete inputs.
use netbaiot.Prelude.{
  ℕ, ◌≤◌, ◌≡◌, refl, ◌≢◌, none, some, List, [], ◌∷◌, ◌++◌, arith, nat_eq, string_eq, drop, ok, err,
}
use netbaiot.Wire.{
  invalid, variable_max, valid_flags, remaining_loop, remaining_length, fixed_header, encoded_size,
  put_loop, put_variable, encode,
}
use netbaiot.Wire.Length.{remaining_length-canonical}
use netbaiot.Wire.Framing.{fixed_header-encode, fixed_header_bounds, fixed_header-append}

abbrev octets_321 : List ℕ
octets_321 = 193 ∷ 2 ∷ []

-- A PUBACK with two bytes of body.
abbrev puback : List ℕ
puback = 64 ∷ 2 ∷ 0 ∷ 7 ∷ []

put_321 : put_variable 321 [] ≡ ok octets_321
unfolding put_variable put_loop
put_321 = refl

read_321 : remaining_length octets_321 1000 ≡ ok (some (321, 2))
unfolding remaining_length remaining_loop
read_321 = refl

-- A padded length is refused, and so is a fifth octet.
read_padded : remaining_length (128 ∷ 0 ∷ []) 1000 ≡ err invalid
unfolding remaining_length remaining_loop
read_padded = refl

read_long : remaining_length (255 ∷ 255 ∷ 255 ∷ 255 ∷ 1 ∷ []) 4_000_000_000 ≡ err invalid
unfolding remaining_length remaining_loop
read_long = refl

encode-puback : encode 64 (0 ∷ 7 ∷ []) 100 ≡ ok puback
unfolding encode encoded_size valid_flags put_variable put_loop
encode-puback = refl

header_puback : fixed_header puback 100 ≡ ok (some (64, 2, 4))
unfolding fixed_header valid_flags remaining_length remaining_loop
header_puback = refl

header_cut : fixed_header (64 ∷ []) 100 ≡ ok none
unfolding fixed_header valid_flags remaining_length remaining_loop
header_cut = refl

remaining_length-canonical_example :
    (321 ≤ 1000) × (321 ≤ variable_max) × (put_variable 321 [] ≡ ok octets_321)
remaining_length-canonical_example =
    remaining_length-canonical octets_321 1000 321 2 (omega arith) read_321

fixed_header-encode_example :
    (fixed_header (puback ++ (9 ∷ [])) 100 ≡ ok (some (64, 2, 4)))
    × (drop 2 puback ≡ 0 ∷ 7 ∷ [])
    × (4 ≤ 100)
fixed_header-encode_example = fixed_header-encode 64 100 (0 ∷ 7 ∷ []) puback (9 ∷ []) encode-puback

fixed_header_bounds_example : (2 ≤ 2) × (2 ≤ 5) × (2 ≤ 4) × (2 ≤ 4) × (4 ≤ 100)
fixed_header_bounds_example = fixed_header_bounds puback 100 64 2 4 header_puback

some-ne-none : fixed_header puback 100 ≢ ok none
some-ne-none h = cc (header_puback)

fixed_header-append_example : fixed_header (puback ++ puback) 100 ≡ fixed_header puback 100
fixed_header-append_example = fixed_header-append puback puback 100 some-ne-none
