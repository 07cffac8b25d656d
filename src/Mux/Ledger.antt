-- ===== src/Mux/Ledger.antt =====
-- What the bodies of a table reserve: `connection_reserved` of crates/netbaiot-rpc-mux/src/lib.rs
-- against its streams.
use netbaiot.Prelude.{
  ℕ, suc, ◌+◌, ◌≤◌, ◌≡◌, refl, Option, none, some, List, [], ◌∷◌, arith, nat_eq, string_eq, length,
}
use netbaiot.Prelude.Map.{lookup, insert, remove, Distinct}
use netbaiot.Mux.{ReceiveBody, Stream}

unfoldable pub body_cost : Option ReceiveBody → ℕ
body_cost none = 0
body_cost (some body) = body.expected

unfoldable pub entry_cost : Option Stream → ℕ
entry_cost none = 0
entry_cost (some s) = body_cost s.body

unfoldable pub reserved : List (ℕ × Stream) → ℕ
reserved [] = 0
reserved ((id, s) ∷ streams) = body_cost s.body + reserved streams

pub reserved-insert :
    (id : ℕ) (s : Stream) (streams : List (ℕ × Stream))
    → reserved (insert id s streams) + entry_cost (lookup id streams)
      ≡ reserved streams + body_cost s.body
unfolding reserved insert lookup entry_cost
reserved-insert id s [] = omega arith
reserved-insert id s ((j, w) ∷ streams) = ground (arith, reserved-insert id s streams)

pub remove-absent :
    (id : ℕ) (streams : List (ℕ × Stream)) → lookup id streams ≡ none → remove id streams ≡ streams
unfolding remove lookup
remove-absent id [] h = refl
remove-absent id ((j, w) ∷ streams) h = ground (arith, remove-absent id streams)

pub reserved-remove :
    (id : ℕ) (streams : List (ℕ × Stream))
    → Distinct streams
    → reserved (remove id streams) + entry_cost (lookup id streams) ≡ reserved streams
unfolding reserved remove lookup entry_cost
reserved-remove id [] d = refl
reserved-remove id ((j, w) ∷ streams) d =
    ground (arith, reserved-remove id streams d.1, remove-absent id streams)

pub entry_cost-reserved :
    (id : ℕ) (streams : List (ℕ × Stream)) → entry_cost (lookup id streams) ≤ reserved streams
unfolding reserved lookup entry_cost
entry_cost-reserved id [] = omega arith
entry_cost-reserved id ((j, w) ∷ streams) = ground (arith, entry_cost-reserved id streams)

pub length-insert-present :
    (id : ℕ) (s w : Stream) (streams : List (ℕ × Stream))
    → lookup id streams ≡ some w
    → length (insert id s streams) ≡ length streams
unfolding insert lookup
length-insert-present id s w [] h = cc
length-insert-present id s w ((j, v) ∷ streams) h =
    ground (arith, length-insert-present id s w streams)

pub length-insert-absent :
    (id : ℕ) (s : Stream) (streams : List (ℕ × Stream))
    → lookup id streams ≡ none
    → length (insert id s streams) ≡ suc (length streams)
unfolding insert lookup
length-insert-absent id s [] h = refl
length-insert-absent id s ((j, v) ∷ streams) h = ground (arith, length-insert-absent id s streams)

pub length-remove :
    (id : ℕ) (streams : List (ℕ × Stream)) → length (remove id streams) ≤ length streams
unfolding remove
length-remove id [] = omega arith
length-remove id ((j, v) ∷ streams) = ground (arith, length-remove id streams)
