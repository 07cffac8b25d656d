-- ===== src/Mux/Removal.antt =====
-- `close_parent` and `reset` of crates/netbaiot-rpc-mux/src/lib.rs: which streams go.
use netbaiot.Prelude.{
  ℕ, ◌≡◌, refl, sym, ap, inl, inr, Bool, false, ◌&&◌, ◌||◌, Option, none, some, List, [], ◌∷◌,
  arith, ◌==◌, if◌then◌else◌, ==_iff, Option-cases, nat_eq, string_eq, ok,
}
use netbaiot.Prelude.Map.{lookup, remove, Distinct, lookup-remove}
use netbaiot.Mux.{Stream, StreamTable, ReceiveBody}
use netbaiot.Mux.Table.{remove_stream, drop_body}
use netbaiot.Mux.Flow.{remove_all, close_parent, reset, children, owner_of_children, opt_is}
use netbaiot.Mux.Ledger.{remove-absent}

unfoldable contains : ℕ → List ℕ → Bool
contains j [] = false
contains j (id ∷ ids) = id == j || contains j ids

drop_body-streams :
    (t : StreamTable) (body : Option ReceiveBody) → (drop_body t body).streams ≡ t.streams
unfolding drop_body
drop_body-streams t none = refl
drop_body-streams t (some body) = refl

remove_stream-streams :
    (t : StreamTable) (id : ℕ) → (remove_stream t id).streams ≡ remove id t.streams
unfolding remove_stream
remove_stream-streams t id = elim (Option-cases (lookup id t.streams)) [
  | inl absent ↦ rw (remove_stream, absent) (sym (remove-absent id t.streams absent))
  | inr (s, present) ↦
      rw (remove_stream, present)
        (drop_body-streams (record t { streams = remove id t.streams }) s.body)
]

lookup-remove_stream :
    (t : StreamTable) (id j : ℕ)
    → lookup j (remove_stream t id).streams ≡ (if id == j then none else lookup j t.streams)
lookup-remove_stream t id j = rw (remove_stream-streams t id) (lookup-remove id j t.streams)

lookup-remove_all :
    (gone : List ℕ) (t : StreamTable) (j : ℕ)
    → lookup j (remove_all t gone).streams ≡ (if contains j gone then none else lookup j t.streams)
unfolding remove_all contains
lookup-remove_all [] t j = refl
lookup-remove_all (id ∷ gone) t j =
    ground (arith, lookup-remove_all gone (remove_stream t id) j, lookup-remove_stream t id j)

abbrev pub is_child : ℕ → Option Stream → Bool
is_child id none = false
is_child id (some s) = opt_is s.parent_id id

contains-children :
    (id j : ℕ) (streams : List (ℕ × Stream))
    → Distinct streams
    → contains j (children id streams) ≡ is_child id (lookup j streams)
unfolding contains children lookup
contains-children id j [] d = refl
contains-children id j ((k, s) ∷ streams) d =
    ground (arith, contains-children id j streams d.1, ==_iff k j)

-- The stream goes, and with a provider or an event subscription all streams below it.
unfoldable pub goes : ℕ → ℕ → List (ℕ × Stream) → Bool
goes id j streams =
    id == j || (owner_of_children (lookup id streams) && is_child id (lookup j streams))

-- After a reset, the stream is gone, and if it was a provider or an event subscription the streams
-- below it are gone too; every other stream is in the table as before.
pub reset_removes :
    (t after : StreamTable) (id j : ℕ) (removed : List ℕ)
    → Distinct t.streams
    → reset t id ≡ ok (after, removed)
    → lookup j after.streams ≡ (if goes id j t.streams then none else lookup j t.streams)
unfolding reset close_parent goes contains
reset_removes t after id j removed d h =
    let gone : List ℕ =
      if owner_of_children (lookup id t.streams) then children id t.streams else [] in
    let same : remove_stream (remove_all t gone) id ≡ after = ground arith in
    ground (
      arith,
      ap (λ u. lookup j u.streams) same,
      lookup-remove_stream (remove_all t gone) id j,
      lookup-remove_all gone t j,
      contains-children id j t.streams d,
    )
