-- ===== src/Broker/Provider/Book.antt =====
-- The dictionary of positions of src/broker/provider.py: its invariant under each write, and its
-- sorted snapshot.
use pentagon5_foundation.Prelude.{
  String, ◌≡◌, ◌≢◌, refl, Option-cases, inl, inr, true, none, some, List, [], ◌∷◌, ok, err, arith,
  eq_iff, eq_refl, All,
}
use pentagon5_foundation.Prelude.Dict.{Dict, lookup, insert, erase, lookup-insert, lookup-erase_ne}
use pentagon5_foundation.Decimal.Sign.{IsPositive}
use pentagon5_foundation.Broker.Models.{Position}
use pentagon5_foundation.Broker.Provider.{
  Broker, insert_sorted, sorted_keys, read_all, get_positions, require_connected,
}

abbrev pub IsOpen : String → Position → Type 0
IsOpen k p = (p.symbol ≡ k) × IsPositive p.quantity × IsPositive p.average_price

-- Every position is stored once, under its own symbol, with a positive quantity and price.
abbrev pub IsBook : Dict Position → Type 0
IsBook [] = Unit
IsBook ((k, p) ∷ d) = IsOpen k p × (lookup k d ≡ none) × IsBook d

pub lookup-IsOpen :
    (k : String) (p : Position) (d : Dict Position) → IsBook d → lookup k d ≡ some p → IsOpen k p
unfolding lookup
lookup-IsOpen k p [] h e = ground arith
lookup-IsOpen k p ((j, q) ∷ d) h e = ground (arith, eq_iff j k, lookup-IsOpen k p d h.2)

pub insert-IsBook :
    (k : String) (p : Position) (d : Dict Position) → IsBook d → IsOpen k p → IsBook (insert k p d)
unfolding lookup insert
insert-IsBook k p [] h o = (o, refl, tt)
insert-IsBook k p ((j, q) ∷ d) h o =
    ground (arith, eq_iff j k, eq_iff k j, insert-IsBook k p d h.2 o, lookup-insert k j p d)

pub erase-IsBook : (k : String) (d : Dict Position) → IsBook d → IsBook (erase k d)
unfolding lookup erase
erase-IsBook k [] h = tt
erase-IsBook k ((j, q) ∷ d) h =
    ground (arith, eq_iff j k, eq_iff k j, erase-IsBook k d h.2, lookup-erase_ne k j d)

abbrev HasKeys : List String → Dict Position → Type 0
HasKeys ks d = All (λ k. lookup k d ≢ none) ks

insert_sorted-All :
    (P : String → Type 0) (k : String) (ks : List String)
    → P k
    → All P ks
    → All P (insert_sorted k ks)
unfolding insert_sorted
insert_sorted-All P k [] h hs = (h, tt)
insert_sorted-All P k (j ∷ ks) h hs = ground (arith, insert_sorted-All P k ks h hs.1)

HasKeys-cons :
    (ks : List String) (k : String) (p : Position) (d : Dict Position)
    → HasKeys ks d
    → HasKeys ks ((k, p) ∷ d)
unfolding lookup
HasKeys-cons [] k p d h = tt
HasKeys-cons (j ∷ ks) k p d h = ground (arith, HasKeys-cons ks k p d h.1)

sorted_keys-HasKeys : (d : Dict Position) → HasKeys (sorted_keys d) d
unfolding sorted_keys lookup
sorted_keys-HasKeys [] = tt
sorted_keys-HasKeys ((k, p) ∷ d) =
    insert_sorted-All (λ j. lookup j ((k, p) ∷ d) ≢ none) k (sorted_keys d)
      (λ e. ground (arith, eq_refl k, e))
      (HasKeys-cons (sorted_keys d) k p d (sorted_keys-HasKeys d))

read_all_total :
    (ks : List String) (d : Dict Position)
    → HasKeys ks d
    → (ps : List Position) × (read_all ks d ≡ ok ps)
unfolding read_all
read_all_total [] d h = ([], refl)
read_all_total (k ∷ ks) d h = elim (Option-cases (lookup k d)) [
  | inl missing ↦ absurd (h.0 missing)
  | inr (p, found) ↦
      let (ps, rest) = read_all_total ks d h.1 in (p ∷ ps, rw (found, rest, read_all))
]

-- The positions in the order of their symbols.
unfoldable pub snapshot : Dict Position → List Position
snapshot d = elim (read_all (sorted_keys d) d) [ ok ps ↦ ps | err e ↦ [] ]

read_all_sorted : (d : Dict Position) → read_all (sorted_keys d) d ≡ ok (snapshot d)
unfolding snapshot
read_all_sorted d =
    let (ps, e) = read_all_total (sorted_keys d) d (sorted_keys-HasKeys d) in rw (e, snapshot)

-- `get_positions` of a connected provider finds every key, and changes nothing.
pub get_positions_lem :
    (b : Broker) → b.connected ≡ true → get_positions b ≡ (ok (snapshot b.positions), b)
unfolding get_positions require_connected
get_positions_lem b h = rw (h, read_all_sorted b.positions)
