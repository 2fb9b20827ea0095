-- ===== src/FastMap.antt =====
-- model3d/fast_maps.go: CoordMap, CoordToSlice, CoordToNumber and the three maps over edges. The file
-- is one text instantiated six times; here it is written once, over a type of keys with its hash.
-- A map starts as a table of cells under the hashes of their keys, and turns into a plain map when
-- two keys collide. The hash is any function of the keys, and `==` any test of them.
pub mod Lookup
pub mod Ranges
pub mod Modify
pub mod Entries
pub mod Keys
pub mod Contract
pub mod Types
pub mod Plane
mod Tests
use model3d.Base.{
  eq_beq, ℕ, zero, suc, ◌+◌, ◌-◌, ◌*◌, ◌/◌, ◌%◌, ◌^◌, ◌≤◌, ◌<◌, ◌≡◌, refl, sym, ap, ◌∙◌, ◌≢◌, ◌↔◌,
  ◌⊎◌, inl, inr, Bool, true, false, not, ◌&&◌, ◌||◌, Option, none, some, List, [], ◌∷◌, ◌++◌, map,
  arith, ltb, leb, nat_beq, if◌then◌else◌, BEq, Eq, ◌==◌, Zero, nat_beq_iff, nat_eq, Bool-cases,
  Option-cases, ==_refl, is_some, length, get_elem?, get_or, set, replicate, take, drop,
  length-append, length-set, length-replicate, to_nat, count, count-append, or_else, or_else-none,
}
use model3d.GoMap
use model3d.GoMap.{GoMap}

-- the hash function of a type of keys
pub record Hash {ℓ} (K : Type ℓ) : Type ℓ where
  pub hash : K → ℕ

pub record Cell {ℓ κ} (K : Type ℓ) (V : Type κ) : Type (ℓ ⊔ κ) where
  pub key : K
  pub value : V

-- what reading a map gives for a value that may be missing
abbrev pub value_or_zero {ℓ} : {V : Type ℓ} ⦃z : Zero V⦄ → Option V → V
value_or_zero ⦃z⦄ none = z.zero_value
value_or_zero (some v) = v

-- a nil `fastMap` is `none`; a nil `slowMap` reads as the empty map
pub record FastMap {ℓ κ} (K : Type ℓ) (V : Type κ) : Type (ℓ ⊔ κ) where
  pub slow_map : GoMap K V
  pub fast_map : Option (GoMap ℕ (Cell K V))

unfoldable pub new {ℓ κ} : (K : Type ℓ) (V : Type κ) → FastMap K V
new K V = record { slow_map = []; fast_map = some [] }

module _ {ℓ κ} {K : Type ℓ} {V : Type κ} where
  unfoldable pub len : FastMap K V → ℕ
  len m = elim m.fast_map [ some fast ↦ length fast | none ↦ length m.slow_map ]

module _ {ℓ κ} {K : Type ℓ} {V : Type κ} ⦃b : BEq K⦄ where
  -- the loop of `fastToSlow`
  unfoldable pub refill : GoMap ℕ (Cell K V) → GoMap K V → GoMap K V
  refill [] slow = slow
  refill ((_, cell) ∷ fast) slow = refill fast (GoMap.insert cell.key cell.value slow)

  unfoldable pub fast_to_slow : FastMap K V → FastMap K V
  unfolding refill
  fast_to_slow m = elim m.fast_map [
    | some fast ↦ record { slow_map = refill fast []; fast_map = none }
    | none ↦ record { slow_map = []; fast_map = none }
  ]

  -- the value in a cell that was found, if it is that of the key
  abbrev pub cell_value : K → Option (Cell K V) → Option V
  cell_value key none = none
  cell_value key (some cell) = if b.same cell.key key then some cell.value else none

module _ {ℓ κ} {K : Type ℓ} {V : Type κ} ⦃b : BEq K⦄ ⦃h : Hash K⦄ where
  -- `Load`: the value and `true` are `some`, the zero value and `false` are `none`
  unfoldable pub load : FastMap K V → K → Option V
  load m key = elim m.fast_map [
    | some fast ↦ cell_value key (GoMap.lookup (h.hash key) fast)
    | none ↦ GoMap.lookup key m.slow_map
  ]

  unfoldable pub value : ⦃z : Zero V⦄ → FastMap K V → K → V
  value m key = value_or_zero (load m key)

  delete_cell : K → GoMap ℕ (Cell K V) → Option (Cell K V) → GoMap ℕ (Cell K V)
  delete_cell key fast none = fast
  delete_cell key fast (some cell) =
      if b.same cell.key key then GoMap.delete (h.hash key) fast else fast

  unfoldable pub delete : FastMap K V → K → FastMap K V
  unfolding delete_cell
  delete m key = elim m.fast_map [
    | some fast ↦ record m {
      fast_map = some (delete_cell key fast (GoMap.lookup (h.hash key) fast));
    }
    | none ↦ record m { slow_map = GoMap.delete key m.slow_map }
  ]

  -- `ok && cell.Key != key`
  collides : K → Option (Cell K V) → Bool
  collides key none = false
  collides key (some cell) = not (b.same cell.key key)

  store_slow : K → V → FastMap K V → FastMap K V
  store_slow key v m = record m { slow_map = GoMap.insert key v m.slow_map }

  unfoldable pub store : FastMap K V → K → V → FastMap K V
  unfolding collides store_slow
  store m key v = elim m.fast_map [
    | some fast ↦
        if collides key (GoMap.lookup (h.hash key) fast)
        then store_slow key v (fast_to_slow m)
        else record m {
          fast_map = some (GoMap.insert (h.hash key) (record { key = key; value = v }) fast);
        }
    | none ↦ store_slow key v m
  ]

  -- the value in a cell that was found, or the zero value
  abbrev cell_or_zero : ⦃z : Zero V⦄ → Option (Cell K V) → V
  cell_or_zero ⦃z⦄ none = z.zero_value
  cell_or_zero (some cell) = cell.value

  modify_slow : ⦃z : Zero V⦄ → (V → V) → FastMap K V → K → V × FastMap K V
  modify_slow f m key =
      let v = f (value_or_zero (GoMap.lookup key m.slow_map)) in
      (v, record m { slow_map = GoMap.insert key v m.slow_map })

  -- `Append` and `Add`: the new value is made from the old one, or from the zero value
  unfoldable pub modify : ⦃z : Zero V⦄ → (V → V) → FastMap K V → K → V × FastMap K V
  unfolding collides modify_slow
  modify f m key = elim m.fast_map [
    | some fast ↦
        let cell = GoMap.lookup (h.hash key) fast in
        let v = f (cell_or_zero cell) in
        let stored = GoMap.insert (h.hash key) (record { key = key; value = v }) fast in
        if collides key cell
        then modify_slow f (fast_to_slow m) key
        else (v, record m { fast_map = some stored })
    | none ↦ modify_slow f m key
  ]

-- the loops of `Range`, `KeyRange` and `ValueRange`: the callback acts on a state and says whether to
-- go on
module _ {ℓ κ σ} {K : Type ℓ} {V : Type κ} {S : Type σ} where
  unfoldable pub range_entries : (K → V → S → Bool × S) → GoMap K V → S → S
  range_entries f [] s = s
  range_entries f ((k, v) ∷ m) s =
      let (more, s') = f k v s in let rest = range_entries f m s' in if more then rest else s'

  unfoldable pub range_cells : (K → V → S → Bool × S) → GoMap ℕ (Cell K V) → S → S
  range_cells f [] s = s
  range_cells f ((_, cell) ∷ m) s =
      let (more, s') = f cell.key cell.value s in
      let rest = range_cells f m s' in if more then rest else s'

  unfoldable pub range : (K → V → S → Bool × S) → FastMap K V → S → S
  unfolding range_entries range_cells
  range f m s = elim m.fast_map [
    | some fast ↦ range_cells f fast s
    | none ↦ range_entries f m.slow_map s
  ]

  unfoldable pub key_range : (K → S → Bool × S) → FastMap K V → S → S
  unfolding range
  key_range f m s = range (λ k v. f k) m s

  unfoldable pub value_range : (V → S → Bool × S) → FastMap K V → S → S
  unfolding range
  value_range f m s = range (λ k v. f v) m s
