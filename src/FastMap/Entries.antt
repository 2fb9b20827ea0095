-- ===== src/FastMap/Entries.antt =====
-- model3d/fast_maps.go: the entries that a Range over a whole map shows.
use model3d.Base.{
  eq_beq, ℕ, ◌≡◌, refl, sym, ap, ◌∙◌, Bool, true, Option, none, some, [], ◌∷◌, ◌++◌, arith, Eq,
  nat_eq,
}
use model3d.GoMap
use model3d.GoMap.{GoMap, IsDistinct}
use model3d.FastMap.{Hash, Cell, FastMap, cell_value, load, range, range_entries, range_cells}
use model3d.FastMap.Lookup.{IsHashed, IsValid}

-- the callback that collects what it is shown and goes on
abbrev pub collect_entry : {K V : Type 0} → K → V → GoMap K V → Bool × GoMap K V
collect_entry k v m = (true, m ++ (k, v) ∷ [])

module _ {K V : Type 0} where
  append_assoc : (xs ys zs : GoMap K V) → (xs ++ ys) ++ zs ≡ xs ++ (ys ++ zs)
  append_assoc [] ys zs = refl
  append_assoc (x ∷ xs) ys zs = ap (λ ws. x ∷ ws) (append_assoc xs ys zs)

  append_nil : (xs : GoMap K V) → xs ++ [] ≡ xs
  append_nil [] = refl
  append_nil (x ∷ xs) = ap (λ ys. x ∷ ys) (append_nil xs)

  abbrev cell_entries : GoMap ℕ (Cell K V) → GoMap K V
  cell_entries [] = []
  cell_entries ((_, c) ∷ fast) = (c.key, c.value) ∷ cell_entries fast

  collect-entries : (m acc : GoMap K V) → range_entries collect_entry m acc ≡ acc ++ m
  unfolding range_entries
  collect-entries [] acc = rw (append_nil acc) refl
  collect-entries ((k, v) ∷ m) acc =
      collect-entries m (acc ++ (k, v) ∷ []) ∙ append_assoc acc ((k, v) ∷ []) m

  collect-cells :
      (fast : GoMap ℕ (Cell K V)) (acc : GoMap K V)
      → range_cells collect_entry fast acc ≡ acc ++ cell_entries fast
  unfolding range_cells
  collect-cells [] acc = rw (append_nil acc) refl
  collect-cells ((i, c) ∷ fast) acc =
      collect-cells fast (acc ++ (c.key, c.value) ∷ [])
      ∙ append_assoc acc ((c.key, c.value) ∷ []) (cell_entries fast)

  range_cells-entries :
      {A : Type 0} (f : K → V → A → Bool × A) (fast : GoMap ℕ (Cell K V)) (s : A)
      → range_cells f fast s ≡ range_entries f (cell_entries fast) s
  unfolding range_cells range_entries
  range_cells-entries f [] s = refl
  range_cells-entries f ((i, c) ∷ fast) s =
      ground (arith, range_cells-entries f fast (f c.key c.value s).1)

  range_fields :
      {A : Type 0} (f : K → V → A → Bool × A) (slow : GoMap K V) (o : Option (GoMap ℕ (Cell K V)))
      (s : A)
      → let m : FastMap K V = record { slow_map = slow; fast_map = o } in
        range f m s ≡ range_entries f (range collect_entry m []) s
  unfolding range
  range_fields f slow none s = ap (λ m. range_entries f m s) (sym (collect-entries slow []))
  range_fields f slow (some fast) s =
      range_cells-entries f fast s ∙ ap (λ m. range_entries f m s) (sym (collect-cells fast []))

  -- a Range is the loop over the entries that a Range without an end shows
  pub range-eq :
      {A : Type 0} (f : K → V → A → Bool × A) (m : FastMap K V) (s : A)
      → range f m s ≡ range_entries f (range collect_entry m []) s
  range-eq f m = range_fields f m.slow_map m.fast_map

module _ {K V : Type 0} ⦃e : Eq K⦄ ⦃h : Hash K⦄ where
  lookup-cell_entries :
      (k : K) (fast : GoMap ℕ (Cell K V))
      → IsDistinct fast
      → IsHashed fast
      → GoMap.lookup k (cell_entries fast) ≡ cell_value k (GoMap.lookup (h.hash k) fast)
  unfolding GoMap.lookup
  lookup-cell_entries k [] d p = refl
  lookup-cell_entries k ((i, c) ∷ fast) d p =
      ground (arith, lookup-cell_entries k fast d.1 p.1, e.beq_iff c.key k)

  cell_entries-IsDistinct :
      (fast : GoMap ℕ (Cell K V)) → IsDistinct fast → IsHashed fast → IsDistinct (cell_entries fast)
  unfolding GoMap.lookup
  cell_entries-IsDistinct [] d p = tt
  cell_entries-IsDistinct ((i, c) ∷ fast) d p =
      let gone : GoMap.lookup (h.hash c.key) fast ≡ none =
        ap (λ j. GoMap.lookup j fast) (sym p.0) ∙ d.0 in
      (
        lookup-cell_entries c.key fast d.1 p.1 ∙ ap (cell_value c.key) gone,
        cell_entries-IsDistinct fast d.1 p.1,
      )

  entries_fields :
      (slow : GoMap K V) (o : Option (GoMap ℕ (Cell K V)))
      → let m : FastMap K V = record { slow_map = slow; fast_map = o } in
        IsValid m
        → IsDistinct (range collect_entry m [])
          × ((k : K) → GoMap.lookup k (range collect_entry m []) ≡ load m k)
  unfolding range load
  entries_fields slow none d =
      let all = collect-entries slow [] in (rw all d.plain, λ k. ap (GoMap.lookup k) all)
  entries_fields slow (some fast) d =
      let all = collect-cells fast [] in
      (
        rw all (cell_entries-IsDistinct fast d.table.0 d.table.1),
        λ k. ap (GoMap.lookup k) all ∙ lookup-cell_entries k fast d.table.0 d.table.1,
      )

  -- the entries that a Range shows have each key once, with the value that Load finds
  pub entries_lem :
      (m : FastMap K V)
      → IsValid m
      → IsDistinct (range collect_entry m [])
        × ((k : K) → GoMap.lookup k (range collect_entry m []) ≡ load m k)
  entries_lem m = entries_fields m.slow_map m.fast_map
