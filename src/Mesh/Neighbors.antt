-- ===== src/Mesh/Neighbors.antt =====
-- model3d/mesh.go: what Neighbors returns, whether or not the index is there.
use model3d.Base.{
  Eq, eq_beq, ℕ, ◌+◌, ◌≡◌, refl, ap, ◌∙◌, inl, inr, not, ◌&&◌, none, some, List, [], ◌∷◌, arith,
  ltb, nat_beq, if◌then◌else◌, ◌==◌, nat_beq_iff, nat_eq, Bool-cases, to_nat, count,
}
use model3d.GoMap
use model3d.GoMap.{GoMap, IsDistinct}
use model3d.Coords.{coord_eq}
use model3d.FastMap
use model3d.FastMap.{Hash}
use model3d.Mesh.{
  Mesh, Pointer, Triangle, no_pointers, contains, get_vertex_to_face, is_vertex, counted,
  many_times, add_counts, neighbors_with_counts, neighbors,
}
use model3d.Mesh.Invariant.{IsMesh}
use model3d.Mesh.Build.{get_vertex_to_face_lem}

counted-insert :
    (g t : Pointer) (n : ℕ) (counts : GoMap Pointer ℕ)
    → counted g (GoMap.insert t n counts) ≡ (if t == g then n else counted g counts)
unfolding counted
counted-insert g t n counts = elim (Bool-cases (t == g)) [
  | inl same ↦ ground (arith, GoMap.lookup-insert g t n counts, same)
  | inr other ↦ ground (arith, GoMap.lookup-insert g t n counts, other)
]

counted-none :
    (g : Pointer) (counts : GoMap Pointer ℕ) → GoMap.lookup g counts ≡ none → counted g counts ≡ 0
unfolding counted
counted-none g counts h = ap (λ o. elim o [ some n ↦ n | none ↦ 0 ]) h

count-many_times :
    (g : Pointer) (counts : GoMap Pointer ℕ)
    → IsDistinct counts
    → count g (many_times counts) ≡ to_nat (ltb 1 (counted g counts))
unfolding many_times counted GoMap.lookup
count-many_times g [] d = ground arith
count-many_times g ((t, n) ∷ counts) d = elim (Bool-cases (t == g)) [
  | inl same ↦
      let none_there : GoMap.lookup g counts ≡ none = rw ((nat_beq_iff t g).0 same) at d.0 in
      let gone : counted g counts ≡ 0 = counted-none g counts none_there in
      ground (arith, count-many_times g counts d.1, gone, same)
  | inr other ↦ ground (arith, count-many_times g counts d.1, other)
]

same_count :
    (t g : Pointer) (counts : GoMap Pointer ℕ) → t ≡ g → counted t counts ≡ counted g counts
same_count t g counts e = ap (λ k. counted k counts) e

module _ {C : Type 0} ⦃e : Eq C⦄ ⦃h : Hash C⦄ (tri : Pointer → Triangle C) where
  counted-add_counts :
      (t : Pointer) (ts : List Pointer) (g : Pointer) (counts : GoMap Pointer ℕ)
      → IsDistinct counts
      → (counted g (add_counts tri t ts counts)
          ≡ counted g counts + (if g == t then 0 else count g ts))
        × IsDistinct (add_counts tri t ts counts)
  unfolding add_counts
  counted-add_counts t [] g counts d = (ground arith, d)
  counted-add_counts t (t1 ∷ ts) g counts d = elim (Bool-cases (nat_beq t1 t)) [
    | inl itself ↦
        rw itself (
          let rest = counted-add_counts t ts g counts d in (ground (arith, rest.0, itself), rest.1))
    | inr other ↦ rw other (
        let n = counted t1 counts + 1 in
        let rest =
          counted-add_counts t ts g (GoMap.insert t1 n counts)
            (GoMap.insert-IsDistinct t1 n counts d) in
        (
          ground (
            arith,
            rest.0,
            counted-insert g t1 n counts,
            other,
            same_count t1 g counts,
            nat_beq_iff t1 g,
          ),
          rest.1,
        ))
  ]

  -- Neighbors on a well-formed mesh over points on which == is identity, as those without a
  -- negative zero, returns, once each, the other faces that have at least two of the three corners
  -- of the triangle for vertices, an equal corner counting again, and no other face.
  pub count-neighbors :
      (m : Mesh C) (f g : Pointer)
      → IsMesh tri m
      → let touches = λ (p : C). to_nat (is_vertex tri p g) in
        count g (neighbors tri m f)
        ≡ to_nat (
            contains m g
            && not (g == f)
            && ltb 1 ((touches (tri f).a + touches (tri f).b) + touches (tri f).c))
  unfolding neighbors neighbors_with_counts contains
  count-neighbors m f g d =
      let v2f = (get_vertex_to_face tri m).0 in
      let i = (get_vertex_to_face_lem tri m d).0 in
      let at_a = counted-add_counts f (FastMap.value v2f (tri f).a) g [] tt in
      let at_b = counted-add_counts f (FastMap.value v2f (tri f).b) g _ at_a.1 in
      let at_c = counted-add_counts f (FastMap.value v2f (tri f).c) g _ at_b.1 in
      let nothing : counted g [] ≡ 0 = unfold counted GoMap.lookup in refl in
      count-many_times g (neighbors_with_counts tri m f) at_c.1
      ∙ ground (
        arith,
        at_a.0,
        at_b.0,
        at_c.0,
        nothing,
        i.lists (tri f).a g,
        i.lists (tri f).b g,
        i.lists (tri f).c g,
      )
