-- ===== src/Mesh/Queries.antt =====
-- model3d/mesh.go: what Find and VertexSlice return, whether or not the index is there.
use model3d.Base.{
  Eq, eq_beq, ◌≤◌, ◌<◌, ◌≡◌, ap, ◌⊎◌, inl, inr, true, ◌&&◌, some, List, [], ◌∷◌, arith, ltb,
  nat_beq, if◌then◌else◌, nat_beq_iff, nat_eq, Bool-cases, Option-cases, ==_refl, is_some, length,
  to_nat, count,
}
use model3d.Coords.{coord_eq}
use model3d.FastMap
use model3d.FastMap.{FastMap, Hash, value_or_zero}
use model3d.FastMap.Ranges.{count-all_keys}
use model3d.Mesh.{
  Mesh, Pointer, Triangle, VertexIndex, all_vertices, contains, find, find_loop, get_vertex_to_face,
  is_vertex, no_pointers, vertex_slice,
}
use model3d.Mesh.Index.{IsTidy}
use model3d.Mesh.Invariant.{IsMesh}
use model3d.Mesh.Build.{get_vertex_to_face_lem}

count-find_loop :
    {C : Type 0} ⦃e : Eq C⦄ (tri : Pointer → Triangle C) (ps : List C) (fs : List Pointer)
    (g : Pointer)
    → count g (find_loop tri ps fs) ≡ (if all_vertices tri ps g then count g fs else 0)
unfolding find_loop
count-find_loop tri ps [] g = ground arith
count-find_loop tri ps (f ∷ fs) g = elim (Bool-cases (nat_beq f g)) [
  | inl same ↦
      let e = (nat_beq_iff f g).0 same in
      ground (arith, count-find_loop tri ps fs g, ap (all_vertices tri ps) e)
  | inr other ↦ ground (arith, count-find_loop tri ps fs g)
]

module _ {C : Type 0} ⦃e : Eq C⦄ ⦃h : Hash C⦄ (tri : Pointer → Triangle C) where
  -- Find on a well-formed mesh over points on which == is identity, as those without a negative
  -- zero, returns, once each, the faces that have the first point and all other points for
  -- vertices, and no other face.
  pub count-find :
      (m : Mesh C) (p : C) (ps : List C) (g : Pointer)
      → IsMesh tri m
      → count g (find tri m p ps)
        ≡ to_nat (contains m g && is_vertex tri p g && all_vertices tri ps g)
  unfolding find contains
  count-find m p ps g d =
      let i = (get_vertex_to_face_lem tri m d).0 in
      ground (
        arith,
        count-find_loop tri ps (FastMap.value (get_vertex_to_face tri m).0 p) g,
        i.lists p g,
      )

  loaded :
      (v2f : VertexIndex C) (p : C)
      → IsTidy v2f
      → is_some (FastMap.load v2f p) ≡ ltb 0 (length (FastMap.value v2f p))
  unfolding FastMap.value
  loaded v2f p t = elim (Option-cases (FastMap.load v2f p)) [
    | inl e ↦ rw e
    | inr (s, e) ↦ nonempty s e
  ]
    where
      nonempty :
          (s : List Pointer)
          → FastMap.load v2f p ≡ some s
          → is_some (FastMap.load v2f p) ≡ ltb 0 (length (value_or_zero (FastMap.load v2f p)))
      nonempty [] e = absurd (t.filled p e)
      nonempty (f ∷ s) e = rw e (ground arith)

  -- VertexSlice lists no point twice.
  vertex_slice-le : (m : Mesh C) (p : C) → IsMesh tri m → count p (vertex_slice tri m) ≤ 1
  unfolding vertex_slice
  vertex_slice-le m p d =
      let i = (get_vertex_to_face_lem tri m d).0 in
      ground (arith, count-all_keys p (get_vertex_to_face tri m).0 i.tidy.valid)

  length-pos : (g : Pointer) (s : List Pointer) → 0 < count g s → 0 < length s
  length-pos g [] h = absurd (omega arith)
  length-pos g (f ∷ s) h = omega arith

  first_of_pos : (s : List Pointer) → 0 < length s → (g : Pointer) × (0 < count g s)
  first_of_pos [] h = absurd (omega arith)
  first_of_pos (f ∷ s) h = (f, ground (arith, ==_refl f))

  -- a vertex of the mesh, with a face that has it
  abbrev pub HasVertex : Mesh C → C → Type 0
  HasVertex m p = (g : Pointer) × (contains m g ≡ true) × (is_vertex tri p g ≡ true)

  -- VertexSlice of a well-formed mesh lists each vertex of each face exactly once, and lists no
  -- other point.
  pub count-vertex_slice :
      (m : Mesh C) (p : C)
      → IsMesh tri m
      → ((count p (vertex_slice tri m) ≡ 1) × HasVertex m p)
        ⊎ ((count p (vertex_slice tri m) ≡ 0) × ¬ (HasVertex m p))
  unfolding vertex_slice contains
  count-vertex_slice m p d =
      let v2f = (get_vertex_to_face tri m).0 in
      let i = (get_vertex_to_face_lem tri m d).0 in
      let counted = count-all_keys p v2f i.tidy.valid in
      let there = loaded v2f p i.tidy in
      elim (Bool-cases (ltb 0 (length (FastMap.value v2f p)))) [
        | inl pos ↦
            let (g, found) = first_of_pos (FastMap.value v2f p) (ground arith) in
            inl (
              ground (arith, counted, there),
              (g, ground (arith, i.lists p g), ground (arith, i.lists p g)),
            )
        | inr none_there ↦ inr (
          ground (arith, counted, there),
          λ (g, in_mesh, at).
              absurd (ground (arith, i.lists p g, length-pos g (FastMap.value v2f p))),
        )
      ]
