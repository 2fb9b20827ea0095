-- ===== src/Mesh/Build.antt =====
-- model3d/mesh.go: the index that is built on its first use, and the operations that add many faces.
use model3d.Base.{
  Eq, eq_beq, ◌+◌, ◌≡◌, refl, sym, ap, ◌∙◌, Bool, false, ◌||◌, Option, none, some, List, [], ◌∷◌,
  arith, ltb, if◌then◌else◌, nat_eq, count,
}
use model3d.GoMap
use model3d.GoMap.{GoMap, IsDistinct, keys, count-keys}
use model3d.Coords.{coord_eq}
use model3d.FastMap
use model3d.FastMap.{FastMap, Hash, value_or_zero}
use model3d.FastMap.Lookup.{new-IsValid}
use model3d.Mesh.{
  Mesh, Pointer, Triangle, VertexIndex, append_all, index_faces, add, add_list, add_mesh, copy,
  contains, new_mesh, triangle_slice, get_vertex_to_face, no_pointers, is_vertex, unique_vertices,
}
use model3d.Mesh.Index.{IsTidy, listed, append_all-IsTidy, listed-append_all, count-unique_vertices}
use model3d.Mesh.Invariant.{Indexes, IsMesh, new_mesh-IsMesh, add_lem}

module _ {C : Type 0} ⦃e : Eq C⦄ ⦃h : Hash C⦄ (tri : Pointer → Triangle C) where
  pub empty-IsTidy : IsTidy (FastMap.new C (List Pointer))
  unfolding FastMap.new FastMap.load GoMap.lookup
  empty-IsTidy = record { valid = new-IsValid; filled = λ p e. cc }

  listed-empty : (p : C) (g : Pointer) → listed (FastMap.new C (List Pointer)) p g ≡ 0
  unfolding FastMap.new FastMap.value FastMap.load GoMap.lookup
  listed-empty p g = refl

  index_faces-IsTidy :
      (faces : GoMap Pointer Bool) (v2f : VertexIndex C)
      → IsTidy v2f
      → IsTidy (index_faces tri faces v2f)
  unfolding index_faces
  index_faces-IsTidy [] v2f t = t
  index_faces-IsTidy ((f, b) ∷ faces) v2f t =
      index_faces-IsTidy faces (append_all (unique_vertices (tri f)) f v2f)
        (append_all-IsTidy (unique_vertices (tri f)) f v2f t)

  listed-index_faces :
      (faces : GoMap Pointer Bool) (v2f : VertexIndex C) (p : C) (g : Pointer)
      → IsTidy v2f
      → listed (index_faces tri faces v2f) p g
        ≡ listed v2f p g + (if is_vertex tri p g then count g (keys faces) else 0)
  unfolding index_faces
  listed-index_faces [] v2f p g t = ground arith
  listed-index_faces ((f, b) ∷ faces) v2f p g t = ground (
    arith,
    listed-index_faces faces (append_all (unique_vertices (tri f)) f v2f) p g
        (append_all-IsTidy (unique_vertices (tri f)) f v2f t),
    listed-append_all (unique_vertices (tri f)) f g v2f p t,
    count-unique_vertices tri p f,
  )

  index_faces-Indexes :
      (faces : GoMap Pointer Bool)
      → IsDistinct faces
      → Indexes tri faces (index_faces tri faces (FastMap.new C (List Pointer)))
  index_faces-Indexes faces d = record {
    tidy = index_faces-IsTidy faces _ empty-IsTidy;
    lists = λ p g. ground (
      arith,
      listed-index_faces faces _ p g empty-IsTidy,
      listed-empty p g,
      count-keys g faces d,
    );
  }

  get_fields :
      (faces : GoMap Pointer Bool) (o : Option (VertexIndex C))
      → let m : Mesh C = record { faces = faces; vertex_to_face = o } in
        IsMesh tri m
        → Indexes tri faces (get_vertex_to_face tri m).0
          × IsMesh tri (get_vertex_to_face tri m).1
          × ((get_vertex_to_face tri m).1.faces ≡ faces)
  unfolding get_vertex_to_face
  get_fields faces (some v2f) d = (d.index, d, refl)
  get_fields faces none d =
      let built = index_faces-Indexes faces d.distinct in
      (built, record { distinct = d.distinct; flagged = d.flagged; index = built }, refl)

  -- The index that is built on the first use of a well-formed mesh over points on which == is
  -- identity, as those without a negative zero, lists each face once at each of its vertices and
  -- nothing else, like one that was kept up by Add and Remove; the faces stay as they are.
  pub get_vertex_to_face_lem :
      (m : Mesh C)
      → IsMesh tri m
      → Indexes tri m.faces (get_vertex_to_face tri m).0
        × IsMesh tri (get_vertex_to_face tri m).1
        × ((get_vertex_to_face tri m).1.faces ≡ m.faces)
  get_vertex_to_face_lem m = get_fields m.faces m.vertex_to_face

  pub add_list_lem :
      (fs : List Pointer) (m : Mesh C)
      → IsMesh tri m
      → IsMesh tri (add_list tri m fs)
        × ((g : Pointer) → contains (add_list tri m fs) g ≡ (contains m g || ltb 0 (count g fs)))
  unfolding add_list
  add_list_lem [] m d = (d, λ g. ground arith)
  add_list_lem (f ∷ fs) m d =
      let one = add_lem tri m f d in
      let rest = add_list_lem fs (add tri m f) one.0 in
      (rest.0, λ g. ground (arith, rest.1 g, one.1 g))

  in_slice :
      (m : Mesh C)
      → IsMesh tri m
      → (g : Pointer) → contains m g ≡ ltb 0 (count g (triangle_slice m))
  unfolding contains triangle_slice
  in_slice m d g = ground (arith, count-keys g m.faces d.distinct)

  contains-new_mesh : (g : Pointer) → contains (new_mesh {C = C}) g ≡ false
  unfolding contains new_mesh GoMap.lookup
  contains-new_mesh g = refl

  -- AddMesh on two well-formed meshes over points on which == is identity, as those without a
  -- negative zero, gives the union of their faces, and Copy a mesh with the same faces; both
  -- results are well formed.
  pub add_mesh_lem :
      (m m1 : Mesh C)
      → IsMesh tri m
      → IsMesh tri m1
      → IsMesh tri (add_mesh tri m m1)
        × IsMesh tri (copy tri m1)
        × ((g : Pointer)
            → (contains (add_mesh tri m m1) g ≡ (contains m g || contains m1 g))
              × (contains (copy tri m1) g ≡ contains m1 g))
  unfolding add_mesh copy
  add_mesh_lem m m1 d d1 =
      let both = add_list_lem (triangle_slice m1) m d in
      let alone = add_list_lem (triangle_slice m1) new_mesh (new_mesh-IsMesh tri) in
      (
        both.0,
        alone.0,
        λ g. (
          both.1 g ∙ ap (λ b. contains m g || b) (sym (in_slice m1 d1 g)),
          alone.1 g
              ∙ ap (λ b. b || ltb 0 (count g (triangle_slice m1))) (contains-new_mesh g)
              ∙ sym (in_slice m1 d1 g),
        ),
      )
