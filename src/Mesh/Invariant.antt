-- ===== src/Mesh/Invariant.antt =====
-- model3d/mesh.go: the agreement of the faces and the index, under Add and Remove.
use model3d.Base.{
  Eq, eq_beq, ◌≤◌, ◌≡◌, refl, ◌≢◌, ◌⊎◌, inl, inr, Bool, true, false, ◌||◌, Option, none, some,
  arith, if◌then◌else◌, ◌==◌, nat_eq, is_some, to_nat, count,
}
use model3d.GoMap
use model3d.GoMap.{GoMap, IsDistinct, keys, count-keys}
use model3d.Coords.{coord_eq}
use model3d.FastMap.{Hash}
use model3d.Mesh.{
  Mesh, Pointer, Triangle, UnorderedDelete, VertexIndex, append_all, face_flag, add, contains,
  new_mesh, remove, no_pointers, remove_from_all, is_vertex, unique_vertices,
}
use model3d.Mesh.Index.{
  IsTidy, listed, append_all-IsTidy, listed-append_all, remove_all-IsTidy, listed-remove_all,
  count-unique_vertices,
}

module _ {C : Type 0} ⦃e : Eq C⦄ ⦃h : Hash C⦄ (tri : Pointer → Triangle C) where
  -- an index lists a face once at each of its vertices, and nothing else
  pub record Indexes (faces : GoMap Pointer Bool) (v2f : VertexIndex C) : Type 0 where
    pub tidy : IsTidy v2f
    pub lists :
        (p : C) (g : Pointer)
        → listed v2f p g
          ≡ (if is_some (GoMap.lookup g faces) then to_nat (is_vertex tri p g) else 0)

  abbrev pub HasIndex : GoMap Pointer Bool → Option (VertexIndex C) → Type 0
  HasIndex faces none = Unit
  HasIndex faces (some v2f) = Indexes faces v2f

  -- a face is in the map once, with the value `true`, and an index that is there is right
  pub record IsMesh (m : Mesh C) : Type 0 where
    pub distinct : IsDistinct m.faces
    pub flagged : (f : Pointer) → GoMap.lookup f m.faces ≢ some false
    pub index : HasIndex m.faces m.vertex_to_face

  pub new_mesh-IsMesh : IsMesh new_mesh
  unfolding new_mesh GoMap.lookup
  new_mesh-IsMesh = record { distinct = tt; flagged = λ f e. cc; index = tt }

  insert-Indexes :
      (faces : GoMap Pointer Bool) (v2f : VertexIndex C) (f : Pointer)
      → GoMap.lookup f faces ≡ none
      → Indexes faces v2f
      → Indexes (GoMap.insert f true faces) (append_all (unique_vertices (tri f)) f v2f)
  insert-Indexes faces v2f f new d = record {
    tidy = append_all-IsTidy (unique_vertices (tri f)) f v2f d.tidy;
    lists = λ p g. ground (
      arith,
      listed-append_all (unique_vertices (tri f)) f g v2f p d.tidy,
      count-unique_vertices tri p f,
      GoMap.lookup-insert g f true faces,
      d.lists p g,
    );
  }

  lookup-of_flag : (o : Option Bool) → o ≢ some false → (o ≡ none) ⊎ (o ≡ some true)
  lookup-of_flag none n = inl refl
  lookup-of_flag (some true) n = inr refl
  lookup-of_flag (some false) n = absurd (n refl)

  flag_true : (m : Mesh C) (f : Pointer) → GoMap.lookup f m.faces ≡ some true → face_flag m f ≡ true
  unfolding face_flag
  flag_true m f e = rw (e, face_flag)

  flag_false : (m : Mesh C) (f : Pointer) → GoMap.lookup f m.faces ≡ none → face_flag m f ≡ false
  unfolding face_flag
  flag_false m f e = rw (e, face_flag)

  add_fields :
      (faces : GoMap Pointer Bool) (o : Option (VertexIndex C)) (f : Pointer)
      → let m : Mesh C = record { faces = faces; vertex_to_face = o } in
        IsMesh m
        → IsMesh (add tri m f)
          × ((g : Pointer) → contains (add tri m f) g ≡ ((f == g) || contains m g))
  unfolding add contains
  add_fields faces none f d = (
    record {
      distinct = GoMap.insert-IsDistinct f true faces d.distinct;
      flagged = λ g e. ground (arith, GoMap.lookup-insert g f true faces, d.flagged g);
      index = tt;
    },
    λ g. ground (arith, GoMap.lookup-insert g f true faces),
  )
  add_fields faces (some v2f) f d = elim (lookup-of_flag (GoMap.lookup f faces) (d.flagged f)) [
    | inr old ↦
        rw (flag_true (record { faces = faces; vertex_to_face = some v2f }) f old)
          (d, λ g. ground (arith, old))
    | inl new ↦ rw (flag_false (record { faces = faces; vertex_to_face = some v2f }) f new) (
      record {
        distinct = GoMap.insert-IsDistinct f true faces d.distinct;
        flagged = λ g e. ground (arith, GoMap.lookup-insert g f true faces, d.flagged g);
        index = insert-Indexes faces v2f f new d.index;
      },
      λ g. ground (arith, GoMap.lookup-insert g f true faces),
    )
  ]

  -- Add on a well-formed mesh over points on which == is identity, as those without a negative
  -- zero, keeps the faces and the index in agreement, whether the index is there or not, and adds
  -- exactly the given face to those that Contains finds.
  pub add_lem :
      (m : Mesh C) (f : Pointer)
      → IsMesh m
      → IsMesh (add tri m f)
        × ((g : Pointer) → contains (add tri m f) g ≡ ((f == g) || contains m g))
  add_lem m = add_fields m.faces m.vertex_to_face

  module _ (u : UnorderedDelete) where
    delete-Indexes :
        (faces : GoMap Pointer Bool) (v2f : VertexIndex C) (f : Pointer)
        → GoMap.lookup f faces ≡ some true
        → Indexes faces v2f
        → Indexes (GoMap.delete f faces) (remove_from_all tri u (unique_vertices (tri f)) f v2f)
    delete-Indexes faces v2f f old d =
        let ps = unique_vertices (tri f) in
        let there : (q : C) → count q ps ≤ listed v2f q f =
          λ q. ground (arith, count-unique_vertices tri q f, d.lists q f, old) in
        record {
          tidy = remove_all-IsTidy tri u ps f v2f d.tidy;
          lists = λ p g. ground (
            arith,
            listed-remove_all tri u ps f g v2f p d.tidy there,
            count-unique_vertices tri p f,
            GoMap.lookup-delete g f faces,
            d.lists p g,
            old,
          );
        }

    delete-HasIndex :
        (faces : GoMap Pointer Bool) (o : Option (VertexIndex C)) (f : Pointer)
        → GoMap.lookup f faces ≡ some true
        → HasIndex faces o
        → HasIndex (GoMap.delete f faces) (elim o [
          | none ↦ none
          | some v2f ↦ some (remove_from_all tri u (unique_vertices (tri f)) f v2f)
        ])
    delete-HasIndex faces none f old d = tt
    delete-HasIndex faces (some v2f) f old d = delete-Indexes faces v2f f old d

    -- Remove on a well-formed mesh over points on which == is identity, as those without a
    -- negative zero, keeps the faces and the index in agreement, also when the face is not in the
    -- mesh, and takes exactly the given face out of those that Contains finds.
    pub remove_lem :
        (m : Mesh C) (f : Pointer)
        → IsMesh m
        → IsMesh (remove tri u m f)
          × ((g : Pointer)
              → contains (remove tri u m f) g ≡ (if f == g then false else contains m g))
    unfolding remove contains
    remove_lem m f d = elim (lookup-of_flag (GoMap.lookup f m.faces) (d.flagged f)) [
      | inl new ↦ rw (flag_false m f new) (d, λ g. ground (arith, new))
      | inr old ↦ rw (flag_true m f old) (
        record {
          distinct = GoMap.delete-IsDistinct f m.faces d.distinct;
          flagged = λ g e. ground (arith, GoMap.lookup-delete g f m.faces, d.flagged g);
          index = delete-HasIndex m.faces m.vertex_to_face f old d.index;
        },
        λ g. ground (arith, GoMap.lookup-delete g f m.faces),
      )
    ]
