-- ===== src/Mesh.antt =====
-- model3d/mesh.go: a mesh as a set of pointers to triangles with a lazily built index from vertices
-- to triangles. A pointer is a number, and `tri` gives the triangle that it points to; no operation
-- here writes through a pointer. The points are of any type with its `==` and its hash. The lock
-- and the atomic value, which only order concurrent readers, are left out: one goroutine runs at a
-- time.
pub mod Index
pub mod Invariant
pub mod Build
pub mod Queries
pub mod Neighbors
mod Tests
use model3d.Base.{
  BEq, eq_beq, ℕ, zero, suc, ◌+◌, ◌-◌, ◌*◌, ◌/◌, ◌%◌, ◌^◌, ◌≤◌, ◌<◌, ◌≡◌, refl, sym, ap, ◌∙◌, ◌≢◌,
  ◌↔◌, ◌⊎◌, inl, inr, Bool, true, false, not, ◌&&◌, ◌||◌, Option, none, some, List, [], ◌∷◌, ◌++◌,
  map, arith, ltb, leb, nat_beq, if◌then◌else◌, Eq, ◌==◌, Zero, nat_beq_iff, nat_eq, Bool-cases,
  Option-cases, ==_refl, is_some, length, get_elem?, get_or, get_elem?-append_left,
  get_elem?-append_right, set, replicate, take, drop, length-append, length-set, length-replicate,
  to_nat, count, count-append, or_else, or_else-none, all_below, all_of, all_below_sound,
  all_of_sound,
}
use model3d.GoMap
use model3d.GoMap.{GoMap}
use model3d.Coords.{Coord3D, coord_eq}
use model3d.FastMap
use model3d.FastMap.{FastMap, Hash, value_or_zero}

-- `[3]Coord3D`
pub record Triangle (C : Type 0) : Type 0 where
  pub a : C
  pub b : C
  pub c : C

abbrev pub Pointer : Type 0
Pointer = ℕ

abbrev pub VertexIndex : Type 0 → Type 0
VertexIndex C = FastMap C (List Pointer)

instance abbrev pub no_pointers : Zero (List Pointer)
no_pointers = record { zero_value = [] }

pub record Mesh (C : Type 0) : Type 0 where
  pub faces : GoMap Pointer Bool
  pub vertex_to_face : Option (VertexIndex C)

-- the points that the callback of uniqueVertices gets
unfoldable pub unique_vertices : {C : Type 0} ⦃b : BEq C⦄ → Triangle C → List C
unique_vertices ⦃b⦄ t =
    let third = if b.same t.c t.a || b.same t.c t.b then [] else t.c ∷ [] in
    t.a ∷ (if b.same t.b t.a then third else t.b ∷ third)

-- `essentials.UnorderedDelete`, which takes out the entry at an index and keeps no order
pub record UnorderedDelete : Type 0 where
  pub delete_at : List Pointer → ℕ → List Pointer
  pub count-delete_at :
      (xs : List Pointer) (i : ℕ) (x y : Pointer)
      → get_elem? xs i ≡ some x
      → count y (delete_at xs i) + to_nat (x == y) ≡ count y xs

unfoldable pub new_mesh : {C : Type 0} → Mesh C
new_mesh = record { faces = []; vertex_to_face = none }

-- `m.faces[f]` and the second result of `m.faces[f]`
unfoldable pub face_flag : {C : Type 0} → Mesh C → Pointer → Bool
face_flag m f = elim (GoMap.lookup f m.faces) [ some b ↦ b | none ↦ false ]

unfoldable pub contains : {C : Type 0} → Mesh C → Pointer → Bool
contains m f = is_some (GoMap.lookup f m.faces)

unfoldable pub num_triangles : {C : Type 0} → Mesh C → ℕ
num_triangles m = length m.faces

unfoldable pub triangle_slice : {C : Type 0} → Mesh C → List Pointer
triangle_slice m = map (λ entry. entry.0) m.faces

-- the index of the first entry that is `f`, counting from `i`
unfoldable pub index_of : Pointer → List Pointer → ℕ → Option ℕ
index_of f [] i = none
index_of f (g ∷ gs) i = if g == f then some i else index_of f gs (i + 1)

-- `counts[t1]`, which is 0 for a missing key
unfoldable pub counted : Pointer → GoMap Pointer ℕ → ℕ
counted t counts = elim (GoMap.lookup t counts) [ some n ↦ n | none ↦ 0 ]

-- the loop of Neighbors over the counts
unfoldable pub many_times : GoMap Pointer ℕ → List Pointer
many_times [] = []
many_times ((t, n) ∷ counts) = let rest = many_times counts in if ltb 1 n then t ∷ rest else rest

module _ {C : Type 0} ⦃b : BEq C⦄ (tri : Pointer → Triangle C) where
  -- `p == t[0] || p == t[1] || p == t[2]`
  unfoldable pub is_vertex : C → Pointer → Bool
  is_vertex p f = b.same p (tri f).a || b.same p (tri f).b || b.same p (tri f).c

  unfoldable pub all_vertices : List C → Pointer → Bool
  all_vertices [] f = true
  all_vertices (p ∷ ps) f = let rest = all_vertices ps f in if is_vertex p f then rest else false

  unfoldable pub find_loop : List C → List Pointer → List Pointer
  find_loop ps [] = []
  find_loop ps (f ∷ fs) = let rest = find_loop ps fs in if all_vertices ps f then f ∷ rest else rest

module _ {C : Type 0} ⦃b : BEq C⦄ ⦃h : Hash C⦄ where
  unfoldable pub append_face : VertexIndex C → Pointer → C → VertexIndex C
  append_face v2f f p = (FastMap.modify (λ s. s ++ f ∷ []) v2f p).1

  unfoldable pub append_all : List C → Pointer → VertexIndex C → VertexIndex C
  append_all [] f v2f = v2f
  append_all (p ∷ ps) f v2f = append_all ps f (append_face v2f f p)

  unfoldable pub store_or_delete : VertexIndex C → C → List Pointer → VertexIndex C
  store_or_delete v2f p s =
      if nat_beq (length s) 0 then FastMap.delete v2f p else FastMap.store v2f p s

  module _ (tri : Pointer → Triangle C) where
    unfoldable pub add : Mesh C → Pointer → Mesh C
    add m f = elim m.vertex_to_face [
      | none ↦ record m { faces = GoMap.insert f true m.faces }
      | some v2f ↦ if face_flag m f then m else record {
        faces = GoMap.insert f true m.faces;
        vertex_to_face = some (append_all (unique_vertices (tri f)) f v2f);
      }
    ]

    -- a loop of Add over pointers
    unfoldable pub add_list : Mesh C → List Pointer → Mesh C
    add_list m [] = m
    add_list m (f ∷ fs) = add_list (add m f) fs

    unfoldable pub new_mesh_triangles : List Pointer → Mesh C
    new_mesh_triangles faces = add_list new_mesh faces

    -- Iterate of `m1`, which Add on another mesh leaves alone
    unfoldable pub add_mesh : Mesh C → Mesh C → Mesh C
    add_mesh m m1 = add_list m (triangle_slice m1)

    unfoldable pub copy : Mesh C → Mesh C
    copy m = add_mesh new_mesh m

    -- the loop over the faces in getVertexToFace
    unfoldable pub index_faces : GoMap Pointer Bool → VertexIndex C → VertexIndex C
    index_faces [] v2f = v2f
    index_faces ((f, _) ∷ fs) v2f = index_faces fs (append_all (unique_vertices (tri f)) f v2f)

    -- the index, and the mesh that keeps it
    unfoldable pub get_vertex_to_face : Mesh C → VertexIndex C × Mesh C
    get_vertex_to_face m = elim m.vertex_to_face [
      | some v2f ↦ (v2f, m)
      | none ↦
          let v2f = index_faces m.faces (FastMap.new C (List Pointer)) in
          (v2f, record m { vertex_to_face = some v2f })
    ]

    -- `m.Find(p, ps...)`: with one point the loop keeps every face
    unfoldable pub find : Mesh C → C → List C → List Pointer
    unfolding find_loop all_vertices is_vertex
    find m p ps = find_loop tri ps (FastMap.value (get_vertex_to_face m).0 p)

    unfoldable pub vertex_slice : Mesh C → List C
    vertex_slice m = FastMap.key_range (λ p ps. (true, ps ++ p ∷ [])) (get_vertex_to_face m).0 []

    -- `counts[t1]++` for the faces at one point, but for the triangle itself
    unfoldable pub add_counts : Pointer → List Pointer → GoMap Pointer ℕ → GoMap Pointer ℕ
    unfolding counted
    add_counts t [] counts = counts
    add_counts t (t1 ∷ ts) counts =
        add_counts t ts (if t1 == t then counts else GoMap.insert t1 (counted t1 counts + 1) counts)

    unfoldable pub neighbors_with_counts : Mesh C → Pointer → GoMap Pointer ℕ
    neighbors_with_counts m t =
        let v2f = (get_vertex_to_face m).0 in
        let at = λ (p : C). add_counts t (FastMap.value v2f p) in
        at (tri t).c (at (tri t).b (at (tri t).a []))

    unfoldable pub neighbors : Mesh C → Pointer → List Pointer
    unfolding many_times
    neighbors m f = many_times (neighbors_with_counts m f)

  module _ (tri : Pointer → Triangle C) (u : UnorderedDelete) where
    unfoldable pub remove_face_from_vertex : VertexIndex C → Pointer → C → VertexIndex C
    unfolding index_of store_or_delete
    remove_face_from_vertex v2f f p =
        let s = FastMap.value v2f p in
        store_or_delete v2f p (elim (index_of f s 0) [ some i ↦ u.delete_at s i | none ↦ s ])

    unfoldable pub remove_from_all : List C → Pointer → VertexIndex C → VertexIndex C
    remove_from_all [] f v2f = v2f
    remove_from_all (p ∷ ps) f v2f = remove_from_all ps f (remove_face_from_vertex v2f f p)

    unfoldable pub remove : Mesh C → Pointer → Mesh C
    remove m f =
        if face_flag m f
        then record {
          faces = GoMap.delete f m.faces;
          vertex_to_face = elim m.vertex_to_face [
            | none ↦ none
            | some v2f ↦ some (remove_from_all (unique_vertices (tri f)) f v2f)
          ];
        }
        else m
