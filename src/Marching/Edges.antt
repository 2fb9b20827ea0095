-- ===== src/Marching/Edges.antt =====
-- model3d/mc.go: the edges of a cube that the surface of a case crosses.
use model3d.Base.{
  ℕ, ◌<◌, ◌≡◌, refl, Bool, true, not, List, [], ◌∷◌, arith, ltb, if◌then◌else◌, nat_eq, get_or,
  count, all_below, all_below_sound,
}
use model3d.Marching.{McCorner, McIntersections, inside}
use model3d.Marching.Table.{mc_lookup_table}
use model3d.Marching.Faces.{case_vertices, midpoint}

-- the twelve edges of a cube
abbrev pub cube_edges : List (McCorner × McCorner)
cube_edges =
    (0, 1)
    ∷ (2, 3)
    ∷ (4, 5)
    ∷ (6, 7)
    ∷ (0, 2)
    ∷ (1, 3)
    ∷ (4, 6)
    ∷ (5, 7)
    ∷ (0, 4)
    ∷ (1, 5)
    ∷ (2, 6)
    ∷ (3, 7)
    ∷ []

abbrev pub cube_edge : ℕ → McCorner × McCorner
cube_edge i = get_or cube_edges i (0, 0)

abbrev pub is_vertex : McIntersections → McCorner × McCorner → Bool
is_vertex a (c, d) = ltb 0 (count (midpoint c d) (case_vertices a))

abbrev pub crosses : McIntersections → McCorner × McCorner → Bool
crosses a (c, d) = if inside a c then not (inside a d) else inside a d

abbrev bool_beq : Bool → Bool → Bool
bool_beq b c = if b then c else not c

bool_eq : (b c : Bool) → bool_beq b c ≡ true → b ≡ c
bool_eq b c h = ground arith

crossing_check :
    all_below 256
      (λ a. all_below 12 (λ i. bool_beq (is_vertex a (cube_edge i)) (crosses a (cube_edge i))))
    ≡ true
unfolding all_below case_vertices inside mc_lookup_table
crossing_check = refl

-- The triangles of a case have a vertex on an edge of the cube exactly if one end of the edge is
-- inside of the solid and the other is not.
pub vertex_iff_crosses :
    (a i : ℕ) → a < 256 → i < 12 → is_vertex a (cube_edge i) ≡ crosses a (cube_edge i)
vertex_iff_crosses a i ha hi =
    bool_eq _ _ (all_below_sound 12 _ i (all_below_sound 256 _ a crossing_check ha) hi)
