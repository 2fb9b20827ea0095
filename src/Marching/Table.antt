-- ===== src/Marching/Table.antt =====
-- model3d/mc.go: the table of base cases and the lookup table that is made from it.
use model3d.Base.{
  eq_beq, ℕ, zero, suc, ◌+◌, none, some, List, [], ◌∷◌, map, if◌then◌else◌, nat_eq, is_some,
}
use model3d.GoMap
use model3d.GoMap.{GoMap}
use model3d.Marching.{
  McIntersections, McTriangle, McRotation, all_mc_rotations, apply_intersections, apply_triangle,
  new_mc_intersections,
}

-- the Go map, in the order of its text
unfoldable pub base_triangle_table : List (McIntersections × List McTriangle)
unfolding new_mc_intersections
base_triangle_table =
    (new_mc_intersections ([]), [])
    ∷ (new_mc_intersections (0 ∷ []), (0 ∷ 1 ∷ 0 ∷ 2 ∷ 0 ∷ 4 ∷ []) ∷ [])
    ∷ (
      new_mc_intersections (0 ∷ 1 ∷ []),
      (0 ∷ 4 ∷ 1 ∷ 5 ∷ 0 ∷ 2 ∷ []) ∷ (1 ∷ 5 ∷ 1 ∷ 3 ∷ 0 ∷ 2 ∷ []) ∷ [],
    )
    ∷ (
      new_mc_intersections (0 ∷ 5 ∷ []),
      (0 ∷ 1 ∷ 0 ∷ 2 ∷ 0 ∷ 4 ∷ []) ∷ (5 ∷ 7 ∷ 1 ∷ 5 ∷ 4 ∷ 5 ∷ []) ∷ [],
    )
    ∷ (
      new_mc_intersections (0 ∷ 7 ∷ []),
      (0 ∷ 1 ∷ 0 ∷ 2 ∷ 0 ∷ 4 ∷ []) ∷ (6 ∷ 7 ∷ 3 ∷ 7 ∷ 5 ∷ 7 ∷ []) ∷ [],
    )
    ∷ (
      new_mc_intersections (1 ∷ 2 ∷ 3 ∷ []),
      (0 ∷ 1 ∷ 1 ∷ 5 ∷ 0 ∷ 2 ∷ [])
          ∷ (0 ∷ 2 ∷ 1 ∷ 5 ∷ 2 ∷ 6 ∷ [])
          ∷ (2 ∷ 6 ∷ 1 ∷ 5 ∷ 3 ∷ 7 ∷ [])
          ∷ [],
    )
    ∷ (
      new_mc_intersections (0 ∷ 1 ∷ 7 ∷ []),
      (0 ∷ 4 ∷ 1 ∷ 5 ∷ 0 ∷ 2 ∷ [])
          ∷ (1 ∷ 5 ∷ 1 ∷ 3 ∷ 0 ∷ 2 ∷ [])
          ∷ (6 ∷ 7 ∷ 3 ∷ 7 ∷ 5 ∷ 7 ∷ [])
          ∷ [],
    )
    ∷ (
      new_mc_intersections (1 ∷ 4 ∷ 7 ∷ []),
      (4 ∷ 6 ∷ 4 ∷ 5 ∷ 0 ∷ 4 ∷ [])
          ∷ (1 ∷ 5 ∷ 1 ∷ 3 ∷ 0 ∷ 1 ∷ [])
          ∷ (6 ∷ 7 ∷ 3 ∷ 7 ∷ 5 ∷ 7 ∷ [])
          ∷ [],
    )
    ∷ (
      new_mc_intersections (0 ∷ 1 ∷ 2 ∷ 3 ∷ []),
      (0 ∷ 4 ∷ 1 ∷ 5 ∷ 3 ∷ 7 ∷ []) ∷ (0 ∷ 4 ∷ 3 ∷ 7 ∷ 2 ∷ 6 ∷ []) ∷ [],
    )
    ∷ (
      new_mc_intersections (0 ∷ 2 ∷ 3 ∷ 6 ∷ []),
      (0 ∷ 1 ∷ 4 ∷ 6 ∷ 0 ∷ 4 ∷ [])
          ∷ (0 ∷ 1 ∷ 6 ∷ 7 ∷ 4 ∷ 6 ∷ [])
          ∷ (0 ∷ 1 ∷ 1 ∷ 3 ∷ 6 ∷ 7 ∷ [])
          ∷ (1 ∷ 3 ∷ 3 ∷ 7 ∷ 6 ∷ 7 ∷ [])
          ∷ [],
    )
    ∷ (
      new_mc_intersections (1 ∷ 2 ∷ 5 ∷ 6 ∷ []),
      (0 ∷ 2 ∷ 2 ∷ 3 ∷ 6 ∷ 7 ∷ [])
          ∷ (0 ∷ 2 ∷ 6 ∷ 7 ∷ 4 ∷ 6 ∷ [])
          ∷ (0 ∷ 1 ∷ 4 ∷ 5 ∷ 5 ∷ 7 ∷ [])
          ∷ (5 ∷ 7 ∷ 1 ∷ 3 ∷ 0 ∷ 1 ∷ [])
          ∷ [],
    )
    ∷ (
      new_mc_intersections (0 ∷ 2 ∷ 3 ∷ 7 ∷ []),
      (0 ∷ 4 ∷ 0 ∷ 1 ∷ 2 ∷ 6 ∷ [])
          ∷ (0 ∷ 1 ∷ 5 ∷ 7 ∷ 2 ∷ 6 ∷ [])
          ∷ (2 ∷ 6 ∷ 5 ∷ 7 ∷ 6 ∷ 7 ∷ [])
          ∷ (0 ∷ 1 ∷ 1 ∷ 3 ∷ 5 ∷ 7 ∷ [])
          ∷ [],
    )
    ∷ (
      new_mc_intersections (1 ∷ 2 ∷ 3 ∷ 4 ∷ []),
      (0 ∷ 1 ∷ 1 ∷ 5 ∷ 0 ∷ 2 ∷ [])
          ∷ (0 ∷ 2 ∷ 1 ∷ 5 ∷ 2 ∷ 6 ∷ [])
          ∷ (2 ∷ 6 ∷ 1 ∷ 5 ∷ 3 ∷ 7 ∷ [])
          ∷ (4 ∷ 5 ∷ 0 ∷ 4 ∷ 4 ∷ 6 ∷ [])
          ∷ [],
    )
    ∷ (
      new_mc_intersections (1 ∷ 2 ∷ 4 ∷ 7 ∷ []),
      (0 ∷ 1 ∷ 1 ∷ 5 ∷ 1 ∷ 3 ∷ [])
          ∷ (0 ∷ 2 ∷ 2 ∷ 3 ∷ 2 ∷ 6 ∷ [])
          ∷ (4 ∷ 5 ∷ 0 ∷ 4 ∷ 4 ∷ 6 ∷ [])
          ∷ (5 ∷ 7 ∷ 6 ∷ 7 ∷ 3 ∷ 7 ∷ [])
          ∷ [],
    )
    ∷ (
      new_mc_intersections (1 ∷ 2 ∷ 3 ∷ 6 ∷ []),
      (0 ∷ 2 ∷ 0 ∷ 1 ∷ 4 ∷ 6 ∷ [])
          ∷ (0 ∷ 1 ∷ 3 ∷ 7 ∷ 4 ∷ 6 ∷ [])
          ∷ (0 ∷ 1 ∷ 1 ∷ 5 ∷ 3 ∷ 7 ∷ [])
          ∷ (4 ∷ 6 ∷ 3 ∷ 7 ∷ 6 ∷ 7 ∷ [])
          ∷ [],
    )
    ∷ (
      new_mc_intersections (0 ∷ 2 ∷ 3 ∷ 5 ∷ 6 ∷ []),
      (0 ∷ 1 ∷ 4 ∷ 6 ∷ 0 ∷ 4 ∷ [])
          ∷ (0 ∷ 1 ∷ 6 ∷ 7 ∷ 4 ∷ 6 ∷ [])
          ∷ (0 ∷ 1 ∷ 1 ∷ 3 ∷ 6 ∷ 7 ∷ [])
          ∷ (1 ∷ 3 ∷ 3 ∷ 7 ∷ 6 ∷ 7 ∷ [])
          ∷ (5 ∷ 7 ∷ 1 ∷ 5 ∷ 4 ∷ 5 ∷ [])
          ∷ [],
    )
    ∷ (
      new_mc_intersections (2 ∷ 3 ∷ 4 ∷ 5 ∷ 6 ∷ []),
      (5 ∷ 7 ∷ 1 ∷ 5 ∷ 0 ∷ 4 ∷ [])
          ∷ (0 ∷ 4 ∷ 6 ∷ 7 ∷ 5 ∷ 7 ∷ [])
          ∷ (0 ∷ 2 ∷ 6 ∷ 7 ∷ 0 ∷ 4 ∷ [])
          ∷ (0 ∷ 2 ∷ 3 ∷ 7 ∷ 6 ∷ 7 ∷ [])
          ∷ (0 ∷ 2 ∷ 1 ∷ 3 ∷ 3 ∷ 7 ∷ [])
          ∷ [],
    )
    ∷ (
      new_mc_intersections (0 ∷ 4 ∷ 5 ∷ 6 ∷ 7 ∷ []),
      (1 ∷ 5 ∷ 0 ∷ 1 ∷ 0 ∷ 2 ∷ [])
          ∷ (0 ∷ 2 ∷ 2 ∷ 6 ∷ 1 ∷ 5 ∷ [])
          ∷ (1 ∷ 5 ∷ 2 ∷ 6 ∷ 3 ∷ 7 ∷ [])
          ∷ [],
    )
    ∷ (
      new_mc_intersections (1 ∷ 2 ∷ 3 ∷ 4 ∷ 5 ∷ 6 ∷ []),
      (0 ∷ 2 ∷ 0 ∷ 1 ∷ 0 ∷ 4 ∷ []) ∷ (3 ∷ 7 ∷ 6 ∷ 7 ∷ 5 ∷ 7 ∷ []) ∷ [],
    )
    ∷ (
      new_mc_intersections (1 ∷ 2 ∷ 3 ∷ 4 ∷ 6 ∷ 7 ∷ []),
      (0 ∷ 2 ∷ 4 ∷ 5 ∷ 0 ∷ 4 ∷ [])
          ∷ (0 ∷ 2 ∷ 5 ∷ 7 ∷ 4 ∷ 5 ∷ [])
          ∷ (0 ∷ 2 ∷ 1 ∷ 5 ∷ 5 ∷ 7 ∷ [])
          ∷ (0 ∷ 1 ∷ 1 ∷ 5 ∷ 0 ∷ 2 ∷ [])
          ∷ [],
    )
    ∷ (
      new_mc_intersections (2 ∷ 3 ∷ 4 ∷ 5 ∷ 6 ∷ 7 ∷ []),
      (1 ∷ 5 ∷ 0 ∷ 4 ∷ 0 ∷ 2 ∷ []) ∷ (1 ∷ 3 ∷ 1 ∷ 5 ∷ 0 ∷ 2 ∷ []) ∷ [],
    )
    ∷ (new_mc_intersections (1 ∷ 2 ∷ 3 ∷ 4 ∷ 5 ∷ 6 ∷ 7 ∷ []), (0 ∷ 2 ∷ 0 ∷ 1 ∷ 0 ∷ 4 ∷ []) ∷ [])
    ∷ (new_mc_intersections (0 ∷ 1 ∷ 2 ∷ 3 ∷ 4 ∷ 5 ∷ 6 ∷ 7 ∷ []), [])
    ∷ []

-- the loop over the rotations for one base case
unfoldable pub add_rotations :
    McIntersections
    → List McTriangle
    → List McRotation
    → GoMap McIntersections (List McTriangle)
    → GoMap McIntersections (List McTriangle)
add_rotations ints tris [] result = result
add_rotations ints tris (rot ∷ rots) result =
    let new_ints = apply_intersections rot ints in
    let extended = GoMap.insert new_ints (map (apply_triangle rot) tris) result in
    add_rotations ints tris rots
      (if is_some (GoMap.lookup new_ints result) then result else extended)

unfoldable pub add_bases :
    List (McIntersections × List McTriangle)
    → List McRotation
    → GoMap McIntersections (List McTriangle)
    → GoMap McIntersections (List McTriangle)
unfolding add_rotations
add_bases [] rots result = result
add_bases ((ints, tris) ∷ bases) rots result =
    add_bases bases rots (add_rotations ints tris rots result)

-- `resultArray`, whose missing rows are nil
row : GoMap McIntersections (List McTriangle) → ℕ → List McTriangle
row result i = elim (GoMap.lookup i result) [ some tris ↦ tris | none ↦ [] ]

rows : ℕ → ℕ → GoMap McIntersections (List McTriangle) → List (List McTriangle)
rows zero i result = []
rows (suc n) i result = row result i ∷ rows n (i + 1) result

unfoldable pub mc_lookup_table : List (List McTriangle)
unfolding all_mc_rotations apply_intersections apply_triangle base_triangle_table add_bases row rows
    GoMap.lookup GoMap.insert
mc_lookup_table = elim all_mc_rotations [
  | some rots ↦ rows 256 0 (add_bases base_triangle_table rots [])
  | none ↦ []
]
