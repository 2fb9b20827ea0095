-- ===== src/Marching/Surface.antt =====
-- model3d/mc.go: the inner loops of MarchingCubesFilter, from the samples of a block to the triangles
-- of its cells.
use model3d.Base.{
  ℕ, zero, suc, ◌+◌, ◌<◌, ◌≡◌, sym, ◌∙◌, Bool, false, some, List, [], ◌∷◌, map, arith, nat_eq,
  get_or,
}
use model3d.Marching.{McCorner, McIntersections, inside}
use model3d.Marching.Blocks.{Int3, McBlock}
use model3d.Marching.Cache.{populate, get_cube}
use model3d.Marching.Cache.Bits.{cube_bits, bits-lt, bits-inside}
use model3d.Marching.Cache.Samples.{IsCell, get_cube-eq}
use model3d.Marching.Faces.{face_corners, far_corners, face_count, shared_face_closed}

-- the next cell on an axis
abbrev pub next_cell : ℕ → Int3 → Int3
next_cell zero p = record p { x = p.x + 1 }
next_cell (suc zero) p = record p { y = p.y + 1 }
next_cell axis p = record p { z = p.z + 1 }

module _ (contains : ℕ → ℕ → ℕ → Bool) where
  -- what the solid says of the eight corners of a cell, in the order of the corners
  abbrev corner_samples : ℕ → ℕ → ℕ → List Bool
  corner_samples x y z =
      contains x y z
      ∷ contains (x + 1) y z
      ∷ contains x (y + 1) z
      ∷ contains (x + 1) (y + 1) z
      ∷ contains x y (z + 1)
      ∷ contains (x + 1) y (z + 1)
      ∷ contains x (y + 1) (z + 1)
      ∷ contains (x + 1) (y + 1) (z + 1)
      ∷ []

  abbrev square_of : ℕ → ℕ → ℕ → List Bool
  square_of x y z =
      contains x y z ∷ contains (x + 1) y z ∷ contains x (y + 1) z ∷ contains (x + 1) (y + 1) z ∷ []

  case_of : ℕ → ℕ → ℕ → McIntersections
  case_of x y z = cube_bits (square_of x y z) (square_of x y (z + 1))

  case_of-lt : (x y z : ℕ) → case_of x y z < 256
  unfolding case_of
  case_of-lt x y z = bits-lt _ _ _ _ _ _ _ _

  inside-case_of :
      (x y z c : ℕ) → c < 8 → inside (case_of x y z) c ≡ get_or (corner_samples x y z) c false
  unfolding case_of
  inside-case_of x y z c h = bits-inside _ _ _ _ _ _ _ _ c h

  case_at : Int3 → McIntersections
  case_at p = case_of p.x p.y p.z

  abbrev samples_at : ℕ → ℕ → ℕ → List McCorner → List Bool
  samples_at x y z = map (λ c. get_or (corner_samples x y z) c false)

  four_corners :
      (x y z c0 c1 c2 c3 : ℕ)
      → (c0 < 8) × (c1 < 8) × (c2 < 8) × (c3 < 8)
      → map (inside (case_of x y z)) (c0 ∷ c1 ∷ c2 ∷ c3 ∷ [])
        ≡ samples_at x y z (c0 ∷ c1 ∷ c2 ∷ c3 ∷ [])
  four_corners x y z c0 c1 c2 c3 h = cc (
    inside-case_of x y z c0 h.0,
    inside-case_of x y z c1 h.1,
    inside-case_of x y z c2 h.2,
    inside-case_of x y z c3 h.3,
  )

  -- the far corners of a cell are the near corners of the next one
  shared_corners :
      (axis : ℕ) (p : Int3)
      → axis < 3
      → map (inside (case_at p)) (far_corners axis)
        ≡ map (inside (case_at (next_cell axis p))) (face_corners axis)
  unfolding case_at
  shared_corners zero p h =
      four_corners p.x p.y p.z 1 3 5 7 (omega arith)
      ∙ sym (four_corners (p.x + 1) p.y p.z 0 2 4 6 (omega arith))
  shared_corners (suc zero) p h =
      four_corners p.x p.y p.z 2 3 6 7 (omega arith)
      ∙ sym (four_corners p.x (p.y + 1) p.z 0 1 4 5 (omega arith))
  shared_corners (suc (suc zero)) p h =
      four_corners p.x p.y p.z 4 5 6 7 (omega arith)
      ∙ sym (four_corners p.x p.y (p.z + 1) 0 1 2 3 (omega arith))
  shared_corners axis p h = absurd (omega arith)

-- what GetCube reads at a cell and at the next one on the axis, and that the triangles of the two
-- cells close up on the face between them
pub record FitsNext (m : McBlock) (values : List Bool) (axis : ℕ) (p : Int3) (i j : ℕ)
    : Type 0 where
  pub here : McIntersections
  pub next : McIntersections
  pub read_here : get_cube m values p.x p.y p.z ≡ some here
  pub read_next :
      get_cube m values (next_cell axis p).x (next_cell axis p).y (next_cell axis p).z ≡ some next
  pub closed :
      face_count here (far_corners axis) i j + face_count next (face_corners axis) i j
      ≡ face_count here (far_corners axis) j i + face_count next (face_corners axis) j i

-- When Populate has sampled a solid over a block without a panic, GetCube reads a case at any cell
-- of it and at the next cell on an axis, and the triangles that the lookup table draws for the two
-- run along the face between them in opposite directions: for each pair of middles of its edges
-- there are as many sides one way as the other.
pub sampled_cells_fit :
    (contains : ℕ → ℕ → ℕ → Bool) (xs ys zs : ℕ) (m : McBlock) (values : List Bool) (axis i j : ℕ)
    (p : Int3)
    → populate xs ys zs contains m ≡ some values
    → IsCell m p.x p.y p.z
    → IsCell m (next_cell axis p).x (next_cell axis p).y (next_cell axis p).z
    → axis < 3
    → i < 4
    → j < 4
    → FitsNext m values axis p i j
unfolding case_at case_of
sampled_cells_fit contains xs ys zs m values axis i j p filled cell cell' haxis hi hj =
    let q = next_cell axis p in
    record {
      here = case_at contains p;
      next = case_at contains q;
      read_here = get_cube-eq xs ys zs contains m values p.x p.y p.z filled cell;
      read_next = get_cube-eq xs ys zs contains m values q.x q.y q.z filled cell';
      closed =
          shared_face_closed axis i j (case_at contains p) (case_at contains q) haxis hi hj
            (case_of-lt contains p.x p.y p.z) (case_of-lt contains q.x q.y q.z)
            (shared_corners contains axis p haxis);
    }
