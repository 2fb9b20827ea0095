-- ===== src/Marching/Faces.antt =====
-- model3d/mc.go: the triangles of the lookup table within a cube and on its faces. A vertex is the middle of a cube's
-- edge, named by the two corners; a side of a triangle is a directed pair of vertices. Cubes that
-- touch share a face and the four corners on it.
use model3d.Base.{
  ℕ, zero, suc, ◌+◌, ◌*◌, ◌/◌, ◌%◌, ◌^◌, ◌<◌, ◌≡◌, refl, sym, ap, ◌∙◌, Bool, true, false, ◌&&◌,
  ◌||◌, List, [], ◌∷◌, ◌++◌, map, arith, ltb, nat_beq, if◌then◌else◌, nat_beq_iff, nat_eq, get_or,
  count, all_below, all_of, all_below_sound, all_of_sound,
}
use mathlib.Core.Path.{subst₂}
use model3d.Marching.{McCorner, McIntersections, McTriangle, inside}
use model3d.Marching.Table.{mc_lookup_table}

-- the triangles of a case
abbrev pub triangles : McIntersections → List McTriangle
triangles a = get_or mc_lookup_table a []

-- `Mid` does not depend on the order of its points
abbrev pub midpoint : McCorner → McCorner → ℕ
midpoint c d = if ltb c d then c * 8 + d else d * 8 + c

abbrev pub side_of : ℕ → ℕ → ℕ
side_of v w = v * 64 + w

-- the vertices of `mcTriangle.Triangle`
unfoldable pub triangle_vertices : McTriangle → List ℕ
triangle_vertices (a ∷ b ∷ rest) = midpoint a b ∷ triangle_vertices rest
triangle_vertices _ = []

unfoldable pub triangle_sides : List ℕ → List ℕ
triangle_sides (u ∷ v ∷ w ∷ []) = side_of u v ∷ side_of v w ∷ side_of w u ∷ []
triangle_sides _ = []

sides : List McTriangle → List ℕ
sides [] = []
sides (t ∷ ts) = triangle_sides (triangle_vertices t) ++ sides ts

vertices : List McTriangle → List ℕ
vertices [] = []
vertices (t ∷ ts) = triangle_vertices t ++ vertices ts

unfoldable pub case_sides : McIntersections → List ℕ
unfolding sides triangle_sides triangle_vertices
case_sides a = sides (triangles a)

unfoldable pub case_vertices : McIntersections → List ℕ
unfolding vertices triangle_vertices
case_vertices a = vertices (triangles a)

-- the four corners whose coordinate on the axis is 0, and those where it is 1
abbrev pub face_corners : ℕ → List McCorner
face_corners zero = 0 ∷ 2 ∷ 4 ∷ 6 ∷ []
face_corners (suc zero) = 0 ∷ 1 ∷ 4 ∷ 5 ∷ []
face_corners axis = 0 ∷ 1 ∷ 2 ∷ 3 ∷ []

abbrev pub far_corners : ℕ → List McCorner
far_corners axis = map (λ c. c + 2 ^ axis) (face_corners axis)

-- the middles of the four edges of a face with these corners
abbrev pub face_middles : List McCorner → List ℕ
face_middles (a ∷ b ∷ c ∷ d ∷ []) = midpoint a b ∷ midpoint a c ∷ midpoint b d ∷ midpoint c d ∷ []
face_middles _ = []

-- how often a case has a triangle's side from the `i`th to the `j`th middle of a face
abbrev pub face_count : McIntersections → List McCorner → ℕ → ℕ → ℕ
face_count a corners i j =
    count (side_of (get_or (face_middles corners) i 0) (get_or (face_middles corners) j 0))
      (case_sides a)

-- the case whose only corners inside are those of the pattern on the near face
from_pattern : List McCorner → List Bool → McIntersections
from_pattern (c ∷ cs) (b ∷ bs) = (if b then 2 ^ c else 0) + from_pattern cs bs
from_pattern _ _ = 0

reference : ℕ → List Bool → McIntersections
unfolding from_pattern
reference axis pattern = from_pattern (face_corners axis) pattern

abbrev near_test : ℕ → ℕ → ℕ → ℕ → Bool
near_test axis i j a =
    let r = reference axis (map (inside a) (face_corners axis)) in
    nat_beq (face_count a (face_corners axis) i j + face_count r (face_corners axis) j i)
      (face_count a (face_corners axis) j i + face_count r (face_corners axis) i j)

abbrev far_test : ℕ → ℕ → ℕ → ℕ → Bool
far_test axis i j a =
    let r = reference axis (map (inside a) (far_corners axis)) in
    nat_beq (face_count a (far_corners axis) i j + face_count r (face_corners axis) i j)
      (face_count a (far_corners axis) j i + face_count r (face_corners axis) j i)

abbrev every_case : (ℕ → ℕ → ℕ → ℕ → Bool) → Bool
every_case test =
    all_below 3 (λ axis. all_below 4 (λ i. all_below 4 (λ j. all_below 256 (test axis i j))))

near_check : every_case near_test ≡ true
unfolding all_below case_sides inside reference mc_lookup_table
near_check = refl

far_check : every_case far_test ≡ true
unfolding all_below case_sides inside reference mc_lookup_table
far_check = refl

module _ (axis i j a : ℕ) (haxis : axis < 3) (hi : i < 4) (hj : j < 4) (ha : a < 256) where
  from_every_case : (test : ℕ → ℕ → ℕ → ℕ → Bool) → every_case test ≡ true → test axis i j a ≡ true
  from_every_case test check =
      let at_axis = all_below_sound 3 _ axis check haxis in
      let at_i = all_below_sound 4 _ i at_axis hi in
      let at_j = all_below_sound 4 _ j at_i hj in all_below_sound 256 _ a at_j ha

balance :
    (f f' n n' : ℕ) {r r' q q' : ℕ}
    → f + r ≡ f' + r'
    → n + q' ≡ n' + q
    → r ≡ q
    → r' ≡ q'
    → f + n ≡ f' + n'
balance f f' n n' far near met met' = omega arith

-- Two cases whose cubes share a face, with the same corners of it inside of the solid, draw on
-- that face the same sides of triangles in opposite directions: for each pair of middles of its
-- edges, the sides of both cubes that run one way are as many as those that run the other way.
pub shared_face_closed :
    (axis i j a b : ℕ)
    → axis < 3
    → i < 4
    → j < 4
    → a < 256
    → b < 256
    → map (inside a) (far_corners axis) ≡ map (inside b) (face_corners axis)
    → face_count a (far_corners axis) i j + face_count b (face_corners axis) i j
      ≡ face_count a (far_corners axis) j i + face_count b (face_corners axis) j i
shared_face_closed axis i j a b haxis hi hj ha hb same =
    let far = (nat_beq_iff _ _).0 (from_every_case axis i j a haxis hi hj ha far_test far_check) in
    let near =
      (nat_beq_iff _ _).0 (from_every_case axis i j b haxis hi hj hb near_test near_check) in
    let met = ap (reference axis) same in
    balance (face_count a (far_corners axis) i j) (face_count a (far_corners axis) j i)
      (face_count b (face_corners axis) i j) (face_count b (face_corners axis) j i) far near
      (ap (λ r. face_count r (face_corners axis) i j) met)
      (ap (λ r. face_count r (face_corners axis) j i) met)

-- the number of the middle with its two corners, or of a side with its two vertices, taken apart
abbrev pub first_corner : ℕ → McCorner
first_corner v = v / 8

abbrev pub second_corner : ℕ → McCorner
second_corner v = v % 8

-- both vertices lie on one face of the cube: all four corners agree in a coordinate
abbrev pub same_bit : ℕ → McCorner → McCorner → Bool
same_bit axis c d = nat_beq (c / 2 ^ axis % 2) (d / 2 ^ axis % 2)

abbrev pub on_face : ℕ → ℕ → ℕ → Bool
on_face axis v w =
    same_bit axis (first_corner v) (second_corner v)
    && same_bit axis (first_corner w) (second_corner w)
    && same_bit axis (first_corner v) (first_corner w)

abbrev pub share_face : ℕ → ℕ → Bool
share_face v w = on_face 0 v w || on_face 1 v w || on_face 2 v w

abbrev inner_pair : ℕ → ℕ → ℕ → Bool
inner_pair a v w =
    share_face v w
    || nat_beq (count (side_of v w) (case_sides a)) (count (side_of w v) (case_sides a))

inner_check :
    all_below 256 (λ a. all_of (λ side. inner_pair a (side / 64) (side % 64)) (case_sides a)) ≡ true
unfolding all_below all_of case_sides mc_lookup_table
inner_check = refl

side_parts : (v w : ℕ) → w < 64 → (side_of v w / 64 ≡ v) × (side_of v w % 64 ≡ w)
side_parts v w h = (omega arith, omega arith)

on_face_symm : (axis v w : ℕ) → on_face axis v w ≡ on_face axis w v
on_face_symm axis v w = ground arith

share_face_symm : (v w : ℕ) → share_face v w ≡ share_face w v
share_face_symm v w = cc (on_face_symm 0 v w, on_face_symm 1 v w, on_face_symm 2 v w)

inner_found :
    (a v w : ℕ)
    → a < 256
    → w < 64
    → 0 < count (side_of v w) (case_sides a)
    → inner_pair a v w ≡ true
inner_found a v w ha hw found =
    let (left, right) = side_parts v w hw in
    let here =
      all_of_sound _ (case_sides a) (side_of v w) (all_below_sound 256 _ a inner_check ha) found in
    subst₂ (λ x y. inner_pair a x y ≡ true) left right here

-- a test by numbers, so that the terms for them stay shut
or_beq : (b : Bool) (m n : ℕ) → (b || nat_beq m n) ≡ true → b ≡ false → m ≡ n
or_beq b m n h f = ground arith

eq_of_pos : (m n : ℕ) → (0 < m → m ≡ n) → (0 < n → n ≡ m) → m ≡ n
eq_of_pos zero zero f g = refl
eq_of_pos zero (suc n) f g = sym (g (omega arith))
eq_of_pos (suc m) n f g = f (omega arith)

-- Within a case every side of a triangle that lies on no face of the cube is run as often one way
-- as the other.
pub inner_sides_closed :
    (a v w : ℕ)
    → a < 256
    → v < 64
    → w < 64
    → share_face v w ≡ false
    → count (side_of v w) (case_sides a) ≡ count (side_of w v) (case_sides a)
inner_sides_closed a v w ha hv hw apart =
    eq_of_pos (count (side_of v w) (case_sides a)) (count (side_of w v) (case_sides a))
      (λ found. or_beq (share_face v w) _ _ (inner_found a v w ha hw found) apart)
      (λ found.
        or_beq (share_face w v) _ _ (inner_found a w v ha hv found)
          (sym (share_face_symm v w) ∙ apart))
