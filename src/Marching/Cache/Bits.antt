-- ===== src/Marching/Cache/Bits.antt =====
-- model3d/mc.go: the bits of a case and the samples at the corners of the cell.
use Prim.Native.Nat.{bit_or}
use model3d.Base.{
  ℕ, ◌*◌, ◌%◌, ◌^◌, ◌<◌, ◌≡◌, refl, Bool, true, false, not, ◌&&◌, List, [], ◌∷◌, arith, ltb,
  if◌then◌else◌, nat_eq, get_or, all_below, all_below_sound,
}
use model3d.Marching.{McIntersections, inside}
use model3d.Marching.Cache.{square_bits}

-- the case of a cell from its eight samples
abbrev pub cube_bits : List Bool → List Bool → McIntersections
cube_bits low high = bit_or (square_bits low) (square_bits high * 2 ^ 4 % 256)

all_bools : (Bool → Bool) → Bool
all_bools p = elim (p true) [ true ↦ p false | false ↦ false ]

all_bools_sound : (p : Bool → Bool) (b : Bool) → all_bools p ≡ true → p b ≡ true
unfolding all_bools
all_bools_sound p true h = ground arith
all_bools_sound p false h = ground arith

abbrev bool_beq : Bool → Bool → Bool
bool_beq b c = if b then c else not c

bool_eq : (b c : Bool) → bool_beq b c ≡ true → b ≡ c
bool_eq b c h = ground arith

abbrev eight : Bool → Bool → Bool → Bool → Bool → Bool → Bool → Bool → List Bool
eight b0 b1 b2 b3 b4 b5 b6 b7 = b0 ∷ b1 ∷ b2 ∷ b3 ∷ b4 ∷ b5 ∷ b6 ∷ b7 ∷ []

abbrev bits_test : Bool → Bool → Bool → Bool → Bool → Bool → Bool → Bool → Bool
bits_test b0 b1 b2 b3 b4 b5 b6 b7 =
    let bits = cube_bits (b0 ∷ b1 ∷ b2 ∷ b3 ∷ []) (b4 ∷ b5 ∷ b6 ∷ b7 ∷ []) in
    ltb bits 256
    && all_below 8 (λ c. bool_beq (inside bits c) (get_or (eight b0 b1 b2 b3 b4 b5 b6 b7) c false))

bits_check :
    all_bools (λ b0. all_bools (λ b1. all_bools (λ b2. all_bools (λ b3. all_bools (λ b4.
      all_bools (λ b5. all_bools (λ b6. all_bools (λ b7. bits_test b0 b1 b2 b3 b4 b5 b6 b7))))))))
    ≡ true
unfolding all_bools all_below inside square_bits
bits_check = refl

module _ (b0 b1 b2 b3 b4 b5 b6 b7 : Bool) where
  bits_hold : bits_test b0 b1 b2 b3 b4 b5 b6 b7 ≡ true
  bits_hold =
      let h0 = all_bools_sound _ b0 bits_check in
      let h1 = all_bools_sound _ b1 h0 in
      let h2 = all_bools_sound _ b2 h1 in
      let h3 = all_bools_sound _ b3 h2 in
      let h4 = all_bools_sound _ b4 h3 in
      let h5 = all_bools_sound _ b5 h4 in
      let h6 = all_bools_sound _ b6 h5 in all_bools_sound _ b7 h6

  abbrev bits : McIntersections
  bits = cube_bits (b0 ∷ b1 ∷ b2 ∷ b3 ∷ []) (b4 ∷ b5 ∷ b6 ∷ b7 ∷ [])

  both_tests : (x y : Bool) → (x && y) ≡ true → (x ≡ true) × (y ≡ true)
  both_tests x y h = ground arith

  lt_of_ltb : (m n : ℕ) → ltb m n ≡ true → m < n
  lt_of_ltb m n h = ground arith

  pub bits-lt : bits < 256
  bits-lt = lt_of_ltb _ _ (both_tests _ _ bits_hold).0

  pub bits-inside : (c : ℕ) → c < 8 → inside bits c ≡ get_or (eight b0 b1 b2 b3 b4 b5 b6 b7) c false
  bits-inside c h = bool_eq _ _ (all_below_sound 8 _ c (both_tests _ _ bits_hold).1 h)
