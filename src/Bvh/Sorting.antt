-- ===== src/Bvh/Sorting.antt =====
-- A sort and an arithmetic that the tests use in place of the parameters.
use model3d.Base.{◌+◌, ◌*◌, ◌≡◌, refl, Bool, List, [], ◌∷◌, arith, if◌then◌else◌, nat_eq}
use model3d.Bvh.{FlaggedBounder, Sorter}
use model3d.Bvh.Members.{tally, SameMembers}
use model3d.Bvh.Spaces.{FloatArith}

module _ {C B : Type 0} where
  abbrev insert_sorted :
      (FlaggedBounder C B → FlaggedBounder C B → Bool)
      → FlaggedBounder C B
      → List (FlaggedBounder C B)
      → List (FlaggedBounder C B)
  insert_sorted less a [] = a ∷ []
  insert_sorted less a (b ∷ bs) = if less b a then b ∷ insert_sorted less a bs else a ∷ b ∷ bs

  abbrev pub sort_slice : Sorter C B
  sort_slice less [] = []
  sort_slice less (b ∷ bs) = insert_sorted less b (sort_slice less bs)

  tally-insert_sorted :
      (less : FlaggedBounder C B → FlaggedBounder C B → Bool) (a : FlaggedBounder C B)
      (bs : List (FlaggedBounder C B)) (p : FlaggedBounder C B → Bool)
      → tally p (insert_sorted less a bs) ≡ tally p (a ∷ bs)
  tally-insert_sorted less a [] p = refl
  tally-insert_sorted less a (b ∷ bs) p = ground (arith, tally-insert_sorted less a bs p)

  pub tally-sort_slice :
      (less : FlaggedBounder C B → FlaggedBounder C B → Bool) (bs : List (FlaggedBounder C B))
      → SameMembers (sort_slice less bs) bs
  tally-sort_slice less [] p = refl
  tally-sort_slice less (b ∷ bs) p =
      ground (arith, tally-insert_sorted less b (sort_slice less bs) p, tally-sort_slice less bs p)

-- numbers that stand for floats
abbrev pub small_arith : FloatArith
small_arith = record {
  plus = ◌+◌;
  times = ◌*◌;
  of_count = λ n. n;
  minus_one = 0;
  half = 1;
  two = 2;
}
