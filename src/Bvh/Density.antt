-- ===== src/Bvh/Density.antt =====
-- model3d/bvh.go: the split that areaDensityBVHSplit chooses.
use model3d.Base.{
  ℕ, zero, suc, ◌+◌, ◌-◌, ◌≤◌, ◌<◌, ◌≡◌, refl, sym, ap, ◌∙◌, some, List, [], ◌∷◌, arith, nat_eq,
  length, get_or, take, drop,
}
use model3d.Coords.{Float, float_zero}
use model3d.Bvh.{
  BoxSpace, FlaggedBounder, area_loop, multiple_bounds_area, density_cache, area_density_split,
}
use model3d.Bvh.Scores.{
  BoxLaws, IsBound, density_loop-first, join_all, join_all-swap, joined_area, loop_score,
  split_score,
}

module _ {C B : Type 0} (space : BoxSpace C) where
  length-density_cache :
      (t : FlaggedBounder C B) (faces : List (FlaggedBounder C B))
      → length (density_cache space t faces).2 ≡ length faces
  unfolding density_cache
  length-density_cache t [] = refl
  length-density_cache t (u ∷ faces) = ap suc (length-density_cache u faces)

  module _ (laws : BoxLaws space) where
    area_loop-eq :
        (min max : C) (bs : List (FlaggedBounder C B))
        → area_loop space min max bs ≡ joined_area space min max bs
    unfolding area_loop
    area_loop-eq min max [] = refl
    area_loop-eq min max (b ∷ bs) =
        rw (laws.lower_inline_eq min b.min, laws.upper_inline_eq max b.max)
          (area_loop-eq (space.lower min b.min) (space.upper max b.max) bs)

    -- the bounds of the first loop are those of the faces that it has been at
    density_cache-bounds :
        (t : FlaggedBounder C B) (faces : List (FlaggedBounder C B))
        → ((density_cache space t faces).0 ≡ join_all space space.lower (λ b. b.min) t.min faces)
          × ((density_cache space t faces).1 ≡ join_all space space.upper (λ b. b.max) t.max faces)
    unfolding density_cache
    density_cache-bounds t [] = (refl, refl)
    density_cache-bounds t (u ∷ faces) =
        let (lows, highs) = density_cache-bounds u faces in
        (
          ap (λ c. space.lower c t.min) lows
              ∙ sym
                  (join_all-swap space space.lower laws.lower_laws (λ b. b.min) t.min u.min faces),
          ap (λ c. space.upper c t.max) highs
              ∙ sym
                  (join_all-swap space space.upper laws.upper_laws (λ b. b.max) t.max u.max faces),
        )

    density_cache-at :
        (t : FlaggedBounder C B) (faces : List (FlaggedBounder C B)) (i n : ℕ)
        → n + i ≡ length faces
        → 0 < n
        → (a : Float) × (multiple_bounds_area space (drop i faces) ≡ some a)
          × (get_or (density_cache space t faces).2 i 0 ≡ space.times_count a n)
    unfolding density_cache multiple_bounds_area
    density_cache-at t [] i n e h = absurd (omega arith)
    density_cache-at t (u ∷ faces) zero n e h =
        let (lows, highs) = density_cache-bounds u faces in
        let all : suc (length faces) ≡ n = omega arith in
        (
          area_loop space u.min u.max faces,
          refl,
          ap (λ a. space.times_count a (suc (length faces)))
                (rw (lows, highs) (sym (area_loop-eq u.min u.max faces)))
              ∙ ap (space.times_count (area_loop space u.min u.max faces)) all,
        )
    density_cache-at t (u ∷ faces) (suc i) n e h = density_cache-at u faces i n (omega arith) h

    -- the scores of the second loop are those of the splits
    loop_score-split :
        (t u : FlaggedBounder C B) (faces : List (FlaggedBounder C B)) (j : ℕ)
        → j < length faces
        → split_score space (t ∷ u ∷ faces) (suc (suc j))
          ≡ some (loop_score space 1 t.min t.max (u ∷ faces) (density_cache space u faces).2 j)
    unfolding multiple_bounds_area
    loop_score-split t u faces j h =
        let n = length faces - j in
        let (a, area, entry) = density_cache-at u faces j n (omega arith) (omega arith) in
        let below = joined_area space t.min t.max (take (suc j) (u ∷ faces)) in
        let e1 : suc (suc j) - 1 ≡ 1 + j = omega arith in
        let e2 : length (t ∷ u ∷ faces) - suc (suc j) ≡ n = omega arith in
        rw (area, area_loop-eq t.min t.max (take (suc j) (u ∷ faces)))
          (ap
              (λ m. some (
                space.plus (space.times_count below m)
                  (space.times_count a (length (t ∷ u ∷ faces) - suc (suc j)))))
              e1
            ∙ ap (λ m. some (space.plus (space.times_count below (1 + j)) (space.times_count a m)))
                e2
            ∙ ap (λ v. some (space.plus (space.times_count below (1 + j)) v)) (sym entry))

    -- For three or more objects, areaDensityBVHSplit returns an index from 2 on that leaves an
    -- object behind it, with its score, and no other such index has a lower score: the score is
    -- the area around the objects before the index times one less than their number, plus the area
    -- around the others times their number. Min and Max can be taken in any order.
    pub area_density_split-least :
        (bs : List (FlaggedBounder C B))
        → 2 < length bs
        → (k : ℕ) × (score : Float) × (area_density_split space bs ≡ some (k, score))
          × (2 ≤ k)
          × (k < length bs)
          × (split_score space bs k ≡ some score)
          × ((other : ℕ) (s : Float)
              → 2 ≤ other
              → other < length bs
              → split_score space bs other ≡ some s
              → score ≤ s)
    unfolding area_density_split density_cache
    area_density_split-least [] h = absurd (omega arith)
    area_density_split-least (t ∷ []) h = absurd (omega arith)
    area_density_split-least (t ∷ u ∷ []) h = absurd (omega arith)
    area_density_split-least (t ∷ u ∷ v ∷ faces) h =
        let (min, max, cache) = density_cache space v faces in
        let first = space.times_count (space.bounds_area min max) (suc (length faces)) in
        let (k, score, e, all, (j, less, at_j, score_eq)) =
          density_loop-first space t.min t.max float_zero u v faces first cache
            (omega (arith, length-density_cache v faces)) in
        let split : k ≡ suc (suc j) = omega (arith, at_j) in
        (
          k,
          score,
          ap some e,
          omega (arith, split),
          omega (arith, split, less),
          ap (split_score space (t ∷ u ∷ v ∷ faces)) split
              ∙ loop_score-split t u (v ∷ faces) j (omega (arith, less))
              ∙ ap some (sym score_eq),
          others t u v faces score all,
        )
      where
        others :
            (t u v : FlaggedBounder C B) (faces : List (FlaggedBounder C B)) (score : Float)
            → IsBound space 1 t.min t.max
                (u ∷ v ∷ faces)
                (density_cache space u (v ∷ faces)).2
                score
            → (other : ℕ) (s : Float) → 2 ≤ other
            → other < length (t ∷ u ∷ v ∷ faces)
            → split_score space (t ∷ u ∷ v ∷ faces) other ≡ some s
            → score ≤ s
        others t u v faces score all zero s low high e = absurd (omega arith)
        others t u v faces score all (suc zero) s low high e = absurd (omega arith)
        others t u v faces score all (suc (suc j)) s low high e =
            let both = sym e ∙ loop_score-split t u (v ∷ faces) j (omega arith) in
            ground (arith, both, all j)
