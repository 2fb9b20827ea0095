-- ===== src/Solid/AllContains.antt =====
-- model3d/solid.go: NewSolidMux, and AllContains of what it returns.
use model3d.Base.{
  ℕ, suc, ◌+◌, ◌<◌, ◌≡◌, refl, sym, ap, ◌∙◌, Bool, false, not, ◌&&◌, Option, some, List, [], ◌∷◌,
  map, arith, ltb, nat_beq, Eq, nat_eq, length, replicate, length-replicate,
}
use model3d.Bvh.{Sorter, group}
use model3d.Bvh.Members.{tally, length-same, length-map}
use model3d.Bvh.Group.{KeepsMembers, group-members}
use model3d.Solid.{
  SolidSpace, Solid, BoxPointer, SolidMux, no_solids, joined_contains, bounds_rects, index_bounders,
  grouped_solids, grouped_solids_to_solid_mux, new_solid_mux, total_solids, mux_contains,
  iter_contains, set_true, all_contains,
}
use model3d.Solid.Boxes.{LatticeLaws}
use model3d.Solid.Lawful.{breaks, AllLawful, joined_contains-tally}
use model3d.Solid.Mux.{zip, iter_all, tally-zip, IsMux, grouped_solids_to_solid_mux-IsMux}
use model3d.Solid.Indices.{
  at_index, at_index-found, bounds_rects-Below, get_elem?-found, get_or-map, get_or-replicate,
  grouped_solids-some, index_bounders-lookup, iter_all-count, iter_all-set_true,
  length-bounds_rects, list_eq, tally-bounds_rects, tally_from, tally_from-at, tally_from-below,
  tally_from-eq,
}

module _ {C : Type 0} ⦃e : Eq C⦄ (space : SolidSpace C) where
  module _ (laws : LatticeLaws space) (sort : Sorter C (BoxPointer C)) where
    -- the solids in the order of the grouping, with their indices
    regrouped :
        (solids : List (Solid C))
        → KeepsMembers space.boxes sort
        → 0 < space.boxes.axes
        → (grouped : List (BoxPointer C)) × (ss : List (Solid C)) × (indices : List ℕ) × (group
              space.boxes
              (λ b. b.box.min_val)
              (λ b. b.box.max_val)
              sort
              (bounds_rects space 0 solids)
            ≡ some grouped)
          × (grouped_solids space solids
                (index_bounders space 0 (bounds_rects space 0 solids) [])
                grouped
              ≡ some (ss, indices))
          × (length ss ≡ length solids)
          × (length indices ≡ length solids)
          × ((q : Solid C → ℕ → Bool)
              → tally (λ p. q p.0 p.1) (zip ss indices) ≡ tally_from space q 0 solids)
    regrouped solids keeps some_axis =
        let bounders = bounds_rects space 0 solids in
        let (grouped, group_eq, same) =
          group-members space.boxes (λ b. b.box.min_val) (λ b. b.box.max_val) sort keeps bounders
            some_axis in
        let n = length-same grouped bounders same ∙ length-bounds_rects space 0 solids in
        let (ss, indices, eq, n1, n2, counts) =
          grouped_solids-some space solids (index_bounders space 0 bounders []) grouped
            (λ k less.
              index_bounders-lookup space 0 k solids [] (λ h. absurd (omega arith)) (omega arith))
            (same (λ b. not (ltb b.address (length solids)))
              ∙ bounds_rects-Below space 0 (length solids) solids (omega arith)) in
        (
          grouped,
          ss,
          indices,
          group_eq,
          eq,
          n1 ∙ n,
          n2 ∙ n,
          λ q.
              counts q
              ∙ same (λ b. at_index space q solids b.address)
              ∙ tally-bounds_rects space (at_index space q solids) q 0 solids (λ k s found.
                let first : 0 + k ≡ k = omega arith in
                rw first (at_index-found space q solids k s found)),
        )

    -- the bits that AllContains returns, from a tree over the pairs
    all_contains-eq :
        (solids ss : List (Solid C)) (indices : List ℕ) (m : SolidMux C) (c : C)
        → length ss ≡ length solids
        → ((q : Solid C → ℕ → Bool)
            → tally (λ p. q p.0 p.1) (zip ss indices) ≡ tally_from space q 0 solids)
        → IsMux space laws ss indices m
        → all_contains space m c ≡ some (map (λ s. s.contains c) solids)
    unfolding all_contains
    all_contains-eq solids ss indices m c same counts (total, contains, iter) =
        let n = length solids in
        let start = replicate n false in
        let (out, eq, out_length, at) =
          iter_all-set_true space c n (zip ss indices) start
            (counts (λ s k. not (ltb k n)) ∙ tally_from-below space n 0 solids (omega arith))
            (length-replicate n false) in
        ap (λ r. r.1)
          (iter (Option (List Bool)) c set_true (some (replicate (total_solids space m) false)))
        ∙ ap (λ k. (iter_all (zip ss indices) c set_true (some (replicate k false))).1)
            (total ∙ same)
        ∙ (ap (λ r. r.1) eq
            ∙ ap some (
                list_eq out (map (λ s. s.contains c) solids)
                  (out_length ∙ sym (length-map (λ s. s.contains c) solids))
                  (λ i less.
                    let (s, found) = get_elem?-found space solids i (omega (arith, out_length)) in
                    let hit =
                      tally_from-at space (λ t. t.contains c) 0 i i s solids (omega arith) found in
                    at i
                    ∙ ground (
                      arith,
                      get_or-replicate n i,
                      counts (λ t j. t.contains c && nat_beq j i),
                      hit,
                      out_length,
                      get_or-map space c solids i s found,
                    ))))

    new_solid_mux-some :
        (s : Solid C) (solids ss : List (Solid C)) (indices : List ℕ)
        (grouped : List (BoxPointer C)) (m : SolidMux C)
        → group space.boxes
            (λ b. b.box.min_val)
            (λ b. b.box.max_val)
            sort
            (bounds_rects space 0 (s ∷ solids))
          ≡ some grouped
        → grouped_solids space
            (s ∷ solids)
            (index_bounders space 0 (bounds_rects space 0 (s ∷ solids)) [])
            grouped
          ≡ some (ss, indices)
        → grouped_solids_to_solid_mux space (suc (length ss)) ss indices ≡ some m
        → new_solid_mux space sort (s ∷ solids) ≡ some m
    unfolding new_solid_mux
    new_solid_mux-some s solids ss indices grouped m h k l = rw (h, k) l

    -- For any solids that contain no point outside their bounds, on distributive Min and Max and
    -- with a sort that keeps the elements of a slice, NewSolidMux ends without a panic in a tree
    -- of boxes whose Contains is that of the joined solid, whose AllContains has for each solid,
    -- at its index, whether it contains the point, and whose IterContains counts the solids that
    -- do.
    pub new_solid_mux-IsFaithful :
        (solids : List (Solid C))
        → KeepsMembers space.boxes sort
        → 0 < space.boxes.axes
        → AllLawful space solids
        → (m : SolidMux C) × (new_solid_mux space sort solids ≡ some m)
          × ((c : C) → mux_contains space m c ≡ joined_contains space solids c)
          × ((c : C) → all_contains space m c ≡ some (map (λ s. s.contains c) solids))
          × ((c : C)
              → (iter_contains space {S = ℕ} m c (λ i st. st) 0).0
                ≡ tally (λ s. s.contains c) solids)
    unfolding new_solid_mux mux_contains joined_contains all_contains iter_contains total_solids
    new_solid_mux-IsFaithful [] keeps some_axis all =
        (no_solids, refl, λ c. refl, λ c. refl, λ c. refl)
    new_solid_mux-IsFaithful (s ∷ solids) keeps some_axis all =
        let (grouped, ss, indices, group_eq, eq, n1, n2, counts) =
          regrouped (s ∷ solids) keeps some_axis in
        let same : (q : Solid C → Bool) → tally q ss ≡ tally q (s ∷ solids) = λ q.
          sym (tally-zip q ss indices (n2 ∙ sym n1))
          ∙ counts (λ t k. q t)
          ∙ tally_from-eq space q 0 (s ∷ solids) in
        let (m, m_eq, mux) =
          grouped_solids_to_solid_mux-IsMux space laws (suc (length ss)) ss indices (omega arith)
            (omega (arith, n1)) (n2 ∙ sym n1) (λ c. same (breaks space c) ∙ all c) in
        (
          m,
          new_solid_mux-some s solids ss indices grouped m group_eq eq m_eq,
          λ c.
              mux.1 c
              ∙ joined_contains-tally space ss c
              ∙ ap (ltb 0) (same (λ t. t.contains c))
              ∙ sym (joined_contains-tally space (s ∷ solids) c),
          λ c. all_contains-eq (s ∷ solids) ss indices m c n1 counts mux,
          λ c.
              ap (λ r. r.0) (mux.2 ℕ c (λ i st. st) 0)
              ∙ iter_all-count space (zip ss indices) c (λ i st. st) 0
              ∙ counts (λ t k. t.contains c)
              ∙ tally_from-eq space (λ t. t.contains c) 0 (s ∷ solids),
        )
