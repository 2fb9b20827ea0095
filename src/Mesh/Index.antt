-- ===== src/Mesh/Index.antt =====
-- model3d/mesh.go: one change of the vertex index, seen through Value and through counts.
use model3d.Base.{
  eq_beq, ℕ, suc, ◌+◌, ◌≤◌, ◌<◌, ◌≡◌, refl, ap, ◌∙◌, ◌≢◌, inl, inr, ◌||◌, none, some, List, [], ◌∷◌,
  ◌++◌, arith, nat_beq, if◌then◌else◌, Eq, ◌==◌, nat_eq, Bool-cases, ==_refl, length, get_elem?,
  to_nat, count, count-append,
}
use model3d.Coords.{coord_eq}
use model3d.FastMap
use model3d.FastMap.{FastMap, Hash, value_or_zero}
use model3d.FastMap.Lookup.{IsValid, load-store, load-delete, store-IsValid, delete-IsValid}
use model3d.FastMap.Modify.{modify-IsValid, load-modify, value-modify}
use model3d.Mesh.{
  Pointer, Triangle, UnorderedDelete, VertexIndex, append_all, append_face, index_of, no_pointers,
  remove_face_from_vertex, remove_from_all, store_or_delete, is_vertex, unique_vertices,
}

-- three values, each once
count-three {ℓ} :
    {A : Type ℓ} ⦃e : Eq A⦄ (p a b c : A)
    → count p (
        let third = if c == a || c == b then [] else c ∷ [] in
        a ∷ (if b == a then third else b ∷ third))
      ≡ to_nat (p == a || p == b || p == c)
count-three ⦃e⦄ p a b c = ground (
  arith,
  e.beq_iff a p,
  e.beq_iff b p,
  e.beq_iff c p,
  e.beq_iff p a,
  e.beq_iff p b,
  e.beq_iff p c,
  e.beq_iff b a,
  e.beq_iff c a,
  e.beq_iff c b,
)

-- the vertices of a triangle, each once
pub count-unique_vertices :
    {C : Type 0} ⦃e : Eq C⦄ (tri : Pointer → Triangle C) (p : C) (f : Pointer)
    → count p (unique_vertices (tri f)) ≡ to_nat (is_vertex tri p f)
unfolding unique_vertices is_vertex
count-unique_vertices tri p f = count-three p (tri f).a (tri f).b (tri f).c

-- `f` once more at `p`, or not
abbrev pub added : Pointer → Pointer → ℕ → ℕ
added f g n = if f == g then n else 0

append-ne-nil : (s : List Pointer) (f : Pointer) → s ++ f ∷ [] ≢ []
append-ne-nil [] f e = cc
append-ne-nil (x ∷ s) f e = cc

length-zero : (s : List Pointer) → length s ≡ 0 → s ≡ []
length-zero [] e = refl
length-zero (x ∷ s) e = absurd (omega arith)

-- the first entry that is `f`, if there is one
index_of-found :
    (f : Pointer) (s : List Pointer) (i : ℕ)
    → 0 < count f s
    → (k : ℕ) × (index_of f s i ≡ some (i + k)) × (get_elem? s k ≡ some f)
unfolding index_of
index_of-found f [] i h = absurd (omega arith)
index_of-found f (g ∷ s) i h = elim (Bool-cases (nat_beq g f)) [
  | inl same ↦ (0, ground arith, ground arith)
  | inr other ↦
      let (k, found, there) = index_of-found f s (i + 1) (ground arith) in
      (suc k, ground (arith, found), there)
]

module _ {C : Type 0} ⦃e : Eq C⦄ ⦃h : Hash C⦄ where
  -- a well formed index that keeps no empty list
  pub record IsTidy (v2f : VertexIndex C) : Type 0 where
    pub valid : IsValid v2f
    pub filled : (p : C) → FastMap.load v2f p ≢ some []

  -- how often the index lists `g` at `p`
  abbrev pub listed : VertexIndex C → C → Pointer → ℕ
  listed v2f p g = count g (FastMap.value v2f p)

  append_face-IsTidy :
      (v2f : VertexIndex C) (f : Pointer) (q : C) → IsTidy v2f → IsTidy (append_face v2f f q)
  unfolding append_face
  append_face-IsTidy v2f f q t = record {
    valid = modify-IsValid (λ s. s ++ f ∷ []) v2f q t.valid;
    filled = λ p e. ground (
      arith,
      (load-modify (λ s. s ++ f ∷ []) v2f q p t.valid).1,
      t.filled p,
      append-ne-nil (FastMap.value v2f q) f,
    );
  }

  listed-append_face :
      (v2f : VertexIndex C) (f g : Pointer) (q p : C)
      → IsTidy v2f
      → listed (append_face v2f f q) p g ≡ listed v2f p g + added f g (to_nat (q == p))
  unfolding append_face
  listed-append_face v2f f g q p t =
      rw (value-modify (λ s. s ++ f ∷ []) v2f q p t.valid)
        (ground (arith, e.beq_iff q p, count-append g (FastMap.value v2f q) (f ∷ [])))

  pub append_all-IsTidy :
      (ps : List C) (f : Pointer) (v2f : VertexIndex C) → IsTidy v2f → IsTidy (append_all ps f v2f)
  unfolding append_all
  append_all-IsTidy [] f v2f t = t
  append_all-IsTidy (q ∷ ps) f v2f t =
      append_all-IsTidy ps f (append_face v2f f q) (append_face-IsTidy v2f f q t)

  pub listed-append_all :
      (ps : List C) (f g : Pointer) (v2f : VertexIndex C) (p : C)
      → IsTidy v2f
      → listed (append_all ps f v2f) p g ≡ listed v2f p g + added f g (count p ps)
  unfolding append_all
  listed-append_all [] f g v2f p t = ground arith
  listed-append_all (q ∷ ps) f g v2f p t = ground (
    arith,
    listed-append_all ps f g (append_face v2f f q) p (append_face-IsTidy v2f f q t),
    listed-append_face v2f f g q p t,
  )

  store_or_delete-IsTidy :
      (v2f : VertexIndex C) (q : C) (s : List Pointer)
      → IsTidy v2f
      → IsTidy (store_or_delete v2f q s)
  unfolding store_or_delete
  store_or_delete-IsTidy v2f q [] t = record {
    valid = delete-IsValid v2f q t.valid;
    filled = λ p e. ground (arith, load-delete v2f q p t.valid, t.filled p);
  }
  store_or_delete-IsTidy v2f q (x ∷ s) t = record {
    valid = ground (arith, store-IsValid v2f q (x ∷ s) t.valid);
    filled = λ p e. ground (arith, load-store v2f q p (x ∷ s) t.valid, t.filled p);
  }

  value-store_or_delete :
      (v2f : VertexIndex C) (q p : C) (s : List Pointer)
      → IsTidy v2f
      → FastMap.value (store_or_delete v2f q s) p ≡ (if q == p then s else FastMap.value v2f p)
  unfolding store_or_delete FastMap.value
  value-store_or_delete v2f q p [] t = ground (arith, load-delete v2f q p t.valid)
  value-store_or_delete v2f q p (x ∷ s) t = ground (arith, load-store v2f q p (x ∷ s) t.valid)

  module _ (tri : Pointer → Triangle C) (u : UnorderedDelete) where
    -- the list that removeFaceFromVertex leaves
    shorter : Pointer → List Pointer → List Pointer
    shorter f s = elim (index_of f s 0) [ some i ↦ u.delete_at s i | none ↦ s ]

    count-shorter :
        (f g : Pointer) (s : List Pointer)
        → 0 < count f s
        → count g (shorter f s) + added f g 1 ≡ count g s
    unfolding shorter
    count-shorter f g s h =
        let (k, found, there) = index_of-found f s 0 h in
        let same : 0 + k ≡ k = omega arith in
        ground (arith, found, u.count-delete_at s (0 + k) f g (ap (get_elem? s) same ∙ there))

    remove_face-IsTidy :
        (v2f : VertexIndex C) (f : Pointer) (q : C)
        → IsTidy v2f
        → IsTidy (remove_face_from_vertex tri u v2f f q)
    unfolding remove_face_from_vertex
    remove_face-IsTidy v2f f q t = store_or_delete-IsTidy v2f q _ t

    listed-remove_face :
        (v2f : VertexIndex C) (f g : Pointer) (q p : C)
        → IsTidy v2f
        → 0 < listed v2f q f
        → listed (remove_face_from_vertex tri u v2f f q) p g + added f g (to_nat (q == p))
          ≡ listed v2f p g
    unfolding remove_face_from_vertex shorter
    listed-remove_face v2f f g q p t h =
        let s = FastMap.value v2f q in
        rw (value-store_or_delete v2f q p (shorter f s) t)
          (ground (arith, e.beq_iff q p, count-shorter f g s h))

    pub remove_all-IsTidy :
        (ps : List C) (f : Pointer) (v2f : VertexIndex C)
        → IsTidy v2f
        → IsTidy (remove_from_all tri u ps f v2f)
    unfolding remove_from_all
    remove_all-IsTidy [] f v2f t = t
    remove_all-IsTidy (q ∷ ps) f v2f t =
        remove_all-IsTidy ps f (remove_face_from_vertex tri u v2f f q)
          (remove_face-IsTidy v2f f q t)

    pub listed-remove_all :
        (ps : List C) (f g : Pointer) (v2f : VertexIndex C) (p : C)
        → IsTidy v2f
        → ((q : C) → count q ps ≤ listed v2f q f)
        → listed (remove_from_all tri u ps f v2f) p g + added f g (count p ps) ≡ listed v2f p g
    unfolding remove_from_all
    listed-remove_all [] f g v2f p t h = ground arith
    listed-remove_all (q ∷ ps) f g v2f p t h =
        let v2f' = remove_face_from_vertex tri u v2f f q in
        let here : 0 < listed v2f q f = ground (arith, h q, ==_refl q) in
        let kept : (r : C) → count r ps ≤ listed v2f' r f =
          λ r. ground (arith, h r, listed-remove_face v2f f f q r t here) in
        ground (
          arith,
          listed-remove_all ps f g v2f' p (remove_face-IsTidy v2f f q t) kept,
          listed-remove_face v2f f g q p t here,
        )
