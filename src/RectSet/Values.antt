-- ===== src/RectSet/Values.antt =====
-- toolbox3d/rect_set.go: the sorted values of the planes on one axis, and the cells between them.
use model3d.Base.{
  ℕ, zero, suc, ◌≤◌, ◌<◌, ◌≡◌, refl, ◌⊎◌, inl, inr, true, false, List, [], ◌∷◌, ◌++◌, arith, ltb,
  nat_beq, if◌then◌else◌, nat_eq, Bool-cases, length, get_or,
}
use model3d.Coords.{Float}
use model3d.RectSet.{search_floats, insert_at, add_value}

-- an entry of a list
abbrev pub In : {A : Type 0} → A → List A → Type 0
In a [] = ⊥
In a (x ∷ xs) = (x ≡ a) ⊎ In a xs

abbrev pub IsSorted : List Float → Type 0
IsSorted [] = Unit
IsSorted (v ∷ vs) = ((w : Float) → In w vs → v < w) × IsSorted vs

-- an interval between two neighbouring values
pub record IsGap (vs : List Float) (lo hi : Float) : Type 0 where
  pub proper : lo < hi
  pub low : In lo vs
  pub high : In hi vs
  pub free : (w : Float) → In w vs → (w ≤ lo) ⊎ (hi ≤ w)

-- the values of an axis after addSplit
abbrev pub values_with : List Float → Float → List Float
values_with vs value =
    let idx = search_floats vs value in
    if nat_beq idx (length vs)
    then vs ++ value ∷ []
    else if nat_beq (get_or vs idx 0) value
    then vs
    else insert_at vs idx value

pub values_with-eq : (vs : List Float) (value : Float) → values_with vs value ≡ add_value value vs
unfolding search_floats insert_at add_value
values_with-eq [] value = refl
values_with-eq (v ∷ vs) value = ground (arith, values_with-eq vs value)

pub In-add_value : (v w : Float) (vs : List Float) → In w (add_value v vs) → (v ≡ w) ⊎ In w vs
unfolding add_value
In-add_value v w [] h = h
In-add_value v w (u ∷ vs) h = ground (arith, In-add_value v w vs)

pub add_value-new : (v : Float) (vs : List Float) → In v (add_value v vs)
unfolding add_value
add_value-new v [] = inl refl
add_value-new v (u ∷ vs) = ground (arith, add_value-new v vs)

pub add_value-old : (v w : Float) (vs : List Float) → In w vs → In w (add_value v vs)
unfolding add_value
add_value-old v w [] h = absurd h
add_value-old v w (u ∷ vs) h = ground (arith, add_value-old v w vs)

pub add_value-IsSorted : (v : Float) (vs : List Float) → IsSorted vs → IsSorted (add_value v vs)
unfolding add_value
add_value-IsSorted v [] d = (λ w h. absurd h, tt)
add_value-IsSorted v (u ∷ vs) d = elim (Bool-cases (nat_beq v u)) [
  | inl same ↦ rw same d
  | inr other ↦ elim (Bool-cases (ltb v u)) [
    | inl before ↦ rw (other, before) ((λ w h. ground (arith, d.0 w)), d)
    | inr after ↦
        rw (other, after)
          ((λ w h. ground (arith, In-add_value v w vs h, d.0 w)), add_value-IsSorted v vs d.1)
  ]
]

-- a value that lies in no gap leaves the gap, and one inside cuts it in two
pub IsGap-keep :
    (vs : List Float) (lo hi v : Float)
    → IsGap vs lo hi
    → (v ≤ lo) ⊎ (hi ≤ v)
    → IsGap (add_value v vs) lo hi
IsGap-keep vs lo hi v g out = record {
  proper = g.proper;
  low = add_value-old v lo vs g.low;
  high = add_value-old v hi vs g.high;
  free = λ w h. ground (arith, In-add_value v w vs h, g.free w);
}

pub IsGap-cut :
    (vs : List Float) (lo hi v : Float)
    → IsGap vs lo hi
    → lo < v
    → v < hi
    → IsGap (add_value v vs) lo v × IsGap (add_value v vs) v hi
IsGap-cut vs lo hi v g above below = (
  record {
    proper = above;
    low = add_value-old v lo vs g.low;
    high = add_value-new v vs;
    free = λ w h. ground (arith, In-add_value v w vs h, g.free w);
  },
  record {
    proper = below;
    low = add_value-new v vs;
    high = add_value-old v hi vs g.high;
    free = λ w h. ground (arith, In-add_value v w vs h, g.free w);
  },
)

-- the search of addSplit ends at a larger value that is neither the first nor missing
pub record SearchesInside (vs : List Float) (v : Float) : Type 0 where
  pub not_last : nat_beq (search_floats vs v) (length vs) ≡ false
  pub not_found : nat_beq (get_or vs (search_floats vs v) 0) v ≡ false
  pub not_first : ltb 0 (search_floats vs v) ≡ true

search_floats-lt :
    (vs : List Float) (v w : Float) → In w vs → v ≤ w → search_floats vs v < length vs
unfolding search_floats
search_floats-lt [] v w h le = absurd h
search_floats-lt (u ∷ vs) v w h le = ground (arith, search_floats-lt vs v w)

pub get_or-In : (vs : List Float) (i : ℕ) → i < length vs → In (get_or vs i 0) vs
get_or-In [] i h = absurd (omega arith)
get_or-In (u ∷ vs) zero h = inl refl
get_or-In (u ∷ vs) (suc i) h = inr (get_or-In vs i (omega arith))

search_floats-pos :
    (vs : List Float) (v w : Float) → IsSorted vs → In w vs → w < v → 0 < search_floats vs v
unfolding search_floats
search_floats-pos [] v w d h lt = absurd h
search_floats-pos (u ∷ vs) v w d h lt = ground (arith, d.0 w)

pub gap-SearchesInside :
    (vs : List Float) (lo hi v : Float)
    → IsSorted vs
    → IsGap vs lo hi
    → lo < v
    → v < hi
    → SearchesInside vs v
gap-SearchesInside vs lo hi v d g above below =
    let idx = search_floats vs v in
    let within = search_floats-lt vs v hi g.high (omega arith) in
    let entry = get_or-In vs idx within in
    record {
      not_last = ground arith;
      not_found = ground (arith, g.free (get_or vs idx 0) entry);
      not_first = ground (arith, search_floats-pos vs v lo d g.low above);
    }
