-- ===== src/Metrics/Percentile.antt =====
-- `_calculate_percentile`.
use open_terminal_k8s_proxy.Base.{
  ℕ, zero, suc, ◌-◌, ◌*◌, ◌/◌, min, ◌≤◌, ◌<◌, ◌≡◌, refl, ap, subst, Bool, List, [], ◌∷◌, length,
  filter, All, insert, sorted, ltb, leb, arith, Bool-cases, inl, inr,
}

-- `xs[i]`, with 0 out of range
abbrev pub get_elem : List ℕ → ℕ → ℕ
get_elem [] i = 0
get_elem (x ∷ xs) zero = x
get_elem (x ∷ xs) (suc i) = get_elem xs i

-- The index; a float has the floor of a quotient by 100 exactly, for lists of any real length.
abbrev pub index_of : ℕ → ℕ → ℕ
index_of len percentile = min (len * percentile / 100) (len - 1)

unfoldable pub calculate_percentile : List ℕ → ℕ → ℕ
calculate_percentile [] percentile = 0
calculate_percentile (x ∷ xs) percentile =
    let sorted_vals = sorted leb (x ∷ xs) in
    get_elem sorted_vals (index_of (length sorted_vals) percentile)

count-insert :
    (p : ℕ → Bool) (x : ℕ) (ys : List ℕ)
    → length (filter p (insert leb x ys)) ≡ length (filter p (x ∷ ys))
count-insert p x [] = refl
count-insert p x (y ∷ ys) = ground (arith, count-insert p x ys)

count-sorted :
    (p : ℕ → Bool) (xs : List ℕ) → length (filter p (sorted leb xs)) ≡ length (filter p xs)
unfolding sorted
count-sorted p [] = refl
count-sorted p (x ∷ xs) = ground (arith, count-insert p x (sorted leb xs), count-sorted p xs)

length-insert : (x : ℕ) (ys : List ℕ) → length (insert leb x ys) ≡ suc (length ys)
length-insert x [] = refl
length-insert x (y ∷ ys) = ground (arith, length-insert x ys)

length-sorted : (xs : List ℕ) → length (sorted leb xs) ≡ length xs
unfolding sorted
length-sorted [] = refl
length-sorted (x ∷ xs) = omega (arith, length-insert x (sorted leb xs), length-sorted xs)

abbrev IsAscending : List ℕ → Type 0
IsAscending [] = Unit
IsAscending (x ∷ xs) = All (λ y. x ≤ y) xs × IsAscending xs

All-insert :
    (z x : ℕ) (ys : List ℕ) → z ≤ x → All (λ y. z ≤ y) ys → All (λ y. z ≤ y) (insert leb x ys)
All-insert z x [] h a = (h, tt)
All-insert z x (y ∷ ys) h a = ground (arith, All-insert z x ys h a.1)

All-trans : (z x : ℕ) (ys : List ℕ) → z ≤ x → All (λ y. x ≤ y) ys → All (λ y. z ≤ y) ys
All-trans z x [] h a = tt
All-trans z x (y ∷ ys) h a = (omega (arith, h, a.0), All-trans z x ys h a.1)

insert-IsAscending : (x : ℕ) (ys : List ℕ) → IsAscending ys → IsAscending (insert leb x ys)
insert-IsAscending x [] s = (tt, tt)
insert-IsAscending x (y ∷ ys) s = elim (Bool-cases (leb x y)) [
  | inl below ↦ let h : x ≤ y = ground arith in rw below ((h, All-trans x y ys h s.0), s)
  | inr above ↦
      let h : y ≤ x = ground arith in
      rw above (All-insert y x ys h s.0, insert-IsAscending x ys s.1)
]

sorted-IsAscending : (xs : List ℕ) → IsAscending (sorted leb xs)
unfolding sorted
sorted-IsAscending [] = tt
sorted-IsAscending (x ∷ xs) = insert-IsAscending x (sorted leb xs) (sorted-IsAscending xs)

none_below : (v : ℕ) (ys : List ℕ) → All (λ y. v ≤ y) ys → length (filter (λ y. ltb y v) ys) ≡ 0
none_below v [] a = refl
none_below v (y ∷ ys) a = ground (arith, none_below v ys a.1)

bounded_elem : (x i : ℕ) (ys : List ℕ) → All (λ y. x ≤ y) ys → i < length ys → x ≤ get_elem ys i
bounded_elem x i [] a h = absurd (omega (arith, h))
bounded_elem x zero (y ∷ ys) a h = a.0
bounded_elem x (suc i) (y ∷ ys) a h = bounded_elem x i ys a.1 (omega (arith, h))

-- In an ascending list, the element at `i` has at most `i` elements below it and more than `i` that
-- are not above it.
ranked :
    (ys : List ℕ) (i : ℕ)
    → IsAscending ys
    → i < length ys
    → (length (filter (λ y. ltb y (get_elem ys i)) ys) ≤ i)
      × (i < length (filter (λ y. leb y (get_elem ys i)) ys))
ranked [] i s h = absurd (omega (arith, h))
ranked (y ∷ ys) zero s h = ground (arith, none_below y ys s.0)
ranked (y ∷ ys) (suc i) s h =
    let (few, enough) = ranked ys i s.1 (omega (arith, h)) in
    let low = bounded_elem y i ys s.0 (omega (arith, h)) in ground (arith, few, enough, low)

indexed :
    (values : List ℕ) (percentile : ℕ)
    → calculate_percentile values percentile
      ≡ get_elem (sorted leb values) (index_of (length values) percentile)
unfolding calculate_percentile sorted
indexed [] percentile = refl
indexed (x ∷ xs) percentile =
    ap (λ k. get_elem (sorted leb (x ∷ xs)) (index_of k percentile)) (length-sorted (x ∷ xs))

-- Of a list with an element, the percentile is the order statistic of its index, which is the part
-- of the length that the percentage says, or the last index if that is less: at most that many
-- values are less than it, and more than that many are not greater.
pub calculate_percentile_ranks :
    (values : List ℕ) (percentile : ℕ)
    → 0 < length values
    → let v = calculate_percentile values percentile in
      let i = min (length values * percentile / 100) (length values - 1) in
      (length (filter (λ x. ltb x v) values) ≤ i) × (i < length (filter (λ x. leb x v) values))
calculate_percentile_ranks values percentile h =
    let i = index_of (length values) percentile in
    let v = get_elem (sorted leb values) i in
    let (few, enough) =
      ranked (sorted leb values) i (sorted-IsAscending values)
        (omega (arith, length-sorted values, h)) in
    rw (indexed values percentile) (
      subst (λ k. k ≤ i) (count-sorted (λ y. ltb y v) values) few,
      subst (λ k. i < k) (count-sorted (λ y. leb y v) values) enough,
    )
