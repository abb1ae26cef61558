-- ===== src/Base/Sort.antt =====
-- Rust's stable `sort` and `sort_by`, as insertion sort by a key, and when two sorted lists are
-- one list.
use mathlib.Core.Path.{◌≡◌, refl, sym, ap₂, ◌∙◌}
use mathlib.Core.Bool.{true, false}
use mathlib.Core.Logic.{inl, inr}
use mathlib.Core.List.{List, [], ◌∷◌}
use mathlib.Core.Option.{Option, none, some}
use native.Mathlib.Omega.{arith}
use howm.Base.Tests.{if◌then◌else◌, Bool-cases}
use howm.Base.Lists.{All}
use howm.Base.Order.{Ord, ◌==◌, ==_self, ==→eq, ==_comm}

module _ {ℓ κ} {A : Type ℓ} {K : Type κ} ⦃o : Ord K⦄ (key : A → K) where
  unfoldable pub insert_by : A → List A → List A
  insert_by x [] = x ∷ []
  insert_by x (y ∷ ys) = if o.le (key x) (key y) then x ∷ y ∷ ys else y ∷ insert_by x ys

  unfoldable pub sort_by : List A → List A
  unfolding insert_by
  sort_by [] = []
  sort_by (x ∷ xs) = insert_by x (sort_by xs)

  -- The first entry with a key.
  abbrev pub find_by : K → List A → Option A
  find_by k [] = none
  find_by k (x ∷ xs) = if key x == k then some x else find_by k xs

  -- No two entries have one key.
  abbrev pub Distinct : List A → Type ℓ
  Distinct [] = Unit {ℓ}
  Distinct (x ∷ xs) = (find_by (key x) xs ≡ none) × Distinct xs

  abbrev pub Above : K → List A → Type κ
  Above k [] = Unit {κ}
  Above k (x ∷ xs) = (o.le k (key x) ≡ true) × ((key x == k) ≡ false) × Above k xs

  -- Strictly rising keys.
  abbrev pub StrictSorted : List A → Type (ℓ ⊔ κ)
  StrictSorted [] = Unit {ℓ ⊔ κ}
  StrictSorted (x ∷ xs) = Above (key x) xs × StrictSorted xs

  find_by-insert_by :
      (k : K) (x : A) (ys : List A)
      → find_by k (insert_by x ys) ≡ (if key x == k then some x else find_by k ys)
  unfolding insert_by
  find_by-insert_by k x [] = refl
  find_by-insert_by k x (y ∷ ys) =
      ground (
        arith,
        o.eqb_iff (key x) k,
        o.eqb_iff (key y) k,
        o.le_refl (key x),
        find_by-insert_by k x ys,
      )

  -- Sorting keeps the first entry of every key.
  pub find_by-sort_by : (k : K) (xs : List A) → find_by k (sort_by xs) ≡ find_by k xs
  unfolding sort_by
  find_by-sort_by k [] = refl
  find_by-sort_by k (x ∷ xs) = find_by-insert_by k x (sort_by xs) ∙ rw (find_by-sort_by k xs)

  Above-insert_by :
      (k : K) (x : A) (ys : List A)
      → o.le k (key x) ≡ true
      → (key x == k) ≡ false
      → Above k ys
      → Above k (insert_by x ys)
  unfolding insert_by
  Above-insert_by k x [] h n a = (h, n, tt)
  Above-insert_by k x (y ∷ ys) h n a = elim (Bool-cases (o.le (key x) (key y))) [
    | inl e ↦ rw e (h, n, a)
    | inr e ↦ rw e (a.0, a.1, Above-insert_by k x ys h n a.2)
  ]

  pub Above-mono : (k j : K) (ys : List A) → o.le k j ≡ true → Above j ys → Above k ys
  Above-mono k j [] h a = tt
  Above-mono k j (y ∷ ys) h a =
      let le_k : o.le k (key y) ≡ true = o.le_trans k j (key y) h a.0 in
      let ne_k : (key y == k) ≡ false = elim (Bool-cases (key y == k)) [
        | inl e ↦
            cc (
              a.1,
              (o.eqb_iff (key y) j).1 (o.le_antisymm (key y) j (rw (==→eq (key y) k e) h) a.0),
            )
        | inr e ↦ e
      ] in
      (le_k, ne_k, Above-mono k j ys h a.2)

  insert_by-StrictSorted :
      (x : A) (ys : List A)
      → StrictSorted ys
      → find_by (key x) ys ≡ none
      → StrictSorted (insert_by x ys)
  unfolding insert_by
  insert_by-StrictSorted x [] s n = (tt, tt)
  insert_by-StrictSorted x (y ∷ ys) s n = elim (Bool-cases (o.le (key x) (key y))) [
    | inl e ↦
        let ne : (key y == key x) ≡ false = ground arith in
        rw e ((e, ne, Above-mono (key x) (key y) ys e s.0), s)
    | inr e ↦
        let ne : (key x == key y) ≡ false = ground (arith, ==_comm (key x) (key y)) in
        rw e (
          Above-insert_by (key y) x ys (o.le_total (key x) (key y) e) ne s.0,
          insert_by-StrictSorted x ys s.1 (ground arith),
        )
  ]

  -- Sorting entries with distinct keys gives strictly rising keys.
  pub sort_by-StrictSorted : (xs : List A) → Distinct xs → StrictSorted (sort_by xs)
  unfolding sort_by
  sort_by-StrictSorted [] d = tt
  sort_by-StrictSorted (x ∷ xs) d =
      insert_by-StrictSorted x (sort_by xs) (sort_by-StrictSorted xs d.1)
        (find_by-sort_by (key x) xs ∙ d.0)

  find_by-Above : (k : K) (xs : List A) → Above k xs → find_by k xs ≡ none
  find_by-Above k [] a = refl
  find_by-Above k (x ∷ xs) a = rw a.1 (find_by-Above k xs a.2)

  Above-find_by :
      (k j : K) (xs : List A) (x : A) → Above k xs → find_by j xs ≡ some x → o.le k (key x) ≡ true
  Above-find_by k j [] x a e = cc
  Above-find_by k j (y ∷ ys) x a e = ground (arith, Above-find_by k j ys x a.2)

  tails_agree :
      (x : A) (xs ys : List A)
      → Above (key x) xs
      → Above (key x) ys
      → ((k : K) → find_by k (x ∷ xs) ≡ find_by k (x ∷ ys))
      → (k : K) → find_by k xs ≡ find_by k ys
  tails_agree x xs ys a b h k = elim (Bool-cases (key x == k)) [
    | inl e ↦
        let at_x : find_by (key x) xs ≡ find_by (key x) ys =
          find_by-Above (key x) xs a ∙ sym (find_by-Above (key x) ys b) in
        rw (← ==→eq (key x) k e) at_x
    | inr e ↦ rw e at (h k)
  ]

  heads_agree :
      (x y : A) (xs ys : List A)
      → Above (key x) xs
      → Above (key y) ys
      → find_by (key x) (x ∷ xs) ≡ find_by (key x) (y ∷ ys)
      → find_by (key y) (x ∷ xs) ≡ find_by (key y) (y ∷ ys)
      → x ≡ y
  heads_agree x y xs ys a b h g = elim (Bool-cases (key y == key x)) [
    | inl e ↦ ground (arith, ==_self (key x))
    | inr e ↦
        let below : o.le (key y) (key x) ≡ true =
          ground (arith, ==_self (key x), Above-find_by (key y) (key x) ys x b) in
        let above : o.le (key x) (key y) ≡ true =
          ground (
            arith,
            ==_self (key y),
            ==_comm (key x) (key y),
            Above-find_by (key x) (key y) xs y a,
          ) in
        cc (e, (o.eqb_iff (key y) (key x)).1 (o.le_antisymm (key y) (key x) below above))
  ]

  -- Two lists with strictly rising keys that find the same entries are one list.
  pub StrictSorted-eq :
      (xs ys : List A)
      → StrictSorted xs
      → StrictSorted ys
      → ((k : K) → find_by k xs ≡ find_by k ys)
      → xs ≡ ys
  StrictSorted-eq [] [] s t h = refl
  StrictSorted-eq [] (y ∷ ys) s t h = cc (h (key y), ==_self (key y))
  StrictSorted-eq (x ∷ xs) [] s t h = cc (h (key x), ==_self (key x))
  StrictSorted-eq (x ∷ xs) (y ∷ ys) s t h =
      let e : x ≡ y = heads_agree x y xs ys s.0 t.0 (h (key x)) (h (key y)) in
      let b : Above (key x) ys = rw e t.0 in
      let g : (k : K) → find_by k (x ∷ xs) ≡ find_by k (x ∷ ys) = λ k. h k ∙ rw e in
      ap₂ ◌∷◌ e (StrictSorted-eq xs ys s.1 t.1 (tails_agree x xs ys s.0 b g))

  -- So the order in which distinct entries come does not show in the sorted list.
  pub sort_by-eq :
      (xs ys : List A)
      → Distinct xs
      → Distinct ys
      → ((k : K) → find_by k xs ≡ find_by k ys)
      → sort_by xs ≡ sort_by ys
  sort_by-eq xs ys d e h =
      StrictSorted-eq (sort_by xs) (sort_by ys) (sort_by-StrictSorted xs d)
        (sort_by-StrictSorted ys e) (λ k. find_by-sort_by k xs ∙ h k ∙ sym (find_by-sort_by k ys))

  pub StrictSorted-Distinct : (xs : List A) → StrictSorted xs → Distinct xs
  StrictSorted-Distinct [] s = tt
  StrictSorted-Distinct (x ∷ xs) s = (find_by-Above (key x) xs s.0, StrictSorted-Distinct xs s.1)

  -- A sorted list stays as it is.
  pub sort_by_idem : (xs : List A) → StrictSorted xs → sort_by xs ≡ xs
  sort_by_idem xs s =
      StrictSorted-eq (sort_by xs) xs (sort_by-StrictSorted xs (StrictSorted-Distinct xs s)) s
        (λ k. find_by-sort_by k xs)

  All-insert_by {μ} :
      (P : A → Type μ) (x : A) (ys : List A) → P x → All P ys → All P (insert_by x ys)
  unfolding insert_by
  All-insert_by P x [] p a = (p, tt)
  All-insert_by P x (y ∷ ys) p a = elim (Bool-cases (o.le (key x) (key y))) [
    | inl e ↦ rw e (p, a)
    | inr e ↦ rw e (a.0, All-insert_by P x ys p a.1)
  ]

  pub All-sort_by {μ} : (P : A → Type μ) (xs : List A) → All P xs → All P (sort_by xs)
  unfolding sort_by
  All-sort_by P [] a = tt
  All-sort_by P (x ∷ xs) a = All-insert_by P x (sort_by xs) a.0 (All-sort_by P xs a.1)
