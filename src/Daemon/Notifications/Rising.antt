-- ===== src/Daemon/Notifications/Rising.antt =====
-- Lists whose keys rise by at least a gap from each entry to the next, and loops that shorten them from
-- the front.
use howm.Base.{
  ℕ, ◌+◌, ◌≤◌, ◌≡◌, refl, sym, ap, Bool, true, false, List, [], ◌∷◌, ◌++◌, filter, any, All,
  All-mono, length, leb, ltb, arith, Bool-cases, inl, inr,
}
use howm.Daemon.Notifications.{drop_while, pop_front}

abbrev pub Rising {ℓ} : {A : Type ℓ} → ℕ → (A → ℕ) → List A → Type 0
Rising gap key [] = Unit {0}
Rising gap key (x ∷ xs) = All (λ y. gap + key x ≤ key y) xs × Rising gap key xs

module _ {A : Type 0} where
  pub filter-All : (f : A → Bool) (xs : List A) → All (λ x. f x ≡ true) xs → filter f xs ≡ xs
  filter-All f [] h = refl
  filter-All f (x ∷ xs) h = rw h.0 (ap (λ ys. x ∷ ys) (filter-All f xs h.1))

  -- On keys that do not fall, the loop from the front drops all that are below the cutoff.
  pub drop_while-filter :
      (key : A → ℕ) (cutoff : ℕ) (xs : List A)
      → Rising 0 key xs
      → drop_while (λ x. ltb (key x) cutoff) xs ≡ filter (λ x. leb cutoff (key x)) xs
  unfolding drop_while
  drop_while-filter key cutoff [] h = refl
  drop_while-filter key cutoff (x ∷ xs) h = elim (Bool-cases (ltb (key x) cutoff)) [
    | inl e ↦
        let below : leb cutoff (key x) ≡ false = ground arith in
        rw (e, below) (drop_while-filter key cutoff xs h.1)
    | inr e ↦
        let above : leb cutoff (key x) ≡ true = ground arith in
        let all_above : All (λ y. leb cutoff (key y) ≡ true) xs =
          All-mono {P = λ y. 0 + key x ≤ key y} (λ y k. ground arith) xs h.0 in
        rw (e, above) (ap (λ ys. x ∷ ys) (sym (filter-All (λ y. leb cutoff (key y)) xs all_above)))
  ]

  pub All-drop_while {μ} :
      (P : A → Type μ) (test : A → Bool) (xs : List A) → All P xs → All P (drop_while test xs)
  unfolding drop_while
  All-drop_while P test [] h = tt
  All-drop_while P test (x ∷ xs) h = elim (Bool-cases (test x)) [
    | inl e ↦ rw e (All-drop_while P test xs h.1)
    | inr e ↦ rw e h
  ]

  pub Rising-drop_while :
      (gap : ℕ) (key : A → ℕ) (test : A → Bool) (xs : List A)
      → Rising gap key xs
      → Rising gap key (drop_while test xs)
  unfolding drop_while
  Rising-drop_while gap key test [] h = tt
  Rising-drop_while gap key test (x ∷ xs) h = elim (Bool-cases (test x)) [
    | inl e ↦ rw e (Rising-drop_while gap key test xs h.1)
    | inr e ↦ rw e h
  ]

  pub length-drop_while-le :
      (test : A → Bool) (xs : List A) → length (drop_while test xs) ≤ length xs
  unfolding drop_while
  length-drop_while-le test [] = omega arith
  length-drop_while-le test (x ∷ xs) = ground (arith, length-drop_while-le test xs)

  pub All-pop_front {μ} : (P : A → Type μ) (xs : List A) → All P xs → All P (pop_front xs)
  All-pop_front P [] h = tt
  All-pop_front P (x ∷ xs) h = h.1

  pub Rising-pop_front :
      (gap : ℕ) (key : A → ℕ) (xs : List A) → Rising gap key xs → Rising gap key (pop_front xs)
  Rising-pop_front gap key [] h = tt
  Rising-pop_front gap key (x ∷ xs) h = h.1

  pub All-snoc {μ} : (P : A → Type μ) (xs : List A) (y : A) → P y → All P xs → All P (xs ++ y ∷ [])
  All-snoc P [] y k h = (k, tt)
  All-snoc P (x ∷ xs) y k h = (h.0, All-snoc P xs y k h.1)

  pub Rising-snoc :
      (gap : ℕ) (key : A → ℕ) (xs : List A) (y : A)
      → Rising gap key xs
      → All (λ x. gap + key x ≤ key y) xs
      → Rising gap key (xs ++ y ∷ [])
  Rising-snoc gap key [] y h k = (tt, tt)
  Rising-snoc gap key (x ∷ xs) y h k =
      (All-snoc (λ z. gap + key x ≤ key z) xs y k.0 h.0, Rising-snoc gap key xs y h.1 k.1)

  any-filter-last :
      (p q : A → Bool) (xs : List A) (y : A)
      → p y ≡ true
      → q y ≡ true
      → any p (filter q (xs ++ y ∷ [])) ≡ true
  any-filter-last p q [] y h k = ground arith
  any-filter-last p q (x ∷ xs) y h k = ground (arith, any-filter-last p q xs y h k)

  -- A last entry that the loop stops at is kept.
  pub any-filter-drop_while :
      (p q test : A → Bool) (xs : List A) (y : A)
      → p y ≡ true
      → q y ≡ true
      → test y ≡ false
      → any p (filter q (drop_while test (xs ++ y ∷ []))) ≡ true
  unfolding drop_while
  any-filter-drop_while p q test [] y h k l = ground arith
  any-filter-drop_while p q test (x ∷ xs) y h k l = elim (Bool-cases (test x)) [
    | inl e ↦ rw e (any-filter-drop_while p q test xs y h k l)
    | inr e ↦ rw e (any-filter-last p q (x ∷ xs) y h k)
  ]
