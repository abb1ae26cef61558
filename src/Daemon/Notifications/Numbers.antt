-- ===== src/Daemon/Notifications/Numbers.antt =====
-- The numbers of the entries, which come from a counter that wraps around.
use howm.Base.{
  ℕ, ◌+◌, ◌%◌, ◌^◌, ◌≤◌, ◌<◌, ◌≡◌, ◌≢◌, sym, subst, ap, Bool, List, [], ◌∷◌, ◌++◌, All, length,
  arith, Bool-cases, inl, inr,
}
use howm.Daemon.Notifications.{Notification, max_entries, drop_while, pop_front}

-- The entries have the numbers from k on, around 2 ^ 64, and `next` comes after them.
abbrev pub Numbered : ℕ → List Notification → ℕ → Type 0
Numbered k [] next = k ≡ next
Numbered k (n ∷ ns) next = (n.id ≡ k) × Numbered ((k + 1) % 2 ^ 64) ns next

-- No two entries have the same number.
abbrev pub Distinct : List Notification → Type 0
Distinct [] = Unit {0}
Distinct (n ∷ ns) = All (λ m. m.id ≢ n.id) ns × Distinct ns

-- The numbers follow one another up to the next, the first below 2 ^ 64.
abbrev pub InSequence : List Notification → ℕ → Type 0
InSequence ns next = (k : ℕ) × (k < 2 ^ 64) × Numbered k ns next

tail-InSequence :
    (n : Notification) (ns : List Notification) (next : ℕ)
    → InSequence (n ∷ ns) next
    → InSequence ns next
tail-InSequence n ns next (k, below, (e, rest)) = ((k + 1) % 2 ^ 64, omega arith, rest)

pub drop_while-InSequence :
    (test : Notification → Bool) (ns : List Notification) (next : ℕ)
    → InSequence ns next
    → InSequence (drop_while test ns) next
unfolding drop_while
drop_while-InSequence test [] next h = h
drop_while-InSequence test (n ∷ ns) next h = elim (Bool-cases (test n)) [
  | inl e ↦ rw e (drop_while-InSequence test ns next (tail-InSequence n ns next h))
  | inr e ↦ rw e h
]

pub pop_front-InSequence :
    (ns : List Notification) (next : ℕ) → InSequence ns next → InSequence (pop_front ns) next
pop_front-InSequence [] next h = h
pop_front-InSequence (n ∷ ns) next h = tail-InSequence n ns next h

Numbered-snoc :
    (k : ℕ) (ns : List Notification) (n : Notification)
    → Numbered k ns n.id
    → Numbered k (ns ++ n ∷ []) ((n.id + 1) % 2 ^ 64)
Numbered-snoc k [] n e = (sym e, ap (λ j. (j + 1) % 2 ^ 64) e)
Numbered-snoc k (m ∷ ns) n (e, rest) = (e, Numbered-snoc ((k + 1) % 2 ^ 64) ns n rest)

pub snoc-InSequence :
    (ns : List Notification) (n : Notification)
    → InSequence ns n.id
    → InSequence (ns ++ n ∷ []) ((n.id + 1) % 2 ^ 64)
snoc-InSequence ns n (k, below, h) = (k, below, Numbered-snoc k ns n h)

-- The numbers from d after k on do not come to k again before they have gone around.
Numbered-ne :
    (k d : ℕ) (ns : List Notification) (next : ℕ)
    → k < 2 ^ 64
    → 1 ≤ d
    → d + length ns ≤ 2 ^ 64
    → Numbered ((k + d) % 2 ^ 64) ns next
    → All (λ m. m.id ≢ k) ns
Numbered-ne k d [] next below some_way room h = tt
Numbered-ne k d (n ∷ ns) next below some_way room (e, rest) = (
  λ same. omega (arith, e, same, below, some_way, room),
  Numbered-ne k (d + 1) ns next below (omega arith) (omega (arith, room))
      (subst (λ j. Numbered j ns next) (omega arith) rest),
)

pub InSequence-Distinct :
    (ns : List Notification) (next : ℕ) → length ns ≤ max_entries → InSequence ns next → Distinct ns
InSequence-Distinct [] next few h = tt
InSequence-Distinct (n ∷ ns) next few (k, below, (e, rest)) = (
  subst (λ i. All (λ m. m.id ≢ i) ns) (sym e)
      (Numbered-ne k 1 ns next below (omega arith) (omega (arith, few)) rest),
  InSequence-Distinct ns next (omega (arith, few)) ((k + 1) % 2 ^ 64, omega arith, rest),
)
