-- ===== src/Daemon/Notifications/Rate.antt =====
-- How many pushes of a capability the limiter lets through.
use howm.Base.{
  filter_cong, ℕ, ◌+◌, ◌-◌, ◌≤◌, ◌≡◌, refl, sym, ap, ◌∙◌, subst, Bool, not, ◌&&◌, List, [], ◌∷◌,
  ◌++◌, Text, bytes_ord, ◌==◌, ==→eq, lookup, lookup-insert, filter, All, All-mono, length,
  length-append, length-filter-le, leb, ltb, unwrap_or, if◌then◌else◌, arith, Bool-cases, inl, inr,
}
use howm.Daemon.Notifications.{
  PushRateLimiter, new_limiter, drop_while, window_of, check_and_record,
}
use howm.Daemon.Notifications.Rising.{
  Rising, drop_while-filter, All-drop_while, Rising-drop_while, length-drop_while-le, All-snoc,
  Rising-snoc,
}

abbrev time : ℕ → ℕ
time t = t

abbrev pub since : ℕ → List ℕ → List ℕ
since cutoff = filter (λ t. leb cutoff t)

-- Calls at times that do not fall, for any capabilities, and the times of those of one capability that were
-- let through.
pub data Calls (limit window : ℕ) (c : Text) : ℕ → List ℕ → PushRateLimiter → Type 0 where
  start : Calls limit window c 0 [] (new_limiter limit window)
  call :
      {before : ℕ} {passed : List ℕ} {l : PushRateLimiter} (now : ℕ) (d : Text)
      → before ≤ now
      → Calls limit window c before passed l
      → Calls limit window c now
          (if d == c && (check_and_record now d l).1 then passed ++ now ∷ [] else passed)
          (check_and_record now d l).0

pruned : ℕ → Text → PushRateLimiter → List ℕ
pruned now d l = drop_while (λ t. ltb t (now - l.window_ms)) (window_of d l)

checked : ℕ → Text → PushRateLimiter → List ℕ
unfolding pruned
checked now d l =
    if leb l.limit (length (pruned now d l)) then pruned now d l else pruned now d l ++ now ∷ []

window_of-check_and_record :
    (now : ℕ) (d c : Text) (l : PushRateLimiter)
    → window_of c (check_and_record now d l).0 ≡ (if d == c then checked now d l else window_of c l)
unfolding check_and_record checked pruned
window_of-check_and_record now d c l = elim (Bool-cases (leb l.limit (length (pruned now d l)))) [
  | inl e ↦
      rw e (ap (λ o. unwrap_or o []) (lookup-insert c d (pruned now d l) l.windows) ∙ ground arith)
  | inr e ↦ rw e (
      ap (λ o. unwrap_or o []) (lookup-insert c d (pruned now d l ++ now ∷ []) l.windows)
      ∙ ground arith)
]

filter-append :
    (f : ℕ → Bool) (xs : List ℕ) (y : ℕ)
    → filter f (xs ++ y ∷ []) ≡ filter f xs ++ (if f y then y ∷ [] else [])
filter-append f [] y = ground arith
filter-append f (x ∷ xs) y = ground (arith, filter-append f xs y)

since-since : (low high : ℕ) (xs : List ℕ) → low ≤ high → since high (since low xs) ≡ since high xs
since-since low high [] h = refl
since-since low high (x ∷ xs) h = ground (arith, since-since low high xs h)

-- A window against the calls let through: it agrees with them from the cutoff on.
abbrev Tracks : ℕ → ℕ → ℕ → List ℕ → List ℕ → Type 0
Tracks limit window now passed ts =
    (length ts ≤ limit)
    × Rising 0 time ts
    × All (λ t. t ≤ now) ts
    × ((k : ℕ) → now ≤ k + window → since k ts ≡ since k passed)

module _ (limit window now : ℕ) (passed ts : List ℕ) where
  later-Tracks :
      (before : ℕ)
      → before ≤ now
      → Tracks limit window before passed ts
      → Tracks limit window now passed ts
  later-Tracks before h (size, times, past, agree) = (
    size,
    times,
    All-mono {P = λ t. t ≤ before} (λ t k. omega arith) ts past,
    λ k l. agree k (omega arith),
  )

  pruned-Tracks :
      Tracks limit window now passed ts
      → Tracks limit window now passed (drop_while (λ t. ltb t (now - window)) ts)
  pruned-Tracks (size, times, past, agree) = (
    omega (arith, size, length-drop_while-le (λ t. ltb t (now - window)) ts),
    Rising-drop_while 0 time (λ t. ltb t (now - window)) ts times,
    All-drop_while (λ t. t ≤ now) (λ t. ltb t (now - window)) ts past,
    λ k l.
        ap (since k) (drop_while-filter time (now - window) ts times)
        ∙ since-since (now - window) k ts (omega arith)
        ∙ agree k l,
  )

  added-Tracks :
      1 + length ts ≤ limit
      → Tracks limit window now passed ts
      → Tracks limit window now (passed ++ now ∷ []) (ts ++ now ∷ [])
  added-Tracks room (size, times, past, agree) = (
    omega (arith, room, length-append ts (now ∷ [])),
    Rising-snoc 0 time ts now times (All-mono {P = λ t. t ≤ now} (λ t k. omega arith) ts past),
    All-snoc (λ t. t ≤ now) ts now (omega arith) past,
    λ k l.
        filter-append (λ t. leb k t) ts now
        ∙ rw (agree k l) (sym (filter-append (λ t. leb k t) passed now)),
  )

check_and_record-limits :
    (now : ℕ) (d : Text) (l : PushRateLimiter)
    → ((check_and_record now d l).0.limit ≡ l.limit)
      × ((check_and_record now d l).0.window_ms ≡ l.window_ms)
unfolding check_and_record
check_and_record-limits now d l = ground arith

answered :
    (now : ℕ) (d : Text) (l : PushRateLimiter)
    → (check_and_record now d l).1 ≡ not (leb l.limit (length (pruned now d l)))
unfolding check_and_record pruned
answered now d l = ground arith

checked-Tracks :
    (now : ℕ) (d : Text) (l : PushRateLimiter) (passed : List ℕ)
    → Tracks l.limit l.window_ms now passed (window_of d l)
    → Tracks l.limit l.window_ms now
        (if (check_and_record now d l).1 then passed ++ now ∷ [] else passed)
        (checked now d l)
unfolding checked
checked-Tracks now d l passed h = elim (Bool-cases (leb l.limit (length (pruned now d l)))) [
  | inl e ↦ rw (answered now d l, e) kept
  | inr e ↦
      rw (answered now d l, e)
        (added-Tracks l.limit l.window_ms now passed (pruned now d l) (ground arith) kept)
]
  where
    kept : Tracks l.limit l.window_ms now passed (pruned now d l)
    kept = unfold pruned in pruned-Tracks l.limit l.window_ms now passed (window_of d l) h

abbrev Follows : ℕ → ℕ → ℕ → Text → List ℕ → PushRateLimiter → Type 0
Follows limit window now c passed l =
    (l.limit ≡ limit)
    × (l.window_ms ≡ window)
    × Tracks l.limit l.window_ms now passed (window_of c l)

call-Follows :
    (limit window before now : ℕ) (c d : Text) (passed : List ℕ) (l : PushRateLimiter)
    → before ≤ now
    → Follows limit window before c passed l
    → Follows limit window now c
        (if d == c && (check_and_record now d l).1 then passed ++ now ∷ [] else passed)
        (check_and_record now d l).0
call-Follows limit window before now c d passed l later (limits, windows, h) = (
  (check_and_record-limits now d l).0 ∙ limits,
  (check_and_record-limits now d l).1 ∙ windows,
  rw
      (
        (check_and_record-limits now d l).0,
        (check_and_record-limits now d l).1,
        window_of-check_and_record now d c l,
      )
      (elim (Bool-cases (d == c)) [
        | inl e ↦ rw e (
            checked-Tracks now d l passed (
              subst (λ x. Tracks l.limit l.window_ms now passed (window_of x l)) (sym (==→eq d c e))
                still))
        | inr e ↦ rw e still
      ]),
)
  where
    still : Tracks l.limit l.window_ms now passed (window_of c l)
    still = later-Tracks l.limit l.window_ms now passed (window_of c l) before later h

Calls-Follows :
    {limit window : ℕ} {c : Text} {now : ℕ} {passed : List ℕ} {l : PushRateLimiter}
    → Calls limit window c now passed l
    → Follows limit window now c passed l
unfolding lookup
Calls-Follows start = (refl, refl, (omega arith, tt, tt, λ k h. refl))
Calls-Follows {limit} {window} {c = c} (call {before} {passed} {l} now d later h) =
    call-Follows limit window before now c d passed l later (Calls-Follows h)

-- After any calls at times that do not fall, whatever the capabilities: of the pushes of one capability, at
-- most the limit were let through within the window that ends at the last call.
pub Calls-limit :
    {limit window : ℕ} {c : Text} {now : ℕ} {passed : List ℕ} {l : PushRateLimiter}
    → Calls limit window c now passed l
    → length (filter (λ t. leb now (t + window)) passed) ≤ limit
Calls-limit {limit} {window} {c} {now} {passed} {l} h = within (Calls-Follows h)
  where
    within :
        Follows limit window now c passed l
        → length (filter (λ t. leb now (t + window)) passed) ≤ limit
    within (limits, windows, (size, times, past, agree)) =
        rw
          (
            filter_cong (λ t. leb now (t + window)) (λ t. leb (now - window) t) passed
                (λ t. ground arith),
            ← agree (now - window) (omega (arith, windows)),
          )
          (omega
            (arith, limits, size, length-filter-le (λ t. leb (now - window) t) (window_of c l)))
