-- ===== src/Daemon/Notifications/Buffer.antt =====
-- What the buffer holds and what a poll returns.
use howm.Base.{
  filter_cong, ℕ, ◌+◌, ◌-◌, ◌%◌, ◌^◌, ◌≤◌, ◌<◌, ◌≡◌, refl, ap, ◌∙◌, Bool, true, List, [], ◌∷◌, ◌++◌,
  filter, any, All, All-mono, length, length-append, leb, ltb, nat_eq, arith, Bool-cases, inl, inr,
}
use howm.Daemon.Notifications.{
  PushRequest, Notification, NotificationBuffer, max_entries, expiry_ms, new_buffer, prune,
  pop_front, evict, notification_of, push, poll,
}
use howm.Daemon.Notifications.Numbers.{
  InSequence, Distinct, drop_while-InSequence, pop_front-InSequence, snoc-InSequence,
  InSequence-Distinct,
}
use howm.Daemon.Notifications.Rising.{
  Rising, drop_while-filter, All-drop_while, Rising-drop_while, length-drop_while-le, All-pop_front,
  Rising-pop_front, All-snoc, Rising-snoc, any-filter-drop_while,
}

-- At most 50 entries, in the order of their times, with numbers in sequence up to the next.
abbrev pub IsBuffer : ℕ → NotificationBuffer → Type 0
IsBuffer now b =
    (length b.entries ≤ max_entries)
    × Rising 0 (λ n. n.created_at) b.entries
    × InSequence b.entries b.next_id
    × All (λ n. n.created_at ≤ now) b.entries

abbrev is_old : ℕ → Notification → Bool
is_old now n = ltb n.created_at (now - expiry_ms)

prune-IsBuffer :
    (before now : ℕ) (b : NotificationBuffer)
    → before ≤ now
    → IsBuffer before b
    → IsBuffer now (prune now b)
unfolding prune
prune-IsBuffer before now b later (size, times, ids, past) = (
  ground (arith, length-drop_while-le (is_old now) b.entries),
  Rising-drop_while 0 (λ n. n.created_at) (is_old now) b.entries times,
  drop_while-InSequence (is_old now) b.entries b.next_id ids,
  All-drop_while (λ n. n.created_at ≤ now) (is_old now) b.entries
      (All-mono {P = λ n. n.created_at ≤ before} (λ n k. omega arith) b.entries past),
)

length-pop_front : (ns : List Notification) → 1 ≤ length ns → 1 + length (pop_front ns) ≡ length ns
length-pop_front [] h = ground arith
length-pop_front (n ∷ ns) h = omega arith

evict-IsBuffer :
    (now next : ℕ) (ns : List Notification)
    → IsBuffer now (record { entries = ns; next_id = next })
    → IsBuffer now (record { entries = evict ns; next_id = next })
      × (1 + length (evict ns) ≤ max_entries)
evict-IsBuffer now next ns (size, times, ids, past) =
    elim (Bool-cases (leb max_entries (length ns))) [
      | inl e ↦
          let shorter = length-pop_front ns (ground arith) in
          rw e (
            (
              omega (arith, shorter, size),
              Rising-pop_front 0 (λ n. n.created_at) ns times,
              pop_front-InSequence ns next ids,
              All-pop_front (λ n. n.created_at ≤ now) ns past,
            ),
            omega (arith, shorter, size),
          )
      | inr e ↦ rw e ((size, times, ids, past), ground arith)
    ]

pub push-IsBuffer :
    (before now : ℕ) (req : PushRequest) (b : NotificationBuffer)
    → before ≤ now
    → IsBuffer before b
    → IsBuffer now (push now req b).0
unfolding push
push-IsBuffer before now req b later h =
    added (evict-IsBuffer now b.next_id (prune now b).entries (prune-IsBuffer before now b later h))
  where
    kept : List Notification
    kept = evict (prune now b).entries

    entry : Notification
    entry = notification_of now req b.next_id

    added :
        IsBuffer now (record { entries = kept; next_id = b.next_id })
          × (1 + length kept ≤ max_entries)
        → IsBuffer now (record { entries = kept ++ entry ∷ []; next_id = (b.next_id + 1) % 2 ^ 64 })
    added ((size, times, ids, past), room) = (
      omega (arith, length-append kept (entry ∷ []), room),
      Rising-snoc 0 (λ n. n.created_at) kept entry times
          (All-mono {P = λ n. n.created_at ≤ now} (λ n k. omega arith) kept past),
      snoc-InSequence kept entry ids,
      All-snoc (λ n. n.created_at ≤ now) kept entry (omega arith) past,
    )

pub poll-IsBuffer :
    (before now since : ℕ) (b : NotificationBuffer)
    → before ≤ now
    → IsBuffer before b
    → IsBuffer now (poll now since b).0
unfolding poll
poll-IsBuffer before now since b later h = prune-IsBuffer before now b later h

-- The buffers that pushes and polls lead to, at times that do not fall.
pub data Reached : ℕ → NotificationBuffer → Type 0 where
  start : (now : ℕ) → Reached now new_buffer
  pushed :
      {before : ℕ} {b : NotificationBuffer} (now : ℕ) (req : PushRequest)
      → before ≤ now
      → Reached before b
      → Reached now (push now req b).0
  polled :
      {before : ℕ} {b : NotificationBuffer} (now since : ℕ)
      → before ≤ now
      → Reached before b
      → Reached now (poll now since b).0

run-IsBuffer : {now : ℕ} {b : NotificationBuffer} → Reached now b → IsBuffer now b
run-IsBuffer (start now) = (omega arith, tt, (1, omega arith, refl), tt)
run-IsBuffer (pushed {before} {b} now req later h) =
    push-IsBuffer before now req b later (run-IsBuffer h)
run-IsBuffer (polled {before} {b} now since later h) =
    poll-IsBuffer before now since b later (run-IsBuffer h)

-- A buffer that pushes and polls lead to, at times that do not fall, has at most 50 entries, in the order of
-- their times, none from the future; their numbers follow one another around 2 ^ 64 up to the next one, and
-- no two entries have the same number.
pub Reached-IsBuffer :
    {now : ℕ} {b : NotificationBuffer} → Reached now b → IsBuffer now b × Distinct b.entries
Reached-IsBuffer {now} {b} h =
    let (size, times, ids, past) = run-IsBuffer h in
    ((size, times, ids, past), InSequence-Distinct b.entries b.next_id size ids)

-- A poll of such a buffer returns the entries later than the given time that are not over a minute old, in
-- their order.
pub poll-Reached :
    {before : ℕ} {b : NotificationBuffer} (now since : ℕ)
    → Reached before b
    → (poll now since b).1
      ≡ filter
          (λ n. ltb since n.created_at)
          (filter (λ n. leb now (n.created_at + expiry_ms)) b.entries)
unfolding poll prune
poll-Reached {before} {b} now since h = ap (filter (λ n. ltb since n.created_at)) (
    drop_while-filter (λ n. n.created_at) (now - expiry_ms) b.entries (run-IsBuffer h).1
    ∙ filter_cong (λ n. leb (now - expiry_ms) n.created_at)
        (λ n. leb now (n.created_at + expiry_ms)) b.entries (λ n. ground arith))

-- If the next operation after a push is a poll at most a minute later, and it asks for what is
-- newer than a time before the push, an entry with the number of the push is among those
-- returned.
pub poll-push :
    (now later since : ℕ) (req : PushRequest) (b : NotificationBuffer)
    → since < now
    → later ≤ now + expiry_ms
    → any (λ n. nat_eq n.id b.next_id) (poll later since (push now req b).0).1 ≡ true
unfolding poll push prune
poll-push now later since req b h k =
    any-filter-drop_while (λ n. nat_eq n.id b.next_id) (λ n. ltb since n.created_at) (is_old later)
      (evict (prune now b).entries) (notification_of now req b.next_id) (ground arith)
      (ground arith) (ground arith)
