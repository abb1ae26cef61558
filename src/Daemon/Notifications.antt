-- ===== src/Daemon/Notifications.antt =====
-- node/daemon/src/notifications.rs: the buffer of notifications and the limit on their rate. The clock,
-- in milliseconds, is an argument.
pub mod Rising
pub mod Numbers
pub mod Buffer
pub mod Rate
use howm.Base.{
  ℕ, ◌+◌, ◌-◌, ◌%◌, ◌^◌, Bool, true, false, Option, none, some, List, [], ◌∷◌, ◌++◌, Text,
  bytes_ord, Map, lookup, insert, filter, length, leb, ltb, unwrap_or, if◌then◌else◌,
}

pub data NotifyLevel : Type 0 where
  info success warning failure : NotifyLevel

pub record PushRequest : Type 0 where
  pub capability : Text
  pub level : NotifyLevel
  pub title : Text
  pub message : Text
  pub action : Option Text

-- The id is the number in `notif-{id}`.
pub record Notification : Type 0 where
  pub id : ℕ
  pub capability : Text
  pub level : NotifyLevel
  pub title : Text
  pub message : Text
  pub action : Option Text
  pub created_at : ℕ

-- `next_id` is an `AtomicU64`, whose `fetch_add` wraps around.
pub record NotificationBuffer : Type 0 where
  pub entries : List Notification
  pub next_id : ℕ

abbrev pub max_entries : ℕ
max_entries = 50

abbrev pub expiry_ms : ℕ
expiry_ms = 60000

abbrev pub new_buffer : NotificationBuffer
new_buffer = record { entries = []; next_id = 1 }

-- `while front().map(test).unwrap_or(false) { pop_front() }`
unfoldable pub drop_while {ℓ} : {A : Type ℓ} → (A → Bool) → List A → List A
drop_while test [] = []
drop_while test (x ∷ xs) = let rest = drop_while test xs in if test x then rest else x ∷ xs

unfoldable pub prune : ℕ → NotificationBuffer → NotificationBuffer
prune now b = record b { entries = drop_while (λ n. ltb n.created_at (now - expiry_ms)) b.entries }

-- `pop_front`
abbrev pub pop_front {ℓ} : {A : Type ℓ} → List A → List A
pop_front [] = []
pop_front (x ∷ xs) = xs

abbrev pub evict : List Notification → List Notification
evict ns = if leb max_entries (length ns) then pop_front ns else ns

abbrev pub notification_of : ℕ → PushRequest → ℕ → Notification
notification_of now req id = record {
  id = id;
  capability = req.capability;
  level = req.level;
  title = req.title;
  message = req.message;
  action = req.action;
  created_at = now;
}

-- The buffer after the push, and the new entry.
unfoldable pub push : ℕ → PushRequest → NotificationBuffer → NotificationBuffer × Notification
unfolding prune
push now req b =
    let n = notification_of now req b.next_id in
    (
      record {
        entries = evict (prune now b).entries ++ n ∷ [];
        next_id = (b.next_id + 1) % 2 ^ 64;
      },
      n,
    )

unfoldable pub poll : ℕ → ℕ → NotificationBuffer → NotificationBuffer × List Notification
unfolding prune
poll now since b =
    let pruned = prune now b in (pruned, filter (λ n. ltb since n.created_at) pruned.entries)

-- The times of the pushes of each capability.
pub record PushRateLimiter : Type 0 where
  pub windows : Map Text (List ℕ)
  pub limit : ℕ
  pub window_ms : ℕ

abbrev pub new_limiter : ℕ → ℕ → PushRateLimiter
new_limiter limit window_ms = record { windows = []; limit = limit; window_ms = window_ms }

abbrev pub window_of : Text → PushRateLimiter → List ℕ
window_of capability l = unwrap_or (lookup capability l.windows) []

abbrev pub put_window : Text → List ℕ → PushRateLimiter → PushRateLimiter
put_window capability window l = record l { windows = insert capability window l.windows }

-- The window of the capability is made where there is none, and pruned, also where the push is refused.
unfoldable pub check_and_record : ℕ → Text → PushRateLimiter → PushRateLimiter × Bool
check_and_record now capability l =
    let window = drop_while (λ t. ltb t (now - l.window_ms)) (window_of capability l) in
    if leb l.limit (length window)
    then (put_window capability window l, false)
    else (put_window capability (window ++ now ∷ []) l, true)
