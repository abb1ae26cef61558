-- ===== src/Examples/Daemon.antt =====
-- The notifications of one capability.
use howm.Base.{
  ◌+◌, ◌≤◌, ◌≡◌, true, none, [], ◌∷◌, bytes, Text, bytes_ord, any, filter, length, leb, nat_eq,
  lookup, insert, arith,
}
use howm.Daemon.Notifications.{
  PushRequest, info, new_buffer, push, poll, prune, drop_while, check_and_record, notification_of,
}
use howm.Daemon.Notifications.Buffer.{
  Reached, start, pushed, IsBuffer, Reached-IsBuffer, poll-Reached, poll-push,
}
use howm.Daemon.Notifications.Numbers.{Distinct}
use howm.Daemon.Notifications.Rate.{Calls, call, Calls-limit}
use howm.Daemon.Notifications.Rate

abbrev feed : Text
feed = bytes "feed"

abbrev request : PushRequest
request = record {
  capability = feed;
  level = info;
  title = bytes "new";
  message = bytes "post";
  action = none;
}

pushed_once : Reached 1000 (push 1000 request new_buffer).0
pushed_once = pushed 1000 request (omega arith) (start 500)

Reached-IsBuffer_example :
    let b = (push 1000 request new_buffer).0 in IsBuffer 1000 b × Distinct b.entries
Reached-IsBuffer_example = Reached-IsBuffer pushed_once

poll-Reached_example :
    (poll 2000 900 (push 1000 request new_buffer).0).1 ≡ notification_of 1000 request 1 ∷ []
unfolding push prune drop_while
poll-Reached_example = poll-Reached 2000 900 pushed_once

poll-push_example :
    any (λ n. nat_eq n.id 1) (poll 2000 900 (push 1000 request new_buffer).0).1 ≡ true
poll-push_example = poll-push 1000 2000 900 request new_buffer (omega arith) (omega arith)

-- A limit of one push in ten milliseconds, and pushes at 5 and 7.
Calls-limit_example : length (filter (λ t. leb 7 (t + 10)) (5 ∷ [])) ≤ 1
unfolding check_and_record lookup insert drop_while
Calls-limit_example =
    Calls-limit {limit = 1} {window = 10} {c = feed}
      (call 7 feed (omega arith) (call 5 feed (omega arith) Rate.start))
