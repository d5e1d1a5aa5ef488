-- ===== src/Sensors/EventQueue/Invariant.antt =====
-- The counters of the pending queue.
use device_xiaomi_camellia.Base.{
  ℕ, ◌+◌, ◌≤◌, ◌≡◌, Bool, List, [], ◌∷◌, ◌++◌, arith, length, length-drop,
}
use device_xiaomi_camellia.Sensors.Platform.{Event}
use device_xiaomi_camellia.Sensors.EventQueue.{EventQueue, post, advance, step, Call, empty, run}

-- The events of all pending posts.
unfoldable pub total : List (List Event × ℕ) → ℕ
total [] = 0
total ((events, n) ∷ ps) = length events + total ps

total-append : (ps qs : List (List Event × ℕ)) → total (ps ++ qs) ≡ total ps + total qs
unfolding total
total-append [] qs = omega arith
total-append ((events, n) ∷ ps) qs = omega (arith, total-append ps qs)

pub record IsCounted (limit : ℕ) (q : EventQueue) : Type 0 where
  pub counted : q.size_pending ≡ total q.pending
  pub bounded : q.size_pending ≤ limit
  pub observed : q.size_pending ≤ q.most_observed
  pub observed_bounded : q.most_observed ≤ limit

post-IsCounted :
    (limit available : ℕ) (takes : Bool) (events : List Event) (n : ℕ) (q : EventQueue)
    → IsCounted limit q
    → IsCounted limit (step limit (post available takes events n) q)
unfolding step total
post-IsCounted limit available takes events n q v = grind (arith, total-append, length-drop)

advance-IsCounted :
    (limit quantum : ℕ) (takes : Bool) (q : EventQueue)
    → IsCounted limit q
    → IsCounted limit (step limit (advance quantum takes) q)
unfolding step total
advance-IsCounted limit quantum takes q v = grind (arith, length-drop)

pub empty-IsCounted : (limit : ℕ) → IsCounted limit empty
unfolding total
empty-IsCounted limit = omega arith

pub step-IsCounted :
    (limit : ℕ) (c : Call) (q : EventQueue) → IsCounted limit q → IsCounted limit (step limit c q)
step-IsCounted limit (post available takes events n) q v =
    post-IsCounted limit available takes events n q v
step-IsCounted limit (advance quantum takes) q v = advance-IsCounted limit quantum takes q v

run-IsCounted_from :
    (limit : ℕ) (cs : List Call) (q : EventQueue)
    → IsCounted limit q
    → IsCounted limit (run limit cs q)
unfolding run
run-IsCounted_from limit [] q v = v
run-IsCounted_from limit (c ∷ cs) q v =
    run-IsCounted_from limit cs (step limit c q) (step-IsCounted limit c q v)

-- After any interleaving of posts and rounds the counter of pending events is exact, and neither
-- it nor the largest value that it ever had exceeds the limit.
pub run-IsCounted : (limit : ℕ) (cs : List Call) → IsCounted limit (run limit cs empty)
run-IsCounted limit cs = run-IsCounted_from limit cs empty (empty-IsCounted limit)
