-- ===== src/Sensors/EventQueue/Drained.antt =====
-- The pending writes thread writes everything that is pending.
use device_xiaomi_camellia.Base.{
  ℕ, suc, ◌+◌, ◌*◌, ◌-◌, ◌≤◌, ◌<◌, ◌≡◌, refl, ◌∙◌, Bool, List, [], ◌∷◌, ◌++◌, All, append-nil,
  arith, length, length-drop, inl,
}
use device_xiaomi_camellia.Sensors.Platform.{Event}
use device_xiaomi_camellia.Sensors.EventQueue.{
  EventQueue, Writer, idle, writing, wrote, post, advance, step, Call, empty, run,
}
use device_xiaomi_camellia.Sensors.EventQueue.Order.{
  offered, undelivered, accepted_all, offered-run, HasFront, step-HasFront, accepted,
  run-order_from,
}

-- A post that is pending takes a round for each of its events at most, and one if it has none.
unfoldable pub rounds : List (List Event × ℕ) → ℕ
rounds [] = 0
rounds ((events, n) ∷ ps) = suc (length events) + rounds ps

-- How many parts of rounds the thread needs at most, of which there are three to a round.
abbrev parts_of : Writer → ℕ → ℕ
parts_of idle n = 3 * n
parts_of (writing size) n = 3 * n - 1
parts_of (wrote size) n = 3 * n - 2

unfoldable pub parts_left : EventQueue → ℕ
unfolding rounds
parts_left q = parts_of q.writer (rounds q.pending)

-- A call reads a positive quantum, as that of a queue that can hold an event.
abbrev pub IsPositive : Call → Type 0
IsPositive (post available takes events n) = Unit
IsPositive (advance quantum takes) = 0 < quantum

-- The quantum of a round that is under way is positive.
abbrev IsUnderWay : Writer → Type 0
IsUnderWay idle = Unit
IsUnderWay (writing size) = 0 < size
IsUnderWay (wrote size) = 0 < size

advance-IsUnderWay :
    (limit quantum : ℕ) (takes : Bool) (q : EventQueue) (w : Writer) (ps : List (List Event × ℕ))
    → q.writer ≡ w
    → q.pending ≡ ps
    → 0 < quantum
    → IsUnderWay w
    → IsUnderWay (step limit (advance quantum takes) q).writer
unfolding step
advance-IsUnderWay limit quantum takes q idle [] ew ep h k = ground arith
advance-IsUnderWay limit quantum takes q idle (p ∷ ps) ew ep h k = ground arith
advance-IsUnderWay limit quantum takes q (writing size) [] ew ep h k = ground arith
advance-IsUnderWay limit quantum takes q (writing size) (p ∷ ps) ew ep h k = ground arith
advance-IsUnderWay limit quantum takes q (wrote size) [] ew ep h k = ground arith
advance-IsUnderWay limit quantum takes q (wrote size) (p ∷ ps) ew ep h k = ground arith

step-IsUnderWay :
    (limit : ℕ) (c : Call) (q : EventQueue)
    → IsPositive c
    → IsUnderWay q.writer
    → IsUnderWay (step limit c q).writer
unfolding step
step-IsUnderWay limit (post available takes events n) q h k = ground arith
step-IsUnderWay limit (advance quantum takes) q h k =
    advance-IsUnderWay limit quantum takes q q.writer q.pending refl refl h k

advance-parts_left :
    (limit quantum : ℕ) (takes : Bool) (q : EventQueue) (w : Writer) (ps : List (List Event × ℕ))
    → q.writer ≡ w
    → q.pending ≡ ps
    → 0 < quantum
    → HasFront q
    → IsUnderWay w
    → parts_left (step limit (advance quantum takes) q) ≤ parts_left q - 1
unfolding step parts_left
advance-parts_left limit quantum takes q idle [] ew ep h front k = ground arith
advance-parts_left limit quantum takes q (writing size) [] ew ep h front k = ground arith
advance-parts_left limit quantum takes q (wrote size) [] ew ep h front k = ground arith
advance-parts_left limit quantum takes q idle (p ∷ ps) ew ep h front k = ground arith
advance-parts_left limit quantum takes q (writing size) ((events, n) ∷ ps) ew ep h front k =
    ground arith
advance-parts_left limit quantum takes q (wrote size) ((events, n) ∷ ps) ew ep h front k =
    ground (arith, length-drop size events)

-- Nothing is left to write once no part is left.
parts_left-zero :
    (q : EventQueue) (w : Writer) (ps : List (List Event × ℕ))
    → q.writer ≡ w
    → q.pending ≡ ps
    → parts_left q ≡ 0
    → HasFront q
    → (q.pending ≡ []) × (undelivered q ≡ [])
unfolding parts_left undelivered
parts_left-zero q w [] ew ep none front = ground arith
parts_left-zero q idle ((events, n) ∷ ps) ew ep none front = ground arith
parts_left-zero q (writing size) ((events, n) ∷ ps) ew ep none front = ground arith
parts_left-zero q (wrote size) ((events, n) ∷ ps) ew ep none front = ground arith

-- The state between calls: what a round needs.
record IsRunning (q : EventQueue) : Type 0 where
  front : HasFront q
  under_way : IsUnderWay q.writer

step-IsRunning :
    (limit : ℕ) (c : Call) (q : EventQueue)
    → IsPositive c
    → IsRunning q
    → IsRunning (step limit c q)
step-IsRunning limit c q h r = record {
  front = step-HasFront limit c q r.front;
  under_way = step-IsUnderWay limit c q h r.under_way;
}

run-IsRunning :
    (limit : ℕ) (cs : List Call) (q : EventQueue)
    → All IsPositive cs
    → IsRunning q
    → IsRunning (run limit cs q)
unfolding run
run-IsRunning limit [] q h r = r
run-IsRunning limit (c ∷ cs) q (h, hs) r =
    run-IsRunning limit cs (step limit c q) hs (step-IsRunning limit c q h r)

-- The parts of rounds of the thread, each with the quantum that it reads and the answer that it
-- gets.
pub advances : List (ℕ × Bool) → List Call
advances [] = []
advances ((quantum, takes) ∷ more) = advance quantum takes ∷ advances more

advances-IsPositive :
    (thread : List (ℕ × Bool)) → All (λ part. 0 < part.0) thread → All IsPositive (advances thread)
unfolding advances
advances-IsPositive [] h = tt
advances-IsPositive ((quantum, takes) ∷ more) (h, hs) = (h, advances-IsPositive more hs)

accepted_all-advances :
    (limit : ℕ) (thread : List (ℕ × Bool)) (q : EventQueue)
    → accepted_all limit (advances thread) q ≡ []
unfolding advances accepted_all accepted
accepted_all-advances limit [] q = refl
accepted_all-advances limit ((quantum, takes) ∷ more) q =
    accepted_all-advances limit more (step limit (advance quantum takes) q)

run-parts_left :
    (limit : ℕ) (thread : List (ℕ × Bool)) (q : EventQueue)
    → All (λ part. 0 < part.0) thread
    → IsRunning q
    → parts_left (run limit (advances thread) q) ≤ parts_left q - length thread
unfolding run advances
run-parts_left limit [] q h r = omega arith
run-parts_left limit ((quantum, takes) ∷ more) q (h, hs) r =
    let c = advance quantum takes in
    let rest = run-parts_left limit more (step limit c q) hs (step-IsRunning limit c q h r) in
    let here =
      advance-parts_left limit quantum takes q q.writer q.pending refl refl h r.front r.under_way in
    omega (arith, rest, here)

parts_left-le : (q : EventQueue) → parts_left q ≤ 3 * rounds q.pending
unfolding parts_left
parts_left-le q = ground arith

-- However the posts and the rounds of the thread interleave, with quanta that are positive: once
-- the thread has run for three parts of a round for each event that is pending and for each post
-- that is pending, nothing is pending, and the message queue was offered exactly the accepted
-- events, in the order in which they were posted.
pub run-advances :
    (limit : ℕ) (cs : List Call) (thread : List (ℕ × Bool))
    → All IsPositive cs
    → All (λ part. 0 < part.0) thread
    → 3 * rounds (run limit cs empty).pending ≤ length thread
    → let q = run limit (advances thread) (run limit cs empty) in
      (q.pending ≡ []) × (offered q ≡ accepted_all limit cs empty)
run-advances limit cs thread h hs enough =
    let before = run limit cs empty in
    let running : IsRunning before =
      run-IsRunning limit cs empty h (record { front = inl refl; under_way = tt }) in
    let q = run limit (advances thread) before in
    let after =
      run-IsRunning limit (advances thread) before (advances-IsPositive thread hs) running in
    let few = run-parts_left limit thread before hs running in
    let none : parts_left q ≡ 0 = omega (arith, few, enough, parts_left-le before) in
    let done = parts_left-zero q q.writer q.pending refl refl none after.front in
    let order = run-order_from limit (advances thread) before running.front in
    let none_more = accepted_all-advances limit thread before in
    let all : offered q ≡ offered before ++ undelivered before =
      rw
        (
          done.1,
          none_more,
          append-nil (offered q),
          append-nil (offered before ++ undelivered before),
        )
        at order in
    (done.0, all ∙ offered-run limit cs)
