-- ===== src/Sensors/Stop/Laws.antt =====
-- When the calls of `join` in `stopThreads` return.
use device_xiaomi_camellia.Sensors.Stop.{
  Place, wake, Move, Thread, pending_writes_thread, wakelock_thread, Threads, at, moves, notify_one,
  stop_calls, is_ended, joins,
}
use device_xiaomi_camellia.Base.{
  ◌≤◌, Bool, true, false, not, ◌&&◌, List, [], ◌∷◌, ◌++◌, ◌≡◌, refl, ap, subst, ◌∙◌, length,
}
use device_xiaomi_camellia.Sensors.Stop.Walk.{
  is_falling, stands, goes_alone, walk, is_falling-walk, is_ended-walk, walk-append,
}

unfoldable pub moves_of : Thread → List (Thread × Move) → List Move
moves_of t [] = []
moves_of pending_writes_thread ((pending_writes_thread, m) ∷ ms) =
    m ∷ moves_of pending_writes_thread ms
moves_of pending_writes_thread ((wakelock_thread, m) ∷ ms) = moves_of pending_writes_thread ms
moves_of wakelock_thread ((pending_writes_thread, m) ∷ ms) = moves_of wakelock_thread ms
moves_of wakelock_thread ((wakelock_thread, m) ∷ ms) = m ∷ moves_of wakelock_thread ms

unfoldable pub place_of : Thread → Threads → Place
place_of pending_writes_thread s = s.pending_writes
place_of wakelock_thread s = s.wakelock

place_of-moves :
    (t : Thread) (ms : List (Thread × Move)) (s : Threads)
    → place_of t (moves ms s) ≡ walk s.threads_run (moves_of t ms) (place_of t s)
unfolding moves at walk moves_of place_of
place_of-moves pending_writes_thread [] s = refl
place_of-moves wakelock_thread [] s = refl
place_of-moves pending_writes_thread ((pending_writes_thread, m) ∷ ms) s =
    place_of-moves pending_writes_thread ms _
place_of-moves pending_writes_thread ((wakelock_thread, m) ∷ ms) s =
    place_of-moves pending_writes_thread ms _
place_of-moves wakelock_thread ((pending_writes_thread, m) ∷ ms) s =
    place_of-moves wakelock_thread ms _
place_of-moves wakelock_thread ((wakelock_thread, m) ∷ ms) s = place_of-moves wakelock_thread ms _

threads_run-moves :
    (ms : List (Thread × Move)) (s : Threads) → (moves ms s).threads_run ≡ s.threads_run
unfolding moves at
threads_run-moves [] s = refl
threads_run-moves ((pending_writes_thread, m) ∷ ms) s = threads_run-moves ms _
threads_run-moves ((wakelock_thread, m) ∷ ms) s = threads_run-moves ms _

moves_of-append :
    (t : Thread) (xs ys : List (Thread × Move))
    → moves_of t (xs ++ ys) ≡ moves_of t xs ++ moves_of t ys
unfolding moves_of
moves_of-append pending_writes_thread [] ys = refl
moves_of-append wakelock_thread [] ys = refl
moves_of-append pending_writes_thread ((pending_writes_thread, m) ∷ ms) ys =
    ap (λ l. m ∷ l) (moves_of-append pending_writes_thread ms ys)
moves_of-append pending_writes_thread ((wakelock_thread, m) ∷ ms) ys =
    moves_of-append pending_writes_thread ms ys
moves_of-append wakelock_thread ((pending_writes_thread, m) ∷ ms) ys =
    moves_of-append wakelock_thread ms ys
moves_of-append wakelock_thread ((wakelock_thread, m) ∷ ms) ys =
    ap (λ l. m ∷ l) (moves_of-append wakelock_thread ms ys)

-- Whether a thread was about to sleep when `mThreadsRun` was set, and makes no move of its own
-- until it is notified.
unfoldable pub misses : Thread → (before until : List (Thread × Move)) → Threads → Bool
unfolding is_falling stands moves_of place_of moves
misses t before until s = is_falling (place_of t (moves before s)) && stands (moves_of t until)

-- Once told, one thread ends exactly if it does not miss its notification.
one_thread :
    (t : Thread) (before until rest : List (Thread × Move)) (s : Threads)
    → goes_alone (moves_of t rest) ≡ true
    → 3 ≤ length (moves_of t rest)
    → is_ended (
        walk false
          (moves_of t rest)
          (wake (walk false (moves_of t until) (place_of t (moves before s)))))
      ≡ not (misses t before until s)
unfolding misses
one_thread t before until rest s alone long =
    let place : Place = place_of t (moves before s) in
    let fell = is_falling-walk (moves_of t until) place in
    let end = is_ended-walk (moves_of t rest) (walk false (moves_of t until) place) alone long in
    end ∙ ap not fell

walked :
    (t : Thread) (ms : List (Thread × Move)) (s : Threads)
    → s.threads_run ≡ false
    → place_of t (moves ms s) ≡ walk false (moves_of t ms) (place_of t s)
walked t ms s e =
    subst (λ r. place_of t (moves ms s) ≡ walk r (moves_of t ms) (place_of t s)) e
      (place_of-moves t ms s)

walked_twice :
    (t : Thread) (xs ys : List (Thread × Move)) (place : Place)
    → walk false (moves_of t ys) (walk false (moves_of t xs) place)
      ≡ walk false (moves_of t (xs ++ ys)) place
walked_twice t xs ys place =
    let split = moves_of-append t xs ys in
    let both = walk-append false (moves_of t xs) (moves_of t ys) place in cc

module _ (before between amid after : List (Thread × Move)) (s : Threads) where
  abbrev stored : Threads
  stored = record (moves before s) { threads_run = false }

  abbrev notified : Threads
  notified = notify_one wakelock_thread (moves between stored)

  abbrev amidst : Threads
  amidst = moves amid notified

  notified-runs : notified.threads_run ≡ false
  unfolding notify_one at
  notified-runs = threads_run-moves between stored

  amidst-runs : amidst.threads_run ≡ false
  amidst-runs = threads_run-moves amid notified ∙ notified-runs

  wakelock_place :
      place_of wakelock_thread (stop_calls before between amid after s)
      ≡ walk false (moves_of wakelock_thread (amid ++ after)) (
          wake (
            walk false
              (moves_of wakelock_thread between)
              (place_of wakelock_thread (moves before s))))
  unfolding stop_calls notify_one at place_of
  wakelock_place =
      walked wakelock_thread after (notify_one pending_writes_thread amidst) amidst-runs
      ∙ ap (walk false (moves_of wakelock_thread after))
          (walked wakelock_thread amid notified notified-runs)
      ∙ walked_twice wakelock_thread amid after (place_of wakelock_thread notified)
      ∙ ap (λ q. walk false (moves_of wakelock_thread (amid ++ after)) (wake q))
          (walked wakelock_thread between stored refl)

  pending_writes_place :
      place_of pending_writes_thread (stop_calls before between amid after s)
      ≡ walk false (moves_of pending_writes_thread after) (
          wake (
            walk false
              (moves_of pending_writes_thread (between ++ amid))
              (place_of pending_writes_thread (moves before s))))
  unfolding stop_calls notify_one at place_of
  pending_writes_place =
      let last =
        walked pending_writes_thread after (notify_one pending_writes_thread amidst) amidst-runs in
      let middle = walked pending_writes_thread amid notified notified-runs in
      let first = walked pending_writes_thread between stored refl in
      last
      ∙ ap (λ q. walk false (moves_of pending_writes_thread after) (wake q))
          (middle
            ∙ ap (walk false (moves_of pending_writes_thread amid)) first
            ∙ walked_twice pending_writes_thread between amid
                (place_of pending_writes_thread (moves before s)))

-- Let each thread, after it was notified, make at least three moves of its own, and let nothing
-- but `stopThreads` wake it from then on. Then the calls of `join` return, unless one of the
-- threads had found no work before `mThreadsRun` was set, and did not get to sleep until it was
-- notified.
pub joins-stop_calls :
    (before between amid after : List (Thread × Move)) (s : Threads)
    → goes_alone (moves_of wakelock_thread (amid ++ after)) ≡ true
    → 3 ≤ length (moves_of wakelock_thread (amid ++ after))
    → goes_alone (moves_of pending_writes_thread after) ≡ true
    → 3 ≤ length (moves_of pending_writes_thread after)
    → joins (stop_calls before between amid after s) ≡ (
        not (misses pending_writes_thread before (between ++ amid) s)
        && not (misses wakelock_thread before between s))
unfolding joins place_of
joins-stop_calls before between amid after s alone long alone' long' =
    let writes =
      ap is_ended (pending_writes_place before between amid after s)
      ∙ one_thread pending_writes_thread before (between ++ amid) after s alone' long' in
    let wakes =
      ap is_ended (wakelock_place before between amid after s)
      ∙ one_thread wakelock_thread before between (amid ++ after) s alone long in
    cc
