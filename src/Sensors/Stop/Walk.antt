-- ===== src/Sensors/Stop/Walk.antt =====
-- The moves of one thread alone, and when they come to the end of its loop.
use device_xiaomi_camellia.Sensors.Stop.{
  Place, falls_asleep, asleep, ended, advance, wake, Move, goes_on, is_woken, move, is_ended,
}
use device_xiaomi_camellia.Base.{
  ◌≤◌, Bool, true, false, not, ◌&&◌, List, [], ◌∷◌, ◌++◌, ◌≡◌, refl, sym, ap, ◌∙◌, arith, length,
  Bool-cases, inl, inr, if◌then◌else◌,
}

-- Whether a thread has found no work while it was to run, and does not sleep yet.
unfoldable pub is_falling : Place → Bool
is_falling falls_asleep = true
is_falling _ = false

-- Whether a thread makes no move of its own.
unfoldable pub stands : List Move → Bool
stands [] = true
stands (goes_on has_work ∷ ms) = false
stands (is_woken ∷ ms) = stands ms

unfoldable pub goes_alone : List Move → Bool
goes_alone [] = true
goes_alone (goes_on has_work ∷ ms) = goes_alone ms
goes_alone (is_woken ∷ ms) = false

-- The moves of one thread alone.
unfoldable pub walk : Bool → List Move → Place → Place
unfolding move
walk threads_run [] place = place
walk threads_run (m ∷ ms) place = walk threads_run ms (move threads_run m place)

is_falling-advance : (h : Bool) (place : Place) → is_falling (advance false h place) ≡ false
unfolding is_falling advance
is_falling-advance h place = ground arith

is_falling-wake : (place : Place) → is_falling (wake place) ≡ is_falling place
unfolding is_falling wake
is_falling-wake place = ground arith

and_false : (b : Bool) → (b && false) ≡ false
and_false true = refl
and_false false = refl

and_true : (b : Bool) → (b && true) ≡ b
and_true true = refl
and_true false = refl

-- Once the threads are to stop, a thread is about to sleep only if it was and made no move.
pub is_falling-walk :
    (ms : List Move) (place : Place)
    → is_falling (walk false ms place) ≡ (is_falling place && stands ms)
unfolding is_falling walk stands move advance wake
is_falling-walk [] place = sym (and_true (is_falling place))
is_falling-walk (goes_on h ∷ ms) place =
    let step = is_falling-advance h place in
    let rest = is_falling-walk ms (advance false h place) in
    let no = and_false (is_falling place) in cc
is_falling-walk (is_woken ∷ ms) place =
    let step = is_falling-wake place in let rest = is_falling-walk ms (wake place) in cc

walk-ended : (ms : List Move) → walk false ms ended ≡ ended
unfolding walk move advance wake
walk-ended [] = refl
walk-ended (goes_on h ∷ ms) = walk-ended ms
walk-ended (is_woken ∷ ms) = walk-ended ms

walk-asleep : (ms : List Move) → goes_alone ms ≡ true → walk false ms asleep ≡ asleep
unfolding walk move advance goes_alone
walk-asleep [] alone = refl
walk-asleep (goes_on h ∷ ms) alone = walk-asleep ms alone
walk-asleep (is_woken ∷ ms) alone = cc

-- Three moves take a thread to the end of its loop, unless it was about to sleep.
thrice :
    (a b c : Bool) (place : Place)
    → advance false c (advance false b (advance false a (wake place)))
      ≡ (if is_falling place then asleep else ended)
unfolding advance wake is_falling
thrice a b c place = ground arith

settled :
    (ms : List Move) (place : Place)
    → goes_alone ms ≡ true
    → is_ended (walk false ms (if is_falling place then asleep else ended)) ≡ not (is_falling place)
unfolding is_ended
settled ms place alone = elim (Bool-cases (is_falling place)) [
  | inl h ↦ let rest = walk-asleep ms alone in cc
  | inr h ↦ let rest = walk-ended ms in cc
]

-- From the notification on, a thread that goes on alone ends unless it was about to sleep.
pub is_ended-walk :
    (ms : List Move) (place : Place)
    → goes_alone ms ≡ true
    → 3 ≤ length ms
    → is_ended (walk false ms (wake place)) ≡ not (is_falling place)
unfolding is_falling walk goes_alone move advance wake is_ended
is_ended-walk [] place alone long = ground arith
is_ended-walk (a ∷ []) place alone long = ground arith
is_ended-walk (a ∷ b ∷ []) place alone long = ground arith
is_ended-walk (goes_on a ∷ goes_on b ∷ goes_on c ∷ ms) place alone long =
    ap (λ q. is_ended (walk false ms q)) (thrice a b c place) ∙ settled ms place alone
is_ended-walk (is_woken ∷ ms) place alone long = cc
is_ended-walk (goes_on a ∷ is_woken ∷ ms) place alone long = cc
is_ended-walk (goes_on a ∷ goes_on b ∷ is_woken ∷ ms) place alone long = cc

pub walk-append :
    (r : Bool) (xs ys : List Move) (place : Place)
    → walk r (xs ++ ys) place ≡ walk r ys (walk r xs place)
unfolding walk
walk-append r [] ys place = refl
walk-append r (m ∷ ms) ys place = walk-append r ms ys (move r m place)
