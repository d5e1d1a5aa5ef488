-- ===== src/Usb/Port/Work/Joins.antt =====
-- When `pthread_join` in `setCallback` returns.
use device_xiaomi_camellia.Base.{
  ◌≡◌, refl, ap, ◌∙◌, ◌≤◌, Bool, true, false, not, ◌||◌, List, [], ◌∷◌, ◌++◌, length, if◌then◌else◌,
  arith, Bool-cases, inl, inr,
}
use device_xiaomi_camellia.Usb.Port.Work.Signal.{
  Place, in_wait, ended, advance, walk, interrupt, kill_and_join, is_ended, is_before_wait,
}

unfoldable pub any_event : List Bool → Bool
any_event [] = false
any_event (has_event ∷ moves) = has_event || any_event moves

walk-append :
    (d : Bool) (xs ys : List Bool) (place : Place)
    → walk d (xs ++ ys) place ≡ walk d ys (walk d xs place)
unfolding walk
walk-append d [] ys place = refl
walk-append d (x ∷ xs) ys place = walk-append d xs ys (advance d x place)

walk-ended : (d : Bool) (moves : List Bool) → walk d moves ended ≡ ended
unfolding walk advance
walk-ended d [] = refl
walk-ended d (x ∷ moves) = walk-ended d moves

walk-in_wait :
    (d : Bool) (moves : List Bool) → any_event moves ≡ false → walk d moves in_wait ≡ in_wait
unfolding walk advance any_event
walk-in_wait d [] h = refl
walk-in_wait d (true ∷ moves) h = cc
walk-in_wait d (false ∷ moves) h = walk-in_wait d moves h

-- Two moves after the signal the thread has ended, unless it was about to wait.
twice :
    (place : Place)
    → advance true false (advance true false (interrupt place))
      ≡ (if is_before_wait place then in_wait else ended)
unfolding advance interrupt is_before_wait
twice place = ground arith

settled :
    (moves : List Bool) (place : Place)
    → any_event moves ≡ false
    → is_ended (walk true moves (if is_before_wait place then in_wait else ended))
      ≡ not (is_before_wait place)
unfolding is_ended
settled moves place h = elim (Bool-cases (is_before_wait place)) [
  | inl e ↦ let rest = walk-in_wait true moves h in cc
  | inr e ↦ let rest = walk-ended true moves in cc
]

walk-interrupt :
    (moves : List Bool) (place : Place)
    → any_event moves ≡ false
    → 2 ≤ length moves
    → is_ended (walk true moves (interrupt place)) ≡ not (is_before_wait place)
unfolding walk any_event
walk-interrupt [] place h long = ground arith
walk-interrupt (a ∷ []) place h long = ground arith
walk-interrupt (false ∷ false ∷ moves) place h long =
    ap (λ q. is_ended (walk true moves q)) (twice place) ∙ settled moves place h
walk-interrupt (true ∷ moves) place h long = cc
walk-interrupt (false ∷ true ∷ moves) place h long = cc

is_before_wait-advance : (a : Bool) (place : Place) → is_before_wait (advance true a place) ≡ false
unfolding advance is_before_wait
is_before_wait-advance a place = ground arith

-- A thread that was told to end is not about to wait after a move.
is_before_wait-walk :
    (a : Bool) (moves : List Bool) (place : Place)
    → is_before_wait (walk true (a ∷ moves) place) ≡ false
unfolding walk
is_before_wait-walk a [] place = is_before_wait-advance a place
is_before_wait-walk a (b ∷ moves) place = is_before_wait-walk b moves (advance true a place)

-- With an event it ends.
thrice :
    (a b : Bool) (place : Place)
    → is_before_wait place ≡ false
    → advance true b (advance true a (advance true true place)) ≡ ended
unfolding advance is_before_wait
thrice a b place h = ground arith

walk-event :
    (x a b : Bool) (moves more : List Bool) (place : Place)
    → walk true ((x ∷ moves) ++ true ∷ a ∷ b ∷ more) place ≡ ended
unfolding walk
walk-event x a b moves more place =
    walk-append true (x ∷ moves) (true ∷ a ∷ b ∷ more) place
    ∙ ap (walk true more) (thrice a b _ (is_before_wait-walk x moves place))
    ∙ walk-ended true more

-- Let the thread make at least two moves after the signal. While no kernel event comes, it ends
-- exactly if it had not tested `destroyThread` without having called `epoll_wait`. Two moves after
-- the next event it has ended in any case.
pub kill_and_join_lem :
    (before after : List Bool) (a b : Bool) (more : List Bool) (place : Place)
    → 2 ≤ length after
    → any_event after ≡ false
    → (is_ended (kill_and_join before after place) ≡ not (is_before_wait (walk false before place)))
      × (is_ended (kill_and_join before (after ++ true ∷ a ∷ b ∷ more) place) ≡ true)
unfolding kill_and_join is_ended
kill_and_join_lem before [] a b more place long quiet = absurd (omega arith)
kill_and_join_lem before (x ∷ after) a b more place long quiet = (
  walk-interrupt (x ∷ after) (walk false before place) quiet long,
  ap is_ended (walk-event x a b after more (interrupt (walk false before place))),
)
