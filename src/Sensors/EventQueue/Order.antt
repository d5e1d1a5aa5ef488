-- ===== src/Sensors/EventQueue/Order.antt =====
-- Events leave the proxy in the order in which it accepted them.
use mathlib.Core.List.{map-append}
use device_xiaomi_camellia.Base.{
  ℕ, ◌≤◌, ◌≡◌, ◌≢◌, refl, ◌∙◌, sym, ap, ◌⊎◌, inl, inr, Bool, zero, suc, List, [], ◌∷◌, ◌++◌, map,
  append_assoc, append-nil, arith, length, take, drop, min, drop_all, take-append-drop,
  if◌then◌else◌, Bool-cases,
}
use device_xiaomi_camellia.Sensors.Platform.{Event}
use device_xiaomi_camellia.Sensors.EventQueue.{
  EventQueue, Writer, idle, writing, wrote, Call, post, advance, num_to_write, is_kept, step, run,
  empty, offer,
}

pub flat : List (List Event × ℕ) → List Event
flat [] = []
flat ((events, n) ∷ ps) = events ++ flat ps

flat-append : (ps qs : List (List Event × ℕ)) → flat (ps ++ qs) ≡ flat ps ++ flat qs
unfolding flat
flat-append [] qs = refl
flat-append ((events, n) ∷ ps) qs = rw (flat-append ps qs) (sym (append_assoc events _ _))

-- The events that are accepted and not yet offered to the message queue.
unfoldable rest_of : Writer → List (List Event × ℕ) → List Event
rest_of w [] = []
rest_of idle (p ∷ ps) = flat (p ∷ ps)
rest_of (writing size) (p ∷ ps) = flat (p ∷ ps)
rest_of (wrote size) ((events, n) ∷ ps) = drop (min (length events) size) events ++ flat ps

unfoldable pub undelivered : EventQueue → List Event
unfolding rest_of
undelivered q = rest_of q.writer q.pending

abbrev pub offered : EventQueue → List Event
offered q = map (λ p. p.0) q.handed

-- What a call accepts: a post whose rest finds no room loses that rest.
unfoldable pub accepted : ℕ → Call → EventQueue → List Event
accepted limit (post available takes events n) q =
    let written = num_to_write available takes events q.pending in
    if is_kept limit written events q then events else take written events
accepted limit (advance quantum takes) q = []

unfoldable pub accepted_all : ℕ → List Call → EventQueue → List Event
accepted_all limit [] q = []
accepted_all limit (c ∷ cs) q = accepted limit c q ++ accepted_all limit cs (step limit c q)

-- The thread is in a round only while there is something to write.
abbrev pub HasFront : EventQueue → Type 0
HasFront q = (q.writer ≡ idle) ⊎ (q.pending ≢ [])

map-offer : (taken : Bool) (events : List Event) → map (λ p. p.0) (offer taken events) ≡ events
map-offer taken [] = refl
map-offer taken (e ∷ es) = ap (◌∷◌ e) (map-offer taken es)

append_left : (ps qs : List (List Event × ℕ)) → ps ++ qs ≡ [] → ps ≡ []
append_left [] qs e = refl
append_left (p ∷ ps) qs e = cc

post-HasFront :
    (limit available : ℕ) (takes : Bool) (events : List Event) (n : ℕ) (q : EventQueue)
    → HasFront q
    → HasFront (step limit (post available takes events n) q)
unfolding step
post-HasFront limit available takes events n q (inl h) = ground arith
post-HasFront limit available takes events n q (inr h) =
    inr (elim (Bool-cases (is_kept limit written events q)) [
      | inl kept ↦ λ e. h (append_left _ _ (rw kept at e))
      | inr lost ↦ λ e. h (rw lost at e)
    ])
  where
    written : ℕ
    written = num_to_write available takes events q.pending

advance-HasFront :
    (limit quantum : ℕ) (takes : Bool) (q : EventQueue)
    → HasFront q
    → HasFront (step limit (advance quantum takes) q)
unfolding step
advance-HasFront limit quantum takes q h = ground arith

rest_of-append :
    (w : Writer) (p : List Event × ℕ) (ps qs : List (List Event × ℕ))
    → rest_of w (p ∷ ps ++ qs) ≡ rest_of w (p ∷ ps) ++ flat qs
unfolding rest_of
rest_of-append idle p ps qs = flat-append (p ∷ ps) qs
rest_of-append (writing size) p ps qs = flat-append (p ∷ ps) qs
rest_of-append (wrote size) (events, n) ps qs =
    rw (flat-append ps qs) (sym (append_assoc (drop (min (length events) size) events) _ _))

pub take_min : (n : ℕ) (xs : List Event) → length xs ≤ n → take n xs ≡ xs
take_min zero [] h = refl
take_min zero (x ∷ xs) h = absurd (omega arith)
take_min (suc n) [] h = refl
take_min (suc n) (x ∷ xs) h = ap (◌∷◌ x) (take_min n xs (omega arith))

post-order :
    (limit available : ℕ) (takes : Bool) (events : List Event) (n : ℕ) (q : EventQueue)
    (ps : List (List Event × ℕ))
    → q.pending ≡ ps
    → HasFront q
    → let c = post available takes events n in
      offered (step limit c q) ++ undelivered (step limit c q)
      ≡ (offered q ++ undelivered q) ++ accepted limit c q
unfolding step undelivered accepted flat
post-order limit available takes events n q [] e (inr h) = absurd (h e)
post-order limit available takes events n q [] e (inl h) =
    grind (arith, map-append, map-offer, take-append-drop, append-nil, append_assoc)
post-order limit available takes events n q (p ∷ ps) e h =
    grind (arith, map-append, map-offer, rest_of-append, append-nil, append_assoc)

-- A round leaves the sum of what was offered and what is still to offer as it was.
advance-order :
    (limit quantum : ℕ) (takes : Bool) (q : EventQueue) (w : Writer) (ps : List (List Event × ℕ))
    → q.writer ≡ w
    → q.pending ≡ ps
    → let q' = step limit (advance quantum takes) q in
      offered q' ++ undelivered q' ≡ offered q ++ undelivered q
unfolding step undelivered flat
advance-order limit quantum takes q idle [] ew ep = ground arith
advance-order limit quantum takes q (writing size) [] ew ep = ground arith
advance-order limit quantum takes q (wrote size) [] ew ep = ground arith
advance-order limit quantum takes q idle (p ∷ ps) ew ep = ground arith
advance-order limit quantum takes q (writing size) ((events, n) ∷ ps) ew ep =
    grind (arith, map-append, map-offer, take-append-drop, append_assoc)
advance-order limit quantum takes q (wrote size) ((events, n) ∷ []) ew ep =
    grind (arith, drop_all, append-nil)
advance-order limit quantum takes q (wrote size) ((events, n) ∷ p ∷ ps) ew ep =
    grind (arith, drop_all)

step_writer-offered :
    (limit quantum : ℕ) (takes : Bool) (q : EventQueue) (w : Writer) (ps : List (List Event × ℕ))
    → q.writer ≡ w
    → q.pending ≡ ps
    → (es : List Event) × (offered (step limit (advance quantum takes) q) ≡ offered q ++ es)
unfolding step
step_writer-offered limit quantum takes q (writing size) ((events, n) ∷ ps) ew ep =
    (take (min (length events) size) events, grind (arith, map-append, map-offer))
step_writer-offered limit quantum takes q w ps ew ep = ([], ground (arith, append-nil (offered q)))

pub step-order :
    (limit : ℕ) (c : Call) (q : EventQueue)
    → HasFront q
    → offered (step limit c q) ++ undelivered (step limit c q)
      ≡ (offered q ++ undelivered q) ++ accepted limit c q
unfolding accepted
step-order limit (post available takes events n) q h =
    post-order limit available takes events n q q.pending refl h
step-order limit (advance quantum takes) q h =
    advance-order limit quantum takes q q.writer q.pending refl refl
    ∙ sym (append-nil (offered q ++ undelivered q))

pub step-HasFront : (limit : ℕ) (c : Call) (q : EventQueue) → HasFront q → HasFront (step limit c q)
step-HasFront limit (post available takes events n) q h =
    post-HasFront limit available takes events n q h
step-HasFront limit (advance quantum takes) q h = advance-HasFront limit quantum takes q h

-- What was offered stays offered, and more may follow.
pub step-offered :
    (limit : ℕ) (c : Call) (q : EventQueue)
    → (es : List Event) × (offered (step limit c q) ≡ offered q ++ es)
unfolding step
step-offered limit (post available takes events n) q =
    let written = num_to_write available takes events q.pending in
    (take written events, grind (arith, map-append, map-offer))
step-offered limit (advance quantum takes) q =
    step_writer-offered limit quantum takes q q.writer q.pending refl refl

pub run-order_from :
    (limit : ℕ) (cs : List Call) (q : EventQueue)
    → HasFront q
    → offered (run limit cs q) ++ undelivered (run limit cs q)
      ≡ (offered q ++ undelivered q) ++ accepted_all limit cs q
unfolding run accepted_all
run-order_from limit [] q h = sym (append-nil (offered q ++ undelivered q))
run-order_from limit (c ∷ cs) q h =
    run-order_from limit cs (step limit c q) (step-HasFront limit c q h)
    ∙ ap (λ es. es ++ accepted_all limit cs (step limit c q)) (step-order limit c q h)
    ∙ append_assoc (offered q ++ undelivered q) (accepted limit c q) _

-- However the posts and the rounds of the pending writes thread interleave, the events offered to
-- the message queue and after them those still pending are the accepted events, each once, in the
-- order in which they were posted.
pub offered-run :
    (limit : ℕ) (cs : List Call)
    → offered (run limit cs empty) ++ undelivered (run limit cs empty) ≡ accepted_all limit cs empty
unfolding undelivered
offered-run limit cs = run-order_from limit cs empty (inl refl)
