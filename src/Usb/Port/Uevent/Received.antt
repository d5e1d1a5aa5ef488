-- ===== src/Usb/Port/Uevent/Received.antt =====
-- The loop of `uevent_event` stays in its buffer, and goes over the lines of what was received.
use device_xiaomi_camellia.Base.{
  ℕ, zero, suc, ◌+◌, ◌<◌, Bool, ◌||◌, Option, none, some, List, [], ◌∷◌, ◌++◌, length, take, drop,
  String, leb, ◌==◌, if◌then◌else◌, ◌≡◌, refl, arith, inl, inr, Bool-cases, length-append,
}
use device_xiaomi_camellia.Usb.Port.Switch.{Partner, File}
use device_xiaomi_camellia.Usb.Port.Uevent.{uevent_event}
use device_xiaomi_camellia.Usb.Port.Uevent.Buffer.{
  uevent_msg_len, put, string_at, lines_at, receive, lines_of, uevent_event_received,
}

unfoldable pub prepend : ℕ → List (List ℕ) → List (List ℕ)
prepend c [] = (c ∷ []) ∷ []
prepend c (line ∷ lines) = (c ∷ line) ∷ lines

-- The parts between the zeros.
unfoldable pub split_zero : List ℕ → List (List ℕ)
unfolding prepend
split_zero [] = [] ∷ []
split_zero (zero ∷ bytes) = [] ∷ split_zero bytes
split_zero (suc c ∷ bytes) = prepend (suc c) (split_zero bytes)

unfoldable pub until_empty : List (List ℕ) → List (List ℕ)
until_empty [] = []
until_empty ([] ∷ lines) = []
until_empty ((c ∷ line) ∷ lines) = (c ∷ line) ∷ until_empty lines

-- The first text: it takes up all bytes, or ends at a zero among them.
data Cut (bytes rest : List ℕ) : Type 0 where
  whole :
      string_at (bytes ++ 0 ∷ rest) ≡ some (bytes, rest)
      → split_zero bytes ≡ bytes ∷ []
      → Cut bytes rest
  part :
      (line more : List ℕ)
      → string_at (bytes ++ 0 ∷ rest) ≡ some (line, more ++ 0 ∷ rest)
      → split_zero bytes ≡ line ∷ split_zero more
      → length more < length bytes
      → Cut bytes rest

cut : (bytes rest : List ℕ) → Cut bytes rest
unfolding string_at split_zero prepend
cut [] rest = whole refl refl
cut (zero ∷ bytes) rest = part [] bytes refl refl (omega arith)
cut (suc c ∷ bytes) rest = elim (cut bytes rest) [
  | whole e d ↦ whole (rw e refl) (rw d refl)
  | part line more e d small ↦ part (suc c ∷ line) more (rw e refl) (rw d refl) (omega arith)
]

lines_at-zero : (fuel : ℕ) (rest : List ℕ) → 0 < fuel → lines_at fuel (0 ∷ rest) ≡ some []
unfolding lines_at string_at
lines_at-zero zero rest h = absurd (omega arith)
lines_at-zero (suc fuel) rest h = refl

at_whole :
    (fuel : ℕ) (bytes rest : List ℕ)
    → length bytes < suc fuel
    → string_at (bytes ++ 0 ∷ 0 ∷ rest) ≡ some (bytes, 0 ∷ rest)
    → split_zero bytes ≡ bytes ∷ []
    → lines_at (suc fuel) (bytes ++ 0 ∷ 0 ∷ rest) ≡ some (until_empty (split_zero bytes))
unfolding lines_at until_empty split_zero string_at
at_whole fuel [] rest enough e d = refl
at_whole fuel (c ∷ bytes) rest enough e d =
    rw (lines_at, e, lines_at-zero fuel rest (omega arith), d) refl

-- More fuel than bytes is enough.
lines_at_lem :
    (fuel : ℕ) (bytes rest : List ℕ)
    → length bytes < fuel
    → lines_at fuel (bytes ++ 0 ∷ 0 ∷ rest) ≡ some (until_empty (split_zero bytes))
unfolding lines_at until_empty
lines_at_lem zero bytes rest enough = absurd (omega arith)
lines_at_lem (suc fuel) bytes rest enough = elim (cut bytes (0 ∷ rest)) [
  | whole e d ↦ at_whole fuel bytes rest enough e d
  | part [] more e d small ↦ rw (lines_at, e, d) refl
  | part (c ∷ line) more e d small ↦
      let go = lines_at_lem fuel more rest (omega arith) in rw (lines_at, e, go, d) refl
]

put_lem :
    (n c : ℕ) (xs : List ℕ) → n < length xs → put n c xs ≡ some (take n xs ++ c ∷ drop (suc n) xs)
unfolding put
put_lem n c [] h = absurd (omega arith)
put_lem zero c (x ∷ xs) h = refl
put_lem (suc n) c (x ∷ xs) h = rw (put_lem n c xs (omega arith)) refl

put_behind :
    (n : ℕ) (xs : List ℕ)
    → suc n < length xs
    → put (suc n) 0 (take n xs ++ 0 ∷ drop (suc n) xs)
      ≡ some (take n xs ++ 0 ∷ 0 ∷ drop (suc (suc n)) xs)
unfolding put
put_behind n [] h = absurd (omega arith)
put_behind zero (x ∷ []) h = absurd (omega arith)
put_behind zero (x ∷ y ∷ xs) h = refl
put_behind (suc n) (x ∷ xs) h = rw (put_behind n xs (omega arith)) refl

abbrev terminated : ℕ → List ℕ → List ℕ
terminated n msg = take n msg ++ 0 ∷ 0 ∷ drop (suc (suc n)) msg

lines_at-terminated :
    (n : ℕ) (msg : List ℕ)
    → lines_at (length (terminated n msg)) (terminated n msg)
      ≡ some (until_empty (split_zero (take n msg)))
lines_at-terminated n msg =
    let long = length-append (take n msg) (0 ∷ 0 ∷ drop (suc (suc n)) msg) in
    lines_at_lem _ (take n msg) (drop (suc (suc n)) msg) (omega arith)

-- What is received, or `none` where it is discarded.
unfoldable pub received : Option ℕ → List ℕ → Option (List (List ℕ))
received none msg = none
received (some n) msg =
    if n == 0 || leb uevent_msg_len n then none else some (until_empty (split_zero (take n msg)))

receive_lem :
    (n : Option ℕ) (msg : List ℕ)
    → length msg ≡ uevent_msg_len + 2
    → receive n msg ≡ some (received n msg)
unfolding receive received
receive_lem none msg room = refl
receive_lem (some n) msg room = elim (Bool-cases (n == 0 || leb uevent_msg_len n)) [
  | inl h ↦ rw h refl
  | inr h ↦
      let small : n < uevent_msg_len = ground arith in
      let next : n + 1 ≡ suc n = omega arith in
      let first = put_lem n 0 msg (omega arith) in
      let second = put_behind n msg (omega arith) in
      let lines = lines_at-terminated n msg in rw (h, first, next, second, lines) refl
]

-- Let the buffer have its `UEVENT_MSG_LEN + 2` bytes. Then no access goes behind it and the loop
-- ends, whatever was received. An event of less than `UEVENT_MSG_LEN` bytes is handled by the parts
-- between its zeros, up to the first one that is empty; an error, an empty event and one that fills
-- the buffer change nothing.
pub uevent_event_received_lem :
    (text_of : List ℕ → String) (has_partner : String → Bool) (drp : File) (ports : List String)
    (switching : Bool) (n : Option ℕ) (msg : List ℕ) (s : Partner)
    → length msg ≡ uevent_msg_len + 2
    → uevent_event_received text_of has_partner drp ports switching n msg s
      ≡ some (uevent_event has_partner drp ports switching (lines_of text_of (received n msg)) s)
unfolding uevent_event_received
uevent_event_received_lem text_of has_partner drp ports switching n msg s room =
    rw (receive_lem n msg room) refl
