-- ===== src/Sensors/Debug/Laws.antt =====
-- The dump against a description without a buffer.
use mathlib.Core.List.{map-append}
use device_xiaomi_camellia.Base.{
  ℕ, zero, suc, ◌+◌, ◌≡◌, refl, List, [], ◌∷◌, ◌++◌, String, true, append_assoc, map,
}
use device_xiaomi_camellia.Sensors.Proxy.{HalProxy}
use device_xiaomi_camellia.Sensors.Debug.{
  Part, text, Output, writes, dumps, heading, named, dump_loop, debug,
}

-- The order in which parts and dumps reach the file.
pub data Seen : Type 0 where
  part : Part → Seen
  dump : ℕ → Seen

pub seen : List Output → List Seen
seen [] = []
seen (writes parts ∷ outputs) = map part parts ++ seen outputs
seen (dumps i ∷ outputs) = dump i ∷ seen outputs

module _ (size : ℕ) (name : ℕ → String) where
  -- The sub-HALs from an index on, each under its name.
  pub sections : ℕ → ℕ → List Seen
  sections zero i = []
  sections (suc left) i =
      map part (named size name i) ++ dump i ∷ part (text "\n") ∷ sections left (i + 1)

  dump_loop_lem :
      (left i : ℕ) (stream : List Part)
      → seen (dump_loop size name left i stream) ≡ map part stream ++ sections left i
  unfolding dump_loop seen sections
  dump_loop_lem zero i stream = refl
  dump_loop_lem (suc left) i stream =
      rw (map-append part stream (named size name i), dump_loop_lem left (i + 1) (text "\n" ∷ []))
        (append_assoc (map part stream) (map part (named size name i)) _)

  -- The file shows the state of the proxy and then each sub-HAL, in the order of the list: its name,
  -- directly after it what the sub-HAL writes itself, and an empty line.
  pub debug_lem :
      (now : ℕ) (proxy : HalProxy)
      → seen (debug size name true now proxy)
        ≡ map part (heading size name now proxy) ++ sections size 0
  unfolding debug
  debug_lem now proxy = dump_loop_lem size 0 (heading size name now proxy)
