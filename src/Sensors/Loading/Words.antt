-- ===== src/Sensors/Loading/Words.antt =====
-- The words of a configuration file.
use Prim.Native.Char.{Char}
use Prim.Native.String.append.{nil, cons}
use device_xiaomi_camellia.Base.{
  Bool, true, false, ◌≡◌, refl, ◌∙◌, ap, List, [], ◌∷◌, String, ◌<>◌, str_eq, arith, All,
  if◌then◌else◌,
}
use device_xiaomi_camellia.Sensors.Loading.{is_space, parts, not_empty, words}

-- A name that stands as one word in a file.
abbrev pub has_no_space : String → Bool
has_no_space String.[] = true
has_no_space (String.◌∷◌ c s) =
    let rest = has_no_space s in if is_space (String.◌∷◌ c "") then false else rest

abbrev pub IsName : String → Type 0
IsName name = (has_no_space name ≡ true) × (str_eq name "" ≡ false)

-- A configuration file with a name on each line.
pub lines : List String → String
lines [] = ""
lines (name ∷ names) = name <> ("\n" <> lines names)

break_line : (rest : String) → parts (String.◌∷◌ "\n" rest) ≡ "" ∷ parts rest
unfolding parts
break_line rest = refl

extend_part :
    (c : Char) (name whole : String) (rest : List String)
    → has_no_space (String.◌∷◌ c name) ≡ true
    → (has_no_space name ≡ true → parts whole ≡ name ∷ rest)
    → parts (String.◌∷◌ c whole) ≡ String.◌∷◌ c name ∷ rest
unfolding parts
extend_part c name whole rest free later = ground (arith, later)

parts-line :
    (name rest : String)
    → has_no_space name ≡ true
    → parts (name <> ("\n" <> rest)) ≡ name ∷ parts rest
parts-line String.[] rest h =
    ap parts (nil ("\n" <> rest) ∙ cons "\n" "" rest ∙ ap (String.◌∷◌ "\n") (nil rest))
    ∙ break_line rest
parts-line (String.◌∷◌ c name) rest h =
    ap parts (cons c name ("\n" <> rest))
    ∙ extend_part c name (name <> ("\n" <> rest)) (parts rest) h (parts-line name rest)

pub words-lines : (names : List String) → All IsName names → words (lines names) ≡ names
unfolding words lines
words-lines [] h = refl
words-lines (name ∷ names) h =
    rw (parts-line name (lines names) h.0.0, words-lines names h.1, h.0.1, words, not_empty) refl
