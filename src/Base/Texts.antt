-- ===== src/Base/Texts.antt =====
-- Texts cut at a delimiter.
use Prim.Native.String.append.{nil, cons}
use Prim.Native.Char.{Char}
use mathlib.Core.Path.{◌≡◌, refl, ◌∙◌, ap}
use mathlib.Core.Option.{Option, none, some}
use mathlib.Core.Bool.{true}
use native.Mathlib.Omega.{arith}
use Prim.Native.String.{String, ◌++◌ as ◌<>◌}
use text.Mathlib.TextEquality.{eq_iff}
use device_xiaomi_camellia.Base.Tests.{str_eq, if◌then◌else◌}
use Prim.Native.String.{String}

-- The text before the first delimiter, a text of one character, and the text after it.
unfoldable pub cut : String → String → Option (String × String)
cut delimiter String.[] = none
cut delimiter (String.◌∷◌ c s) =
    let rest = cut delimiter s in
    if str_eq (String.◌∷◌ c "") delimiter
    then some ("", s)
    else elim rest [ none ↦ none | some (before, after) ↦ some (String.◌∷◌ c before, after) ]

same_text : (s : String) → str_eq s s ≡ true
same_text s = (eq_iff s s).1 refl

-- A text is cut at the delimiter behind a part that has none.
cut_at : (c : Char) (rest : String) → cut (String.◌∷◌ c "") (String.◌∷◌ c rest) ≡ some ("", rest)
unfolding cut
cut_at c rest = ground (arith, same_text (String.◌∷◌ c ""))

-- A character that is no delimiter goes to the part.
cut_step :
    (c a : Char) (part whole rest : String)
    → cut (String.◌∷◌ c "") (String.◌∷◌ a part) ≡ none
    → (cut (String.◌∷◌ c "") part ≡ none → cut (String.◌∷◌ c "") whole ≡ some (part, rest))
    → cut (String.◌∷◌ c "") (String.◌∷◌ a whole) ≡ some (String.◌∷◌ a part, rest)
unfolding cut
cut_step c a part whole rest free later = ground (arith, later)

pub cut_part :
    (c : Char) (part rest : String)
    → cut (String.◌∷◌ c "") part ≡ none
    → cut (String.◌∷◌ c "") (part <> (String.◌∷◌ c "" <> rest)) ≡ some (part, rest)
cut_part c String.[] rest free =
    ap (cut (String.◌∷◌ c ""))
      (nil (String.◌∷◌ c "" <> rest) ∙ cons c "" rest ∙ ap (String.◌∷◌ c) (nil rest))
    ∙ cut_at c rest
cut_part c (String.◌∷◌ a part) rest free =
    ap (cut (String.◌∷◌ c "")) (cons a part (String.◌∷◌ c "" <> rest))
    ∙ cut_step c a part (part <> (String.◌∷◌ c "" <> rest)) rest free (cut_part c part rest)
