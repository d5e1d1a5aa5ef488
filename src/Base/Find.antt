-- ===== src/Base/Find.antt =====
-- A text found at the front of a longer one.
use Prim.Native.Nat.{ℕ, zero, suc, ◌+◌, compare, Ordering}
use Prim.Native.Nat.compare
use Prim.Native.Char.{Char, code, len_utf8}
use Prim.Native.String.append
use Prim.Native.String.find
use Prim.Native.String
use Prim.Native.String.{String, ◌++◌ as ◌<>◌}
use mathlib.Core.Path.{◌≡◌, sym, ap, ◌∙◌}

compare_self : (n : ℕ) → compare n n ≡ Ordering.eq
compare_self zero = compare.zero-zero
compare_self (suc n) = compare.suc-suc n n ∙ compare_self n

begins-append : (p s : String) (y n : ℕ) → String.begins (p <> s) p y n ≡ y
begins-append String.[] s y n = ap (λ q. String.begins q String.[] y n) (append.nil s)
begins-append (String.◌∷◌ c p) s y n =
    ap (λ q. String.begins q (String.◌∷◌ c p) y n) (append.cons c p s)
    ∙ ap (λ o. String.same o (String.begins (p <> s) p y n) n) (compare_self (code c))
    ∙ begins-append p s y n

-- A text that is not empty is found at the front of a longer one.
pub find-append : (c : Char) (p s : String) → String.find (String.◌∷◌ c p <> s) (String.◌∷◌ c p) ≡ 0
find-append c p s =
    ap (λ q. String.find q (String.◌∷◌ c p)) (append.cons c p s)
    ∙ find.cons c (p <> s) (String.◌∷◌ c p)
    ∙ ap
        (λ q.
          String.begins q (String.◌∷◌ c p) 0 (len_utf8 c + String.find (p <> s) (String.◌∷◌ c p)))
        (sym (append.cons c p s))
    ∙ begins-append (String.◌∷◌ c p) s 0 _
