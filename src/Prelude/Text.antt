-- ===== src/Prelude/Text.antt =====
-- Python's `str` over the native texts: concatenation, truth, the order of code points, `s[:n]`.
use Prim.Native.Nat.{ℕ, zero, suc}
use Prim.Native.Char.{code}
use Prim.Native.String.{String, [], ◌∷◌, ◌++◌}
use mathlib.Core.Path.{◌≡◌, refl, ap₂}
use mathlib.Core.Bool.{Bool, true, false, not}
use mathlib.Core.Option.{Option, none, some}
use native.Mathlib.Omega.{arith}
use text.Mathlib.Text.{◌==◌}
use text.Mathlib.TextEquality.{Char-path}
use openstack_keystone.Prelude.Tests.{ltb, eqb, if◌then◌else◌}

-- An f-string of two parts.
abbrev pub concat : String → String → String
concat s t = s ++ t

-- `bool(s)`
abbrev pub truthy : String → Bool
truthy s = not (s == "")

-- `bool(o)` for an optional text
abbrev pub present : Option String → Bool
present none = false
present (some s) = truthy s

-- `s[:n]`
unfoldable pub take : ℕ → String → String
take zero s = ""
take (suc n) [] = ""
take (suc n) (c ∷ s) = c ∷ take n s

-- `s < t`: the first differing code point decides, and a prefix comes first.
unfoldable pub text_lt : String → String → Bool
text_lt [] [] = false
text_lt [] (d ∷ t) = true
text_lt (c ∷ s) [] = false
text_lt (c ∷ s) (d ∷ t) =
    if ltb (code c) (code d) then true else if eqb (code c) (code d) then text_lt s t else false

pub text_lt_irrefl : (s : String) → text_lt s s ≡ false
unfolding text_lt
text_lt_irrefl [] = refl
text_lt_irrefl (c ∷ s) = ground (arith, text_lt_irrefl s)

pub text_lt_trans : (s t u : String) → text_lt s t ≡ true → text_lt t u ≡ true → text_lt s u ≡ true
unfolding text_lt
text_lt_trans [] [] [] p q = p
text_lt_trans [] [] (e ∷ u) p q = q
text_lt_trans [] (d ∷ t) [] p q = q
text_lt_trans [] (d ∷ t) (e ∷ u) p q = refl
text_lt_trans (c ∷ s) [] [] p q = p
text_lt_trans (c ∷ s) [] (e ∷ u) p q = ground arith
text_lt_trans (c ∷ s) (d ∷ t) [] p q = q
text_lt_trans (c ∷ s) (d ∷ t) (e ∷ u) p q = ground (arith, text_lt_trans s t u)

-- Two texts of which neither comes first are equal.
pub text_lt_total : (s t : String) → text_lt s t ≡ false → text_lt t s ≡ false → s ≡ t
unfolding text_lt
text_lt_total [] [] p q = refl
text_lt_total [] (d ∷ t) p q = ground arith
text_lt_total (c ∷ s) [] p q = ground arith
text_lt_total (c ∷ s) (d ∷ t) p q =
    ap₂ (λ a b. a ∷ b) (Char-path c d (ground arith))
      (text_lt_total s t (ground arith) (ground arith))
