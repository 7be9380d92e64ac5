-- ===== src/Prelude/Keys.antt =====
-- Texts that the program builds: UUIDs and numbers in print, and the equality of code points.
use Prim.Native.Nat.{ℕ, zero, suc, ◌+◌, ◌/◌, ◌%◌}
use mathlib.Core.Logic.{◌↔◌}
use native.Mathlib.Omega.{arith}
use mathlib.Core.Path.{◌≡◌, refl, subst}
use mathlib.Core.Bool.{Bool, true, false, ◌&&◌}
use mathlib.Core.List.{List, [], ◌∷◌, ◌++◌}
use graph_blizz.Prelude.Tests.{ltb, ◌==◌, if◌then◌else◌}
use graph_blizz.Prelude.Lists.{take, drop}

-- A text as its code points.
abbrev pub Text : Type 0
Text = List ℕ

unfoldable pub text_eq : Text → Text → Bool
text_eq [] [] = true
text_eq [] (d ∷ t) = false
text_eq (c ∷ s) [] = false
text_eq (c ∷ s) (d ∷ t) = c == d && text_eq s t

text_eq_refl : (t : Text) → text_eq t t ≡ true
unfolding text_eq
text_eq_refl [] = refl
text_eq_refl (c ∷ t) = ground (arith, text_eq_refl t)

text_eq-eq : (s t : Text) → text_eq s t ≡ true → s ≡ t
unfolding text_eq
text_eq-eq [] [] h = refl
text_eq-eq [] (d ∷ t) h = cc
text_eq-eq (c ∷ s) [] h = cc
text_eq-eq (c ∷ s) (d ∷ t) h =
    let rest = text_eq-eq s t (ground (arith, h)) in
    let same : c ≡ d = ground (arith, h) in cc (same, rest)

pub text_eq_iff : (s t : Text) → (text_eq s t ≡ true) ↔ (s ≡ t)
text_eq_iff s t = (λ h. text_eq-eq s t h, λ e. subst (λ u. text_eq s u ≡ true) e (text_eq_refl s))

abbrev hex_digit : ℕ → ℕ
hex_digit d = if ltb d 10 then 48 + d else 87 + d

-- The last `k` hexadecimal digits.
unfoldable pub hex_digits : ℕ → ℕ → Text
hex_digits zero n = []
hex_digits (suc k) n = hex_digits k (n / 16) ++ hex_digit (n % 16) ∷ []

-- `str(uuid)`: 32 hexadecimal digits in groups of 8, 4, 4, 4 and 12.
unfoldable pub uuid_text : ℕ → Text
unfolding hex_digits
uuid_text id =
    let h = hex_digits 32 id in
    take 8 h
    ++ (45
        ∷ (take 4 (drop 8 h)
            ++ (45 ∷ (take 4 (drop 12 h) ++ (45 ∷ (take 4 (drop 16 h) ++ (45 ∷ drop 20 h)))))))

-- `str(n)`; a number has fewer digits than its value has units, so the fuel is enough.
unfoldable pub decimal_digits : ℕ → ℕ → Text
decimal_digits zero n = []
decimal_digits (suc fuel) n =
    let front = decimal_digits fuel (n / 10) in
    if ltb n 10 then (48 + n) ∷ [] else front ++ (48 + n % 10) ∷ []

unfoldable pub decimal_text : ℕ → Text
unfolding decimal_digits
decimal_text n = decimal_digits (suc n) n
