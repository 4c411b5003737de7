-- ===== src/Prelude/Texts.antt =====
-- Texts: equality as a decision, the code points, decimal printing.
use Prim.Native.String.{String}
use mathlib.Core.Path.{◌≡◌, refl}
use mathlib.Core.Logic.{◌↔◌}
use mathlib.Core.Bool.{Bool, true, false, ◌&&◌}
use mathlib.Core.List.{List, [], ◌∷◌}
use Prim.Native.Nat.{ℕ, zero, suc, ◌/◌, ◌%◌}
use Prim.Native.Char.{code}
use Prim.Native.String.{◌++◌ as str_append}
use dsh_desktop_shell.Prelude.Tests.{if◌then◌else◌, ltb, ◌==◌ as nat_eq}
use text.Mathlib.Text.{◌==◌}
use text.Mathlib.TextEquality.{eq_iff}

unfoldable pub dec_of {ℓ} : {P : Type ℓ} (b : Bool) → (b ≡ true) ↔ P → Dec P
dec_of true e = yes (e.0 refl)
dec_of false e = no (λ p. absurd (cc (e.1 p)))

unfoldable pub text_discrete : Discrete String
unfolding dec_of
text_discrete s t = dec_of (s == t) (eq_iff s t)

-- The characters of a text, as code points.
abbrev pub codes : String → List ℕ
codes String.[] = []
codes (String.◌∷◌ c s) = code c ∷ codes s

abbrev pub same_codes : List ℕ → List ℕ → Bool
same_codes [] [] = true
same_codes [] (d ∷ ds) = false
same_codes (c ∷ cs) [] = false
same_codes (c ∷ cs) (d ∷ ds) = nat_eq c d && same_codes cs ds

abbrev pub digit : ℕ → String
digit n =
    if nat_eq n 0
    then "0"
    else if nat_eq n 1
    then "1"
    else if nat_eq n 2
    then "2"
    else if nat_eq n 3
    then "3"
    else if nat_eq n 4
    then "4"
    else if nat_eq n 5
    then "5"
    else if nat_eq n 6
    then "6"
    else if nat_eq n 7
    then "7"
    else if nat_eq n 8
    then "8"
    else "9"

-- A u64 has at most twenty digits.
unfoldable pub decimal_from : ℕ → ℕ → String → String
decimal_from zero n tail = tail
decimal_from (suc fuel) n tail =
    let more = decimal_from fuel (n / 10) (str_append (digit (n % 10)) tail) in
    if ltb n 10 then str_append (digit n) tail else more
