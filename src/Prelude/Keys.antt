-- ===== src/Prelude/Keys.antt =====
-- Association lists in which no key stands twice.
use mathlib.Core.Path.{◌≡◌, refl, subst}
use mathlib.Core.Logic.{◌⊎◌, inl, inr}
use mathlib.Core.Bool.{Bool}
use mathlib.Core.List.{List, [], ◌∷◌}
use mathlib.Core.Option.{none}
use native.Mathlib.Omega.{arith}
use mathlib.Core.Option.{some}
use dsh_desktop_shell.Prelude.Lists.{
  All, lookup, insert, remove, modify, retain, lookup-insert, lookup-remove, lookup-modify,
}

module _ {K V : Type 0} (dec : Discrete K) where
  abbrev pub UniqueKeys : List (K × V) → Type 0
  UniqueKeys [] = Unit {0}
  UniqueKeys ((k, v) ∷ m) = (lookup dec k m ≡ none) × UniqueKeys m

  pub lookup-retain_absent :
      (k : K) (p : K × V → Bool) (m : List (K × V))
      → lookup dec k m ≡ none
      → lookup dec k (retain p m) ≡ none
  lookup-retain_absent k p [] h = refl
  lookup-retain_absent k p ((j, v) ∷ m) h = ground (arith, h, lookup-retain_absent k p m)

  pub UniqueKeys-retain :
      (p : K × V → Bool) (m : List (K × V)) → UniqueKeys m → UniqueKeys (retain p m)
  UniqueKeys-retain p [] u = u
  UniqueKeys-retain p ((k, v) ∷ m) u =
      ground (arith, u.0, lookup-retain_absent k p m, UniqueKeys-retain p m u.1)

  pub UniqueKeys-insert :
      (k : K) (v : V) (m : List (K × V)) → UniqueKeys m → UniqueKeys (insert dec k v m)
  UniqueKeys-insert k v [] u = (refl, tt)
  UniqueKeys-insert k v ((j, w) ∷ m) u =
      ground (arith, u.0, lookup-insert dec k j v m, UniqueKeys-insert k v m u.1)

  pub UniqueKeys-remove : (k : K) (m : List (K × V)) → UniqueKeys m → UniqueKeys (remove dec k m)
  UniqueKeys-remove k [] u = u
  UniqueKeys-remove k ((j, w) ∷ m) u =
      ground (arith, u.0, lookup-remove dec k j m, UniqueKeys-remove k m u.1)

  pub UniqueKeys-modify :
      (k : K) (f : V → V) (m : List (K × V)) → UniqueKeys m → UniqueKeys (modify dec k f m)
  UniqueKeys-modify k f [] u = u
  UniqueKeys-modify k f ((j, w) ∷ m) u =
      ground (arith, u.0, lookup-modify dec k j f m, UniqueKeys-modify k f m u.1)

  pub All-insert :
      (P : V → Type 0) (k : K) (v : V) (m : List (K × V))
      → P v
      → All (λ e. P e.1) m
      → All (λ e. P e.1) (insert dec k v m)
  All-insert P k v [] p h = (p, tt)
  All-insert P k v ((j, w) ∷ m) p h = ground (arith, h.0, h.1, All-insert P k v m p h.1)

  pub first_or_later :
      (k : K) {v : V} (j : K) (w : V) (m : List (K × V))
      → lookup dec k ((j, w) ∷ m) ≡ some v
      → (w ≡ v) ⊎ (lookup dec k m ≡ some v)
  first_or_later k j w m e = ground arith

  pub All-lookup :
      (P : V → Type 0) (k : K) (v : V) (m : List (K × V))
      → All (λ e. P e.1) m
      → lookup dec k m ≡ some v
      → P v
  All-lookup P k v [] h e = absurd (cc e)
  All-lookup P k v ((j, w) ∷ m) h e = elim (first_or_later k j w m e) [
    | inl same ↦ subst P same h.0
    | inr later ↦ All-lookup P k v m h.1 later
  ]
