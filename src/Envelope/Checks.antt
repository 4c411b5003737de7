-- ===== src/Envelope/Checks.antt =====
-- When a check of a frame has no issue (crates/daemon/src/envelope.rs).
use dsh_desktop_shell.Envelope.Words.{valid_coordinate_kind_iff, IsWord}
use dsh_desktop_shell.Envelope.Grammar.{valid_api_version_iff, IsApiVersion}
use dsh_desktop_shell.Conformance.Formats.{is_ascii_alphanumeric}
use dsh_desktop_shell.Envelope.Types.{ValidationIssue}
use dsh_desktop_shell.Envelope.Frames.{
  is_some, fits, outcome_of, validate_coordinate, required, forbid, expect, validate_items,
  validate_coordinates, unique_serialized, all_unseen,
}
use Prim.Native.String.{len}
use dsh_desktop_shell.Envelope.Formats.{is_ascii_uppercase}
use dsh_desktop_shell.Negotiation.Messages.{ProtocolCoordinate}
use dsh_desktop_shell.Prelude.{
  ok, text_discrete, ltb, leb, sym, Any→any, any→Any, does_iff, ◌+◌, Any-map, ◌≤◌, ◌++◌, does,
  codes, All, ◌↔◌, any, String, Any, ℕ, Option, List, Bool, ◌≡◌, arith, refl, false, true, some,
  none, ◌∷◌, [],
}

-- Two lists of issues that are empty together.
pub both :
    {P Q : Type 0} {xs ys : List ValidationIssue}
    → (xs ≡ []) ↔ P
    → (ys ≡ []) ↔ Q
    → (xs ++ ys ≡ []) ↔ (P × Q)
both {xs = []} p q = ((λ h. (p.0 refl, q.0 h)), λ h. q.1 h.1)
both {xs = x ∷ xs} p q = ((λ h. absurd (cc h)), λ h. absurd (cc (p.1 h.0)))

pub forbid_iff : (b : Bool) (i : ValidationIssue) → (forbid b i ≡ []) ↔ (b ≡ false)
forbid_iff b i = ground arith

pub expect_iff : (b : Bool) (i : ValidationIssue) → (expect b i ≡ []) ↔ (b ≡ true)
expect_iff b i = ground arith

abbrev pub Within : ℕ → ℕ → String → Type 0
Within low high text = (low ≤ len text) × (len text ≤ high)

pub fits_iff :
    (low high : ℕ) (text : String) (i : ValidationIssue)
    → (expect (fits low high text) i ≡ []) ↔ Within low high text
fits_iff low high text i = ground arith

pub nonempty_iff :
    (text : String) (i : ValidationIssue) → (expect (leb 1 (len text)) i ≡ []) ↔ (1 ≤ len text)
nonempty_iff text i = ground arith

pub short_iff : (high n : ℕ) (i : ValidationIssue) → (forbid (ltb high n) i ≡ []) ↔ (n ≤ high)
short_iff high n i = ground arith

pub same_iff :
    (s t : String) (i : ValidationIssue) → (expect (does (text_discrete s t)) i ≡ []) ↔ (s ≡ t)
same_iff s t i = ground (arith, does_iff (text_discrete s t))

pub no_issue_iff : (issues : List ValidationIssue) → (outcome_of issues ≡ ok tt) ↔ (issues ≡ [])
no_issue_iff [] = ground arith
no_issue_iff (i ∷ issues) = ground arith

abbrev pub IsAbsent {ℓ} : {A : Type ℓ} → Option A → Type ℓ
IsAbsent o = o ≡ none

pub IsAbsent-iff {ℓ} :
    {A : Type ℓ} (o : Option A) (i : ValidationIssue) → (forbid (is_some o) i ≡ []) ↔ IsAbsent o
IsAbsent-iff none i = ground arith
IsAbsent-iff (some a) i = ground arith

-- The value is there and satisfies P.
abbrev pub Holds {ℓ} : {A : Type ℓ} → (A → Type 0) → Option A → Type 0
Holds P none = ⊥
Holds P (some a) = P a

pub required_iff {ℓ} :
    {A : Type ℓ} {P : A → Type 0} {check : A → List ValidationIssue} (path : ValidationIssue)
    → ((a : A) → (check a ≡ []) ↔ P a)
    → (o : Option A) → (required check path o ≡ []) ↔ Holds P o
required_iff path f none = ground arith
required_iff path f (some a) = f a

pub expect-of :
    {P : Type 0} (b : Bool) (i : ValidationIssue) → (b ≡ true) ↔ P → (expect b i ≡ []) ↔ P
expect-of true i p = ((λ h. p.0 refl), λ h. refl)
expect-of false i p = ((λ h. absurd (cc h)), λ h. absurd (cc (p.1 h)))

abbrev pub IsCoordinate : ProtocolCoordinate → Type 0
IsCoordinate c =
    IsApiVersion (codes c.api_version)
    × IsWord is_ascii_uppercase is_ascii_alphanumeric (codes c.kind)

pub IsCoordinate-iff :
    (c : ProtocolCoordinate) (i : ValidationIssue) → (validate_coordinate c i ≡ []) ↔ IsCoordinate c
IsCoordinate-iff c i =
    both (expect-of _ i (valid_api_version_iff (codes c.api_version)))
      (expect-of _ i (valid_coordinate_kind_iff (codes c.kind)))

pub coordinates_iff :
    (cs : List ProtocolCoordinate) (i : ValidationIssue)
    → (validate_coordinates cs i ≡ []) ↔ All IsCoordinate cs
unfolding validate_coordinates
coordinates_iff [] i = ground arith
coordinates_iff (c ∷ cs) i = both (IsCoordinate-iff c i) (coordinates_iff cs i)

pub items_iff :
    (path : ℕ → ValidationIssue) (i : ℕ) (cs : List ProtocolCoordinate)
    → (validate_items path i cs ≡ []) ↔ All IsCoordinate cs
unfolding validate_items
items_iff path i [] = ground arith
items_iff path i (c ∷ cs) = both (IsCoordinate-iff c (path i)) (items_iff path (i + 1) cs)

abbrev pub Distinct : {A : Type 0} → List A → Type 0
Distinct [] = Unit
Distinct (x ∷ xs) = ¬ Any (λ y. y ≡ x) xs × Distinct xs

module _ {A : Type 0} (dec : Discrete A) where
  seen_iff : (x : A) (xs : List A) → (any (λ y. does (dec y x)) xs ≡ true) ↔ Any (λ y. y ≡ x) xs
  seen_iff x xs = (
    λ h. Any-map (λ y p. (does_iff (dec y x)).0 p) xs (any→Any (λ y. does (dec y x)) xs h),
    λ h. Any→any (λ y. does (dec y x)) xs (Any-map (λ y p. (does_iff (dec y x)).1 p) xs h),
  )

  fresh_iff :
      (x : A) (seen xs : List A)
      → All (λ y. ¬ Any (λ z. z ≡ y) (x ∷ seen)) xs
        ↔ (¬ Any (λ y. y ≡ x) xs × All (λ y. ¬ Any (λ z. z ≡ y) seen) xs)
  fresh_iff x seen [] = ground arith
  fresh_iff x seen (y ∷ ys) =
      let flip : y ≡ x → x ≡ y = λ e. sym e in
      let flop : x ≡ y → y ≡ x = λ e. sym e in ground (arith, flip, flop, fresh_iff x seen ys)

  unseen_iff :
      (seen xs : List A)
      → (all_unseen dec seen xs ≡ true) ↔ (Distinct xs × All (λ x. ¬ Any (λ y. y ≡ x) seen) xs)
  unfolding all_unseen
  unseen_iff seen [] = ground arith
  unseen_iff seen (x ∷ xs) =
      ground (arith, seen_iff x seen, fresh_iff x seen xs, unseen_iff (x ∷ seen) xs)

  none_seen : (xs : List A) → All (λ x. ¬ Any (λ y. y ≡ x) []) xs
  none_seen [] = tt
  none_seen (x ∷ xs) = (λ h. h, none_seen xs)

  pub unique_iff : (xs : List A) → (unique_serialized dec xs ≡ true) ↔ Distinct xs
  unique_iff xs = (λ h. ((unseen_iff [] xs).0 h).0, λ d. (unseen_iff [] xs).1 (d, none_seen xs))

  pub Distinct-iff :
      (xs : List A) (i : ValidationIssue) → (expect (unique_serialized dec xs) i ≡ []) ↔ Distinct xs
  Distinct-iff xs i =
      let e = expect_iff (unique_serialized dec xs) i in
      let u = unique_iff xs in (λ h. u.0 (e.0 h), λ d. e.1 (u.1 d))
