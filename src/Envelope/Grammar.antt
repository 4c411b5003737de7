-- ===== src/Envelope/Grammar.antt =====
-- The grammar of a coordinate's version (crates/daemon/src/envelope.rs, `valid_api_version`):
-- `^[a-z0-9.-]+/v[0-9]+(alpha[0-9]+|beta[0-9]+)?$`.
use dsh_desktop_shell.Envelope.Words.{and_true, IsRun}
use dsh_desktop_shell.Scheduler.Timestamp.{is_digit, skip_digits}
use dsh_desktop_shell.Envelope.Formats.{
  are_sides, is_name, valid_api_version, is_version, is_suffix, starts_with_digit, strip_stage,
  rsplit_once,
}
use dsh_desktop_shell.Prelude.{
  any-append, ◌↔◌, sym, any, ◌∙◌, subst, ap, Bool-cases, ◌==◌, not, is_empty, codes, all,
  Option-cases, ◌⊎◌, ◌++◌, ℕ, List, ◌≡◌, arith, refl, false, true, inr, inl, some, none, ◌∷◌, [],
}

abbrev pub IsStage : List ℕ → Type 0
IsStage stage =
    (stage ≡ [])
    ⊎ ((rest : List ℕ) × ((stage ≡ codes "alpha" ++ rest) ⊎ (stage ≡ codes "beta" ++ rest))
        × IsRun is_digit rest)

abbrev pub IsApiVersion : List ℕ → Type 0
IsApiVersion value =
    (namespace : List ℕ) × (number : List ℕ) × (stage : List ℕ) × (value
      ≡ namespace ++ b'/' ∷ b'v' ∷ (number ++ stage))
    × IsRun is_name namespace
    × IsRun is_digit number
    × IsStage stage

rsplit-append :
    (sep : ℕ) (cs before after : List ℕ)
    → rsplit_once sep cs ≡ some (before, after)
    → cs ≡ before ++ sep ∷ after
unfolding rsplit_once
rsplit-append sep [] before after h = cc
rsplit-append sep (c ∷ cs) before after h = elim (Option-cases (rsplit_once sep cs)) [
  | inl e ↦
      let parts : ([] ≡ before) × (cs ≡ after) × (c ≡ sep) = ground (arith, e, h) in
      λ i. (subst (λ d. c ∷ cs ≡ d ∷ cs) parts.2 refl ∙ λ j. parts.0 j ++ sep ∷ parts.1 j) i
  | inr ((b, a), e) ↦
      let parts : (c ∷ b ≡ before) × (a ≡ after) = ground (arith, e, h) in
      ap (λ t. c ∷ t) (rsplit-append sep cs b a e) ∙ λ i. parts.0 i ++ sep ∷ parts.1 i
]

strip-append : (p cs rest : List ℕ) → strip_stage p cs ≡ some rest → cs ≡ p ++ rest
unfolding strip_stage
strip-append [] cs rest h = ground arith
strip-append (p ∷ ps) [] rest h = cc
strip-append (p ∷ ps) (c ∷ cs) rest h = ground (arith, strip-append ps cs rest)

-- What the loop over digits passes, and what it stops at.
digits_split :
    (cs : List ℕ)
    → (number : List ℕ) × (cs ≡ number ++ skip_digits cs)
      × (all is_digit number ≡ true)
      × (is_empty number ≡ not (starts_with_digit cs))
unfolding skip_digits
digits_split [] = ([], refl, refl, refl)
digits_split (c ∷ cs) = elim (Bool-cases (is_digit c)) [
  | inl e ↦
      let (number, s, a, n) = digits_split cs in
      (c ∷ number, rw e (ap (λ t. c ∷ t) s), rw e a, rw e refl)
  | inr e ↦ ([], rw e refl, refl, rw e refl)
]

suffix-IsStage : (cs : List ℕ) → is_suffix cs ≡ true → IsStage cs
suffix-IsStage [] h = inl refl
suffix-IsStage (c ∷ cs) h = elim (Option-cases (strip_stage (codes "alpha") (c ∷ cs))) [
  | inr (rest, e) ↦
      let r : IsRun is_digit rest = ground (arith, e, h) in
      inr (rest, inl (strip-append (codes "alpha") (c ∷ cs) rest e), r)
  | inl e ↦ elim (Option-cases (strip_stage (codes "beta") (c ∷ cs))) [
    | inr (rest, f) ↦
        let r : IsRun is_digit rest = ground (arith, e, f, h) in
        inr (rest, inr (strip-append (codes "beta") (c ∷ cs) rest f), r)
    | inl f ↦ absurd (ground (arith, e, f, h))
  ]
]

version-grammar :
    (cs : List ℕ)
    → is_version cs ≡ true
    → (number : List ℕ) × (stage : List ℕ) × (cs ≡ b'v' ∷ (number ++ stage))
      × IsRun is_digit number
      × IsStage stage
version-grammar [] h = absurd (cc h)
version-grammar (c ∷ cs) h =
    let (number, s, a, n) = digits_split cs in
    let parts : (c ≡ b'v') × (starts_with_digit cs ≡ true) × (is_suffix (skip_digits cs) ≡ true) =
      ground (arith, h) in
    (
      number,
      skip_digits cs,
      (λ i. parts.0 i ∷ s i),
      (n ∙ ap not parts.1, a),
      suffix-IsStage (skip_digits cs) parts.2,
    )

IsApiVersion-of : (value : List ℕ) → valid_api_version value ≡ true → IsApiVersion value
unfolding valid_api_version
IsApiVersion-of value h = elim (Option-cases (rsplit_once b'/' value)) [
  | inl e ↦ absurd (ground (arith, e, h))
  | inr ((namespace, version), e) ↦
      let parts : IsRun is_name namespace × (is_version version ≡ true) = ground (arith, e, h) in
      let (number, stage, v, run, st) = version-grammar version parts.1 in
      (
        namespace,
        number,
        stage,
        rsplit-append b'/' value namespace version e ∙ ap (λ t. namespace ++ b'/' ∷ t) v,
        parts.0,
        run,
        st,
      )
]

abbrev IsFree : ℕ → List ℕ → Type 0
IsFree sep cs = any (λ c. c == sep) cs ≡ false

rsplit-free : (sep : ℕ) (cs : List ℕ) → IsFree sep cs → rsplit_once sep cs ≡ none
unfolding rsplit_once
rsplit-free sep [] h = refl
rsplit-free sep (c ∷ cs) h = ground (arith, rsplit-free sep cs)

rsplit-of :
    (sep : ℕ) (before after : List ℕ)
    → IsFree sep after
    → rsplit_once sep (before ++ sep ∷ after) ≡ some (before, after)
unfolding rsplit_once
rsplit-of sep [] after h = rw (rsplit-free sep after h) (ground arith)
rsplit-of sep (c ∷ before) after h = rw (rsplit-of sep before after h) refl

digits-IsFree : (cs : List ℕ) → all is_digit cs ≡ true → IsFree b'/' cs
digits-IsFree [] h = refl
digits-IsFree (c ∷ cs) h = ground (arith, digits-IsFree cs)

skip_digits-append :
    (number stage : List ℕ)
    → all is_digit number ≡ true
    → starts_with_digit stage ≡ false
    → skip_digits (number ++ stage) ≡ stage
unfolding skip_digits
skip_digits-append [] [] h k = refl
skip_digits-append [] (c ∷ stage) h k = ground arith
skip_digits-append (d ∷ number) stage h k = ground (arith, skip_digits-append number stage)

stage_lem :
    (stage : List ℕ)
    → IsStage stage
    → (starts_with_digit stage ≡ false) × (is_suffix stage ≡ true) × IsFree b'/' stage
unfolding strip_stage
stage_lem stage (inl e) =
    subst (λ st. (starts_with_digit st ≡ false) × (is_suffix st ≡ true) × IsFree b'/' st) (sym e)
      (refl, refl, refl)
stage_lem stage (inr (rest, inl e, r)) =
    subst (λ st. (starts_with_digit st ≡ false) × (is_suffix st ≡ true) × IsFree b'/' st) (sym e)
      (refl, rw (r.0, r.1) refl, digits-IsFree rest r.1)
stage_lem stage (inr (rest, inr e, r)) =
    subst (λ st. (starts_with_digit st ≡ false) × (is_suffix st ≡ true) × IsFree b'/' st) (sym e)
      (refl, rw (r.0, r.1) refl, digits-IsFree rest r.1)

number_lem :
    (number stage : List ℕ)
    → IsRun is_digit number
    → IsStage stage
    → is_version (b'v' ∷ (number ++ stage)) ≡ true
number_lem [] stage r k = absurd (cc (r.0))
number_lem (d ∷ number) stage r k =
    let l = stage_lem stage k in
    let first : is_digit d ≡ true = ground (arith, r) in
    and_true first
      (subst (λ st. is_suffix st ≡ true) (sym (skip_digits-append (d ∷ number) stage r.1 l.0)) l.1)

-- Exactly the texts of the grammar are taken for versions.
pub valid_api_version_iff : (value : List ℕ) → (valid_api_version value ≡ true) ↔ IsApiVersion value
unfolding valid_api_version
valid_api_version_iff value = (
  IsApiVersion-of value,
  λ (namespace, number, stage, e, run, digits, k).
      let l = stage_lem stage k in
      let version = b'v' ∷ (number ++ stage) in
      let free : IsFree b'/' version =
        any-append (λ c. c == b'/') number stage ∙ rw (digits-IsFree number digits.1, l.2) refl in
      subst (λ v. valid_api_version v ≡ true) (sym e)
        (subst (λ o. are_sides o ≡ true) (sym (rsplit-of b'/' namespace version free))
          (and_true (ap not run.0) (and_true run.1 (number_lem number stage digits k)))),
)
