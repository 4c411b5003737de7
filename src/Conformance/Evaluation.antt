-- ===== src/Conformance/Evaluation.antt =====
-- What an evaluation answers and logs (crates/adapter-dsh-std/src/conformance.rs).
use mathlib.Core.List.{append_assoc, append-nil}
use dsh_desktop_shell.Conformance.Declaration.{
  logged, states, absent, known, ConformanceState, evaluation, evaluate, conforms,
  ConformanceLogEntry, known_integrity, known_commit, known_version, known_package, known_baseline,
  validate_format, matches_known_baseline, first_match, first_invalid, ConformanceRecord,
}
use dsh_desktop_shell.Prelude.{
  ◌∙◌, inr, inl, ap, ◌⊎◌, Option-cases, ◌≢◌, ◌++◌, sym, subst, dec_of, does_iff, Result-cases, Any,
  text_discrete, All, ◌↔◌, ◌&&◌, does, List, String, Option, Bool, ◌≡◌, ok, arith, refl, true, some,
  none, ◌∷◌, [],
}

same_and : (s t : String) (b : Bool) → (does (text_discrete s t) && b) ≡ true → (s ≡ t) × (b ≡ true)
same_and s t b h = ground (arith, does_iff (text_discrete s t))

-- The four comparisons hold of the pinned record and of no other.
matches_iff : (r : ConformanceRecord) → (matches_known_baseline r ≡ true) ↔ (r ≡ known_baseline)
unfolding matches_known_baseline text_discrete dec_of
matches_iff r = (
  λ h.
      let (p, h1) = same_and r.package_name known_package _ h in
      let (v, h2) = same_and r.version known_version _ h1 in
      let (c, h3) = same_and r.commit known_commit _ h2 in
      let n = (does_iff (text_discrete r.integrity known_integrity)).0 h3 in
      λ i. record { package_name = p i; version = v i; commit = c i; integrity = n i },
  λ e. subst (λ q. matches_known_baseline q ≡ true) (sym e) refl,
)

abbrev pub IsValid : ConformanceRecord → Type 0
IsValid r = validate_format r ≡ ok tt

first_invalid_iff : (rs : List ConformanceRecord) → (first_invalid rs ≡ none) ↔ All IsValid rs
unfolding first_invalid
first_invalid_iff [] = (λ _. tt, λ _. refl)
first_invalid_iff (r ∷ rs) = ground (arith, first_invalid_iff rs, Result-cases (validate_format r))

first_match_iff :
    (rs : List ConformanceRecord)
    → (first_match rs ≡ some known_baseline) ↔ Any (λ r. r ≡ known_baseline) rs
unfolding first_match
first_match_iff [] = ground arith
first_match_iff (r ∷ rs) = ground (arith, first_match_iff rs, matches_iff r)

first_match-only :
    (rs : List ConformanceRecord) (r : ConformanceRecord)
    → first_match rs ≡ some r
    → r ≡ known_baseline
unfolding first_match
first_match-only [] r h = cc
first_match-only (s ∷ rs) r h = ground (arith, first_match-only rs r, matches_iff s)

abbrev records_of : Option (List ConformanceRecord) → List ConformanceRecord
records_of none = []
records_of (some rs) = rs

match_cases :
    (rs : List ConformanceRecord) → (first_match rs ≡ none) ⊎ (first_match rs ≡ some known_baseline)
match_cases rs = elim (Option-cases (first_match rs)) [
  | inl e ↦ inl e
  | inr (r, e) ↦ inr (e ∙ ap some (first_match-only rs r e))
]

evaluate_known :
    (at : String) (rs : List ConformanceRecord)
    → ((evaluate at rs).state ≡ known)
      ↔ ((first_match rs ≡ some known_baseline) × (first_invalid rs ≡ none))
evaluate_known at rs = elim (Option-cases (first_invalid rs)) [
  | inr (x, e) ↦ rw e (ground arith)
  | inl e ↦ elim (match_cases rs) [
    | inl m ↦ rw (e, m) (ground arith)
    | inr m ↦ rw (e, m) (ground arith)
  ]
]

evaluate_present : (at : String) (rs : List ConformanceRecord) → (evaluate at rs).state ≢ absent
evaluate_present at rs =
    ground (arith, Option-cases (first_invalid rs), Option-cases (first_match rs))

-- An evaluation answers known exactly when the declaration holds the pinned record and each of its
-- records has a valid format; it answers absent exactly when there is no record.
pub conforms_iff :
    (declaration : Option (List ConformanceRecord)) (at : String) (log : List ConformanceLogEntry)
    → let records = records_of declaration in
      let answer = (conforms declaration at log).1 in
      ((answer ≡ known) ↔ (Any (λ r. r ≡ known_baseline) records × All IsValid records))
      × ((answer ≡ absent) ↔ (records ≡ []))
unfolding conforms
conforms_iff none at log = ground arith
conforms_iff (some []) at log = ground arith
conforms_iff (some (r ∷ rs)) at log =
    let valid = first_invalid_iff (r ∷ rs) in
    let pinned = first_match_iff (r ∷ rs) in
    let k = evaluate_known at (r ∷ rs) in
    (
      (λ h. let (m, v) = k.0 h in (pinned.0 m, valid.0 v), λ h. k.1 (pinned.1 h.0, valid.1 h.1)),
      ground (arith, evaluate_present at (r ∷ rs)),
    )

-- What the log says was matched is the pinned coordinate, in the entries that answer known.
abbrev pub IsFaithful : ConformanceLogEntry → Type 0
IsFaithful e =
    ((e.state ≡ known) × (e.matched ≡ some "@dsh-std/core@0.1.1-rc.1"))
    ⊎ ((e.state ≢ known) × (e.matched ≡ none))

evaluate-IsFaithful : (at : String) (rs : List ConformanceRecord) → IsFaithful (evaluate at rs)
evaluate-IsFaithful at rs = elim (Option-cases (first_invalid rs)) [
  | inr (x, e) ↦ subst (λ o. IsFaithful (logged at o (first_match rs))) (sym e) (ground arith)
  | inl e ↦ elim (match_cases rs) [
    | inl m ↦
        subst (λ o. IsFaithful (logged at o (first_match rs))) (sym e)
          (subst (λ o. IsFaithful (logged at none o)) (sym m) (ground arith))
    | inr m ↦
        subst (λ o. IsFaithful (logged at o (first_match rs))) (sym e)
          (subst (λ o. IsFaithful (logged at none o)) (sym m) (inl (refl, refl)))
  ]
]

evaluation-IsFaithful :
    (at : String) (declaration : Option (List ConformanceRecord))
    → IsFaithful (evaluation at declaration)
evaluation-IsFaithful at none = ground arith
evaluation-IsFaithful at (some []) = ground arith
evaluation-IsFaithful at (some (r ∷ rs)) = evaluate-IsFaithful at (r ∷ rs)

-- A run of evaluations, each with its time.
abbrev pub conforms_each :
    List (Option (List ConformanceRecord) × String)
    → List ConformanceLogEntry
    → List ConformanceLogEntry × List ConformanceState
conforms_each [] log = (log, [])
conforms_each ((declaration, at) ∷ calls) log =
    let (after, answer) = conforms declaration at log in
    let (end, answers) = conforms_each calls after in (end, answer ∷ answers)

-- After any evaluations the log holds what it held before, then one entry for each evaluation with
-- the state that it answered, and says of exactly the known ones that the pinned coordinate was matched.
pub conforms_each_logged :
    (calls : List (Option (List ConformanceRecord) × String)) (log : List ConformanceLogEntry)
    → (added : List ConformanceLogEntry) × ((conforms_each calls log).0 ≡ log ++ added)
      × (states added ≡ (conforms_each calls log).1)
      × All IsFaithful added
unfolding conforms
conforms_each_logged [] log = ([], sym (append-nil log), refl, tt)
conforms_each_logged ((declaration, at) ∷ calls) log =
    let entry = evaluation at declaration in
    let (added, e, s, f) = conforms_each_logged calls (log ++ entry ∷ []) in
    (
      entry ∷ added,
      e ∙ append_assoc log (entry ∷ []) added,
      ap (λ t. entry.state ∷ t) s,
      (evaluation-IsFaithful at declaration, f),
    )
