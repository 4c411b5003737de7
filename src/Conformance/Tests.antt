-- ===== src/Conformance/Tests.antt =====
-- The conformance theorems at concrete declarations (crates/adapter-dsh-std/src/conformance.rs,
-- facets.rs).
use dsh_desktop_shell.Conformance.Evaluation.{
  conforms_each, conforms_iff, conforms_each_logged, IsValid, IsFaithful,
}
use dsh_desktop_shell.Conformance.Formats.{
  split, is_valid_integrity, split_once, is_valid_commit, is_valid_version,
}
use dsh_desktop_shell.Conformance.Facets.{
  FacetKind-discrete, default_api, negotiation, local_default, is_compatible_with, invocation,
  intersect, Facet,
}
use dsh_desktop_shell.Conformance.Declaration.{
  unknown, states, absent, matches_known_baseline, first_match, known_baseline, known,
  first_invalid, ConformanceLogEntry, validate_format, conforms, ConformanceRecord,
}
use dsh_desktop_shell.Prelude.{
  ◌++◌, dec_of, codes, All, ◌↔◌, text_discrete, String, Option, List, Any, ◌≡◌, ok, refl, true,
  some, none, ◌∷◌, [],
}

abbrev drifted : ConformanceRecord
drifted = record known_baseline { commit = "0123456" }

abbrev pinned_later : List ConformanceRecord
pinned_later = drifted ∷ known_baseline ∷ []

known_baseline_valid : validate_format known_baseline ≡ ok tt
unfolding validate_format is_valid_version is_valid_commit is_valid_integrity split_once split
known_baseline_valid = refl

drifted_unknown : (conforms (some (drifted ∷ [])) "t" []).1 ≡ unknown
unfolding conforms first_invalid first_match matches_known_baseline text_discrete dec_of
    validate_format is_valid_version is_valid_commit is_valid_integrity split_once split
drifted_unknown = refl

-- A version of three empty numbers is let through.
empty_numbers : is_valid_version (codes "..") ≡ true
unfolding is_valid_version split_once split
empty_numbers = refl

conforms_iff_example :
    (((conforms (some pinned_later) "t" []).1 ≡ known)
      ↔ (Any (λ r. r ≡ known_baseline) pinned_later × All IsValid pinned_later))
    × (((conforms (some pinned_later) "t" []).1 ≡ absent) ↔ (pinned_later ≡ []))
conforms_iff_example = conforms_iff (some pinned_later) "t" []

abbrev calls : List (Option (List ConformanceRecord) × String)
calls = (none, "t1") ∷ (some pinned_later, "t2") ∷ (some (drifted ∷ []), "t3") ∷ []

conforms_each_logged_example :
    (added : List ConformanceLogEntry) × ((conforms_each calls []).0 ≡ [] ++ added)
    × (states added ≡ (conforms_each calls []).1)
    × All IsFaithful added
conforms_each_logged_example = conforms_each_logged calls []

run_answers : (conforms_each calls []).1 ≡ absent ∷ known ∷ unknown ∷ []
unfolding conforms first_invalid first_match matches_known_baseline text_discrete dec_of
    validate_format is_valid_version is_valid_commit is_valid_integrity split_once split
run_answers = refl

abbrev newer : Facet
newer = record { kind = negotiation; api_version = "dsh-std.dsh-desktop.local/v2" }

abbrev offered : Facet
offered = record { kind = invocation; api_version = default_api }

newer_left_out : intersect local_default (newer ∷ offered ∷ []) ≡ offered ∷ []
unfolding intersect is_compatible_with text_discrete dec_of FacetKind-discrete
newer_left_out = refl
