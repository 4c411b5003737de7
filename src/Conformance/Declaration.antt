-- ===== src/Conformance/Declaration.antt =====
-- Conformance declarations and their evaluation (crates/adapter-dsh-std/src/conformance.rs).
use dsh_desktop_shell.Conformance.Formats.{
  is_valid_integrity, is_valid_commit, is_valid_version, is_valid_package_name,
}
use dsh_desktop_shell.Prelude.{
  codes, ◌&&◌, text_discrete, not, ◌==◌, ◌++◌, map, guard, does, String, Result, Option, List, Bool,
  ◌>>◌, if◌then◌else◌, err, ok, false, true, some, none, ◌∷◌, [],
}
use Prim.Native.String.{len, ◌++◌ as str_append}

abbrev pub known_package : String
known_package = "@dsh-std/core"

abbrev pub known_version : String
known_version = "0.1.1-rc.1"

abbrev pub known_commit : String
known_commit = "3df0543"

abbrev pub known_integrity : String
known_integrity =
    "sha512-I2tZEYk0V5QjlvkLvqKkAj/Fsvz0bTe0oDF2YFzL8EpmOS9KNcILrLBGSdVrt1qZnlBZP+9Zzh2byJzG0dJiOQ=="

pub record ConformanceRecord : Type 0 where
  pub package_name : String
  pub version : String
  pub commit : String
  pub integrity : String

abbrev pub known_baseline : ConformanceRecord
known_baseline = record {
  package_name = known_package;
  version = known_version;
  commit = known_commit;
  integrity = known_integrity;
}

pub data ConformanceError : Type 0 where
  empty_package invalid_package_name empty_version invalid_version invalid_commit
        invalid_integrity :
      ConformanceError

abbrev pub is_empty_text : String → Bool
is_empty_text t = len t == 0

unfoldable pub validate_format : ConformanceRecord → Result ConformanceError (Unit {0})
validate_format r = do
  guard (not (is_empty_text r.package_name)) empty_package
  guard (is_valid_package_name r.package_name) invalid_package_name
  guard (not (is_empty_text r.version)) empty_version
  guard (is_valid_version (codes r.version)) invalid_version
  guard (is_valid_commit (codes r.commit)) invalid_commit
  guard (is_valid_integrity (codes r.integrity)) invalid_integrity

unfoldable pub matches_known_baseline : ConformanceRecord → Bool
matches_known_baseline r =
    does (text_discrete r.package_name known_package)
    && (does (text_discrete r.version known_version)
        && (does (text_discrete r.commit known_commit)
            && does (text_discrete r.integrity known_integrity)))

pub data ConformanceState : Type 0 where
  known absent unknown : ConformanceState

abbrev pub is_l2 : ConformanceState → Bool
is_l2 known = true
is_l2 absent = false
is_l2 unknown = false

-- The reasons that the log writes as texts.
pub data LogReason : Type 0 where
  no_declaration empty_declaration matches_baseline no_match : LogReason
  failed_format : String → ConformanceError → LogReason

pub record ConformanceLogEntry : Type 0 where
  pub at : String
  pub state : ConformanceState
  pub reason : LogReason
  pub matched : Option String

abbrev pub states : List ConformanceLogEntry → List ConformanceState
states entries = map (λ e. e.state) entries

-- The first loop: the first record that fails, with why.
unfoldable pub first_invalid : List ConformanceRecord → Option (String × ConformanceError)
first_invalid [] = none
first_invalid (r ∷ rs) = elim (validate_format r) [
  | err e ↦ some (r.package_name, e)
  | ok u ↦ first_invalid rs
]

-- The second loop.
unfoldable pub first_match : List ConformanceRecord → Option ConformanceRecord
first_match [] = none
first_match (r ∷ rs) =
    let later = first_match rs in if matches_known_baseline r then some r else later

abbrev pub log_entry : String → ConformanceState → LogReason → Option String → ConformanceLogEntry
log_entry at state reason matched = record {
  at = at;
  state = state;
  reason = reason;
  matched = matched;
}

-- The entry for what the two loops found.
abbrev pub logged :
    String → Option (String × ConformanceError) → Option ConformanceRecord → ConformanceLogEntry
logged at (some (name, e)) found = log_entry at unknown (failed_format name e) none
logged at none (some r) =
    log_entry at known matches_baseline
      (some (str_append r.package_name (str_append "@" r.version)))
logged at none none = log_entry at unknown no_match none

abbrev pub evaluate : String → List ConformanceRecord → ConformanceLogEntry
evaluate at records = logged at (first_invalid records) (first_match records)

abbrev pub evaluation : String → Option (List ConformanceRecord) → ConformanceLogEntry
evaluation at none = log_entry at absent no_declaration none
evaluation at (some []) = log_entry at absent empty_declaration none
evaluation at (some (r ∷ rs)) = evaluate at (r ∷ rs)

-- Each branch pushes its entry to the log and returns the entry's state.
unfoldable pub conforms :
    Option (List ConformanceRecord)
    → String
    → List ConformanceLogEntry
    → List ConformanceLogEntry × ConformanceState
conforms declaration at log =
    let entry = evaluation at declaration in (log ++ entry ∷ [], entry.state)
