-- ===== src/Broker/Scope.antt =====
-- `Scope::covers` of crates/supervisor/src/broker.rs.
use dsh_desktop_shell.Prelude.{
  String, Bool, true, false, ◌||◌, Option, none, some, List, text_discrete, if◌then◌else◌, does,
  any, all, is_empty,
}
use dsh_desktop_shell.Broker.Types.{Scope}

-- `Vec::contains`.
abbrev pub contains : List String → String → Bool
contains xs x = any (λ y. does (text_discrete y x)) xs

-- A pinned dimension: an unset one imposes no constraint.
abbrev pin_covers : Option String → Option String → Bool
pin_covers none requested = true
pin_covers (some pinned) none = false
pin_covers (some pinned) (some value) = does (text_discrete value pinned)

-- A listed dimension: an empty list imposes no constraint.
abbrev list_covers : List String → List String → Bool
list_covers listed requested = is_empty listed || all (contains listed) requested

unfoldable pub covers : Scope → Scope → Bool
covers s requested =
    if pin_covers s.session_id requested.session_id
    then if pin_covers s.workspace requested.workspace
      then if list_covers s.domains requested.domains
        then list_covers s.resources requested.resources
        else false
      else false
    else false
