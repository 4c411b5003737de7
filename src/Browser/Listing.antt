-- ===== src/Browser/Listing.antt =====
-- `SessionRegistry::list` (crates/browser-provider/src/session.rs).
use dsh_desktop_shell.Browser.Session.{report, SessionRegistry, BrowserSession}
use dsh_desktop_shell.Prelude.{map, List, Bool, if◌then◌else◌, false, true, ◌∷◌, []}
use Prim.Native.Nat.{Ordering}
use Prim.Native.String.{compare}

-- `sort_by` on the session ids, whose bytes are compared.
abbrev pub is_after : Ordering → Bool
is_after Ordering.gt = true
is_after _ = false

abbrev pub insert_sorted : BrowserSession → List BrowserSession → List BrowserSession
insert_sorted a [] = a ∷ []
insert_sorted a (b ∷ bs) =
    let rest = insert_sorted a bs in
    if is_after (compare a.session_id b.session_id) then b ∷ rest else a ∷ b ∷ bs

abbrev pub sort_by_id : List BrowserSession → List BrowserSession
sort_by_id [] = []
sort_by_id (a ∷ rest) = insert_sorted a (sort_by_id rest)

unfoldable pub list : SessionRegistry → List BrowserSession
list r = sort_by_id (map (λ e. report e.1) r.sessions)
