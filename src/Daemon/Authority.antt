-- ===== src/Daemon/Authority.antt =====
-- Who a connection may speak for (crates/daemon/src/server.rs, crates/local-transport/src/peer.rs).
use dsh_desktop_shell.Negotiation.Messages.{Participant}
use dsh_desktop_shell.Daemon.Types.{
  participant, shell_control, off, strict, ActivationAuthority-discrete, PeerIdentityPolicy,
  PeerIdentity, ActivationAuthority,
}
use dsh_desktop_shell.Prelude.{
  codes, ◌+◌, map, ◌&&◌, text_discrete, same_codes, not, leb, does, ℕ, String, Option, Bool,
  if◌then◌else◌, false, true, some, none,
}
use Prim.Native.String.{◌++◌ as str_append}

abbrev pub shell_component : String
shell_component = "dsh-desktop-shell"

abbrev pub shell_facet : String
shell_facet = "shell"

abbrev pub server_component : String
server_component = "dsh-desktop-shell"

abbrev pub server_facet : String
server_facet = "daemon"

abbrev pub to_lower : ℕ → ℕ
to_lower c = if leb b'A' c && leb c b'Z' then c + 32 else c

-- The paths are compared exactly, or without case on the platforms that fold it.
unfoldable pub image_matches : Bool → PeerIdentity → String → Bool
image_matches folds identity expected = elim identity.image_path [
  | none ↦ false
  | some image ↦
      if folds
      then same_codes (map to_lower (codes image)) (map to_lower (codes expected))
      else does (text_discrete image expected)
]

abbrev pub allows_expected : Bool → Option PeerIdentity → Option String → Bool
allows_expected folds (some identity) (some expected) = image_matches folds identity expected
allows_expected folds (some identity) none = false
allows_expected folds none expected = false

unfoldable pub allows : Bool → PeerIdentityPolicy → Option PeerIdentity → Bool
allows folds off identity = true
allows folds (strict expected) identity = allows_expected folds identity expected

abbrev pub claims_shell : Participant → Bool
claims_shell p =
    does (text_discrete p.component shell_component) && does (text_discrete p.facet shell_facet)

-- The class of a Hello on a connection.
unfoldable pub authority_of :
    Bool → PeerIdentityPolicy → Option PeerIdentity → Participant → ActivationAuthority
authority_of folds policy identity p =
    if claims_shell p && allows folds policy identity then shell_control else participant

abbrev pub agent_id_of : Participant → String
agent_id_of p = str_append p.component (str_append "-" p.facet)

abbrev pub is_authority : ActivationAuthority → ActivationAuthority → Bool
is_authority a b = does (ActivationAuthority-discrete a b)

abbrev pub is_mixed : Option ActivationAuthority → ActivationAuthority → Bool
is_mixed none authority = false
is_mixed (some established) authority = not (is_authority established authority)
