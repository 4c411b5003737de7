-- ===== src/Conformance/Facets.antt =====
-- Facets and their catalog (crates/adapter-dsh-std/src/facets.rs).
use dsh_desktop_shell.Prelude.{
  ◌&&◌, text_discrete, retain, does, any, Option, String, List, Bool, if◌then◌else◌, some, none,
  ◌∷◌, [],
}

pub data FacetKind : Type 0 where
  negotiation conformance invocation : FacetKind

unfoldable pub kind_text : FacetKind → String
kind_text negotiation = "negotiation"
kind_text conformance = "conformance"
kind_text invocation = "invocation"

unfoldable pub parse_kind : String → Option FacetKind
parse_kind s =
    if does (text_discrete s "negotiation")
    then some negotiation
    else if does (text_discrete s "conformance")
    then some conformance
    else if does (text_discrete s "invocation")
    then some invocation
    else none

unfoldable pub FacetKind-discrete : Discrete FacetKind
FacetKind-discrete = hlevel

pub record Facet : Type 0 where
  pub kind : FacetKind
  pub api_version : String

unfoldable pub is_compatible_with : Facet → Facet → Bool
is_compatible_with f other =
    does (FacetKind-discrete f.kind other.kind)
    && does (text_discrete f.api_version other.api_version)

abbrev pub supports : List Facet → Facet → Bool
supports catalog facet = any (λ f. is_compatible_with f facet) catalog

unfoldable pub intersect : List Facet → List Facet → List Facet
intersect catalog peer = retain (supports catalog) peer

abbrev pub default_api : String
default_api = "dsh-std.dsh-desktop.local/v1alpha1"

abbrev pub local_default : List Facet
local_default =
    record { kind = negotiation; api_version = default_api }
    ∷ record { kind = conformance; api_version = default_api }
    ∷ record { kind = invocation; api_version = default_api }
    ∷ []
