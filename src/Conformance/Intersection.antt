-- ===== src/Conformance/Intersection.antt =====
-- What the facet names and catalogs answer (crates/adapter-dsh-std/src/facets.rs).
use dsh_desktop_shell.Conformance.Facets.{
  invocation, conformance, negotiation, FacetKind-discrete, supports, kind_text, FacetKind,
  parse_kind, is_compatible_with, intersect, Facet,
}
use dsh_desktop_shell.Prelude.{
  Any→any, ◌∙◌, dec_of, any→Any, text_discrete, retain, ap, Any-map, ◌↔◌, ◌&&◌, does_iff, does, Any,
  String, List, Bool, ◌≡◌, arith, refl, true, some, ◌∷◌, [],
}

names :
    (s : String)
    → ((does (text_discrete s "negotiation") ≡ true) ↔ (s ≡ "negotiation"))
      × ((does (text_discrete s "conformance") ≡ true) ↔ (s ≡ "conformance"))
      × ((does (text_discrete s "invocation") ≡ true) ↔ (s ≡ "invocation"))
names s = (does_iff (text_discrete s _), does_iff (text_discrete s _), does_iff (text_discrete s _))

kind_text-of : (s : String) (k : FacetKind) → parse_kind s ≡ some k → s ≡ kind_text k
unfolding parse_kind kind_text
kind_text-of s negotiation h = ground (arith, names s)
kind_text-of s conformance h = ground (arith, names s)
kind_text-of s invocation h = ground (arith, names s)

parse_kind-kind_text : (k : FacetKind) → parse_kind (kind_text k) ≡ some k
unfolding parse_kind kind_text text_discrete dec_of
parse_kind-kind_text negotiation = refl
parse_kind-kind_text conformance = refl
parse_kind-kind_text invocation = refl

-- Exactly the name of a facet kind is parsed to that kind.
pub parse_kind_iff : (s : String) (k : FacetKind) → (parse_kind s ≡ some k) ↔ (s ≡ kind_text k)
parse_kind_iff s k = (kind_text-of s k, λ e. ap parse_kind e ∙ parse_kind-kind_text k)

same_facet :
    (f g : Facet)
    → is_compatible_with f g ≡ true
    → (f.kind ≡ g.kind) × (f.api_version ≡ g.api_version)
unfolding is_compatible_with
same_facet f g h = ground (
  arith,
  does_iff (FacetKind-discrete f.kind g.kind),
  does_iff (text_discrete f.api_version g.api_version),
)

both : {a b : Bool} → a ≡ true → b ≡ true → (a && b) ≡ true
both p q = ground (arith, p, q)

compatible_iff : (f g : Facet) → (is_compatible_with f g ≡ true) ↔ (f ≡ g)
unfolding is_compatible_with
compatible_iff f g = (
  λ h. let (k, v) = same_facet f g h in λ i. record { kind = k i; api_version = v i },
  λ e.
      both ((does_iff (FacetKind-discrete f.kind g.kind)).1 (λ i. (e i).kind))
        ((does_iff (text_discrete f.api_version g.api_version)).1 (λ i. (e i).api_version)),
)

supports_iff :
    (catalog : List Facet) (x : Facet) → (supports catalog x ≡ true) ↔ Any (λ f. f ≡ x) catalog
supports_iff catalog x = (
  λ h. Any-map (λ f p. (compatible_iff f x).0 p) catalog (any→Any _ catalog h),
  λ h.
      Any→any (λ f. is_compatible_with f x) catalog
        (Any-map (λ f p. (compatible_iff f x).1 p) catalog h),
)

retain_iff :
    (p : Facet → Bool) (xs : List Facet) (x : Facet)
    → Any (λ f. f ≡ x) (retain p xs) ↔ (Any (λ f. f ≡ x) xs × (p x ≡ true))
retain_iff p [] x = ground arith
retain_iff p (f ∷ xs) x =
    let same : f ≡ x → p f ≡ p x = λ e. ap p e in ground (arith, same, retain_iff p xs x)

-- The facets that a catalog and a peer share are those that stand in both lists, with the same kind
-- and the same version.
intersect_iff :
    (catalog peer : List Facet) (x : Facet)
    → Any (λ f. f ≡ x) (intersect catalog peer) ↔ (Any (λ f. f ≡ x) peer × Any (λ f. f ≡ x) catalog)
unfolding intersect
intersect_iff catalog peer x =
    let kept = retain_iff (supports catalog) peer x in
    let found = supports_iff catalog x in
    (λ h. ((kept.0 h).0, found.0 (kept.0 h).1), λ h. kept.1 (h.0, found.1 h.1))
