-- ===== src/Envelope/Words.antt =====
-- The grammars of methods and of a coordinate's kind (crates/daemon/src/envelope.rs, `valid_method`,
-- `valid_coordinate_kind`).
-- `[..]+`: one or more characters of a class.
use dsh_desktop_shell.Conformance.Formats.{is_ascii_alphanumeric}
use dsh_desktop_shell.Scheduler.Timestamp.{is_digit}
use dsh_desktop_shell.Envelope.Formats.{
  is_ascii_uppercase, is_ascii_lowercase, valid_method, valid_coordinate_kind,
}
use dsh_desktop_shell.Prelude.{
  ap, ◌==◌, sym, subst, all, ◌↔◌, ◌||◌, not, is_empty, ◌&&◌, List, ℕ, Bool, ◌≡◌, arith, refl, false,
  true, ◌∷◌, [],
}

abbrev pub IsRun : (ℕ → Bool) → List ℕ → Type 0
IsRun p cs = (is_empty cs ≡ false) × (all p cs ≡ true)

pub and_true : {a b : Bool} → a ≡ true → b ≡ true → (a && b) ≡ true
and_true p q = ground (arith, p, q)

-- A first character of one class and then one or more of another.
abbrev pub IsWord : (ℕ → Bool) → (ℕ → Bool) → List ℕ → Type 0
IsWord p q cs =
    (first : ℕ) × (rest : List ℕ) × (cs ≡ first ∷ rest) × (p first ≡ true) × IsRun q rest

abbrev is_word : (ℕ → Bool) → (ℕ → Bool) → List ℕ → Bool
is_word p q [] = false
is_word p q (c ∷ cs) = p c && (not (is_empty cs) && all q cs)

word_lem : (p q : ℕ → Bool) (cs : List ℕ) → (is_word p q cs ≡ true) ↔ IsWord p q cs
word_lem p q [] = ((λ h. absurd (cc h)), λ (c, cs, e, u, r). absurd (cc e))
word_lem p q (c ∷ cs) = (
  λ h. let parts : (p c ≡ true) × IsRun q cs = ground (arith, h) in (c, cs, refl, parts.0, parts.1),
  λ (d, ds, e, u, r).
      subst (λ v. is_word p q v ≡ true) (sym e) (and_true u (and_true (ap not r.0) r.1)),
)

abbrev pub is_method_char : ℕ → Bool
is_method_char c = is_ascii_lowercase c || (is_digit c || (c == b'.' || (c == b'_' || c == b'-')))

-- The methods are the texts of `^[a-z][a-z0-9._-]+$`.
pub valid_method_iff :
    (cs : List ℕ) → (valid_method cs ≡ true) ↔ IsWord is_ascii_lowercase is_method_char cs
unfolding valid_method
valid_method_iff [] = word_lem is_ascii_lowercase is_method_char []
valid_method_iff (c ∷ cs) = word_lem is_ascii_lowercase is_method_char (c ∷ cs)

-- The kinds are the texts of `^[A-Z][A-Za-z0-9]+$`.
pub valid_coordinate_kind_iff :
    (cs : List ℕ)
    → (valid_coordinate_kind cs ≡ true) ↔ IsWord is_ascii_uppercase is_ascii_alphanumeric cs
unfolding valid_coordinate_kind
valid_coordinate_kind_iff [] = word_lem is_ascii_uppercase is_ascii_alphanumeric []
valid_coordinate_kind_iff (c ∷ cs) = word_lem is_ascii_uppercase is_ascii_alphanumeric (c ∷ cs)
