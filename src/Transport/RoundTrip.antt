-- ===== src/Transport/RoundTrip.antt =====
-- A frame that is written is the frame that is read, however the bytes arrive
-- (crates/local-transport/src/framing.rs).
use dsh_desktop_shell.Transport.Framing.{
  before_bytes, encode_frame, read_payload, read_frame, interrupted, failed, put_back, chunk,
  le_bytes, Arrival, read_some, from_le_bytes,
}
use dsh_desktop_shell.Prelude.{
  none, ◌==◌, ltb, sym, leb→le, leb, Bool-cases, ◌∙◌, ◌-◌, ap, ◌++◌, is_empty, ◌<◌, take, drop, ◌≤◌,
  length, ℕ, List, suc, zero, ◌≡◌, ok, arith, refl, false, inr, inl, some, ◌∷◌, [],
}

-- The bytes of a stream.
abbrev pub bytes : List Arrival → List ℕ
bytes [] = []
bytes (chunk bs ∷ es) = bs ++ bytes es
bytes (interrupted ∷ es) = bytes es
bytes (failed k ∷ es) = bytes es

-- No read fails, and none returns `Ok(0)` before the end.
abbrev pub IsClean : List Arrival → Type 0
IsClean [] = Unit {0}
IsClean (chunk bs ∷ es) = (is_empty bs ≡ false) × IsClean es
IsClean (interrupted ∷ es) = IsClean es
IsClean (failed k ∷ es) = ⊥

take-append_le : (n : ℕ) (xs ys : List ℕ) → n ≤ length xs → take n (xs ++ ys) ≡ take n xs
take-append_le zero xs ys h = refl
take-append_le (suc n) [] ys h = absurd (omega arith)
take-append_le (suc n) (x ∷ xs) ys h =
    ap (λ (t : List ℕ). x ∷ t) (take-append_le n xs ys (omega arith))

drop-append_le : (n : ℕ) (xs ys : List ℕ) → n ≤ length xs → drop n (xs ++ ys) ≡ drop n xs ++ ys
drop-append_le zero xs ys h = refl
drop-append_le (suc n) [] ys h = absurd (omega arith)
drop-append_le (suc n) (x ∷ xs) ys h = drop-append_le n xs ys (omega arith)

take-append_ge :
    (n : ℕ) (xs ys : List ℕ) → length xs ≤ n → take n (xs ++ ys) ≡ xs ++ take (n - length xs) ys
take-append_ge n [] ys h = ap (λ (m : ℕ). take m ys) (omega arith)
take-append_ge zero (x ∷ xs) ys h = absurd (omega arith)
take-append_ge (suc n) (x ∷ xs) ys h =
    ap (λ (t : List ℕ). x ∷ t)
      (take-append_ge n xs ys (omega arith) ∙ ap (λ (m : ℕ). xs ++ take m ys) (omega arith))

drop-append_ge :
    (n : ℕ) (xs ys : List ℕ) → length xs ≤ n → drop n (xs ++ ys) ≡ drop (n - length xs) ys
drop-append_ge n [] ys h = ap (λ (m : ℕ). drop m ys) (omega arith)
drop-append_ge zero (x ∷ xs) ys h = absurd (omega arith)
drop-append_ge (suc n) (x ∷ xs) ys h =
    drop-append_ge n xs ys (omega arith) ∙ ap (λ (m : ℕ). drop m ys) (omega arith)

put_back_lem :
    (bs : List ℕ) (es : List Arrival)
    → IsClean es
    → (bytes (put_back bs es) ≡ bs ++ bytes es) × IsClean (put_back bs es)
put_back_lem [] es c = (refl, c)
put_back_lem (b ∷ bs) es c = (refl, (refl, c))

pub nonzero : (n : ℕ) → (suc n == 0) ≡ false
nonzero n = ground arith

-- A clean stream gives the bytes that are wanted, as far as there are so many, and keeps the others.
pub read_some_lem :
    (want : ℕ) (es : List Arrival)
    → IsClean es
    → ((read_some want es).0 ≡ ok (take want (bytes es)))
      × (bytes (read_some want es).1 ≡ drop want (bytes es))
      × IsClean (read_some want es).1
unfolding read_some
read_some_lem zero [] c = (refl, refl, c)
read_some_lem (suc n) [] c = (refl, refl, c)
read_some_lem zero (interrupted ∷ es) c = (refl, refl, c)
read_some_lem (suc n) (interrupted ∷ es) c = ground (arith, read_some_lem (suc n) es c)
read_some_lem want (failed k ∷ es) c = elim c [ ]
read_some_lem zero (chunk bs ∷ es) c = (refl, refl, c)
read_some_lem (suc n) (chunk bs ∷ es) c = elim (Bool-cases (leb (suc n) (length bs))) [
  | inl fits ↦
      let h : suc n ≤ length bs = leb→le _ _ fits in
      let back = put_back_lem (drop (suc n) bs) es c.1 in
      rw (nonzero n, c.0, fits)
        (
          ap (λ (t : List ℕ). ok t) (sym (take-append_le (suc n) bs (bytes es) h)),
          back.0 ∙ sym (drop-append_le (suc n) bs (bytes es) h),
          back.1,
        )
  | inr short ↦
      let h : length bs ≤ suc n = ground (arith, short) in
      let rest = read_some_lem (suc n - length bs) es c.1 in
      rw (nonzero n, c.0, short)
        (
          ap (before_bytes bs) rest.0
              ∙ ap (λ (t : List ℕ). ok t) (sym (take-append_ge (suc n) bs (bytes es) h)),
          rest.1 ∙ sym (drop-append_ge (suc n) bs (bytes es) h),
          rest.2,
        )
]

pub from-le_bytes : (n : ℕ) → n < 4294967296 → from_le_bytes (le_bytes n) ≡ n
unfolding from_le_bytes le_bytes
from-le_bytes n h = omega arith

pub take_all : (xs ys : List ℕ) (n : ℕ) → n ≡ length xs → take n (xs ++ ys) ≡ xs
take_all [] ys zero h = refl
take_all [] ys (suc n) h = absurd (omega arith)
take_all (x ∷ xs) ys zero h = absurd (omega arith)
take_all (x ∷ xs) ys (suc n) h = ap (λ (t : List ℕ). x ∷ t) (take_all xs ys n (omega arith))

drop_all : (xs ys : List ℕ) (n : ℕ) → n ≡ length xs → drop n (xs ++ ys) ≡ ys
drop_all [] ys zero h = refl
drop_all [] ys (suc n) h = absurd (omega arith)
drop_all (x ∷ xs) ys zero h = absurd (omega arith)
drop_all (x ∷ xs) ys (suc n) h = drop_all xs ys n (omega arith)

module _ (max : ℕ) (p rest : List ℕ) where
  read_payload_lem :
      (es : List Arrival)
      → IsClean es
      → bytes es ≡ p ++ rest
      → ((read_payload (length p) es).0 ≡ ok (some p))
        × (bytes (read_payload (length p) es).1 ≡ rest)
        × IsClean (read_payload (length p) es).1
  unfolding read_payload
  read_payload_lem es c e =
      let got = read_some_lem (length p) es c in
      let all : take (length p) (bytes es) ≡ p =
        ap (λ (t : List ℕ). take (length p) t) e ∙ take_all p rest (length p) refl in
      let left : drop (length p) (bytes es) ≡ rest =
        ap (λ (t : List ℕ). drop (length p) t) e ∙ drop_all p rest (length p) refl in
      let whole : (read_some (length p) es).0 ≡ ok p = got.0 ∙ ap (λ (t : List ℕ). ok t) all in
      let enough : ltb (length p) (length p) ≡ false = ground arith in
      rw (whole, enough, read_payload) (refl, got.1 ∙ left, got.2)

  -- Reading gives back the payload of a frame that was written, if it is no longer than the limit and
  -- its length fits the prefix, however the bytes of the frame and of what follows are split into
  -- chunks and whatever interruptions come in between; the bytes that follow are all still there.
  pub read_frame-encode_frame :
      (es : List Arrival)
      → IsClean es
      → bytes es ≡ encode_frame p ++ rest
      → length p ≤ max
      → length p < 4294967296
      → ((read_frame max es).0 ≡ ok (some p))
        × (bytes (read_frame max es).1 ≡ rest)
        × IsClean (read_frame max es).1
  unfolding read_frame encode_frame le_bytes
  read_frame-encode_frame es c e fits small =
      let got = read_some_lem 4 es c in
      let pre : (read_some 4 es).0 ≡ ok (le_bytes (length p)) =
        got.0 ∙ ap (λ (t : List ℕ). ok (take 4 t)) e in
      let after : bytes (read_some 4 es).1 ≡ p ++ rest = got.1 ∙ ap (λ (t : List ℕ). drop 4 t) e in
      let below : ltb max (length p) ≡ false = ground arith in
      rw (pre, from-le_bytes (length p) small, below, read_frame)
        (read_payload_lem (read_some 4 es).1 got.2 after)

pub read_frame_end :
    (max : ℕ) (es : List Arrival) → IsClean es → bytes es ≡ [] → (read_frame max es).0 ≡ ok none
unfolding read_frame
read_frame_end max es c e =
    let got = read_some_lem 4 es c in
    let empty : (read_some 4 es).0 ≡ ok [] = got.0 ∙ ap (λ (t : List ℕ). ok (take 4 t)) e in
    rw (empty, read_frame) refl
