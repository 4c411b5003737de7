-- ===== src/Transport/Pauses.antt =====
-- Reading from a stream that goes on, or pauses, after the frame (crates/local-transport/src/framing.rs).
use dsh_desktop_shell.Transport.Framing.{
  before_bytes, oversized, truncated, length_prefix_bytes, frame, from_le_bytes, interrupted, io,
  chunk, FrameReadError, put_back, le_bytes, failed, IoErrorKind, read_payload, encode_frame,
  Arrival, read_some, read_frame,
}
use dsh_desktop_shell.Prelude.{
  ◌-◌, leb, drop, ◌==◌, take, length-append, Bool-cases, sym, ltb, ◌∙◌, ◌<◌, subst, ap, Option,
  length, ◌≤◌, ◌++◌, Result, ℕ, List, if◌then◌else◌, suc, zero, ◌≡◌, err, ok, arith, refl, false,
  inr, inl, some, none, ◌∷◌, [],
}
use dsh_desktop_shell.Transport.RoundTrip.{
  nonzero, read_some_lem, from-le_bytes, take_all, bytes, IsClean,
}

put_back-append :
    (bs : List ℕ) (es tail : List Arrival) → put_back bs (es ++ tail) ≡ put_back bs es ++ tail
put_back-append [] es tail = refl
put_back-append (b ∷ bs) es tail = refl

read_some_zero : (es : List Arrival) → read_some 0 es ≡ (ok [], es)
unfolding read_some
read_some_zero [] = refl
read_some_zero (interrupted ∷ es) = refl
read_some_zero (failed k ∷ es) = refl
read_some_zero (chunk bs ∷ es) = refl

-- What a clean stream has enough bytes for is read from it, whatever comes after it.
read_some-append :
    (want : ℕ) (es tail : List Arrival)
    → IsClean es
    → want ≤ length (bytes es)
    → read_some want (es ++ tail) ≡ ((read_some want es).0, (read_some want es).1 ++ tail)
unfolding read_some
read_some-append zero es tail c h =
    read_some_zero (es ++ tail)
    ∙ ap (λ (o : Result IoErrorKind (List ℕ) × List Arrival). (o.0, o.1 ++ tail))
        (sym (read_some_zero es))
read_some-append (suc n) [] tail c h = absurd (omega (arith, h))
read_some-append (suc n) (interrupted ∷ es) tail c h =
    ground (arith, read_some-append (suc n) es tail c h)
read_some-append (suc n) (failed k ∷ es) tail c h = elim c [ ]
read_some-append (suc n) (chunk bs ∷ es) tail c h = elim (Bool-cases (leb (suc n) (length bs))) [
  | inl fits ↦
      rw (nonzero n, c.0, fits)
        (ap (λ (t : List Arrival). (ok (take (suc n) bs), t))
          (put_back-append (drop (suc n) bs) es tail))
  | inr short ↦
      let rest =
        read_some-append (suc n - length bs) es tail c.1
          (omega (arith, h, length-append bs (bytes es))) in
      rw (nonzero n, c.0, short)
        (ap (λ (o : Result IoErrorKind (List ℕ) × List Arrival). (before_bytes bs o.0, o.1)) rest)
]

-- What the readers make of the bytes that they get.
abbrev payload_read :
    ℕ
    → Result IoErrorKind (List ℕ) × List Arrival
    → Result FrameReadError (Option (List ℕ)) × List Arrival
payload_read declared o = elim o.0 [
  | err k ↦ (err (io k), o.1)
  | ok payload ↦
      if ltb (length payload) declared
      then (err (frame (truncated declared (length payload))), o.1)
      else (ok (some payload), o.1)
]

abbrev frame_read :
    ℕ
    → Result IoErrorKind (List ℕ) × List Arrival
    → Result FrameReadError (Option (List ℕ)) × List Arrival
frame_read max o = elim o.0 [
  | err k ↦ (err (io k), o.1)
  | ok prefix ↦
      let declared = from_le_bytes prefix in
      if length prefix == 0
      then (ok none, o.1)
      else if ltb (length prefix) length_prefix_bytes
      then (err (frame (truncated length_prefix_bytes (length prefix))), o.1)
      else if ltb max declared
      then (err (frame (oversized declared max)), o.1)
      else read_payload declared o.1
]

module _ (max : ℕ) (p rest : List ℕ) where
  read_payload-append :
      (es tail : List Arrival)
      → IsClean es
      → bytes es ≡ p ++ rest
      → read_payload (length p) (es ++ tail) ≡ (ok (some p), (read_payload (length p) es).1 ++ tail)
  unfolding read_payload
  read_payload-append es tail c e =
      let long : length p ≤ length (bytes es) =
        subst (λ (t : List ℕ). length p ≤ length t) (sym e) (omega (arith, length-append p rest)) in
      let whole : (read_some (length p) es).0 ≡ ok p =
        (read_some_lem (length p) es c).0
        ∙ ap (λ (t : List ℕ). ok (take (length p) t)) e
        ∙ ap (λ (t : List ℕ). ok t) (take_all p rest (length p) refl) in
      let enough : ltb (length p) (length p) ≡ false = ground arith in
      ap (payload_read (length p)) (read_some-append (length p) es tail c long)
      ∙ rw (whole, enough, read_payload) refl

  -- A frame that is there to its end is read, whatever comes after it.
  pub read_frame-append :
      (es tail : List Arrival)
      → IsClean es
      → bytes es ≡ encode_frame p ++ rest
      → length p ≤ max
      → length p < 4294967296
      → read_frame max (es ++ tail) ≡ (ok (some p), (read_frame max es).1 ++ tail)
  unfolding read_frame encode_frame le_bytes
  read_frame-append es tail c e fits small =
      let long : 4 ≤ length (bytes es) =
        subst (λ (t : List ℕ). 4 ≤ length t) (sym e) (omega arith) in
      let got = read_some_lem 4 es c in
      let pre : (read_some 4 es).0 ≡ ok (le_bytes (length p)) =
        got.0 ∙ ap (λ (t : List ℕ). ok (take 4 t)) e in
      let after : bytes (read_some 4 es).1 ≡ p ++ rest = got.1 ∙ ap (λ (t : List ℕ). drop 4 t) e in
      let below : ltb max (length p) ≡ false = ground arith in
      ap (frame_read max) (read_some-append 4 es tail c long)
      ∙ rw (pre, from-le_bytes (length p) small, below, read_frame)
          (read_payload-append (read_some 4 es).1 tail got.2 after)

read_some_idle :
    (n : ℕ) (es tail : List Arrival) (k : IoErrorKind)
    → IsClean es
    → bytes es ≡ []
    → read_some (suc n) (es ++ (failed k ∷ tail)) ≡ (err k, tail)
unfolding read_some
read_some_idle n [] tail k c e = ground arith
read_some_idle n (interrupted ∷ es) tail k c e = ground (arith, read_some_idle n es tail k c e)
read_some_idle n (failed j ∷ es) tail k c e = elim c [ ]
read_some_idle n (chunk [] ∷ es) tail k c e = cc (c.0)
read_some_idle n (chunk (b ∷ bs) ∷ es) tail k c e = absurd (cc e)

-- An idle tick: the bytes of the stream are used up when a read fails.
pub read_frame_idle :
    (max : ℕ) (es tail : List Arrival) (k : IoErrorKind)
    → IsClean es
    → bytes es ≡ []
    → read_frame max (es ++ (failed k ∷ tail)) ≡ (err (io k), tail)
unfolding read_frame
read_frame_idle max es tail k c e = ap (frame_read max) (read_some_idle 3 es tail k c e)
