-- ===== src/Util/Subprocess/Output.antt =====
-- What is kept of the bytes that a command writes.
use mathlib.Core.List.{append_assoc, append-nil}
use hai_code.Base.{
  Bytes, ℕ, ◌-◌, ◌≤◌, ◌<◌, ◌≡◌, refl, ap, ◌∙◌, sym, subst, true, false, ◌||◌, List, [], ◌∷◌, ◌++◌,
  arith, length, take, ltb, take_all, take-append, take-append_left, length-append, length-take,
  inl, inr, Bool-cases,
}
use hai_code.Util.Subprocess.{Pipe, ReadAnswer, got, again, closed, min, absorb, drain_available}

-- The first `cap` bytes of a text, and whether it has more.
pub record Holds (cap : ℕ) (total : Bytes) (p : Pipe) : Type 0 where
  pub kept : p.output ≡ take cap total
  pub cut : p.truncated ≡ ltb cap (length total)

-- The bytes that are read before the pipe is closed.
pub bytes_of : List ReadAnswer → Bytes
bytes_of [] = []
bytes_of (got buf ∷ answers) = buf ++ bytes_of answers
bytes_of (again ∷ answers) = bytes_of answers
bytes_of (closed ∷ answers) = []

length-min : (cap : ℕ) (total : Bytes) → length (take cap total) ≤ cap
length-min cap total = elim (Bool-cases (ltb cap (length total))) [
  | inl e ↦ omega (arith, length-take cap total (ground arith))
  | inr e ↦ rw (take_all cap total (ground arith)) (ground arith)
]

-- A pipe with room has all that was read, and one without has as much as fits.
has_room :
    (cap : ℕ) (total : Bytes) (p : Pipe)
    → Holds cap total p
    → length p.output < cap
    → (length total < cap) × (p.output ≡ total)
has_room cap total p h l = elim (Bool-cases (ltb (length total) cap)) [
  | inl e ↦ (ground arith, h.kept ∙ take_all cap total (ground arith))
  | inr e ↦ absurd (omega (arith, ap length h.kept, length-take cap total (ground arith)))
]

has_none :
    (cap : ℕ) (total : Bytes) (p : Pipe)
    → Holds cap total p
    → cap ≤ length p.output
    → cap ≤ length total
has_none cap total p h l = elim (Bool-cases (ltb (length total) cap)) [
  | inl e ↦ omega (arith, ap length (h.kept ∙ take_all cap total (ground arith)))
  | inr e ↦ ground arith
]

take-min : (room : ℕ) (buf : Bytes) → take (min (length buf) room) buf ≡ take room buf
unfolding min
take-min room buf = elim (Bool-cases (ltb room (length buf))) [
  | inl e ↦ rw e refl
  | inr e ↦ rw e (take_all (length buf) buf (omega arith) ∙ sym (take_all room buf (ground arith)))
]

absorb_full :
    (cap : ℕ) (buf : Bytes) (p : Pipe)
    → ltb (length p.output) cap ≡ false
    → absorb cap buf p ≡ record p { truncated = true }
unfolding absorb
absorb_full cap buf p e = ground arith

absorb_room :
    (cap : ℕ) (buf : Bytes) (p : Pipe)
    → ltb (length p.output) cap ≡ true
    → absorb cap buf p ≡ record {
      output = p.output ++ take (min (length buf) (cap - length p.output)) buf;
      truncated = p.truncated || ltb (min (length buf) (cap - length p.output)) (length buf);
    }
unfolding absorb
absorb_room cap buf p e = ground arith

min_cut :
    (cap : ℕ) (total buf : Bytes) (p : Pipe)
    → Holds cap total p
    → length total < cap
    → length p.output ≡ length total
    → (p.truncated || ltb (min (length buf) (cap - length p.output)) (length buf))
      ≡ ltb cap (length (total ++ buf))
unfolding min
min_cut cap total buf p h less same = ground (arith, h.cut, length-append total buf)

absorb-Holds :
    (cap : ℕ) (total buf : Bytes) (p : Pipe)
    → Holds cap total p
    → 1 ≤ length buf
    → Holds cap (total ++ buf) (absorb cap buf p)
absorb-Holds cap total buf p h n = elim (Bool-cases (ltb (length p.output) cap)) [
  | inr full ↦
      let more = has_none cap total p h (ground arith) in
      record {
        kept =
            ap (λ (q : Pipe). q.output) (absorb_full cap buf p full)
            ∙ h.kept
            ∙ sym (take-append_left cap total buf more);
        cut =
            ap (λ (q : Pipe). q.truncated) (absorb_full cap buf p full)
            ∙ ground (arith, length-append total buf);
      }
  | inl room ↦
      let (less, same) = has_room cap total p h (ground arith) in
      record {
        kept =
            ap (λ (q : Pipe). q.output) (absorb_room cap buf p room)
            ∙ ap (λ (t : Bytes). t ++ take (min (length buf) (cap - length t)) buf) same
            ∙ ap (λ (t : Bytes). total ++ t) (take-min (cap - length total) buf)
            ∙ sym (take-append cap total buf (omega arith));
        cut =
            ap (λ (q : Pipe). q.truncated) (absorb_room cap buf p room)
            ∙ min_cut cap total buf p h less (ap length same);
      }
]

-- A read returns at least one byte, or it is the end.
unfoldable pub NonEmpty : List ReadAnswer → Type 0
NonEmpty [] = Unit
NonEmpty (got buf ∷ answers) = (1 ≤ length buf) × NonEmpty answers
NonEmpty (again ∷ answers) = NonEmpty answers
NonEmpty (closed ∷ answers) = Unit

-- Whatever the sizes of the reads, the pipe keeps the first `cap` bytes of all that was read, and the mark
-- of a truncation is set where that is not all.
pub drain_available-Holds :
    (cap : ℕ) (answers : List ReadAnswer) (total : Bytes) (p : Pipe)
    → NonEmpty answers
    → Holds cap total p
    → Holds cap (total ++ bytes_of answers) (drain_available cap answers p).1
unfolding drain_available NonEmpty bytes_of
drain_available-Holds cap [] total p n h = subst (λ t. Holds cap t p) (sym (append-nil total)) h
drain_available-Holds cap (got buf ∷ answers) total p n h =
    subst (λ t. Holds cap t (drain_available cap answers (absorb cap buf p)).1)
      (append_assoc total buf (bytes_of answers))
      (drain_available-Holds cap answers (total ++ buf) (absorb cap buf p) n.1
        (absorb-Holds cap total buf p h n.0))
drain_available-Holds cap (again ∷ answers) total p n h =
    drain_available-Holds cap answers total p n h
drain_available-Holds cap (closed ∷ answers) total p n h =
    subst (λ t. Holds cap t p) (sym (append-nil total)) h
