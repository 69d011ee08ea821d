-- ===== src/Rooms/Labels.antt =====
-- Labels and notes after `trimLabel` and `trimNotes`, and the page sizes of ListMessages
-- (internal/rooms/service.go).
use convoy_backend.Base.{◌⊎◌, inl, inr, none, some, true}
use convoy_backend.Base.{length-take, [], ◌∷◌}
use convoy_backend.Rooms.Service.Labels.{trim_notes, trim_label, trim_to, capped}
use convoy_backend.Text.{trim_space, is_empty, Text}
use convoy_backend.Base.{
  sym, ◌∙◌, ap, ltb, Bool-cases, arith, take, length, ◌≤◌, Option, ℕ, ◌≡◌, refl, true, false, none,
  some, inl, inr, zero, suc, [], ◌∷◌,
}

take-all : (n : ℕ) (v : Text) → length v ≤ n → take n v ≡ v
take-all zero [] h = refl
take-all zero (c ∷ v) h = ground arith
take-all (suc n) [] h = refl
take-all (suc n) (c ∷ v) h = ap (λ t. c ∷ t) (take-all n v (omega arith))

capped-take : (cap : ℕ) (v : Text) → capped cap v ≡ take cap v
capped-take cap v = elim (Bool-cases (ltb cap (length v))) [
  | inl e ↦ rw e refl
  | inr e ↦ rw e (sym (take-all cap v (ground arith)))
]

-- A text that is not blank, cut to its first `cap` code points.
abbrev Cut : ℕ → Option Text → Text → Type 0
Cut cap label v =
    (t : Text) × (label ≡ some t)
    × (v ≡ take cap (trim_space t))
    × (1 ≤ length v)
    × (length v ≤ cap)

nonempty : (v : Text) → is_empty v ≡ false → 1 ≤ length v
nonempty [] e = ground arith
nonempty (c ∷ v) e = omega arith

capped-Cut :
    (cap : ℕ) (t v : Text)
    → 1 ≤ cap
    → v ≡ trim_space t
    → is_empty v ≡ false
    → Cut cap (some t) (capped cap v)
capped-Cut cap t v positive same e =
    let c = capped-take cap v in
    let n = nonempty v e in
    let l = length-take cap v in
    (t, refl, c ∙ ap (take cap) same, rw (c, l) (omega arith), rw (c, l) (omega arith))

empty-nil : (v : Text) → is_empty v ≡ true → v ≡ []
empty-nil [] e = refl
empty-nil (c ∷ v) e = ground arith

-- What is left of a label: nothing of a missing or blank one, else its first `cap` code points.
abbrev pub Tidied : ℕ → Option Text → Option Text → Type 0
Tidied cap label none = (label ≡ none) ⊎ ((t : Text) × (label ≡ some t) × (trim_space t ≡ []))
Tidied cap label (some v) = Cut cap label v

trim_to-Tidied : (cap : ℕ) (label : Option Text) → 1 ≤ cap → Tidied cap label (trim_to cap label)
unfolding trim_to
trim_to-Tidied cap none positive = inl refl
trim_to-Tidied cap (some t) positive = elim (Bool-cases (is_empty (trim_space t))) [
  | inl f ↦ rw f (inr (t, refl, empty-nil (trim_space t) f))
  | inr f ↦ rw f (capped-Cut cap t (trim_space t) positive refl f)
]

-- A label is stored without the white space around it, cut to 120 code points, and not at all when it
-- is blank; a note the same, cut to 500.
pub trim-Tidied :
    (label : Option Text)
    → Tidied 120 label (trim_label label) × Tidied 500 label (trim_notes label)
unfolding trim_label trim_notes
trim-Tidied label = (trim_to-Tidied 120 label (omega arith), trim_to-Tidied 500 label (omega arith))
