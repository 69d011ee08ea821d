-- ===== src/Text/Cut.antt =====
-- The byte length of a Go string and its cut `s[:n]`, which may fall within a rune.
use mathlib.Core.List.{append-nil}
use convoy_backend.Base.{
  refl, leb-false, leb→le, ==→eq, ◌⊎◌, leb, sym, ◌⊎◌, ◌<◌, ◌∷◌, ◌==◌, inr, ◌<◌, ap, [], ◌-◌, ◌++◌,
  ◌+◌, inl, subst, ltb, Bool-cases, ◌++◌, ◌∷◌, ◌≤◌, ◌≡◌, if◌then◌else◌,
}
use convoy_backend.Text.{◌∷◌, arith, ◌≡◌, if◌then◌else◌, ℕ, Text}
use convoy_backend.Httpx.{invalid_utf8}
use convoy_backend.Exec.{Result, ok, err}

-- the bytes of a rune in UTF-8
abbrev pub rune_len : ℕ → ℕ
rune_len c = if ltb c 0x80 then 1 else if ltb c 0x800 then 2 else if ltb c 0x10000 then 3 else 4

-- len(s)
unfoldable pub byte_len : Text → ℕ
byte_len [] = 0
byte_len (c ∷ s) = rune_len c + byte_len s

-- A string that was cut: whole runes, or whole runes before the first bytes of one more.
pub data Cut : Type 0 where
  whole : Text → Cut
  split_rune : Text → ℕ → ℕ → Cut

abbrev cons_rune : ℕ → Cut → Cut
cons_rune c (whole s) = whole (c ∷ s)
cons_rune c (split_rune s d n) = split_rune (c ∷ s) d n

-- s[:n], or all of a shorter s
unfoldable pub cut : ℕ → Text → Cut
cut n [] = whole []
cut n (c ∷ s) =
    let rest = cut (n - rune_len c) s in
    if n == 0 then whole [] else if leb (rune_len c) n then cons_rune c rest else split_rune [] c n

-- `if len(s) > n { s = s[:n] }`
unfoldable pub cut_over : ℕ → Text → Cut
unfolding cut byte_len
cut_over n s = if ltb n (byte_len s) then cut n s else whole s

-- A text column takes UTF-8 only: PostgreSQL refuses a string that ends within a rune.
abbrev pub column : Cut → Result Text
column (whole s) = ok s
column (split_rune s c n) = err invalid_utf8

-- `t` is what a cut of `s` after at most `n` bytes leaves: all of `s`, or its first `n` bytes.
pub record IsCut (n : ℕ) (s t : Text) : Type 0 where
  pub rest : Text
  pub splits : s ≡ t ++ rest
  pub fits : byte_len t ≤ n
  pub full : (rest ≡ []) ⊎ (byte_len t ≡ n)

abbrev CutFits : ℕ → Text → Cut → Type 0
CutFits n s (whole t) = IsCut n s t
CutFits n s (split_rune t c k) =
    (rest : Text) × (s ≡ t ++ c ∷ rest) × (byte_len t + k ≡ n) × (0 < k) × (k < rune_len c)

cons_rune-CutFits :
    (n c : ℕ) (s : Text) (r : Cut)
    → rune_len c ≤ n
    → CutFits (n - rune_len c) s r
    → CutFits n (c ∷ s) (cons_rune c r)
unfolding byte_len
cons_rune-CutFits n c s (whole t) h f = record {
  rest = f.rest;
  splits = ap (λ r. c ∷ r) f.splits;
  fits = let b = f.fits in omega arith;
  full = elim f.full [ inl e ↦ inl e | inr e ↦ inr (omega arith) ];
}
cons_rune-CutFits n c s (split_rune t d k) h (rest, e, b, p, q) =
    (rest, ap (λ r. c ∷ r) e, omega arith, p, q)

cut-CutFits : (n : ℕ) (s : Text) → CutFits n s (cut n s)
unfolding cut byte_len
cut-CutFits n [] = record { rest = []; splits = refl; fits = omega arith; full = inl refl }
cut-CutFits n (c ∷ s) = elim (Bool-cases (n == 0)) [
  | inl z ↦
      rw z
        (record { rest = c ∷ s; splits = refl; fits = omega arith; full = inr (sym (==→eq n 0 z)) })
  | inr z ↦ elim (Bool-cases (leb (rune_len c) n)) [
    | inl l ↦ rw (z, l) (cons_rune-CutFits n c s _ (leb→le _ _ l) (cut-CutFits (n - rune_len c) s))
    | inr l ↦ rw (z, l) (s, refl, omega arith, ground (arith, z), leb-false _ _ l)
  ]
]

CutFits-column : (n : ℕ) (s t : Text) (r : Cut) → CutFits n s r → column r ≡ ok t → IsCut n s t
CutFits-column n s t (whole u) f e = let same : u ≡ t = cc in subst (IsCut n s) same f
CutFits-column n s t (split_rune u c k) f e = cc

-- What a text column holds after the cut.
pub column-IsCut : (n : ℕ) (s t : Text) → column (cut_over n s) ≡ ok t → IsCut n s t
unfolding cut_over
column-IsCut n s t e = elim (Bool-cases (ltb n (byte_len s))) [
  | inl l ↦ CutFits-column n s t (cut n s) (cut-CutFits n s) (rw l at e)
  | inr l ↦
      let same : s ≡ t = cc (let e' : ◌≡◌ {A = Result Text} (ok s) (ok t) = rw l at e in e') in
      record {
        rest = [];
        splits = subst (λ u. s ≡ u ++ []) same (sym (append-nil s));
        fits = subst (λ u. byte_len u ≤ n) same (ground (arith, l));
        full = inl refl;
      }
]
