-- ===== src/Text.antt =====
-- Go strings that come from JSON, which are valid UTF-8: a text is the list of its code points
-- (runes), so `utf8.RuneCountInString` is `length` and `string([]rune(v)[:n])` is `take n`.
pub mod Cut
use Prim.Native.Char.{code}
use convoy_backend.Base.{
  sym, inl, inr, Bool-cases, refl, some, none, ◌≢◌, arith, some, ◌≢◌, ◌+◌, ◌≡◌, Option, ◌≡◌, String,
  ◌+◌, ℕ, ◌-◌, Bool, true, false, ◌&&◌, ◌||◌, leb, ◌==◌, if◌then◌else◌, List, [], ◌∷◌, map,
}

abbrev pub Text : Type 0
Text = List ℕ

-- unicode.IsSpace
unfoldable pub is_space : ℕ → Bool
is_space c =
    (leb 0x09 c && leb c 0x0d)
    || c == 0x20
    || c == 0x85
    || c == 0xa0
    || c == 0x1680
    || (leb 0x2000 c && leb c 0x200a)
    || c == 0x2028
    || c == 0x2029
    || c == 0x202f
    || c == 0x205f
    || c == 0x3000

unfoldable pub trim_left : Text → Text
trim_left [] = []
trim_left (c ∷ s) = let rest = trim_left s in if is_space c then rest else c ∷ s

abbrev pub keep_char : ℕ → Text → Text
keep_char c [] = if is_space c then [] else c ∷ []
keep_char c (d ∷ s) = c ∷ d ∷ s

unfoldable pub trim_right : Text → Text
trim_right [] = []
trim_right (c ∷ s) = keep_char c (trim_right s)

-- strings.TrimSpace
unfoldable pub trim_space : Text → Text
unfolding trim_left trim_right is_space
trim_space s = trim_right (trim_left s)

abbrev pub is_empty : Text → Bool
is_empty [] = true
is_empty (c ∷ s) = false

-- unicode.ToUpper: ASCII letters here, the other runes by the Unicode table
to_upper_rune : (ℕ → ℕ) → ℕ → ℕ
to_upper_rune table c =
    if leb 0x80 c then table c else if leb b'a' c && leb c b'z' then c - 32 else c

-- strings.ToUpper
unfoldable pub to_upper : (ℕ → ℕ) → Text → Text
unfolding to_upper_rune
to_upper table s = map (to_upper_rune table) s

-- strings.ToLower, likewise
to_lower_rune : (ℕ → ℕ) → ℕ → ℕ
to_lower_rune table c =
    if leb 0x80 c then table c else if leb b'A' c && leb c b'Z' then c + 32 else c

unfoldable pub to_lower : (ℕ → ℕ) → Text → Text
unfolding to_lower_rune
to_lower table s = map (to_lower_rune table) s

-- the runes of a literal
abbrev pub runes : String → Text
runes String.[] = []
runes (String.◌∷◌ c s) = code c ∷ runes s

-- equality, one code point at a time
abbrev pub same_text : Text → Text → Bool
same_text [] t = is_empty t
same_text (c ∷ s) (d ∷ t) = c == d && same_text s t
same_text (c ∷ s) [] = false

pub same_text→eq : (s t : Text) → same_text s t ≡ true → s ≡ t
same_text→eq [] [] h = refl
same_text→eq [] (d ∷ t) h = cc
same_text→eq (c ∷ s) [] h = cc
same_text→eq (c ∷ s) (d ∷ t) h = ground (arith, same_text→eq s t)

pub same_text_refl : (s : Text) → same_text s s ≡ true
same_text_refl [] = refl
same_text_refl (c ∷ s) = ground (arith, same_text_refl s)

pub same_text-false : (s t : Text) → same_text s t ≡ false → s ≢ t
same_text-false s t h e = let r = same_text_refl t in ground (arith, r, e)

pub same_text_swap : (s t : Text) → same_text s t ≡ false → same_text t s ≡ false
same_text_swap s t n = elim (Bool-cases (same_text t s)) [
  | inr f ↦ f
  | inl y ↦ absurd (same_text-false s t n (sym (same_text→eq t s y)))
]

-- strings.HasPrefix and strings.TrimPrefix
abbrev pub has_prefix : Text → Text → Bool
has_prefix s [] = true
has_prefix [] (d ∷ p) = false
has_prefix (c ∷ s) (d ∷ p) = c == d && has_prefix s p

abbrev pub strip : Text → Text → Option Text
strip s [] = some s
strip [] (d ∷ p) = none
strip (c ∷ s) (d ∷ p) = let rest = strip s p in if c == d then rest else none

abbrev pub trim_prefix : Text → Text → Text
trim_prefix s p = elim (strip s p) [ none ↦ s | some rest ↦ rest ]
