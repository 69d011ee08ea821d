-- ===== src/Admin/Versions.antt =====
-- A version that the settings page (internal/admin/settings.go) accepts is read as it was written.
use convoy_backend.Admin.Decimal.{is_digit}
use convoy_backend.Base.{
  subst, refl, inl, arith, inr, some, none, ◌==◌, ◌∷◌, Bool-cases, ◌==◌, ap, false, [], ◌∷◌, true,
  some, ℕ, Option, ◌≡◌,
}
use convoy_backend.Text.{keep_char, is_space, trim_left, trim_right, Text, trim_space, is_empty}
use convoy_backend.Exec.{ok}
use convoy_backend.Admin.Settings.{is_semver, some_digits, past_digits, a_dot, and_digits, at_end}
use convoy_backend.Config.AppConfig.{floor_of}

-- no spaces
abbrev Plain : Text → Type 0
Plain [] = Unit {0}
Plain (c ∷ s) = (is_space c ≡ false) × Plain s

digit-is_space : (c : ℕ) → is_digit c ≡ true → is_space c ≡ false
unfolding is_space
digit-is_space c h = ground (arith, h)

dot-is_space : (c : ℕ) → (c == b'.') ≡ true → is_space c ≡ false
unfolding is_space
dot-is_space c h = ground (arith, h)

past_digits-Plain : (s : Text) → Plain (past_digits s) → Plain s
past_digits-Plain [] h = tt
past_digits-Plain (c ∷ s) h = elim (Bool-cases (is_digit c)) [
  | inl d ↦ (digit-is_space c d, past_digits-Plain s (rw d at h))
  | inr d ↦ rw d at h
]

some_digits-Plain : (s r : Text) → some_digits s ≡ some r → Plain r → Plain s
some_digits-Plain [] r e h = cc
some_digits-Plain (c ∷ s) r e h = elim (Bool-cases (is_digit c)) [
  | inr d ↦ absurd (let x : ◌≡◌ {A = Option Text} none (some r) = rw d at e in cc x)
  | inl d ↦
      let x : ◌≡◌ {A = Option Text} (some (past_digits s)) (some r) = rw d at e in
      (
        digit-is_space c d,
        past_digits-Plain s (subst Plain (let y : r ≡ past_digits s = cc x in y) h),
      )
]

a_dot-Plain :
    (o : Option Text) (r : Text) → a_dot o ≡ some r → Plain r → (s : Text) × (o ≡ some s) × Plain s
a_dot-Plain none r e h = absurd (cc e)
a_dot-Plain (some []) r e h = absurd (cc e)
a_dot-Plain (some (c ∷ s)) r e h = elim (Bool-cases (c == b'.')) [
  | inr d ↦ absurd (let x : ◌≡◌ {A = Option Text} none (some r) = rw d at e in cc x)
  | inl d ↦
      let x : ◌≡◌ {A = Option Text} (some s) (some r) = rw d at e in
      (c ∷ s, refl, (dot-is_space c d, subst Plain (let y : r ≡ s = cc x in y) h))
]

and_digits-Plain :
    (o : Option Text) (r : Text)
    → and_digits o ≡ some r
    → Plain r
    → (s : Text) × (o ≡ some s) × Plain s
and_digits-Plain none r e h = absurd (cc e)
and_digits-Plain (some s) r e h = (s, refl, some_digits-Plain s r e h)

at_end-nil : (o : Option Text) → at_end o ≡ true → o ≡ some []
at_end-nil none h = cc h
at_end-nil (some []) h = refl
at_end-nil (some (c ∷ s)) h = cc h

is_semver-Plain : (s : Text) → is_semver s ≡ true → Plain s × (is_empty s ≡ false)
unfolding is_semver
is_semver-Plain [] h = absurd (cc h)
is_semver-Plain (c ∷ s) h =
    let e = at_end-nil (and_digits (a_dot (and_digits (a_dot (some_digits (c ∷ s)))))) h in
    let (r1, e1, p1) =
      and_digits-Plain (a_dot (and_digits (a_dot (some_digits (c ∷ s))))) [] e tt in
    let (r2, e2, p2) = a_dot-Plain (and_digits (a_dot (some_digits (c ∷ s)))) r1 e1 p1 in
    let (r3, e3, p3) = and_digits-Plain (a_dot (some_digits (c ∷ s))) r2 e2 p2 in
    let (r4, e4, p4) = a_dot-Plain (some_digits (c ∷ s)) r3 e3 p3 in
    (some_digits-Plain (c ∷ s) r4 e4 p4, refl)

trim_right-Plain : (s : Text) → Plain s → trim_right s ≡ s
unfolding trim_right
trim_right-Plain [] h = refl
trim_right-Plain (c ∷ []) (h, hs) = rw h refl
trim_right-Plain (c ∷ d ∷ s) (h, hs) = ap (keep_char c) (trim_right-Plain (d ∷ s) hs)

trim_space-Plain : (s : Text) → Plain s → trim_space s ≡ s
unfolding trim_space trim_left
trim_space-Plain [] h = trim_right-Plain [] tt
trim_space-Plain (c ∷ s) (h, hs) = rw h (trim_right-Plain (c ∷ s) (h, hs))

pub floor_of-semver : (v : Text) → is_semver v ≡ true → floor_of (ok v) ≡ v
floor_of-semver v h =
    let (p, n) = is_semver-Plain v h in let e = trim_space-Plain v p in rw (e, n) refl
