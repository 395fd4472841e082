-- ===== src/Common/Strings/Trimmed.antt =====
-- Texts that `trim` leaves as they are.
use Prim.Native.Nat.{ℕ}
use mathlib.Core.Path.{◌≡◌, refl, ap, sym, ◌∙◌}
use mathlib.Core.Bool.{Bool, true, ◌&&◌, not}
use mathlib.Core.List.{[], ◌∷◌, ◌++◌}
use native.Mathlib.Omega.{arith}
use cordn_rs.Common.Tests.{leb, Str}
use cordn_rs.Common.Lists.{any}
use cordn_rs.Common.Strings.{
  is_space, space_at_start, space_at_end, skip_spaces, reverse_onto, reverse, trim,
}

-- A byte of ASCII that is no white space.
abbrev pub is_solid : ℕ → Bool
is_solid c = leb c 127 && not (is_space c)

start-none : (c : ℕ) (s : Str) → is_solid c ≡ true → space_at_start (c ∷ s) ≡ 0
start-none c [] h = ground arith
start-none c (a ∷ []) h = ground arith
start-none c (a ∷ b ∷ s) h = ground arith

end-none : (c : ℕ) (s : Str) → is_solid c ≡ true → space_at_end (c ∷ s) ≡ 0
end-none c [] h = ground arith
end-none c (a ∷ []) h = ground arith
end-none c (a ∷ b ∷ s) h = ground arith

skip-none :
    (space : Str → ℕ) (c : ℕ) (s : Str) → space (c ∷ s) ≡ 0 → skip_spaces space 0 (c ∷ s) ≡ c ∷ s
unfolding skip_spaces
skip-none space c s h = ground (arith, h)

reverse_onto-append :
    (out s t : Str) → reverse_onto out (s ++ t) ≡ reverse_onto (reverse_onto out s) t
unfolding reverse_onto
reverse_onto-append out [] t = refl
reverse_onto-append out (c ∷ s) t = reverse_onto-append (c ∷ out) s t

reverse-reverse_onto : (out s : Str) → reverse (reverse_onto out s) ≡ reverse_onto s out
unfolding reverse_onto
reverse-reverse_onto out [] = refl
reverse-reverse_onto out (c ∷ s) = reverse-reverse_onto (c ∷ out) s

-- A text that begins and ends with a solid byte.
pub trim-solid_ends :
    (s : Str) {c d : ℕ} {t r : Str}
    → s ≡ c ∷ t
    → reverse s ≡ d ∷ r
    → is_solid c ≡ true
    → is_solid d ≡ true
    → trim s ≡ s
unfolding trim reverse_onto
trim-solid_ends s {c} {d} {t} {r} starts ends hc hd =
    let front : skip_spaces space_at_start 0 s ≡ s =
      ap (skip_spaces space_at_start 0) starts
      ∙ skip-none space_at_start c t (start-none c t hc)
      ∙ sym starts in
    let back : skip_spaces space_at_end 0 (reverse s) ≡ reverse s =
      ap (skip_spaces space_at_end 0) ends
      ∙ skip-none space_at_end d r (end-none d r hd)
      ∙ sym ends in
    ap (λ x. reverse (skip_spaces space_at_end 0 (reverse x))) front
    ∙ ap reverse back
    ∙ reverse-reverse_onto [] s

abbrev pub all_solid : Str → Bool
all_solid s = not (any (λ c. not (is_solid c)) s)

ends_solid :
    (c : ℕ) (out s : Str)
    → is_solid c ≡ true
    → all_solid s ≡ true
    → (d : ℕ) × (r : Str) × (reverse_onto (c ∷ out) s ≡ d ∷ r) × (is_solid d ≡ true)
unfolding reverse_onto any
ends_solid c out [] hc hs = (c, out, refl, hc)
ends_solid c out (a ∷ s) hc hs = ends_solid a (c ∷ out) s (ground arith) (ground arith)

pub trim-all_solid : (s : Str) → all_solid s ≡ true → trim s ≡ s
unfolding trim reverse_onto any skip_spaces
trim-all_solid [] h = refl
trim-all_solid (c ∷ s) h =
    let (d, r, e, hd) = ends_solid c [] s (ground arith) (ground arith) in
    trim-solid_ends (c ∷ s) refl e (ground arith) hd

pub reverse-append_last : (s : Str) (c : ℕ) → reverse (s ++ c ∷ []) ≡ c ∷ reverse s
unfolding reverse_onto
reverse-append_last s c = reverse_onto-append [] s (c ∷ [])

-- A text from one solid byte to another.
pub trim-between :
    (c : ℕ) (s : Str) (d : ℕ)
    → is_solid c ≡ true
    → is_solid d ≡ true
    → trim (c ∷ s ++ d ∷ []) ≡ c ∷ s ++ d ∷ []
trim-between c s d hc hd =
    trim-solid_ends (c ∷ s ++ d ∷ []) refl (reverse-append_last (c ∷ s) d) hc hd
