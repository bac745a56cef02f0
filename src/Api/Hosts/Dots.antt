-- ===== src/Api/Hosts/Dots.antt =====
-- The parts of a text that is split at its dots.
use mathlib.Core.List.{reverse, reverse_aux}
use bevoac_dev.Prelude.{
  ℕ, ◌≡◌, refl, ap, ◌∙◌, Bool, true, not, ◌&&◌, [], ◌∷◌, ◌++◌, ◌==◌, all, arith,
}
use bevoac_dev.Prelude.Text.{Text, is_space}
use bevoac_dev.Api.Hosts.{split_dots}

-- the units of base64url: letters, digits, `-` and `_`; none is a space or a dot
abbrev pub is_plain : ℕ → Bool
is_plain c = not (is_space c) && not (c == b'.')

pub all-reverse_aux :
    (f : ℕ → Bool) (s t : Text) → all f s ≡ true → all f t ≡ true → all f (reverse_aux s t) ≡ true
all-reverse_aux f [] t h k = k
all-reverse_aux f (c ∷ s) t h k = all-reverse_aux f s (c ∷ t) (ground arith) (ground arith)

reverse_aux-reverse_aux : (s t u : Text) → reverse_aux (reverse_aux s t) u ≡ reverse_aux t (s ++ u)
reverse_aux-reverse_aux [] t u = refl
reverse_aux-reverse_aux (c ∷ s) t u = reverse_aux-reverse_aux s (c ∷ t) u

append_nil : (s : Text) → s ++ [] ≡ s
append_nil [] = refl
append_nil (c ∷ s) = ap (λ t. c ∷ t) (append_nil s)

pub reverse-reverse : (s : Text) → reverse (reverse s) ≡ s
reverse-reverse s = reverse_aux-reverse_aux s [] [] ∙ append_nil s

-- A part without dots is the first of the split text.
split_dots-part :
    (part s rest : Text)
    → all is_plain s ≡ true
    → split_dots part (s ++ (b'.' ∷ rest)) ≡ reverse (reverse_aux s part) ∷ split_dots [] rest
unfolding split_dots
split_dots-part part [] rest h = refl
split_dots-part part (c ∷ s) rest h =
    let ih = split_dots-part (c ∷ part) s rest (ground arith) in ground arith

split_dots-last :
    (part s : Text) → all is_plain s ≡ true → split_dots part s ≡ reverse (reverse_aux s part) ∷ []
unfolding split_dots
split_dots-last part [] h = refl
split_dots-last part (c ∷ s) h =
    let ih = split_dots-last (c ∷ part) s (ground arith) in ground arith

split_dots-cons :
    (s rest : Text)
    → all is_plain s ≡ true
    → split_dots [] (s ++ (b'.' ∷ rest)) ≡ s ∷ split_dots [] rest
split_dots-cons s rest h =
    split_dots-part [] s rest h ∙ ap (λ t. t ∷ split_dots [] rest) (reverse-reverse s)

pub split_dots-four :
    (a b c d : Text)
    → all is_plain a ≡ true
    → all is_plain b ≡ true
    → all is_plain c ≡ true
    → all is_plain d ≡ true
    → split_dots [] (a ++ (b'.' ∷ (b ++ (b'.' ∷ (c ++ (b'.' ∷ d)))))) ≡ a ∷ (b ∷ (c ∷ (d ∷ [])))
split_dots-four a b c d p q r s =
    split_dots-cons a _ p
    ∙ ap (λ l. a ∷ l)
        (split_dots-cons b _ q
          ∙ ap (λ l. b ∷ l)
              (split_dots-cons c _ r
                ∙ ap (λ l. c ∷ l) (split_dots-last [] d s ∙ ap (λ t. t ∷ []) (reverse-reverse d))))
