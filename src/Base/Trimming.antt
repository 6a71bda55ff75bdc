-- ===== src/Base/Trimming.antt =====
-- Trimmed and reversed texts.
use opsdesk.Base.Rows.{All}
use opsdesk.Base.Tests.{Bool-cases}
use opsdesk.Base.Texts.{Text, drop_while, trim_text, is_space}
use Prim.Native.Nat.{ℕ}
use mathlib.Core.Path.{◌≡◌, refl, sym, ap, ◌∙◌}
use mathlib.Core.Logic.{inl, inr}
use mathlib.Core.Bool.{Bool, false}
use mathlib.Core.List.{[], ◌∷◌, ◌++◌, reverse, reverse_aux, reverse-cons, append_assoc, append-nil}

pub All-reverse_aux : (P : ℕ → Type 0) (s r : Text) → All P s → All P r → All P (reverse_aux s r)
All-reverse_aux P [] r a b = b
All-reverse_aux P (c ∷ s) r a b = All-reverse_aux P s (c ∷ r) a.1 (a.0, b)

pub All-drop_while : (P : ℕ → Type 0) (p : ℕ → Bool) (s : Text) → All P s → All P (drop_while p s)
unfolding drop_while
All-drop_while P p [] a = tt
All-drop_while P p (c ∷ s) a = elim (Bool-cases (p c)) [
  | inl e ↦ rw e (All-drop_while P p s a.1)
  | inr e ↦ rw e a
]

pub All-trim_text : (P : ℕ → Type 0) (s : Text) → All P s → All P (trim_text s)
unfolding trim_text
All-trim_text P s a =
    All-reverse_aux P _ []
      (All-drop_while P is_space _ (All-reverse_aux P _ [] (All-drop_while P is_space s a) tt)) tt

pub reverse-append : (s t : Text) → reverse (s ++ t) ≡ reverse t ++ reverse s
reverse-append [] t = sym (append-nil (reverse t))
reverse-append (c ∷ s) t =
    reverse-cons c (s ++ t)
    ∙ ap (λ r. r ++ (c ∷ [])) (reverse-append s t)
    ∙ append_assoc (reverse t) (reverse s) (c ∷ [])
    ∙ ap (λ r. reverse t ++ r) (sym (reverse-cons c s))

reverse-reverse : (s : Text) → reverse (reverse s) ≡ s
reverse-reverse [] = refl
reverse-reverse (c ∷ s) =
    ap reverse (reverse-cons c s)
    ∙ reverse-append (reverse s) (c ∷ [])
    ∙ ap (λ r. c ∷ r) (reverse-reverse s)

abbrev NoSpace : Text → Type 0
NoSpace = All (λ c. is_space c ≡ false)

drop_while-NoSpace : (s : Text) → NoSpace s → drop_while is_space s ≡ s
unfolding drop_while
drop_while-NoSpace [] a = refl
drop_while-NoSpace (c ∷ s) a = rw a.0 refl

-- a text without white space is trimmed
pub trim_text-NoSpace : (s : Text) → All (λ c. is_space c ≡ false) s → trim_text s ≡ s
unfolding trim_text
trim_text-NoSpace s a =
    ap (λ r. reverse (drop_while is_space (reverse r))) (drop_while-NoSpace s a)
    ∙ ap reverse (drop_while-NoSpace (reverse s) (All-reverse_aux _ s [] a tt))
    ∙ reverse-reverse s

drop_while-append :
    (s : Text) (c : ℕ) (t : Text)
    → is_space c ≡ false
    → drop_while is_space (s ++ (c ∷ t)) ≡ drop_while is_space s ++ (c ∷ t)
unfolding drop_while
drop_while-append [] c t h = rw h refl
drop_while-append (d ∷ s) c t h = elim (Bool-cases (is_space d)) [
  | inl e ↦ rw e (drop_while-append s c t h)
  | inr e ↦ rw e refl
]

trimmed_end :
    (s : Text) (d : ℕ)
    → is_space d ≡ false
    → reverse (drop_while is_space (reverse (s ++ (d ∷ [])))) ≡ s ++ (d ∷ [])
unfolding drop_while
trimmed_end s d h =
    ap (λ r. reverse (drop_while is_space r)) (reverse-append s (d ∷ []))
    ∙ rw h (ap reverse (sym (reverse-append s (d ∷ []))) ∙ reverse-reverse (s ++ (d ∷ [])))

-- trimming leaves a text from a character that is no white space on, if it ends in another
pub trim_text-append :
    (s : Text) (c : ℕ) (t : Text) (d : ℕ)
    → is_space c ≡ false
    → is_space d ≡ false
    → trim_text (s ++ (c ∷ (t ++ (d ∷ [])))) ≡ drop_while is_space s ++ (c ∷ (t ++ (d ∷ [])))
unfolding trim_text
trim_text-append s c t d h k =
    ap (λ r. reverse (drop_while is_space (reverse r)))
      (drop_while-append s c (t ++ (d ∷ [])) h
        ∙ sym (append_assoc (drop_while is_space s) (c ∷ t) (d ∷ [])))
    ∙ trimmed_end (drop_while is_space s ++ (c ∷ t)) d k
    ∙ append_assoc (drop_while is_space s) (c ∷ t) (d ∷ [])
