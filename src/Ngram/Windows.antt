-- ===== src/Ngram/Windows.antt =====
-- The windows of a token sequence, and how they stand when the sequence grows at its end.
use inferq.Prelude.{
  ℕ, ◌+◌, ◌-◌, ◌≤◌, ◌<◌, ◌≡◌, refl, ◌↔◌, true, List, [], ◌∷◌, ◌++◌, arith, length, drop, take-all,
  take-append_le, drop-append_le, length-drop,
}
use inferq.Ngram.{Token, tokens_eq, window}

pub window-append :
    (n e : ℕ) (xs ys : List Token)
    → n ≤ e + 1
    → e < length xs
    → window n e (xs ++ ys) ≡ window n e xs
window-append n e xs ys h lt =
    rw (drop-append_le (e + 1 - n) xs ys (omega arith))
      (take-append_le n (drop (e + 1 - n) xs) ys (omega (arith, length-drop (e + 1 - n) xs)))

-- The window that ends at the last token is the suffix.
pub window-last :
    (n e : ℕ) (xs : List Token)
    → length xs ≡ e + 1
    → n ≤ e + 1
    → window n e xs ≡ drop (length xs - n) xs
window-last n e xs h le =
    rw (← h) (take-all n (drop (length xs - n) xs) (omega (arith, length-drop (length xs - n) xs)))

pub tokens_eq_iff : (xs ys : List Token) → (tokens_eq xs ys ≡ true) ↔ (xs ≡ ys)
unfolding tokens_eq
tokens_eq_iff [] [] = (λ _. refl, λ _. refl)
tokens_eq_iff [] (y ∷ ys) = (λ h. cc, λ h. cc)
tokens_eq_iff (x ∷ xs) [] = (λ h. cc, λ h. cc)
tokens_eq_iff (x ∷ xs) (y ∷ ys) = grind (arith, tokens_eq_iff xs ys)
