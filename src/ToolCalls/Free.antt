-- ===== src/ToolCalls/Free.antt =====
-- Texts in which a marker of src/tool_calls.rs does not begin.
use inferq.Prelude.{
  ℕ, suc, ◌+◌, ◌≤◌, ◌≡◌, refl, sym, ap, true, false, none, some, [], ◌∷◌, ◌++◌, length, take, drop,
  ◌==◌, arith, append_assoc, length-append, Bool-cases, inl, inr, All,
}
use inferq.Stop.{Bytes, starts_with, find}
use inferq.Stop.Text.{starts_with-append_short}
use inferq.ToolCalls.{split_on}

-- The marker begins nowhere in `a`, where `w` follows.
abbrev pub IsFree : Bytes → Bytes → Bytes → Type 0
IsFree p [] w = Unit
IsFree p (c ∷ a) w = (starts_with p (c ∷ (a ++ w)) ≡ false) × IsFree p a w

pub IsFree-append : (p a b w : Bytes) → IsFree p a (b ++ w) → IsFree p b w → IsFree p (a ++ b) w
IsFree-append p [] b w free rest = rest
IsFree-append p (c ∷ a) b w (here, free) rest =
    (rw (append_assoc a b w) here, IsFree-append p a b w free rest)

starts_with_self : (p b : Bytes) → starts_with p (p ++ b) ≡ true
unfolding starts_with
starts_with_self [] b = refl
starts_with_self (x ∷ p) b = ground (arith, starts_with_self p b)

-- The first place of a marker is behind a text that is free of it.
pub find-IsFree :
    (x : ℕ) (p a b : Bytes)
    → IsFree (x ∷ p) a ((x ∷ p) ++ b)
    → find (x ∷ p) (a ++ ((x ∷ p) ++ b)) ≡ some (length a)
unfolding find
find-IsFree x p [] b free = rw (starts_with_self (x ∷ p) b) refl
find-IsFree x p (c ∷ a) b (here, free) = rw (here, find-IsFree x p a b free) refl

pub take-length : (a b : Bytes) → take (length a) (a ++ b) ≡ a
take-length [] b = refl
take-length (c ∷ a) b = ap (λ r. c ∷ r) (take-length a b)

pub drop-front : (p b : Bytes) → drop (length p) (p ++ b) ≡ b
drop-front [] b = refl
drop-front (x ∷ p) b = drop-front p b

drop-length : (a p b : Bytes) → drop (length a + length p) (a ++ (p ++ b)) ≡ b
drop-length [] p b = let e : 0 + length p ≡ length p = omega arith in rw e (drop-front p b)
drop-length (c ∷ a) p b =
    let e : suc (length a) + length p ≡ suc (length a + length p) = omega arith in
    rw e (drop-length a p b)

pub split_on-IsFree :
    (x : ℕ) (p a b : Bytes)
    → IsFree (x ∷ p) a ((x ∷ p) ++ b)
    → split_on (x ∷ p) (a ++ ((x ∷ p) ++ b)) ≡ some (a, b)
unfolding split_on
split_on-IsFree x p a b free =
    rw (split_on, find-IsFree x p a b free, take-length a ((x ∷ p) ++ b), drop-length a (x ∷ p) b)
      refl

-- Without its first byte a marker does not begin.
pub IsFree-without :
    (x : ℕ) (p a b w : Bytes)
    → All (λ c. (c == x) ≡ false) a
    → IsFree (x ∷ p) b w
    → IsFree (x ∷ p) (a ++ b) w
unfolding starts_with
IsFree-without x p [] b w none_there free = free
IsFree-without x p (c ∷ a) b w (other, rest) free =
    (ground arith, IsFree-without x p a b w rest free)

pub IsFree-All : (x : ℕ) (p a w : Bytes) → All (λ c. (c == x) ≡ false) a → IsFree (x ∷ p) a w
unfolding starts_with
IsFree-All x p [] w none_there = tt
IsFree-All x p (c ∷ a) w (other, rest) = (ground arith, IsFree-All x p a w rest)

-- A byte that a marker does not hold ends any occurrence before it.
starts_with-cut :
    (p : Bytes) (u w : Bytes) (x : ℕ)
    → All (λ c. (c == x) ≡ false) p
    → starts_with p u ≡ false
    → starts_with p (u ++ x ∷ w) ≡ false
unfolding starts_with
starts_with-cut [] u w x other free = cc
starts_with-cut (c ∷ p) [] w x (other, rest) free = ground arith
starts_with-cut (c ∷ p) (b ∷ u) w x (other, rest) free =
    ground (arith, starts_with-cut p u w x rest)

pub IsFree-cut :
    (p a b w : Bytes) (x : ℕ)
    → All (λ c. (c == x) ≡ false) p
    → find p a ≡ none
    → IsFree p b w
    → IsFree p (a ++ x ∷ b) w
unfolding find
IsFree-cut p [] b w x other missing free =
    (starts_with-cut p [] (b ++ w) x other (ground arith), free)
IsFree-cut p (c ∷ a) b w x other missing free = (
  rw (append_assoc a (x ∷ b) w) (starts_with-cut p (c ∷ a) (b ++ w) x other (ground arith)),
  IsFree-cut p a b w x other (ground arith) free,
)

-- Where the first marker of `a ++ p` is the one behind `a`, it is so whatever follows.
pub find-IsFree_before : (p a b : Bytes) → find p (a ++ p) ≡ some (length a) → IsFree p a (p ++ b)
unfolding find
find-IsFree_before p [] b first = tt
find-IsFree_before p (c ∷ a) b first = elim (Bool-cases (starts_with p (c ∷ (a ++ p)))) [
  | inl begins ↦ absurd (ground arith)
  | inr free ↦ (
    elim (Bool-cases (starts_with p (c ∷ (a ++ (p ++ b))))) [
      | inr other ↦ other
      | inl later ↦
          let whole : c ∷ (a ++ (p ++ b)) ≡ (c ∷ (a ++ p)) ++ b =
            ap (λ r. c ∷ r) (sym (append_assoc a p b)) in
          let long : length p ≤ length (c ∷ (a ++ p)) = omega (arith, length-append a p) in
          let begins = starts_with-append_short p (c ∷ (a ++ p)) b (rw whole at later) long in cc
    ],
    find-IsFree_before p a b (ground arith),
  )
]
