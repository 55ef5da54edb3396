-- ===== src/Prelude/Sums.antt =====
-- Weights of threads, summed: how many of the threads of a program stand where.
use Prim.Native.Nat.{ℕ, zero, suc, ◌+◌, ◌≤◌, ◌<◌}
use mathlib.Core.Path.{◌≡◌, refl, ap}
use mathlib.Core.Logic.{◌≢◌, ◌⊎◌, inl, inr}
use native.Mathlib.Omega.{arith}
use cs444_operating_systems.Prelude.Tests.{ltb, ◌==◌, if◌then◌else◌, Bool-cases, ne→==, ltb→lt}

last_or_before : (i n : ℕ) → i < suc n → (i < n) ⊎ (i ≡ n)
last_or_before i n h = elim (Bool-cases (i == n)) [
  | inl e ↦ inr (ground arith)
  | inr e ↦ inl (ground arith)
]

module _ {A : Type 0} where
  abbrev pub update : (ℕ → A) → ℕ → A → ℕ → A
  update f i p j = if j == i then p else f j

  abbrev pub sum_of : (A → ℕ) → ℕ → (ℕ → A) → ℕ
  sum_of w zero f = 0
  sum_of w (suc n) f = sum_of w n f + w (f n)

  pub sum_of-none : (w : A → ℕ) (n : ℕ) (f : ℕ → A) → ((i : ℕ) → w (f i) ≡ 0) → sum_of w n f ≡ 0
  sum_of-none w zero f h = refl
  sum_of-none w (suc n) f h = let rest = sum_of-none w n f h in let last = h n in omega arith

  -- A thread past the last one does not count.
  sum_of-update_outside :
      (w : A → ℕ) (n : ℕ) (f : ℕ → A) (i : ℕ) (p : A)
      → n ≤ i
      → sum_of w n (update f i p) ≡ sum_of w n f
  sum_of-update_outside w zero f i p h = refl
  sum_of-update_outside w (suc n) f i p h =
      let rest = sum_of-update_outside w n f i p (omega arith) in ground arith

  -- Thread `i` counts as where it stands now, in place of where it stood.
  pub sum_of-update :
      (w : A → ℕ) (n : ℕ) (f : ℕ → A) (i : ℕ) (p : A)
      → i < n
      → sum_of w n (update f i p) + w (f i) ≡ sum_of w n f + w p
  sum_of-update w zero f i p h = absurd (omega arith)
  sum_of-update w (suc n) f i p h = elim (last_or_before i n h) [
    | inl lt ↦
        let rest = sum_of-update w n f i p lt in let other = ne→== n i (omega arith) in ground arith
    | inr e ↦
        let rest = sum_of-update_outside w n f i p (omega arith) in
        let k = ap (λ j. w (f j)) e in ground arith
  ]

  -- What two threads count for is at most the sum.
  pub sum_of-le : (w : A → ℕ) (n : ℕ) (f : ℕ → A) (i : ℕ) → i < n → w (f i) ≤ sum_of w n f
  sum_of-le w zero f i h = absurd (omega arith)
  sum_of-le w (suc n) f i h = elim (last_or_before i n h) [
    | inl lt ↦ let rest = sum_of-le w n f i lt in omega arith
    | inr e ↦ let k = ap (λ j. w (f j)) e in omega arith
  ]

  pub sum_of-two :
      (w : A → ℕ) (n : ℕ) (f : ℕ → A) (i j : ℕ)
      → i < n
      → j < n
      → i ≢ j
      → w (f i) + w (f j) ≤ sum_of w n f
  sum_of-two w zero f i j hi hj d = absurd (omega arith)
  sum_of-two w (suc n) f i j hi hj d = elim (last_or_before i n hi) [
    | inl li ↦ elim (last_or_before j n hj) [
      | inl lj ↦ let rest = sum_of-two w n f i j li lj d in omega arith
      | inr ej ↦ let rest = sum_of-le w n f i li in let k = ap (λ x. w (f x)) ej in omega arith
    ]
    | inr ei ↦ elim (last_or_before j n hj) [
      | inl lj ↦ let rest = sum_of-le w n f j lj in let k = ap (λ x. w (f x)) ei in omega arith
      | inr ej ↦ absurd (d (cc))
    ]
  ]

  -- A thread that goes from `p` to `q` changes each count by what it counts for.
  pub record Moved (count count' : (A → ℕ) → ℕ) (p q : A) : Type 0 where
    pub moved : (w : A → ℕ) → count' w + w p ≡ count w + w q
    pub has : (w : A → ℕ) → w p ≤ count w

  -- What two weights count for is at most what a third does.
  pub sum_of-below :
      (w1 w2 w3 : A → ℕ) (n : ℕ) (f : ℕ → A)
      → ((p : A) → w1 p + w2 p ≤ w3 p)
      → sum_of w1 n f + sum_of w2 n f ≤ sum_of w3 n f
  sum_of-below w1 w2 w3 zero f h = omega arith
  sum_of-below w1 w2 w3 (suc n) f h =
      let rest = sum_of-below w1 w2 w3 n f h in let last = h (f n) in omega arith

  -- A count that is not 0 has a thread that counts.
  pub sum_of-some :
      (w : A → ℕ) (n : ℕ) (f : ℕ → A) → 0 < sum_of w n f → (i : ℕ) × (i < n) × (0 < w (f i))
  sum_of-some w zero f h = absurd (omega arith)
  sum_of-some w (suc n) f h = elim (Bool-cases (ltb 0 (w (f n)))) [
    | inl e ↦ (n, omega arith, ltb→lt 0 (w (f n)) e)
    | inr e ↦ let rest = sum_of-some w n f (ground arith) in (rest.0, omega (arith, rest.1), rest.2)
  ]
