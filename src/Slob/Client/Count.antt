-- ===== src/Slob/Client/Count.antt =====
-- Counting the units of a page, free or in use (CS444_project4_46/slob.c).
use cs444_operating_systems.Prelude.{
  ℕ, zero, suc, ◌+◌, ◌-◌, ◌*◌, ◌≤◌, ◌<◌, ◌≡◌, refl, Bool, true, false, [], ◌∷◌, inl, inr, ◌⊎◌, ◌||◌,
  leb, arith, if◌then◌else◌, Bool-cases,
}
use cs444_operating_systems.Slob.Block.{Ptr, Mem, slob_next}
use cs444_operating_systems.Slob.Segment.{Blocks, Seg}
use cs444_operating_systems.Slob.State.{Page}
use cs444_operating_systems.Slob.PageAlloc.Correct.{IsPage}
use cs444_operating_systems.Slob.Cover.{inside, covers, total, covers_range}

-- How many of the `n` units from `lo` on pass a test.
pub count : (lo n : ℕ) → (ℕ → Bool) → ℕ
count lo zero P = 0
count lo (suc n) P = count lo n P + (if P (lo + n) then 1 else 0)

pub count-le : (lo n : ℕ) (P : ℕ → Bool) → count lo n P ≤ n
unfolding count
count-le lo zero P = omega arith
count-le lo (suc n) P = let k = count-le lo n P in ground arith

-- Tests that never both hold.
count-or :
    (lo n : ℕ) (P Q : ℕ → Bool)
    → ((x : ℕ) → P x ≡ true → Q x ≡ false)
    → count lo n (λ x. P x || Q x) ≡ count lo n P + count lo n Q
unfolding count
count-or lo zero P Q h = refl
count-or lo (suc n) P Q h = let k = count-or lo n P Q h in ground (arith, h (lo + n))

count-inside_below :
    (lo n a k : ℕ)
    → lo ≤ a
    → count lo n (inside a k)
      ≡ (if leb (lo + n) a then 0 else (if leb (lo + n) (a + k) then lo + n - a else k))
unfolding count
count-inside_below lo zero a k h = ground arith
count-inside_below lo (suc n) a k h = let rest = count-inside_below lo n a k h in ground arith

pub count-inside : (lo n a k : ℕ) → lo ≤ a → a + k ≤ lo + n → count lo n (inside a k) ≡ k
count-inside lo n a k h r = let e = count-inside_below lo n a k h in ground arith

count-ext : (lo n : ℕ) (P Q : ℕ → Bool) → ((x : ℕ) → P x ≡ Q x) → count lo n P ≡ count lo n Q
unfolding count
count-ext lo zero P Q h = refl
count-ext lo (suc n) P Q h = let k = count-ext lo n P Q h in ground (arith, h (lo + n))

count-never : (lo n : ℕ) → count lo n (λ x. false) ≡ 0
unfolding count
count-never lo zero = refl
count-never lo (suc n) = let k = count-never lo n in omega arith

-- The blocks of a free list, counted by their units.
pub count-covers :
    (m : Mem) (base n lo hi : ℕ) (p r : Ptr) (bs : Blocks)
    → base ≤ lo
    → hi ≤ base + n + 1
    → Seg m lo hi p bs r
    → count base n (covers bs) ≡ total bs
unfolding covers total
count-covers m base n lo hi p r [] low high s = count-never base n
count-covers m base n lo hi p r ((a, k) ∷ bs) low high (e, la, some_unit, ha, h, rest) =
    let tail = count-covers m base n (a + k + 1) hi (slob_next m a) r bs (omega arith) high rest in
    let block = count-inside base n a k (omega arith) (omega arith) in
    let split = count-or base n (inside a k) (covers bs) (λ x i. elim (Bool-cases (covers bs x)) [
      | inr out ↦ out
      | inl c ↦ absurd (ground (arith, covers_range m (a + k + 1) hi (slob_next m a) r bs x rest))
    ]) in
    omega arith

-- On a page, full or not.
pub page-count :
    (m : Mem) (g : ℕ) (pg : Page) (bs : Blocks)
    → IsPage m g pg bs
    → count (g * 2048) 2048 (covers bs) ≡ total bs
page-count m g pg bs page = go bs page (Bool-cases pg.is_free)
  where
    go :
        (bs : Blocks)
        → IsPage m g pg bs
        → (pg.is_free ≡ true) ⊎ (pg.is_free ≡ false)
        → count (g * 2048) 2048 (covers bs) ≡ total bs
    go bs page (inl free) =
        count-covers m (g * 2048) 2048 (g * 2048) (g * 2048 + 2049) pg.freelist (g * 2048 + 2048) bs
          (omega arith) (omega arith) (page.chain free)
    go [] page (inr full) = unfold covers total in count-never (g * 2048) 2048
    go (c ∷ bs) page (inr full) = let h = page.listed in absurd (cc)

-- Free units and two blocks in use, none of which meet, fit together.
pub count-apart :
    (lo n : ℕ) (bs : Blocks) (a j b k : ℕ)
    → count lo n (covers bs) ≡ total bs
    → (lo ≤ a) × (a + j ≤ lo + n)
    → (lo ≤ b) × (b + k ≤ lo + n)
    → ((x : ℕ) → inside a j x ≡ true → covers bs x ≡ false)
    → ((x : ℕ) → inside b k x ≡ true → covers bs x ≡ false)
    → ((x : ℕ) → inside a j x ≡ true → inside b k x ≡ false)
    → total bs + j + k ≤ n
count-apart lo n bs a j b k counted ra rb ha hb hab =
    let both = count-or lo n (inside a j) (inside b k) hab in
    let all =
      count-or lo n (covers bs) (λ x. inside a j x || inside b k x)
        (λ x c. ground (arith, ha x, hb x)) in
    let first = count-inside lo n a j ra.0 ra.1 in
    let second = count-inside lo n b k rb.0 rb.1 in
    let most = count-le lo n (λ x. covers bs x || (inside a j x || inside b k x)) in omega arith

-- If not all of the units pass, some unit does not.
pub count-some :
    (lo n : ℕ) (P : ℕ → Bool) → count lo n P < n → (x : ℕ) × (lo ≤ x) × (x < lo + n) × (P x ≡ false)
unfolding count
count-some lo zero P h = absurd (omega arith)
count-some lo (suc n) P h = elim (Bool-cases (P (lo + n))) [
  | inr out ↦ (lo + n, omega arith, omega arith, out)
  | inl passes ↦
      let (x, low, high, out) = count-some lo n P (ground arith) in (x, low, omega arith, out)
]
