-- ===== src/Dining/Safety.antt =====
-- Who holds a fork (Concurrency2/concurrency2.c).
use cs444_operating_systems.Prelude.{
  ℕ, ◌+◌, ◌<◌, ◌≤◌, ◌≡◌, ◌≢◌, refl, sym, ◌∙◌, subst, ==-refl, ne→==, Bool, true, false, some, ◌==◌,
  arith, if◌then◌else◌,
}
use native.Mathlib.Decide.{ℕ_discrete}
use cs444_operating_systems.Dining.{
  think, get_right, get_left, eat, put_left, finish_think, lock_right, lock_left, unlock_right,
  unlock_left, pick, init, later, right_fork, left_fork, update, Pc, Forks, Move, Table, Step,
  start, Reach,
}

-- The fork is one of those that a philosopher who stands at a point has locked.
abbrev pub holds : (n seat : ℕ) → Pc → ℕ → Bool
holds n seat think f = false
holds n seat get_right f = false
holds n seat get_left f = f == right_fork n seat
holds n seat eat f = if f == right_fork n seat then true else f == left_fork n seat
holds n seat put_left f = f == left_fork n seat

-- A mutex is held by the philosopher that has locked the fork and not yet put it down.
pub record IsTable (n : ℕ) (s : Table) : Type 0 where
  pub owner : (seat f : ℕ) → holds n seat (s.pc seat) f ≡ true → s.forks f ≡ some seat
  pub owned : (seat f : ℕ) → s.forks f ≡ some seat → holds n seat (s.pc seat) f ≡ true
  pub seated : (seat f : ℕ) → s.forks f ≡ some seat → seat < n

pub forks-differ : (n seat : ℕ) → 2 ≤ n → right_fork n seat ≢ left_fork n seat
unfolding right_fork left_fork
forks-differ n seat two = ground arith

module _ {n : ℕ} {s : Table} (two : 2 ≤ n) (h : IsTable n s) (seat : ℕ) where
  open h use {owner, owned}

  own-at : (q : Pc) → s.pc seat ≡ q → (f : ℕ) → holds n seat q f ≡ true → s.forks f ≡ some seat
  own-at q at f l = owner seat f (rw at l)

  owned-at : (q : Pc) → s.pc seat ≡ q → (f : ℕ) → s.forks f ≡ some seat → holds n seat q f ≡ true
  owned-at q at f o = rw (sym at) (owned seat f o)

  -- After a step of `seat`, it holds what it locked, and nothing else.
  Move-self :
      {forks : Forks} {p : Pc} (q : Pc)
      → s.pc seat ≡ q
      → Move n seat s.forks q forks p
      → (f : ℕ)
      → (holds n seat p f ≡ true → forks f ≡ some seat)
        × (forks f ≡ some seat → holds n seat p f ≡ true)
  Move-self q at m f = go m (own-at q at f) (owned-at q at f)
    where
      go :
          {q p : Pc} {forks : Forks}
          → Move n seat s.forks q forks p
          → (holds n seat q f ≡ true → s.forks f ≡ some seat)
          → (s.forks f ≡ some seat → holds n seat q f ≡ true)
          → (holds n seat p f ≡ true → forks f ≡ some seat)
            × (forks f ≡ some seat → holds n seat p f ≡ true)
      go finish_think a b = (a, b)
      go (lock_right free) a b = (λ l. ground arith, λ o. ground arith)
      go (lock_left free) a b = (λ l. ground arith, λ o. ground arith)
      go unlock_right a b =
          let two_forks = forks-differ n seat two in (λ l. ground arith, λ o. ground arith)
      go unlock_left a b = (λ l. absurd (ground arith), λ o. absurd (ground arith))

  -- Other philosophers keep what they hold, and get nothing.
  Move-other :
      {forks : Forks} {p : Pc} (q : Pc)
      → s.pc seat ≡ q
      → Move n seat s.forks q forks p
      → (j f : ℕ) → j ≢ seat
      → (s.forks f ≡ some j → forks f ≡ some j) × (forks f ≡ some j → s.forks f ≡ some j)
  Move-other _ at finish_think j f d = (λ o. o, λ o. o)
  Move-other _ at (lock_right free) j f d = (λ o. ground arith, λ o. ground arith)
  Move-other _ at (lock_left free) j f d = (λ o. ground arith, λ o. ground arith)
  Move-other _ at unlock_right j f d = (
    (λ o. let mine = owner seat (right_fork n seat) (rw at (ground arith)) in ground arith),
    λ o. ground arith,
  )
  Move-other _ at unlock_left j f d = (
    (λ o. let mine = owner seat (left_fork n seat) (rw at (ground arith)) in ground arith),
    λ o. ground arith,
  )

update-here {ℓ} : {A : Type ℓ} (f : ℕ → A) (i : ℕ) (a : A) → update f i a i ≡ a
update-here f i a = rw (==-refl i) refl

update-there {ℓ} : {A : Type ℓ} (f : ℕ → A) (i j : ℕ) (a : A) → j ≢ i → update f i a j ≡ f j
update-there f i j a d = rw (ne→== j i d) refl

start-IsTable : (n : ℕ) → IsTable n start
start-IsTable n = record {
  owner = λ j f l. absurd (cc);
  owned = λ j f o. absurd (cc);
  seated = λ j f o. absurd (cc);
}

Step-IsTable : {n : ℕ} {s t : Table} → 2 ≤ n → IsTable n s → Step n s t → IsTable n t
Step-IsTable {n} {s} two h (pick seat {forks} {p} low m) = record {
  owner = λ j f l. elim (ℕ_discrete j seat) [
    | yes same ↦ rw same (
        (self f).0 (
          rw (sym (update-here s.pc seat p))
            (subst (λ x. holds n x (update s.pc seat p x) f ≡ true) same l)))
    | no other ↦
        (Move-other two h seat _ refl m j f other).0
          (h.owner j f (rw (sym (update-there s.pc seat j p other)) l))
  ];
  owned = λ j f o. elim (ℕ_discrete j seat) [
    | yes same ↦
        rw same (rw (update-here s.pc seat p) ((self f).1 (subst (λ x. forks f ≡ some x) same o)))
    | no other ↦
        rw (update-there s.pc seat j p other)
          (h.owned j f ((Move-other two h seat _ refl m j f other).1 o))
  ];
  seated = λ j f o. elim (ℕ_discrete j seat) [
    | yes same ↦ rw same low
    | no other ↦ h.seated j f ((Move-other two h seat _ refl m j f other).1 o)
  ];
}
  where
    self :
        (f : ℕ)
        → (holds n seat p f ≡ true → forks f ≡ some seat)
          × (forks f ≡ some seat → holds n seat p f ≡ true)
    self f = Move-self two h seat _ refl m f

pub Reach-IsTable : {n : ℕ} {s : Table} → 2 ≤ n → Reach n s → IsTable n s
Reach-IsTable {n} two init = start-IsTable n
Reach-IsTable two (later r step) = Step-IsTable two (Reach-IsTable two r) step

-- The next seat around the table.
abbrev pub neighbour : (n seat : ℕ) → ℕ
neighbour n seat = if seat + 1 == n then 0 else seat + 1

-- Neighbours use the same fork.
neighbour-shares :
    (n seat : ℕ)
    → 2 ≤ n
    → seat < n
    → (holds n seat eat (neighbour n seat) ≡ true)
      × (holds n (neighbour n seat) eat (neighbour n seat) ≡ true)
      × (seat ≢ neighbour n seat)
unfolding right_fork left_fork
neighbour-shares n seat two low = (ground arith, ground arith, ground arith)

-- With at least two seats, in every reachable state, a philosopher who eats holds both forks, and the
-- next one around the table does not eat.
pub Reach-exclusion :
    {n : ℕ} {s : Table}
    → 2 ≤ n
    → Reach n s
    → (i : ℕ) → i < n
    → s.pc i ≡ eat
    → (s.forks (right_fork n i) ≡ some i)
      × (s.forks (left_fork n i) ≡ some i)
      × (s.pc (neighbour n i) ≢ eat)
Reach-exclusion {n} {s} two r i low at = (
  mine (right_fork n i) (ground arith),
  mine (left_fork n i) (ground arith),
  λ next.
      let same =
        sym (mine (neighbour n i) shared.0)
        ∙ h.owner (neighbour n i) (neighbour n i) (rw next shared.1) in
      shared.2 (ground arith),
)
  where
    h : IsTable n s
    h = Reach-IsTable two r

    mine : (f : ℕ) → holds n i eat f ≡ true → s.forks f ≡ some i
    mine f l = h.owner i f (rw at l)

    shared :
        (holds n i eat (neighbour n i) ≡ true)
        × (holds n (neighbour n i) eat (neighbour n i) ≡ true)
        × (i ≢ neighbour n i)
    shared = neighbour-shares n i two low
