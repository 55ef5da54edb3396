-- ===== src/Dining/Progress.antt =====
-- The philosophers are never stuck (Concurrency2/concurrency2.c).
use cs444_operating_systems.Prelude.{
  ℕ, zero, suc, ◌+◌, ◌-◌, ◌<◌, ◌≤◌, ◌≡◌, ◌≢◌, refl, sym, ◌∙◌, subst, true, Option, none, some, ◌⊎◌,
  inl, inr, arith,
}
use cs444_operating_systems.Dining.{
  think, get_right, get_left, eat, put_left, lock_right, lock_left, unlock_right, unlock_left,
  right_fork, left_fork, Pc, Forks, Move, Table, Reach,
}
use cs444_operating_systems.Dining.Safety.{holds, IsTable, Reach-IsTable}

-- A philosopher who is not in `think` and can make a step.
pub record Able (n : ℕ) (s : Table) : Type 0 where
  pub seat : ℕ
  pub low : seat < n
  pub busy : s.pc seat ≢ think
  pub forks : Forks
  pub pc : Pc
  pub move : Move n seat s.forks (s.pc seat) forks pc

module _ {n : ℕ} {s : Table} (two : 2 ≤ n) (h : IsTable n s) where
  able :
      (seat : ℕ) (q : Pc) {forks : Forks} {p : Pc}
      → seat < n
      → s.pc seat ≡ q
      → q ≢ think
      → Move n seat s.forks q forks p
      → Able n s
  able seat q {forks} {p} low at busy m = record {
    seat = seat;
    low = low;
    busy = λ e. busy (sym at ∙ e);
    forks = forks;
    pc = p;
    move = subst (λ x. Move n seat s.forks x forks p) (sym at) m;
  }

  -- A philosopher who holds a fork, and whose left one is free, is able to go on.
  holder-Able :
      (seat f : ℕ)
      → s.forks f ≡ some seat
      → Able n s ⊎ ((s.pc seat ≡ get_left) × (f ≡ right_fork n seat))
  holder-Able seat f o = go (s.pc seat) refl (h.owned seat f o)
    where
      low : seat < n
      low = h.seated seat f o

      go :
          (q : Pc)
          → s.pc seat ≡ q
          → holds n seat q f ≡ true
          → Able n s ⊎ ((s.pc seat ≡ get_left) × (f ≡ right_fork n seat))
      go think at l = absurd (cc)
      go get_right at l = absurd (cc)
      go get_left at l = inr (at, ground arith)
      go eat at l = inl (able seat eat low at (λ e. absurd (cc)) unlock_right)
      go put_left at l = inl (able seat put_left low at (λ e. absurd (cc)) unlock_left)

  -- One who waits for a fork that is free is able to go on.
  waiter-Able :
      (seat : ℕ) → seat < n → s.pc seat ≡ get_left → s.forks (left_fork n seat) ≡ none → Able n s
  waiter-Able seat low at free = able seat get_left low at (λ e. absurd (cc)) (lock_left free)

  -- The last fork is nobody's first one.
  last_fork : (f : ℕ) → f + 1 ≡ n → Able n s ⊎ (s.forks f ≡ none)
  unfolding right_fork
  last_fork f last = go (s.forks f) refl
    where
      go : (o : Option ℕ) → s.forks f ≡ o → Able n s ⊎ (s.forks f ≡ none)
      go none free = inr free
      go (some j) held = elim (holder-Able j f held) [
        | inl a ↦ inl a
        | inr w ↦ let low = h.seated j f held in absurd (ground arith)
      ]

  -- Somebody is able to go on, or a fork is free: by induction from the last fork down, since who
  -- holds a fork and waits, waits for one with a higher number.
  fork_free : (k f : ℕ) → f + k + 1 ≡ n → Able n s ⊎ (s.forks f ≡ none)
  unfolding right_fork left_fork
  fork_free zero f last = last_fork f (omega arith)
  fork_free (suc k) f place =
      go (s.forks f) refl (fork_free k (f + 1) (omega arith)) (last_fork (n - 1) (omega arith))
    where
      go :
          (o : Option ℕ)
          → s.forks f ≡ o
          → Able n s ⊎ (s.forks (f + 1) ≡ none)
          → Able n s ⊎ (s.forks (n - 1) ≡ none)
          → Able n s ⊎ (s.forks f ≡ none)
      go none free a b = inr free
      go (some j) held (inl a) b = inl a
      go (some j) held a (inl b) = inl b
      go (some j) held (inr a) (inr b) = elim (holder-Able j f held) [
        | inl x ↦ inl x
        | inr w ↦ let low = h.seated j f held in inl (waiter-Able j low w.0 (ground arith))
      ]

right_fork-lt : (n seat : ℕ) → seat < n → right_fork n seat < n
unfolding right_fork
right_fork-lt n seat low = ground arith

left_fork-lt : (n seat : ℕ) → seat < n → left_fork n seat < n
unfolding left_fork
left_fork-lt n seat low = ground arith

-- No deadlock: with at least two seats, in every reachable state in which some philosopher is not thinking, some philosopher
-- who is not thinking can make a step.
pub Reach-Able : {n i : ℕ} {s : Table} → 2 ≤ n → Reach n s → i < n → s.pc i ≢ think → Able n s
Reach-Able {n} {i} {s} two r low busy = go (s.pc i) refl
  where
    h : IsTable n s
    h = Reach-IsTable two r

    free_or_able : (f : ℕ) → f < n → Able n s ⊎ (s.forks f ≡ none)
    free_or_able f small = fork_free two h (n - f - 1) f (omega arith)

    right_taker : s.pc i ≡ get_right → Able n s ⊎ (s.forks (right_fork n i) ≡ none) → Able n s
    right_taker at (inl a) = a
    right_taker at (inr free) = able two h i get_right low at (λ e. absurd (cc)) (lock_right free)

    left_taker : s.pc i ≡ get_left → Able n s ⊎ (s.forks (left_fork n i) ≡ none) → Able n s
    left_taker at (inl a) = a
    left_taker at (inr free) = waiter-Able two h i low at free

    go : (q : Pc) → s.pc i ≡ q → Able n s
    go think at = absurd (busy at)
    go get_right at = right_taker at (free_or_able (right_fork n i) (right_fork-lt n i low))
    go get_left at = left_taker at (free_or_able (left_fork n i) (left_fork-lt n i low))
    go eat at = able two h i eat low at (λ e. absurd (cc)) unlock_right
    go put_left at = able two h i put_left low at (λ e. absurd (cc)) unlock_left
