-- ===== src/Dining/Eats.antt =====
-- Every philosopher can come to eat (Concurrency2/concurrency2.c).
use cs444_operating_systems.Prelude.{
  ℕ, zero, suc, ◌+◌, ◌<◌, ◌≤◌, ◌≡◌, ◌≢◌, refl, sym, ap, subst, true, Option, none, some, ==-refl,
  ne→==, Bool-cases, inl, inr, ltb, ltb→lt, arith,
}
use cs444_operating_systems.Prelude.Sums.{sum_of, sum_of-update, sum_of-le, sum_of-some}
use cs444_operating_systems.Dining.{
  think, get_right, get_left, eat, put_left, finish_think, lock_right, lock_left, unlock_right,
  unlock_left, pick, later, right_fork, left_fork, update, Pc, Forks, Move, Table, Step, Reach,
}
use cs444_operating_systems.Dining.Safety.{IsTable, Reach-IsTable, holds, forks-differ}
use cs444_operating_systems.Dining.Progress.{Able, Reach-Able}

-- What can come after a state.
pub data Steps (n : ℕ) (s : Table) : Table → Type 0 where
  here : Steps n s s
  more : {t u : Table} → Steps n s t → Step n t u → Steps n s u

Steps-Reach : {n : ℕ} {s t : Table} → Reach n s → Steps n s t → Reach n t
Steps-Reach r here = r
Steps-Reach r (more st step) = later (Steps-Reach r st) step

Steps-append : {n : ℕ} {s t u : Table} → Steps n s t → Steps n t u → Steps n s u
Steps-append a here = a
Steps-append a (more b step) = more (Steps-append a b) step

-- How many steps a philosopher has left to `think`.
abbrev left : Pc → ℕ
left think = 0
left get_right = 4
left get_left = 3
left eat = 2
left put_left = 1

left-think : (p : Pc) → left p ≡ 0 → p ≡ think
left-think think e = refl
left-think get_right e = absurd (omega arith)
left-think get_left e = absurd (omega arith)
left-think eat e = absurd (omega arith)
left-think put_left e = absurd (omega arith)

busy-left : (p : Pc) → 0 < left p → p ≢ think
busy-left p h e = absurd (let k = ap left e in omega arith)

Move-left :
    {n seat : ℕ} {forks forks' : Forks} {p q : Pc}
    → p ≢ think
    → Move n seat forks p forks' q
    → left q + 1 ≡ left p
Move-left d finish_think = absurd (d refl)
Move-left d (lock_right h) = refl
Move-left d (lock_left h) = refl
Move-left d unlock_right = refl
Move-left d unlock_left = refl

-- A step of a philosopher who is not thinking brings all of them nearer to it.
Able-left :
    {n : ℕ} {s : Table} (a : Able n s)
    → sum_of left n (update s.pc a.seat a.pc) + 1 ≡ sum_of left n s.pc
Able-left {n} {s} a =
    let k = sum_of-update left n s.pc a.seat a.pc a.low in
    let m = Move-left a.busy a.move in omega arith

abbrev AllThink : ℕ → Table → Type 0
AllThink n s = (i : ℕ) → i < n → s.pc i ≡ think

none_left : (n : ℕ) (s : Table) → sum_of left n s.pc ≡ 0 → AllThink n s
none_left n s e i low = let k = sum_of-le left n s.pc i low in left-think (s.pc i) (omega arith)

-- All can come to think.
can_clear :
    {n : ℕ} (k : ℕ) (s : Table)
    → 2 ≤ n
    → Reach n s
    → sum_of left n s.pc ≤ k
    → (t : Table) × Steps n s t × AllThink n t
can_clear {n} zero s two r h = (s, here, none_left n s (omega arith))
can_clear {n} (suc k) s two r h = elim (Bool-cases (ltb 0 (sum_of left n s.pc))) [
  | inr e ↦ (s, here, none_left n s (ground arith))
  | inl e ↦
      let one = sum_of-some left n s.pc (ltb→lt 0 (sum_of left n s.pc) e) in
      let a = Reach-Able two r one.1 (busy-left (s.pc one.0) one.2) in
      let t : Table = record { forks = a.forks; pc = update s.pc a.seat a.pc } in
      let step : Step n s t = pick a.seat a.low a.move in
      let fewer = Able-left a in
      let rest = can_clear k t two (later r step) (omega arith) in
      (rest.0, Steps-append (more here step) rest.1, rest.2)
]

-- Where all think, every fork is free.
all_free : {n : ℕ} {s : Table} → IsTable n s → AllThink n s → (f : ℕ) → s.forks f ≡ none
all_free {n} {s} h clear f = go (s.forks f) refl
  where
    go : (o : Option ℕ) → s.forks f ≡ o → s.forks f ≡ none
    go none e = e
    go (some j) e =
        let mine = h.owned j f e in
        let thinks = clear j (h.seated j f e) in
        let holds_none : holds n j think f ≡ true = subst (λ p. holds n j p f ≡ true) thinks mine in
        absurd (cc)

pick_at :
    {n : ℕ} {s : Table} (i : ℕ) {p q : Pc} {forks : Forks}
    → i < n
    → s.pc i ≡ p
    → Move n i s.forks p forks q
    → Step n s (record { forks = forks; pc = update s.pc i q })
pick_at {n} {s} i {p} {q} {forks} low e m =
    pick i low (subst (λ x. Move n i s.forks x forks q) (sym e) m)

at_seat : (f : ℕ → Pc) (i : ℕ) (p : Pc) → update f i p i ≡ p
at_seat f i p = rw (==-refl i) refl

-- A philosopher who thinks with both forks free can eat.
can_start :
    {n : ℕ} {s : Table} (i : ℕ)
    → 2 ≤ n
    → i < n
    → s.pc i ≡ think
    → ((f : ℕ) → s.forks f ≡ none)
    → (t : Table) × Steps n s t × (t.pc i ≡ eat)
can_start {n} {s} i two low e free =
    let s1 : Table = record { forks = s.forks; pc = update s.pc i get_right } in
    let s2 : Table = record {
      forks = update s.forks (right_fork n i) (some i);
      pc = update s1.pc i get_left;
    } in
    let s3 : Table = record {
      forks = update s2.forks (left_fork n i) (some i);
      pc = update s2.pc i eat;
    } in
    let other = ne→== (left_fork n i) (right_fork n i) (λ k. forks-differ n i two (sym k)) in
    let st1 : Step n s s1 = pick_at i low e finish_think in
    let st2 : Step n s1 s2 =
      pick_at i low (at_seat s.pc i get_right) (lock_right (free (right_fork n i))) in
    let st3 : Step n s2 s3 =
      pick_at i low (at_seat s1.pc i get_left) (lock_left (rw other (free (left_fork n i)))) in
    (s3, more (more (more here st1) st2) st3, at_seat s2.pc i eat)

-- With at least two seats: from every state that the philosophers can reach, and for each of them,
-- there is an order of further steps after which that philosopher eats.
pub Reach-eat :
    {n : ℕ} {s : Table}
    → 2 ≤ n
    → Reach n s
    → (i : ℕ) → i < n
    → (t : Table) × Steps n s t × (t.pc i ≡ eat)
Reach-eat {n} {s} two r i low =
    let clear = can_clear (sum_of left n s.pc) s two r (omega arith) in
    let free = all_free (Reach-IsTable two (Steps-Reach r clear.1)) clear.2 in
    let start = can_start i two low (clear.2 i low) free in
    (start.0, Steps-append clear.1 start.1, start.2)
