-- ===== src/Sharing/Limit.antt =====
-- What holds of the shared resource in every state that the program can reach
-- (Concurrency3/prob1_conc3.c).
use cs444_operating_systems.Prelude.{
  ℕ, zero, suc, ◌+◌, ◌≤◌, ◌<◌, ◌≡◌, refl, sym, ap, subst, Bool-cases, inl, inr, arith, ltb, ltb→lt,
}
use cs444_operating_systems.Prelude.Int.{pos}
use cs444_operating_systems.Prelude.Sums.{
  sum_of, sum_of-none, sum_of-update, sum_of-le, sum_of-below, sum_of-some,
}
use cs444_operating_systems.Sharing.{
  Pc, enter, inside, blocked, woken, leave, leaving, Shared, Move, wait_mutex, must_block, go_in,
  wake, wait_again, go_out, System, pick, start, Steps, here, later,
}
use cs444_operating_systems.Sharing.Blocked.{Steps-NoneWoken, start-NoneWoken}
use cs444_operating_systems.Sharing.Counted.{holds_mutex, deciding, uses, free, IsCounted, keeps}

abbrev counts : (n : ℕ) → System → (Pc → ℕ) → ℕ
counts n s w = sum_of w n s.pc

-- At the start all threads are free.
sum_of-start : (n : ℕ) → sum_of free n start.pc ≡ n
sum_of-start zero = refl
sum_of-start (suc n) = let rest = sum_of-start n in omega arith

deciding-free : (p : Pc) → deciding p + uses p ≤ free p
deciding-free enter = omega arith
deciding-free inside = omega arith
deciding-free blocked = omega arith
deciding-free woken = omega arith
deciding-free leave = omega arith
deciding-free leaving = omega arith

Steps-IsCounted : {n : ℕ} {s : System} → 1 ≤ n → Steps n start s → IsCounted s.shared (counts n s)
Steps-IsCounted {n} some here =
    let k0 = sum_of-none holds_mutex n start.pc (λ i. refl) in
    let k1 = sum_of-none uses n start.pc (λ i. refl) in
    let k2 = sum_of-start n in
    record {
      mutex_held = omega arith;
      active_counted = ap pos (sym k1);
      at_most_three = omega arith;
      room_left = λ e. omega arith;
      some_use = λ e. absurd (cc);
      some_free = omega arith;
    }
Steps-IsCounted {n} some (later {t = s} steps (pick i {m} {p} low mv)) =
    let w = Steps-NoneWoken start-NoneWoken steps in
    keeps (Steps-IsCounted some steps)
      (record { moved = λ w. sum_of-update w n s.pc i p low; has = λ w. sum_of-le w n s.pc i low })
      (sum_of-below deciding uses free n s.pc deciding-free) w.no_post w.no_count (w.none_woken i)
      mv

-- Between `active++` and `active--` stand at most three threads, as many as `active` says, and at
-- most one holds `mutex`.
pub record WithinLimit (n : ℕ) (s : System) : Type 0 where
  pub at_most_three : sum_of uses n s.pc ≤ 3
  pub active_right : s.shared.active ≡ pos (sum_of uses n s.pc)
  pub one_holds : s.shared.mutex + sum_of holds_mutex n s.pc ≡ 1

-- Whatever the order of the steps of any number of threads: at most three of them use the resource
-- at once, `active` is how many do, and `mutex` is 1 where no thread holds it and 0 where one does.
pub Steps-WithinLimit : {n : ℕ} {s : System} → 1 ≤ n → Steps n start s → WithinLimit n s
Steps-WithinLimit some steps =
    let h = Steps-IsCounted some steps in
    record {
      at_most_three = h.at_most_three;
      active_right = h.active_counted;
      one_holds = h.mutex_held;
    }

-- A thread that can make a step.
pub record CanMove (n : ℕ) (s : System) : Type 0 where
  pub thread : ℕ
  pub low : thread < n
  pub next_shared : Shared
  pub next_pc : Pc
  pub next_move : Move s.shared (s.pc thread) next_shared next_pc

module _ {n : ℕ} {s : System} (i : ℕ) (low : i < n) where
  can : (p : Pc) {t : Shared} {q : Pc} → s.pc i ≡ p → Move s.shared p t q → CanMove n s
  can p {t} {q} e mv = record {
    thread = i;
    low = low;
    next_shared = t;
    next_pc = q;
    next_move = subst (λ x. Move s.shared x t q) (sym e) mv;
  }

  -- A thread that holds `mutex` can go on.
  holder-CanMove : (p : Pc) → s.pc i ≡ p → 0 < holds_mutex p → CanMove n s
  holder-CanMove enter e h = absurd (omega arith)
  holder-CanMove inside e h = elim (Bool-cases s.shared.must_wait) [
    | inl full ↦ can inside e (must_block full)
    | inr open_ ↦ can inside e (go_in open_)
  ]
  holder-CanMove blocked e h = absurd (omega arith)
  holder-CanMove woken e h = absurd (omega arith)
  holder-CanMove leave e h = absurd (omega arith)
  holder-CanMove leaving e h = can leaving e go_out

  -- A thread that does not wait for `blocker` can go on where no thread holds `mutex`.
  free-CanMove : (p : Pc) → s.pc i ≡ p → 0 < free p → 0 < s.shared.mutex → CanMove n s
  free-CanMove enter e h m = can enter e (wait_mutex m)
  free-CanMove inside e h m = holder-CanMove inside e (omega arith)
  free-CanMove blocked e h m = absurd (omega arith)
  free-CanMove woken e h m = can woken e wake
  free-CanMove leave e h m = can leave e (wait_again m)
  free-CanMove leaving e h m = can leaving e go_out

-- Whatever the order of the steps of at least one thread: some thread can make a step, so that the
-- threads never all wait, though those that wait for `blocker` do so for ever.
pub Steps-CanMove : {n : ℕ} {s : System} → 1 ≤ n → Steps n start s → CanMove n s
Steps-CanMove {n} {s} some steps =
    let h = Steps-IsCounted some steps in
    let held = h.mutex_held in
    let one = sum_of-some free n s.pc h.some_free in
    elim (Bool-cases (ltb 0 s.shared.mutex)) [
      | inl m ↦ free-CanMove one.0 one.1 (s.pc one.0) refl one.2 (ltb→lt 0 s.shared.mutex m)
      | inr m ↦
          let holder = sum_of-some holds_mutex n s.pc (ground arith) in
          holder-CanMove holder.0 holder.1 (s.pc holder.0) refl holder.2
    ]
