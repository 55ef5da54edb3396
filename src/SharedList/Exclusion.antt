-- ===== src/SharedList/Exclusion.antt =====
-- A deleter has the list to itself (Concurrency3/prob2_conc3.c).
use cs444_operating_systems.Prelude.{ℕ, ◌<◌, ◌≡◌, ◌≢◌, refl, ap, Bool, true, false, arith}
use cs444_operating_systems.SharedList.{
  Pc, inserting, searching, deleting, System, pick, Role, inserts, searches, deletes, loop_head,
  start, Reach, init, later,
}
use cs444_operating_systems.Prelude.Sums.{sum_of, sum_of-none, sum_of-update, sum_of-le, sum_of-two}
use cs444_operating_systems.SharedList.Count.{
  entering, leaving, inserters, search_entering, search_leaving, searchers, hold_searcher_mut,
  hold_inserter_mut, hold_deleter_mut,
}
use cs444_operating_systems.SharedList.Locks.{IsLocked, keeps}

abbrev pub counts : (n : ℕ) → System → (Pc → ℕ) → ℕ
counts n s w = sum_of w n s.pc

loop_head-weights :
    (r : Role)
    → (entering (loop_head r) ≡ 0)
      × (leaving (loop_head r) ≡ 0)
      × (inserters (loop_head r) ≡ 0)
      × (search_entering (loop_head r) ≡ 0)
      × (search_leaving (loop_head r) ≡ 0)
      × (searchers (loop_head r) ≡ 0)
      × (hold_searcher_mut (loop_head r) ≡ 0)
      × (hold_inserter_mut (loop_head r) ≡ 0)
      × (hold_deleter_mut (loop_head r) ≡ 0)
loop_head-weights inserts = (refl, refl, refl, refl, refl, refl, refl, refl, refl)
loop_head-weights searches = (refl, refl, refl, refl, refl, refl, refl, refl, refl)
loop_head-weights deletes = (refl, refl, refl, refl, refl, refl, refl, refl, refl)

start-IsLocked : (n : ℕ) (roles : ℕ → Role) → IsLocked (start roles).shared (counts n (start roles))
start-IsLocked n roles =
    let zero_at = λ (w : Pc → ℕ). sum_of-none w n (start roles).pc in
    let e0 = zero_at entering (λ i. (loop_head-weights (roles i)).0) in
    let e1 = zero_at leaving (λ i. (loop_head-weights (roles i)).1) in
    let e2 = zero_at inserters (λ i. (loop_head-weights (roles i)).2) in
    let e3 = zero_at search_entering (λ i. (loop_head-weights (roles i)).3) in
    let e4 = zero_at search_leaving (λ i. (loop_head-weights (roles i)).4) in
    let e5 = zero_at searchers (λ i. (loop_head-weights (roles i)).5) in
    let e6 = zero_at hold_searcher_mut (λ i. (loop_head-weights (roles i)).6) in
    let e7 = zero_at hold_inserter_mut (λ i. (loop_head-weights (roles i)).7) in
    let e8 = zero_at hold_deleter_mut (λ i. (loop_head-weights (roles i)).8) in
    record {
      icounter_held = omega arith;
      insert_counted = omega arith;
      inserter_mut_held = omega arith;
      scounter_held = omega arith;
      search_counted = omega arith;
      searcher_mut_held = omega arith;
      deleter_mut_held = omega arith;
    }

pub Reach-IsLocked :
    {n : ℕ} {roles : ℕ → Role} {s : System} → Reach n roles s → IsLocked s.shared (counts n s)
Reach-IsLocked {n} {roles} init = start-IsLocked n roles
Reach-IsLocked {n} (later {s} {t} r (pick i {m} {p} low mv)) =
    let h = Reach-IsLocked r in
    keeps (counts n t) h
      (record { moved = λ w. sum_of-update w n s.pc i p low; has = λ w. sum_of-le w n s.pc i low })
      mv

-- Is the thread at the list?
unfoldable pub is_at_list : Pc → Bool
is_at_list (inserting x) = true
is_at_list (searching x) = true
is_at_list (deleting v) = true
is_at_list _ = false

is_at_list-none :
    (p : Pc) → searchers p ≡ 0 → inserters p ≡ 0 → hold_deleter_mut p ≡ 0 → is_at_list p ≡ false
unfolding is_at_list
is_at_list-none (inserting x) a b c = absurd (omega arith)
is_at_list-none (searching x) a b c = absurd (omega arith)
is_at_list-none (deleting v) a b c = absurd (omega arith)
is_at_list-none _ a b c = refl

-- Whatever the order of the steps of `n` threads: while a deleter is at the list, no other thread
-- is, be it a searcher, an inserter or another deleter.
pub delete-alone :
    {n : ℕ} {roles : ℕ → Role} {s : System} {v : ℕ}
    → Reach n roles s
    → (i j : ℕ) → i < n
    → j < n
    → i ≢ j
    → s.pc i ≡ deleting v
    → is_at_list (s.pc j) ≡ false
delete-alone {n} {s} r i j hi hj d e =
    let h = Reach-IsLocked r in
    let k0 = h.searcher_mut_held in
    let k1 = h.inserter_mut_held in
    let k2 = h.deleter_mut_held in
    let a0 = sum_of-le hold_searcher_mut n s.pc i hi in
    let a1 = sum_of-le hold_inserter_mut n s.pc i hi in
    let a2 = sum_of-two hold_deleter_mut n s.pc i j hi hj d in
    let b0 = sum_of-le searchers n s.pc j hj in
    let b1 = sum_of-le inserters n s.pc j hj in
    let e0 = ap hold_searcher_mut e in
    let e1 = ap hold_inserter_mut e in
    let e2 = ap hold_deleter_mut e in
    is_at_list-none (s.pc j) (omega arith) (omega arith) (omega arith)
