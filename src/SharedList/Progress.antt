-- ===== src/SharedList/Progress.antt =====
-- The semaphores of Concurrency3/prob2_conc3.c never block all threads.
use cs444_operating_systems.Prelude.{
  ℕ, ◌≤◌, ◌<◌, ◌≡◌, refl, sym, subst, Bool-cases, inl, inr, arith, ltb, ltb→lt, ◌⊎◌,
}
use cs444_operating_systems.Prelude.Sums.{sum_of-some}
use cs444_operating_systems.SharedList.{
  Pc, inserter, insert_in, inserting, insert_out, searcher, search_in, searching, search_out,
  deleter, delete_wait_inserters, delete_wait_deleters, deleting, delete_post_searchers,
  delete_post_inserters, delete_post_deleters, Shared, Move, insert_call, insert_first_in,
  insert_next_in, insert_leave, insert_last_out, insert_next_out, search_call, search_first_in,
  search_next_in, search_leave, search_last_out, search_next_out, delete_call, delete_no_inserters,
  delete_no_deleters, post_searchers, post_inserters, post_deleters, System, Role, Reach,
}
use cs444_operating_systems.SharedList.Store.{goes_on, done}
use cs444_operating_systems.SharedList.Count.{
  entering, leaving, inserters, search_entering, search_leaving, searchers, hold_searcher_mut,
  hold_inserter_mut, hold_deleter_mut,
}
use cs444_operating_systems.SharedList.Locks.{IsLocked}
use cs444_operating_systems.SharedList.Exclusion.{counts, Reach-IsLocked}
use cs444_operating_systems.SharedList.Ready.{
  is_one, hold_deleter_mut-Ready, hold_inserter_mut-Ready, hold_searcher_mut-Ready, entering-Ready,
  search_entering-Ready, leaving-Ready, search_leaving-Ready, inserters-Ready, searchers-Ready,
  AllFree-Ready, Ready, AllFree,
}

-- Accesses to the list that a thread makes without a semaphore.
unfoldable pub IsWorking : Pc → Type 0
IsWorking (inserting (goes_on w)) = Unit
IsWorking (searching (goes_on w)) = Unit
IsWorking (deleting v) = Unit
IsWorking _ = ⊥

-- A thread that no semaphore keeps from going on: it has a step, or it is at work on the list.
pub record Unblocked (n : ℕ) (s : System) : Type 0 where
  pub thread : ℕ
  pub low : thread < n
  pub goes_on_or_works :
      ((t : Shared) × (p : Pc) × Move s.shared (s.pc thread) t p) ⊎ IsWorking (s.pc thread)

module _ {n : ℕ} {s : System} (i : ℕ) (low : i < n) where
  can : (p : Pc) {t : Shared} {q : Pc} → s.pc i ≡ p → Move s.shared p t q → Unblocked n s
  can p {t} {q} e mv = record {
    thread = i;
    low = low;
    goes_on_or_works = inl (t, q, subst (λ x. Move s.shared x t q) (sym e) mv);
  }

  at_work : (p : Pc) → s.pc i ≡ p → IsWorking p → Unblocked n s
  at_work p e w = record {
    thread = i;
    low = low;
    goes_on_or_works = inr (subst IsWorking (sym e) w);
  }

  Ready-Unblocked : (p : Pc) → s.pc i ≡ p → Ready s.shared p → Unblocked n s
  unfolding IsWorking
  Ready-Unblocked inserter e r = can inserter e (insert_call 0 r)
  Ready-Unblocked (insert_in v) e r = elim (is_one s.shared.insert_counter) [
    | inl one ↦ can (insert_in v) e (insert_first_in one (r one))
    | inr more ↦ can (insert_in v) e (insert_next_in more)
  ]
  Ready-Unblocked (inserting (goes_on w)) e r = at_work (inserting (goes_on w)) e tt
  Ready-Unblocked (inserting done) e r = can (inserting done) e (insert_leave r)
  Ready-Unblocked insert_out e r = elim (is_one s.shared.insert_counter) [
    | inl one ↦ can insert_out e (insert_last_out one)
    | inr more ↦ can insert_out e (insert_next_out more)
  ]
  Ready-Unblocked searcher e r = can searcher e (search_call 0 r)
  Ready-Unblocked (search_in v) e r = elim (is_one s.shared.search_counter) [
    | inl one ↦ can (search_in v) e (search_first_in one (r one))
    | inr more ↦ can (search_in v) e (search_next_in more)
  ]
  Ready-Unblocked (searching (goes_on w)) e r = at_work (searching (goes_on w)) e tt
  Ready-Unblocked (searching done) e r = can (searching done) e (search_leave r)
  Ready-Unblocked search_out e r = elim (is_one s.shared.search_counter) [
    | inl one ↦ can search_out e (search_last_out one)
    | inr more ↦ can search_out e (search_next_out more)
  ]
  Ready-Unblocked deleter e r = can deleter e (delete_call 0 r)
  Ready-Unblocked (delete_wait_inserters v) e r =
      can (delete_wait_inserters v) e (delete_no_inserters r)
  Ready-Unblocked (delete_wait_deleters v) e r =
      can (delete_wait_deleters v) e (delete_no_deleters r)
  Ready-Unblocked (deleting v) e r = at_work (deleting v) e tt
  Ready-Unblocked delete_post_searchers e r = can delete_post_searchers e post_searchers
  Ready-Unblocked delete_post_inserters e r = can delete_post_inserters e post_inserters
  Ready-Unblocked delete_post_deleters e r = can delete_post_deleters e post_deleters

or_else : {A B C : Type 0} → A ⊎ B → (B → A ⊎ C) → A ⊎ C
or_else (inl a) f = inl a
or_else (inr b) f = f b

module _ (n : ℕ) (s : System) (h : IsLocked s.shared (counts n s)) where
  -- Either a thread counts for `w`, and can go on, or none does.
  go_or_none :
      (w : Pc → ℕ)
      → (0 < counts n s w → (p : Pc) → 0 < w p → Ready s.shared p)
      → Unblocked n s ⊎ (counts n s w ≡ 0)
  go_or_none w ready = elim (Bool-cases (ltb 0 (counts n s w))) [
    | inl e ↦
        let c = ltb→lt 0 (counts n s w) e in
        let one = sum_of-some w n s.pc c in
        inl (Ready-Unblocked one.0 one.1 (s.pc one.0) refl (ready c (s.pc one.0) one.2))
    | inr e ↦ inr (ground arith)
  ]

  -- Either a thread can go on, or no deleter holds `deleter_mut` or `inserter_mut`, and no inserter
  -- is on its way.
  record InsertersOut : Type 0 where
    out_deleter : 0 < s.shared.deleter_mut
    out_inserter : 0 < s.shared.inserter_mut
    out_icounter : 0 < s.shared.icounter

  inserters_out : Unblocked n s ⊎ InsertersOut
  inserters_out =
      let k0 = h.icounter_held in
      let k1 = h.insert_counted in
      let k2 = h.inserter_mut_held in
      let k3 = h.deleter_mut_held in
      or_else (go_or_none hold_deleter_mut (λ c. hold_deleter_mut-Ready s.shared)) (λ e0.
        let d : 0 < s.shared.deleter_mut = omega arith in
        or_else (go_or_none hold_inserter_mut (λ c p. hold_inserter_mut-Ready s.shared p d)) (λ e1.
          or_else (go_or_none entering (λ c p. entering-Ready s.shared p (λ e. omega arith))) (λ e2.
            or_else (go_or_none leaving (λ c. leaving-Ready s.shared)) (λ e3.
              let i : 0 < s.shared.icounter = omega arith in
              or_else (go_or_none inserters (λ c p. inserters-Ready s.shared p i)) (λ e4.
                inr (record { out_deleter = d; out_inserter = omega arith; out_icounter = i }))))))

  all_out : InsertersOut → Unblocked n s ⊎ AllFree s.shared
  all_out out =
      let k0 = h.scounter_held in
      let k1 = h.search_counted in
      let k2 = h.searcher_mut_held in
      or_else
        (go_or_none hold_searcher_mut
          (λ c p. hold_searcher_mut-Ready s.shared p out.out_deleter out.out_inserter))
        (λ e1.
          or_else
            (go_or_none search_entering
              (λ c p. search_entering-Ready s.shared p (λ e. omega arith)))
            (λ e2. or_else (go_or_none search_leaving (λ c. search_leaving-Ready s.shared)) (λ e3.
              let i : 0 < s.shared.scounter = omega arith in
              or_else (go_or_none searchers (λ c p. searchers-Ready s.shared p i)) (λ e4.
                inr (record {
                  searcher_free = omega arith;
                  inserter_free = out.out_inserter;
                  deleter_free = out.out_deleter;
                  scounter_free = i;
                  icounter_free = out.out_icounter;
                })))))

-- Whatever the order of the steps of at least one thread: the semaphores never block all threads.
-- Some thread either can make a step or is between two calls on semaphores, at work on the list.
pub Reach-Unblocked :
    {n : ℕ} {roles : ℕ → Role} {s : System} → 1 ≤ n → Reach n roles s → Unblocked n s
Reach-Unblocked {n} {s} some r =
    let h = Reach-IsLocked r in
    elim (or_else (inserters_out n s h) (all_out n s h)) [
      | inl u ↦ u
      | inr f ↦ Ready-Unblocked 0 some (s.pc 0) refl (AllFree-Ready s.shared (s.pc 0) f)
    ]
