-- ===== src/Buffer/AtRest.antt =====
-- The threads of Concurrency1/concurrency.c can finish their rounds, up to the heads of their loops.
use cs444_operating_systems.Prelude.{
  ℕ, zero, suc, ◌≤◌, ◌<◌, ◌≡◌, refl, sym, ◌∙◌, ap, subst, Bool-cases, inl, inr, Option, List, ◌==◌,
  leb, ltb, arith,
}
use cs444_operating_systems.Prelude.Sums.{update, sum_of, sum_of-update, sum_of-le, sum_of-some}
use cs444_operating_systems.Buffer.{max_buffer_size, Item}
use cs444_operating_systems.Buffer.Stack.{rounds-specs}
use cs444_operating_systems.Buffer.Threads.{
  Shared, Pc, produce_lock, produce_test, produce_item, produce_count, produce_unlock,
  produce_unlock_full, consume_lock, consume_test, consume_item, consume_count, consume_unlock,
  consume_unlock_empty, Event, Move, lock_producer, is_full, has_room, store_item, count_up,
  unlock_producer, unlock_full, lock_consumer, is_empty, has_item, load_item, count_down,
  unlock_consumer, unlock_empty, System, Role, produces, consumes, loop_head, empty, Reach, init,
  later,
}
use cs444_operating_systems.Buffer.Inside.{critical}
use cs444_operating_systems.Buffer.Linear.{requests, Reach-IsLinear}

-- What can come after a state.
pub data Steps (n : ℕ) (s : System) : System → Type 0 where
  here : Steps n s s
  more :
      {t : System} {u : Shared} {p : Pc} {label : Option Event} (i : ℕ)
      → Steps n s t
      → i < n
      → Move t.shared (t.pc i) u p label
      → Steps n s (record { shared = u; pc = update t.pc i p })

pub Steps-append : {n : ℕ} {s t u : System} → Steps n s t → Steps n t u → Steps n s u
Steps-append a here = a
Steps-append a (more i b low mv) = more i (Steps-append a b) low mv

-- A thread stays what it is.
abbrev role : Pc → Role
role produce_lock = produces
role produce_test = produces
role produce_item = produces
role (produce_count item) = produces
role (produce_unlock item) = produces
role produce_unlock_full = produces
role consume_lock = consumes
role consume_test = consumes
role consume_item = consumes
role (consume_count item) = consumes
role (consume_unlock item) = consumes
role consume_unlock_empty = consumes

Move-role : {s t : Shared} {p q : Pc} {label : Option Event} → Move s p t q label → role q ≡ role p
Move-role (lock_producer g) = refl
Move-role (is_full g) = refl
Move-role (has_room g) = refl
Move-role (store_item item) = refl
Move-role count_up = refl
Move-role unlock_producer = refl
Move-role (unlock_full item) = refl
Move-role (lock_consumer g) = refl
Move-role (is_empty g) = refl
Move-role (has_item g) = refl
Move-role load_item = refl
Move-role count_down = refl
Move-role unlock_consumer = refl
Move-role unlock_empty = refl

role-loop_head : (r : Role) → role (loop_head r) ≡ r
role-loop_head produces = refl
role-loop_head consumes = refl

Reach-role :
    {n : ℕ} {roles : ℕ → Role} {s : System} {es : List Event}
    → Reach n roles s es
    → (j : ℕ) → role (s.pc j) ≡ roles j
Reach-role {roles} init j = role-loop_head (roles j)
Reach-role (later {s} {p = q} i r low mv) j = elim (Bool-cases (j == i)) [
  | inl same ↦
      let e : j ≡ i = ground (arith, same) in
      rw same (Move-role mv ∙ ap (λ k. role (s.pc k)) (sym e) ∙ Reach-role r j)
  | inr other ↦ rw other (Reach-role r j)
]

outside-loop_head : (p : Pc) → critical p ≡ 0 → p ≡ loop_head (role p)
outside-loop_head produce_lock e = refl
outside-loop_head consume_lock e = refl
outside-loop_head _ e = absurd (omega arith)

-- How many steps a thread that has the mutex is from giving it back.
abbrev pub left : Pc → ℕ
left produce_lock = 0
left produce_test = 4
left produce_item = 3
left (produce_count item) = 2
left consume_lock = 0
left consume_test = 4
left consume_item = 3
left (consume_count item) = 2
left _ = 1

record Advance (s : Shared) (p : Pc) : Type 0 where
  next_shared : Shared
  next_pc : Pc
  label : Option Event
  move : Move s p next_shared next_pc label
  nearer : left next_pc < left p

next :
    {s t : Shared} {p q : Pc} {label : Option Event}
    → Move s p t q label
    → left q < left p
    → Advance s p
next {t} {q} {label} mv h = record {
  next_shared = t;
  next_pc = q;
  label = label;
  move = mv;
  nearer = h;
}

pub some_item : Item
some_item = record { value = 0; wait_time = 0 }

-- The thread that has the mutex can make its next step.
holder-Advance : (s : Shared) (p : Pc) → 0 < critical p → Advance s p
holder-Advance s produce_lock h = absurd (omega arith)
holder-Advance s produce_test h = elim (Bool-cases (leb max_buffer_size s.items.num_items)) [
  | inl full ↦ next (is_full full) (omega arith)
  | inr room ↦ next (has_room room) (omega arith)
]
holder-Advance s produce_item h = next (store_item some_item) (omega arith)
holder-Advance s (produce_count item) h = next count_up (omega arith)
holder-Advance s (produce_unlock item) h = next unlock_producer (omega arith)
holder-Advance s produce_unlock_full h = next (unlock_full some_item) (omega arith)
holder-Advance s consume_lock h = absurd (omega arith)
holder-Advance s consume_test h = elim (Bool-cases (s.items.num_items == 0)) [
  | inl no_item ↦ next (is_empty no_item) (omega arith)
  | inr item ↦ next (has_item item) (omega arith)
]
holder-Advance s consume_item h = next load_item (omega arith)
holder-Advance s (consume_count item) h = next count_down (omega arith)
holder-Advance s (consume_unlock item) h = next unlock_consumer (omega arith)
holder-Advance s consume_unlock_empty h = next unlock_empty (omega arith)

-- A state in which no thread has the mutex, and all are at the head of their loops.
pub record AtRest (n : ℕ) (roles : ℕ → Role) (s : System) : Type 0 where
  pub rest : System
  pub rest_steps : Steps n s rest
  pub free_mutex : 0 < rest.shared.mutex
  pub heads : (j : ℕ) → j < n → rest.pc j ≡ loop_head (roles j)
  pub bounded : rest.shared.items.num_items ≤ max_buffer_size

free-AtRest :
    {n : ℕ} {roles : ℕ → Role} {s t : System} {es : List Event}
    → Steps n s t
    → Reach n roles t es
    → 0 < t.shared.mutex
    → AtRest n roles s
free-AtRest {n} {roles} {t} {es} st r free =
    let h = Reach-IsLinear r in
    let k = h.held in
    record {
      rest = t;
      rest_steps = st;
      free_mutex = free;
      heads = λ j low.
          let c = sum_of-le critical n t.pc j low in
          outside-loop_head (t.pc j) (omega arith) ∙ ap loop_head (Reach-role r j);
      bounded =
          subst (λ b. b.num_items ≤ max_buffer_size) (sym (h.at_rest free))
            (rounds-specs empty (requests es) (omega arith)).2;
    }

pub Reach-AtRest :
    {n : ℕ} {roles : ℕ → Role} {s : System} (fuel : ℕ) (t : System) (es : List Event)
    → sum_of left n t.pc < fuel
    → Steps n s t
    → Reach n roles t es
    → AtRest n roles s
Reach-AtRest zero t es le st r = absurd (omega (arith, le))
Reach-AtRest {n} (suc fuel) t es le st r = elim (Bool-cases (ltb 0 t.shared.mutex)) [
  | inl free ↦ free-AtRest st r (ground (arith, free))
  | inr taken ↦
      let k = (Reach-IsLinear r).held in
      let one = sum_of-some critical n t.pc (ground (arith, taken)) in
      let go = holder-Advance t.shared (t.pc one.0) one.2 in
      let u = sum_of-update left n t.pc one.0 go.next_pc one.1 in
      Reach-AtRest fuel (record { shared = go.next_shared; pc = update t.pc one.0 go.next_pc }) _
        (omega (arith, u, go.nearer, le)) (more one.0 st one.1 go.move)
        (later one.0 r one.1 go.move)
]
