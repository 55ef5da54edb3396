-- ===== src/Buffer/Linear.antt =====
-- The threads' rounds are as if made one after the other (Concurrency1/concurrency.c).
use cs444_operating_systems.Prelude.{
  ℕ, ◌+◌, ◌≤◌, ◌<◌, ◌≡◌, ◌≢◌, refl, sym, ◌∙◌, ap, subst, Bool-cases, eq→==, ==-refl, inl, inr,
  Option, none, some, List, [], ◌∷◌, ◌++◌, ◌==◌, arith,
}
use cs444_operating_systems.Prelude.Sums.{
  update, sum_of, sum_of-none, sum_of-update, sum_of-le, sum_of-two,
}
use cs444_operating_systems.Buffer.{max_buffer_size, Buffer, Round, Answer, round, rounds}
use cs444_operating_systems.Buffer.Stack.{contents, specs, rounds-specs}
use cs444_operating_systems.Buffer.Threads.{
  Shared, Pc, produce_item, consume_item, Event, Move, System, noted, Role, produces, consumes,
  loop_head, empty, start, Reach, init, later,
}
use cs444_operating_systems.Buffer.Inside.{
  critical, Inside, outside-Inside, Move-Becomes, Move-may, Move-mutex,
}

abbrev pub requests : List Event → List Round
requests [] = []
requests (e ∷ es) = e.request ∷ requests es

abbrev pub answers : List Event → List Answer
answers [] = []
answers (e ∷ es) = e.answer ∷ answers es

-- One round more, at the end.
rounds-snoc :
    (b : Buffer) (es : List Event) (e : Event)
    → ((rounds b (requests (es ++ e ∷ []))).0 ≡ (round (rounds b (requests es)).0 e.request).0)
      × ((round (rounds b (requests es)).0 e.request).1 ≡ e.answer
          → (rounds b (requests es)).1 ≡ answers es
          → (rounds b (requests (es ++ e ∷ []))).1 ≡ answers (es ++ e ∷ []))
rounds-snoc b [] e = (refl, λ a h. ap (λ x. x ∷ []) a)
rounds-snoc b (e' ∷ es) e =
    let rest = rounds-snoc (round b e'.request).0 es e in
    (
      rest.0,
      λ a h.
          let tail : (rounds (round b e'.request).0 (requests es)).1 ≡ answers es = cc in
          let more = rest.1 a tail in let first : (round b e'.request).1 ≡ e'.answer = cc in cc,
    )

abbrev pub reached : List Event → Buffer
reached es = (rounds empty (requests es)).0

-- The mutex is held by at most one thread, which alone is in a round on what the rounds that have
-- ended have made of the buffer; they have shown their threads what they would one by one.
pub record IsLinear (n : ℕ) (s : System) (es : List Event) : Type 0 where
  pub held : s.shared.mutex + sum_of critical n s.pc ≡ 1
  pub in_round : (i : ℕ) → i < n → Inside (reached es) s.shared.items (s.pc i)
  pub at_rest : 0 < s.shared.mutex → s.shared.items ≡ reached es
  pub told : (rounds empty (requests es)).1 ≡ answers es

loop_head-critical : (r : Role) → critical (loop_head r) ≡ 0
loop_head-critical produces = refl
loop_head-critical consumes = refl

start-IsLinear : (n : ℕ) (roles : ℕ → Role) → IsLinear n (start roles) []
start-IsLinear n roles =
    let k = sum_of-none critical n (start roles).pc (λ i. loop_head-critical (roles i)) in
    record {
      held = omega arith;
      in_round =
          λ i low. outside-Inside empty empty (loop_head (roles i)) (loop_head-critical (roles i));
      at_rest = λ h. refl;
      told = refl;
    }

module _ {n : ℕ} {s : System} {es : List Event} (h : IsLinear n s es) (i : ℕ) (low : i < n)
    {t : Shared} {q : Pc} {label : Option Event} (mv : Move s.shared (s.pc i) t q label) where
  alone : (j : ℕ) → j < n → j ≢ i → critical (s.pc j) ≡ 0
  alone j lj d =
      let k = h.held in
      let two = sum_of-two critical n s.pc j i lj low d in
      let one = sum_of-le critical n s.pc j lj in
      elim (Move-may mv) [ inl c ↦ omega arith | inr m ↦ omega arith ]

  all-Inside :
      (old now : Buffer) → Inside old now q → (j : ℕ) → j < n → Inside old now (update s.pc i q j)
  all-Inside old now own j lj = elim (Bool-cases (j == i)) [
    | inl same ↦ rw same own
    | inr other ↦
        rw other
          (outside-Inside old now (s.pc j) (alone j lj (λ e. absurd (let k = eq→== j i e in cc))))
  ]

  still_held : t.mutex + sum_of critical n (update s.pc i q) ≡ 1
  still_held =
      let k = h.held in
      let m = Move-mutex mv in let u = sum_of-update critical n s.pc i q low in omega arith

Move-IsLinear :
    {n : ℕ} {s : System} {es : List Event} {t : Shared} {q : Pc} (i : ℕ) (label : Option Event)
    → IsLinear n s es
    → i < n
    → Move s.shared (s.pc i) t q label
    → IsLinear n (record { shared = t; pc = update s.pc i q }) (noted es label)
Move-IsLinear {n} {s} {es} {t} {q} i none h low mv =
    let b = Move-Becomes (reached es) (h.in_round i low) h.at_rest mv in
    let k = still_held h i low mv in
    let own = sum_of-le critical n (update s.pc i q) i low in
    let mine : critical (update s.pc i q i) ≡ critical q = rw (==-refl i) refl in
    record {
      held = k;
      in_round = all-Inside h i low mv (reached es) t.items b.1;
      at_rest = λ m. absurd (omega (arith, b.0));
      told = h.told;
    }
Move-IsLinear {n} {s} {es} {t} {q} i (some e) h low mv =
    let b = Move-Becomes (reached es) (h.in_round i low) h.at_rest mv in
    let one_more = rounds-snoc empty es e in
    record {
      held = still_held h i low mv;
      in_round =
          all-Inside h i low mv (reached (es ++ e ∷ [])) t.items
            (outside-Inside (reached (es ++ e ∷ [])) t.items q b.0);
      at_rest = λ m. b.1 ∙ sym one_more.0;
      told = one_more.1 b.2 h.told;
    }

pub Reach-IsLinear :
    {n : ℕ} {roles : ℕ → Role} {s : System} {es : List Event} → Reach n roles s es → IsLinear n s es
Reach-IsLinear {n} {roles} init = start-IsLinear n roles
Reach-IsLinear (later {label} i r low mv) = Move-IsLinear i label (Reach-IsLinear r) low mv

-- The threads have used a stack of at most 32 items, one after the other.
pub record UsesStack (n : ℕ) (s : System) (es : List Event) : Type 0 where
  pub one_holds : s.shared.mutex + sum_of critical n s.pc ≡ 1
  pub answers_right : answers es ≡ (specs [] (requests es)).1
  pub contents_right : 0 < s.shared.mutex → contents s.shared.items ≡ (specs [] (requests es)).0
  pub store_in_bounds :
      (i : ℕ) → i < n → s.pc i ≡ produce_item → s.shared.items.num_items < max_buffer_size
  pub load_in_bounds :
      (i : ℕ)
      → i < n
      → s.pc i ≡ consume_item
      → (0 < s.shared.items.num_items) × (s.shared.items.num_items ≤ max_buffer_size)

-- Whatever the order of the steps of any number of producers and consumers: at most one of them has
-- the mutex; what the rounds that have ended have shown their threads is what a stack of at most 32
-- items shows, used by one round after the other; where no thread has the mutex, the buffer holds
-- what the stack does; and no store to the buffer and no load from it is out of bounds.
pub Reach-UsesStack :
    {n : ℕ} {roles : ℕ → Role} {s : System} {es : List Event}
    → Reach n roles s es
    → UsesStack n s es
Reach-UsesStack {n} {s} {es} r =
    let h = Reach-IsLinear r in
    let stack = rounds-specs empty (requests es) (omega arith) in
    record {
      one_holds = h.held;
      answers_right = sym h.told ∙ stack.1;
      contents_right = λ m. ap contents (h.at_rest m) ∙ stack.0;
      store_in_bounds = λ i low e.
          let inside = subst (Inside (reached es) s.shared.items) e (h.in_round i low) in
          let same = ap (λ (b : Buffer). b.num_items) inside.0 in
          let room = inside.1 in ground arith;
      load_in_bounds = λ i low e.
          let inside = subst (Inside (reached es) s.shared.items) e (h.in_round i low) in
          let same = ap (λ (b : Buffer). b.num_items) inside.0 in
          let some_item = inside.1 in let most = stack.2 in (ground arith, omega arith);
    }
