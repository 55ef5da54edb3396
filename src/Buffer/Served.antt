-- ===== src/Buffer/Served.antt =====
-- Every producer and consumer can come to its turn (Concurrency1/concurrency.c).
use cs444_operating_systems.Prelude.{
  ℕ, suc, ◌+◌, ◌-◌, ◌≤◌, ◌<◌, ◌≡◌, ◌≢◌, refl, sym, ◌∙◌, ap, subst, Bool-cases, ==-refl, ne→==,
  false, inl, inr, Option, List, ◌==◌, leb, arith,
}
use cs444_operating_systems.Prelude.Sums.{update, sum_of}
use cs444_operating_systems.Buffer.{max_buffer_size, Item, Buffer, set}
use cs444_operating_systems.Buffer.Threads.{
  Shared, Pc, produce_lock, produce_unlock, consume_lock, consume_unlock, Event, Move,
  lock_producer, has_room, store_item, count_up, unlock_producer, lock_consumer, has_item,
  load_item, count_down, unlock_consumer, System, Role, produces, consumes, loop_head, Reach,
}
use cs444_operating_systems.Buffer.AtRest.{
  Steps, here, more, Steps-append, left, some_item, AtRest, Reach-AtRest,
}

-- Thread `i` has come to `p`, and the other threads stand where they stood.
record Alone (n : ℕ) (s : System) (i : ℕ) (m : Shared) (p : Pc) : Type 0 where
  after : System
  steps : Steps n s after
  shared_is : after.shared ≡ m
  pc_is : after.pc i ≡ p
  others : (j : ℕ) → j ≢ i → after.pc j ≡ s.pc j

abbrev locked : Shared → Shared
locked m = record m { mutex = m.mutex - 1 }

abbrev stored : Buffer → Buffer
stored b = record b { buffer = set b.buffer b.num_items some_item; num_items = b.num_items + 1 }

abbrev taken : Buffer → Buffer
taken b = record b { num_items = b.num_items - 1 }

abbrev last_item : Buffer → Item
last_item b = b.buffer (b.num_items - 1)

module _ {n : ℕ} {s : System} (i : ℕ) (low : i < n) where
  goes_on :
      {m t : Shared} {p q : Pc} {label : Option Event}
      → Move m p t q label
      → Alone n s i m p
      → Alone n s i t q
  goes_on {m} {t} {p} {q} {label} mv a = record {
    after = record { shared = t; pc = update a.after.pc i q };
    steps = more i a.steps low (
        subst (λ x. Move x (a.after.pc i) t q label) (sym a.shared_is)
          (subst (λ x. Move m x t q label) (sym a.pc_is) mv));
    shared_is = refl;
    pc_is = rw (==-refl i) refl;
    others = λ j d. rw (ne→== j i d) (a.others j d);
  }

  at_start : (p : Pc) → s.pc i ≡ p → Alone n s i s.shared p
  at_start p e = record {
    after = s;
    steps = here;
    shared_is = refl;
    pc_is = e;
    others = λ j d. refl;
  }

  module _ (free : 0 < s.shared.mutex) where
    -- A round of a producer that finds room, up to where it unlocks the mutex.
    produces_alone :
        s.pc i ≡ produce_lock
        → leb max_buffer_size s.shared.items.num_items ≡ false
        → Alone n s i
            (record (locked s.shared) { items = stored s.shared.items })
            (produce_unlock some_item)
    produces_alone e room = goes_on count_up (
        goes_on (store_item some_item)
          (goes_on (has_room room) (goes_on (lock_producer free) (at_start produce_lock e))))

    consumes_alone :
        s.pc i ≡ consume_lock
        → (s.shared.items.num_items == 0) ≡ false
        → Alone n s i
            (record (locked s.shared) { items = taken s.shared.items })
            (consume_unlock (last_item s.shared.items))
    consumes_alone e item = goes_on count_down (
        goes_on load_item
          (goes_on (has_item item) (goes_on (lock_consumer free) (at_start consume_lock e))))

-- Thread `i` has put an item into the buffer, or has taken one out.
abbrev pub HasServed : Role → Pc → Type 0
HasServed produces p = (item : Item) × (p ≡ produce_unlock item)
HasServed consumes p = (item : Item) × (p ≡ consume_unlock item)

abbrev pub CanServe : (n : ℕ) → System → ℕ → Role → Type 0
CanServe n s i r = (t : System) × Steps n s t × HasServed r (t.pc i)

module _ {n : ℕ} (s : System) (i j : ℕ) (low : i < n) (low' : j < n) (free : 0 < s.shared.mutex)
    (bounded : s.shared.items.num_items ≤ max_buffer_size) (differ : i ≢ j) where
  producer-CanServe : s.pc i ≡ produce_lock → s.pc j ≡ consume_lock → CanServe n s i produces
  producer-CanServe e e' = elim (Bool-cases (leb max_buffer_size s.shared.items.num_items)) [
    | inr room ↦
        let a = produces_alone i low free e room in (a.after, a.steps, (some_item, a.pc_is))
    | inl full ↦
        let c =
          goes_on j low' unlock_consumer (consumes_alone j low' free e' (ground (arith, full))) in
        let k = ap (λ m. m.mutex) c.shared_is in
        let l = ap (λ m. m.items.num_items) c.shared_is in
        let a =
          produces_alone {s = c.after} i low (omega (arith, k)) (c.others i differ ∙ e)
            (ground (arith, l, bounded)) in
        (a.after, Steps-append c.steps a.steps, (some_item, a.pc_is))
  ]

  consumer-CanServe : s.pc i ≡ consume_lock → s.pc j ≡ produce_lock → CanServe n s i consumes
  consumer-CanServe e e' = elim (Bool-cases (s.shared.items.num_items == 0)) [
    | inr item ↦ let a = consumes_alone i low free e item in (a.after, a.steps, (_, a.pc_is))
    | inl no_item ↦
        let c =
          goes_on j low' unlock_producer
            (produces_alone j low' free e' (ground (arith, no_item))) in
        let k = ap (λ m. m.mutex) c.shared_is in
        let l = ap (λ m. m.items.num_items) c.shared_is in
        let a =
          consumes_alone {s = c.after} i low (omega (arith, k)) (c.others i differ ∙ e)
            (ground (arith, l)) in
        (a.after, Steps-append c.steps a.steps, (_, a.pc_is))
  ]

-- Whatever the order of the steps so far, where there is a producer and a consumer: each producer
-- can still come to put an item into the buffer, and each consumer can still come to take one out.
pub Reach-CanServe :
    {n : ℕ} {roles : ℕ → Role} {s : System} {es : List Event} (i j : ℕ)
    → i < n
    → j < n
    → roles i ≢ roles j
    → Reach n roles s es
    → CanServe n s i (roles i)
Reach-CanServe {n} {roles} {s} {es} i j low low' differ r =
    let a : AtRest n roles s = Reach-AtRest (suc (sum_of left n s.pc)) s es (omega arith) here r in
    go a (roles i) (roles j) refl refl
  where
    go : (a : AtRest n roles s) (x y : Role) → roles i ≡ x → roles j ≡ y → CanServe n s i (roles i)
    go a produces produces e e' = absurd (differ (e ∙ sym e'))
    go a consumes consumes e e' = absurd (differ (e ∙ sym e'))
    go a produces consumes e e' =
        let c =
          producer-CanServe a.rest i j low low' a.free_mutex a.bounded
            (λ k. absurd (differ (ap roles k))) (a.heads i low ∙ ap loop_head e)
            (a.heads j low' ∙ ap loop_head e') in
        (c.0, Steps-append a.rest_steps c.1, subst (λ x. HasServed x (c.0.pc i)) (sym e) c.2)
    go a consumes produces e e' =
        let c =
          consumer-CanServe a.rest i j low low' a.free_mutex a.bounded
            (λ k. absurd (differ (ap roles k))) (a.heads i low ∙ ap loop_head e)
            (a.heads j low' ∙ ap loop_head e') in
        (c.0, Steps-append a.rest_steps c.1, subst (λ x. HasServed x (c.0.pc i)) (sym e) c.2)
