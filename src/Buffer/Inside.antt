-- ===== src/Buffer/Inside.antt =====
-- How far a thread is in its round (Concurrency1/concurrency.c).
use cs444_operating_systems.Prelude.{
  ℕ, ◌+◌, ◌-◌, ◌<◌, ◌≡◌, refl, sym, ◌∙◌, ap, subst, Bool, true, false, inl, inr, ◌⊎◌, Option, none,
  some, leb, ◌==◌, arith,
}
use cs444_operating_systems.Buffer.{
  max_buffer_size, Item, Buffer, set, producer, consumer, added, removed, round,
}
use cs444_operating_systems.Buffer.Threads.{
  Shared, Pc, produce_lock, produce_test, produce_item, produce_count, produce_unlock,
  produce_unlock_full, consume_lock, consume_test, consume_item, consume_count, consume_unlock,
  consume_unlock_empty, Event, Move, lock_producer, is_full, has_room, store_item, count_up,
  unlock_producer, unlock_full, lock_consumer, is_empty, has_item, load_item, count_down,
  unlock_consumer, unlock_empty,
}

-- Which threads have the mutex.
abbrev pub critical : Pc → ℕ
critical produce_lock = 0
critical consume_lock = 0
critical _ = 1

-- How far a thread is in its round on the buffer `old`, if the buffer is `now`.
abbrev pub Inside : (old now : Buffer) → Pc → Type 0
Inside old now produce_lock = Unit
Inside old now produce_test = now ≡ old
Inside old now produce_item = (now ≡ old) × (leb max_buffer_size old.num_items ≡ false)
Inside old now (produce_count item) =
    (now ≡ record old { buffer = set old.buffer old.num_items item })
    × (leb max_buffer_size old.num_items ≡ false)
Inside old now (produce_unlock item) = producer old item ≡ (now, true)
Inside old now produce_unlock_full = (now ≡ old) × (leb max_buffer_size old.num_items ≡ true)
Inside old now consume_lock = Unit
Inside old now consume_test = now ≡ old
Inside old now consume_item = (now ≡ old) × ((old.num_items == 0) ≡ false)
Inside old now (consume_count item) =
    (now ≡ old) × ((old.num_items == 0) ≡ false) × (item ≡ old.buffer (old.num_items - 1))
Inside old now (consume_unlock item) = consumer old ≡ (now, some item)
Inside old now consume_unlock_empty = (now ≡ old) × ((old.num_items == 0) ≡ true)

pub outside-Inside : (old now : Buffer) (p : Pc) → critical p ≡ 0 → Inside old now p
outside-Inside old now produce_lock e = tt
outside-Inside old now consume_lock e = tt
outside-Inside old now _ e = absurd (omega arith)

-- What a step makes of it: it goes on, or the round has ended as `round` says.
abbrev pub Becomes : (old now : Buffer) → Pc → Option Event → Type 0
Becomes old now p none = (critical p ≡ 1) × Inside old now p
Becomes old now p (some e) =
    (critical p ≡ 0) × (now ≡ (round old e.request).0) × ((round old e.request).1 ≡ e.answer)

pub Move-Becomes :
    {s t : Shared} {p q : Pc} {label : Option Event} (old : Buffer)
    → Inside old s.items p
    → (0 < s.mutex → s.items ≡ old)
    → Move s p t q label
    → Becomes old t.items q label
unfolding producer consumer
Move-Becomes old h f (lock_producer g) = (refl, f g)
Move-Becomes old h f (is_full g) =
    (refl, (h, subst (λ b. leb max_buffer_size b.num_items ≡ true) h g))
Move-Becomes old h f (has_room g) =
    (refl, (h, subst (λ b. leb max_buffer_size b.num_items ≡ false) h g))
Move-Becomes old h f (store_item item) =
    (refl, (ap (λ (b : Buffer). record b { buffer = set b.buffer b.num_items item }) h.0, h.1))
Move-Becomes old h f count_up = (
  refl,
  rw (h.1) refl ∙ ap (λ (b : Buffer). (record b { num_items = b.num_items + 1 }, true)) (sym h.0),
)
Move-Becomes old h f unlock_producer =
    (refl, ap (λ (r : Buffer × Bool). r.0) (sym h), ap (λ (r : Buffer × Bool). added r.1) h)
Move-Becomes old h f (unlock_full item) = (refl, rw (h.1) h.0, rw (h.1) refl)
Move-Becomes old h f (lock_consumer g) = (refl, f g)
Move-Becomes old h f (is_empty g) = (refl, (h, subst (λ b. (b.num_items == 0) ≡ true) h g))
Move-Becomes old h f (has_item g) = (refl, (h, subst (λ b. (b.num_items == 0) ≡ false) h g))
Move-Becomes old h f load_item =
    (refl, (h.0, h.1, ap (λ (b : Buffer). b.buffer (b.num_items - 1)) h.0))
Move-Becomes old h f (count_down {item}) = (
  refl,
  rw (h.1) (
      ap (λ (i : Item). (record old { num_items = old.num_items - 1 }, some i)) (sym h.2)
      ∙ ap (λ (b : Buffer). (record b { num_items = b.num_items - 1 }, some item)) (sym h.0)),
)
Move-Becomes old h f unlock_consumer = (
  refl,
  ap (λ (r : Buffer × Option Item). r.0) (sym h),
  ap (λ (r : Buffer × Option Item). removed r.1) h,
)
Move-Becomes old h f unlock_empty = (refl, rw (h.1) h.0, rw (h.1) refl)

-- A thread that makes a step has the mutex, or takes it.
pub Move-may :
    {s t : Shared} {p q : Pc} {label : Option Event}
    → Move s p t q label
    → (critical p ≡ 1) ⊎ (0 < s.mutex)
Move-may (lock_producer g) = inr g
Move-may (lock_consumer g) = inr g
Move-may _ = inl refl

pub Move-mutex :
    {s t : Shared} {p q : Pc} {label : Option Event}
    → Move s p t q label
    → t.mutex + critical q ≡ s.mutex + critical p
Move-mutex (lock_producer g) = omega arith
Move-mutex (lock_consumer g) = omega arith
Move-mutex _ = omega arith
