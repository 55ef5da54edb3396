-- ===== src/Buffer/Threads.antt =====
-- The threads of Concurrency1/concurrency.c and its copy CS444_project1_46/concurrency.c, from one
-- use of `mutex` or the buffer to the next. `mutex` is 1 where no thread has it. A label is what a
-- round has shown to its thread, given where the round unlocks the mutex.
use cs444_operating_systems.Prelude.{
  ℕ, ◌+◌, ◌-◌, ◌<◌, ◌≡◌, true, false, Option, none, some, List, [], ◌∷◌, ◌++◌, leb, ◌==◌,
}
use cs444_operating_systems.Prelude.Sums.{update}
use cs444_operating_systems.Buffer.{
  max_buffer_size, Item, Buffer, set, Round, produce, consume, Answer, added, removed,
}

pub record Shared : Type 0 where
  pub mutex : ℕ
  pub items : Buffer

pub data Pc : Type 0 where
  produce_lock : Pc
  produce_test : Pc
  produce_item : Pc
  produce_count : Item → Pc
  produce_unlock : Item → Pc
  produce_unlock_full : Pc
  consume_lock : Pc
  consume_test : Pc
  consume_item : Pc
  consume_count : Item → Pc
  consume_unlock : Item → Pc
  consume_unlock_empty : Pc

pub record Event : Type 0 where
  pub request : Round
  pub answer : Answer

-- One step of a thread.
pub data Move (s : Shared) : Pc → Shared → Pc → Option Event → Type 0 where
  lock_producer :
      0 < s.mutex → Move s produce_lock (record s { mutex = s.mutex - 1 }) produce_test none
  is_full :
      leb max_buffer_size s.items.num_items ≡ true → Move s produce_test s produce_unlock_full none
  has_room : leb max_buffer_size s.items.num_items ≡ false → Move s produce_test s produce_item none
  store_item :
      (item : Item)
      → Move s produce_item
          (record s {
            items = record (s.items) { buffer = set s.items.buffer s.items.num_items item };
          })
          (produce_count item)
          none
  count_up :
      {item : Item}
      → Move s
          (produce_count item)
          (record s { items = record (s.items) { num_items = s.items.num_items + 1 } })
          (produce_unlock item)
          none
  unlock_producer :
      {item : Item}
      → Move s
          (produce_unlock item)
          (record s { mutex = s.mutex + 1 })
          produce_lock
          (some (record { request = produce item; answer = added true }))
  -- No item has been generated; any stands for it.
  unlock_full :
      (item : Item)
      → Move s produce_unlock_full
          (record s { mutex = s.mutex + 1 })
          produce_lock
          (some (record { request = produce item; answer = added false }))
  lock_consumer :
      0 < s.mutex → Move s consume_lock (record s { mutex = s.mutex - 1 }) consume_test none
  is_empty : (s.items.num_items == 0) ≡ true → Move s consume_test s consume_unlock_empty none
  has_item : (s.items.num_items == 0) ≡ false → Move s consume_test s consume_item none
  load_item : Move s consume_item s (consume_count (s.items.buffer (s.items.num_items - 1))) none
  count_down :
      {item : Item}
      → Move s
          (consume_count item)
          (record s { items = record (s.items) { num_items = s.items.num_items - 1 } })
          (consume_unlock item)
          none
  unlock_consumer :
      {item : Item}
      → Move s
          (consume_unlock item)
          (record s { mutex = s.mutex + 1 })
          consume_lock
          (some (record { request = consume; answer = removed (some item) }))
  unlock_empty :
      Move s consume_unlock_empty
        (record s { mutex = s.mutex + 1 })
        consume_lock
        (some (record { request = consume; answer = removed none }))

pub record System : Type 0 where
  pub shared : Shared
  pub pc : ℕ → Pc

abbrev pub noted : List Event → Option Event → List Event
noted events none = events
noted events (some e) = events ++ e ∷ []

-- `main` has producers and consumers, and an empty buffer.
pub data Role : Type 0 where
  produces consumes : Role

abbrev pub loop_head : Role → Pc
loop_head produces = produce_lock
loop_head consumes = consume_lock

abbrev pub empty : Buffer
empty = record { buffer = λ i. record { value = 0; wait_time = 0 }; num_items = 0 }

abbrev pub start : (ℕ → Role) → System
start roles = record { shared = record { mutex = 1; items = empty }; pc = λ i. loop_head (roles i) }

-- What `n` threads can come to, with the rounds that have ended, the oldest first.
pub data Reach (n : ℕ) (roles : ℕ → Role) : System → List Event → Type 0 where
  init : Reach n roles (start roles) []
  later :
      {s : System} {events : List Event} {t : Shared} {p : Pc} {label : Option Event} (i : ℕ)
      → Reach n roles s events
      → i < n
      → Move s.shared (s.pc i) t p label
      → Reach n roles (record { shared = t; pc = update s.pc i p }) (noted events label)
