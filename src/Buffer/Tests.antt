-- ===== src/Buffer/Tests.antt =====
-- Runs of producers and consumers (Concurrency1/concurrency.c).
use cs444_operating_systems.Prelude.{ℕ, ◌≢◌, refl, List, [], ◌==◌, if◌then◌else◌, arith}
use cs444_operating_systems.Buffer.{Item, set}
use cs444_operating_systems.Buffer.Threads.{
  Event, lock_producer, has_room, store_item, count_up, unlock_producer, lock_consumer, has_item,
  System, Role, produces, consumes, start, Reach, init, later,
}
use cs444_operating_systems.Buffer.Linear.{UsesStack, Reach-UsesStack}
use cs444_operating_systems.Buffer.Served.{CanServe, Reach-CanServe}

abbrev item : ℕ → Item
item n = record { value = n; wait_time = 2 }

-- Thread 0 produces, thread 1 consumes.
abbrev roles : ℕ → Role
roles i = if i == 0 then produces else consumes

abbrev begin : Reach 2 roles (start roles) []
begin = init

-- The producer adds an item, and the consumer is about to load it.
abbrev one_added : (s : System) × (es : List Event) × Reach 2 roles s es
unfolding set
one_added =
    let r = later 0 begin (omega arith) (lock_producer (omega arith)) in
    let r = later 0 r (omega arith) (has_room refl) in
    let r = later 0 r (omega arith) (store_item (item 5)) in
    let r = later 0 r (omega arith) count_up in
    let r = later 0 r (omega arith) unlock_producer in
    let r = later 1 r (omega arith) (lock_consumer (omega arith)) in
    let r = later 1 r (omega arith) (has_item refl) in (_, _, r)

Reach-UsesStack_example : UsesStack 2 one_added.0 one_added.1
Reach-UsesStack_example = Reach-UsesStack one_added.2

other_role : roles 0 ≢ roles 1
other_role e = absurd (cc)

Reach-CanServe_example : CanServe 2 one_added.0 0 produces
Reach-CanServe_example = Reach-CanServe 0 1 (omega arith) (omega arith) other_role one_added.2
