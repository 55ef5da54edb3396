-- ===== src/Sstf.antt =====
-- CS444_project2_46/sstf-iosched.c: the SSTF I/O scheduler.
-- A `struct list_head` queue is the list of its requests, from the head's `next` on. A request is
-- told from others by `id`, which stands for its address. `elv_dispatch_sort` is the block layer's:
-- what is handed to it is recorded in `dispatched`, the last request first. Printing is left out.
pub mod Order
pub mod Conserve
mod Tests
use cs444_operating_systems.Prelude.{
  ℕ, ◌+◌, ◌-◌, ◌%◌, ◌^◌, Bool, true, false, Option, none, some, List, [], ◌∷◌, leb, ◌==◌,
  if◌then◌else◌,
}
use cs444_operating_systems.Prelude.Int.{ℤ}

-- `sector` is `blk_rq_pos`, a sector_t.
pub record Request : Type 0 where
  pub id : ℕ
  pub sector : ℕ

-- The scheduler's queue, the `end_sector` of the request queue, and what has been dispatched.
pub record Elevator : Type 0 where
  pub queue : List Request
  pub end_sector : ℕ
  pub dispatched : List Request

-- The distance of two sectors as an `unsigned int`: what does not fit is cut off.
unfoldable pub distance : ℕ → ℕ → ℕ
distance a ref = (if leb ref a then a - ref else ref - a) % 2 ^ 32

-- The loop over a queue; `ref` is `end_ref`. At the end of the loop `curr_pos` is the queue's head,
-- so that `list_add_tail` there adds at the end.
unfoldable pub add_from : ℕ → Request → List Request → List Request
unfolding distance
add_from ref rq [] = rq ∷ []
add_from ref rq (curr ∷ q) =
    if leb (distance rq.sector ref) (distance curr.sector ref)
    then rq ∷ curr ∷ q
    else curr ∷ add_from curr.sector rq q

abbrev pub add_to : ℕ → Request → List Request → List Request
add_to ref rq [] = rq ∷ []
add_to ref rq (curr ∷ q) = add_from ref rq (curr ∷ q)

unfoldable pub sstf_add_request : Elevator → Request → Elevator
unfolding add_from
sstf_add_request e rq = record e { queue = add_to e.end_sector rq e.queue }

-- The first request goes to the block layer; the result is the 1 or 0 of the C function.
unfoldable pub dispatch_from : Elevator → List Request → Elevator × ℕ
dispatch_from e [] = (e, 0)
dispatch_from e (rq ∷ q) = (record e { queue = q; dispatched = rq ∷ e.dispatched }, 1)

unfoldable pub sstf_dispatch : Elevator → Elevator × ℕ
unfolding dispatch_from
sstf_dispatch e = dispatch_from e e.queue

-- `list_del_init(&next->queuelist)`
unfoldable pub unlink : ℕ → List Request → List Request
unlink next [] = []
unlink next (rq ∷ q) = if rq.id == next then q else rq ∷ unlink next q

unfoldable pub sstf_merged_requests : Elevator → (next : ℕ) → Elevator
unfolding unlink
sstf_merged_requests e next = record e { queue = unlink next e.queue }

-- The request in front of `rq`, none for NULL.
unfoldable pub former_in : Option Request → ℕ → List Request → Option Request
former_in prev rq [] = none
former_in prev rq (a ∷ q) = let rest = former_in (some a) rq q in if a.id == rq then prev else rest

unfoldable pub sstf_former_request : Elevator → (rq : ℕ) → Option Request
unfolding former_in
sstf_former_request e rq = former_in none rq e.queue

abbrev pub first : List Request → Option Request
first [] = none
first (a ∷ q) = some a

-- The request behind `rq`, none for NULL.
unfoldable pub latter_in : ℕ → List Request → Option Request
latter_in rq [] = none
latter_in rq (a ∷ q) = let rest = latter_in rq q in if a.id == rq then first q else rest

unfoldable pub sstf_latter_request : Elevator → (rq : ℕ) → Option Request
unfolding latter_in
sstf_latter_request e rq = latter_in rq e.queue

-- -ENOMEM, with the `kobject_put`s made, or a queue.
pub data Init : Type 0 where
  enomem : (puts : ℕ) → Init
  ready : List Request → Init

-- Whether `elevator_alloc` and `kmalloc_node` gave memory are parameters.
unfoldable pub sstf_init_queue : (eq sd : Bool) → Init
sstf_init_queue false sd = enomem 0
sstf_init_queue true false = enomem 1
sstf_init_queue true true = ready []

-- The BUG_ON of `sstf_exit_queue`: none where it stops the kernel.
unfoldable pub sstf_exit_queue : Elevator → Option (Unit {0})
sstf_exit_queue e = elim e.queue [ [] ↦ some tt | _ ∷ _ ↦ none ]

-- `struct elevator_type`, as far as the scheduler fills it: what the block layer calls.
pub record ElevatorType : Type 0 where
  pub elevator_merge_req_fn : Elevator → (next : ℕ) → Elevator
  pub elevator_dispatch_fn : Elevator → Elevator × ℕ
  pub elevator_add_req_fn : Elevator → Request → Elevator
  pub elevator_former_req_fn : Elevator → (rq : ℕ) → Option Request
  pub elevator_latter_req_fn : Elevator → (rq : ℕ) → Option Request
  pub elevator_init_fn : (eq sd : Bool) → Init
  pub elevator_exit_fn : Elevator → Option (Unit {0})

abbrev pub elevator_sstf : ElevatorType
elevator_sstf = record {
  elevator_merge_req_fn = sstf_merged_requests;
  elevator_dispatch_fn = sstf_dispatch;
  elevator_add_req_fn = sstf_add_request;
  elevator_former_req_fn = sstf_former_request;
  elevator_latter_req_fn = sstf_latter_request;
  elevator_init_fn = sstf_init_queue;
  elevator_exit_fn = sstf_exit_queue;
}

-- Loading and unloading; the block layer's `elv_register` and `elv_unregister`, on a state of its
-- own, are parameters.
module _ {BlockLayer : Type 0} where
  abbrev pub sstf_init : (BlockLayer → ElevatorType → BlockLayer × ℤ) → BlockLayer → BlockLayer × ℤ
  sstf_init elv_register b = elv_register b elevator_sstf

  abbrev pub sstf_exit : (BlockLayer → ElevatorType → BlockLayer) → BlockLayer → BlockLayer
  sstf_exit elv_unregister b = elv_unregister b elevator_sstf
