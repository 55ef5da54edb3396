-- ===== src/Sstf/Tests.antt =====
-- Runs of the scheduler (CS444_project2_46/sstf-iosched.c).
use cs444_operating_systems.Prelude.{
  ℕ, true, false, ◌+◌, ◌*◌, ◌^◌, ◌≤◌, ◌≡◌, refl, some, List, [], ◌∷◌, arith,
}
use cs444_operating_systems.Sstf.{
  Request, Elevator, distance, add_from, sstf_add_request, sstf_dispatch, sstf_former_request,
  sstf_latter_request, sstf_init_queue, enomem,
}
use cs444_operating_systems.Sstf.Order.{
  Placed, sstf_add_request-Placed, NearestFirst, sstf_add_request-NearestFirst, Ascending,
  Descending, sstf_add_request-sweep, sstf_add_request-wraps,
}
use cs444_operating_systems.Sstf.Conserve.{
  Call, add, dispatch, merge, calls, merged, known, calls-known, dispatches, dispatches-drains,
  Distinct, sstf_former_request-latter,
}

abbrev at : ℕ → Request
at s = record { id = s; sector = s }

abbrev with_queue : List Request → Elevator
with_queue q = record { queue = q; end_sector = 10; dispatched = [] }

-- The new request, at 11, goes first, and then the head goes down to 8 before it reaches 13: from 11
-- the sector 13 is the nearer one.
not_nearest_next :
    (sstf_add_request (with_queue (at 8 ∷ at 13 ∷ [])) (at 11)).queue ≡ at 11 ∷ at 8 ∷ at 13 ∷ []
unfolding sstf_add_request add_from distance
not_nearest_next = refl

no_memory : sstf_init_queue true false ≡ enomem 1
unfolding sstf_init_queue
no_memory = refl

sstf_add_request-Placed_example :
    Placed 10
      (at 12)
      (at 11 ∷ at 14 ∷ [])
      (sstf_add_request (with_queue (at 11 ∷ at 14 ∷ [])) (at 12)).queue
sstf_add_request-Placed_example = sstf_add_request-Placed (with_queue (at 11 ∷ at 14 ∷ [])) (at 12)

sstf_add_request-NearestFirst_example :
    NearestFirst 10 (sstf_add_request (with_queue (at 8 ∷ at 13 ∷ [])) (at 11)).queue
sstf_add_request-NearestFirst_example =
    sstf_add_request-NearestFirst (with_queue (at 8 ∷ at 13 ∷ [])) (at 11) (omega arith)
      (omega arith) (omega arith, (omega arith, tt)) (omega arith, tt)

sstf_add_request-sweep_example :
    (10 ≤ 12
      → Ascending 10 (at 11 ∷ at 14 ∷ [])
      → Ascending 10 (sstf_add_request (with_queue (at 11 ∷ at 14 ∷ [])) (at 12)).queue)
    × (12 ≤ 10
        → Descending 10 (at 11 ∷ at 14 ∷ [])
        → Descending 10 (sstf_add_request (with_queue (at 11 ∷ at 14 ∷ [])) (at 12)).queue)
sstf_add_request-sweep_example =
    sstf_add_request-sweep (with_queue (at 11 ∷ at 14 ∷ [])) (at 12) (omega arith) (omega arith)
      (omega arith, (omega arith, tt))

sstf_add_request-wraps_example :
    (sstf_add_request (with_queue (at 11 ∷ [])) (at (10 + 1 * 2 ^ 32))).queue
    ≡ at (10 + 1 * 2 ^ 32) ∷ at 11 ∷ []
sstf_add_request-wraps_example =
    sstf_add_request-wraps (with_queue (at 11 ∷ [])) (at (10 + 1 * 2 ^ 32)) 1 refl

abbrev three_calls : List Call
three_calls = add (at 11) ∷ add (at 9) ∷ dispatch ∷ merge 11 ∷ []

calls-known_example :
    known 11 (calls (with_queue []) three_calls) + merged 11 (with_queue []) three_calls ≡ 1
calls-known_example = calls-known 11 (with_queue []) three_calls

dispatches-drains_example :
    (dispatches 2 (with_queue (at 8 ∷ at 13 ∷ []))
      ≡ (record { queue = []; end_sector = 10; dispatched = at 13 ∷ at 8 ∷ [] }, 2))
    × (sstf_dispatch (dispatches 2 (with_queue (at 8 ∷ at 13 ∷ []))).0
        ≡ ((dispatches 2 (with_queue (at 8 ∷ at 13 ∷ []))).0, 0))
dispatches-drains_example = dispatches-drains (with_queue (at 8 ∷ at 13 ∷ []))

apart : Distinct (at 8 ∷ at 13 ∷ [])
apart = ((omega arith, tt), (tt, tt))

sstf_former_request-latter_example :
    (sstf_latter_request (with_queue (at 8 ∷ at 13 ∷ [])) 8 ≡ some (at 13))
    × (sstf_former_request (with_queue (at 8 ∷ at 13 ∷ [])) 13 ≡ some (at 8))
sstf_former_request-latter_example =
    sstf_former_request-latter (with_queue (at 8 ∷ at 13 ∷ [])) [] (at 8) (at 13) [] refl apart
