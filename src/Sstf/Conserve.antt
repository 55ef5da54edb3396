-- ===== src/Sstf/Conserve.antt =====
-- No request is lost (CS444_project2_46/sstf-iosched.c): additions, dispatches, merges, neighbours.
use cs444_operating_systems.Prelude.{
  ℕ, zero, suc, ◌+◌, ◌≡◌, refl, ap, sym, subst, Option, none, some, List, [], ◌∷◌, ◌++◌, inl, inr,
  ◌≢◌, leb, ◌==◌, ◌&&◌, Bool-cases, arith, if◌then◌else◌, All, length, ==-refl, ne→==,
}
use cs444_operating_systems.Sstf.{
  Request, Elevator, distance, add_from, add_to, sstf_add_request, dispatch_from, sstf_dispatch,
  unlink, sstf_merged_requests, former_in, sstf_former_request, latter_in, sstf_latter_request,
  elevator_sstf,
}

-- How many requests of a list are `i`.
abbrev pub count : ℕ → List Request → ℕ
count i [] = 0
count i (rq ∷ q) = (if rq.id == i then 1 else 0) + count i q

-- What the block layer calls, by the scheduler's table.
pub data Call : Type 0 where
  add : Request → Call
  dispatch : Call
  merge : (next : ℕ) → Call

abbrev pub call : Elevator → Call → Elevator
call e (add rq) = elevator_sstf.elevator_add_req_fn e rq
call e dispatch = (elevator_sstf.elevator_dispatch_fn e).0
call e (merge next) = elevator_sstf.elevator_merge_req_fn e next

abbrev pub calls : Elevator → List Call → Elevator
calls e [] = e
calls e (c ∷ cs) = calls (call e c) cs

abbrev pub added : List Call → List Request
added [] = []
added (add rq ∷ cs) = rq ∷ added cs
added (dispatch ∷ cs) = added cs
added (merge next ∷ cs) = added cs

-- How often a merge takes a request `i` out of the queue.
abbrev pub took : ℕ → Elevator → Call → ℕ
took i e (add rq) = 0
took i e dispatch = 0
took i e (merge next) = if next == i && leb 1 (count i e.queue) then 1 else 0

abbrev pub merged : ℕ → Elevator → List Call → ℕ
merged i e [] = 0
merged i e (c ∷ cs) = took i e c + merged i (call e c) cs

count-add_from :
    (i ref : ℕ) (rq : Request) (q : List Request) → count i (add_from ref rq q) ≡ count i (rq ∷ q)
unfolding add_from
count-add_from i ref rq [] = refl
count-add_from i ref rq (c ∷ q) =
    elim (Bool-cases (leb (distance rq.sector ref) (distance c.sector ref))) [
      | inl stop ↦ rw stop refl
      | inr on ↦ rw on (let k = count-add_from i c.sector rq q in omega arith)
    ]

-- The requests `i` that the scheduler has or has handed over.
abbrev pub known : ℕ → Elevator → ℕ
known i e = count i e.queue + count i e.dispatched

known-sstf_add_request :
    (i : ℕ) (e : Elevator) (rq : Request)
    → known i (sstf_add_request e rq) ≡ count i (rq ∷ []) + known i e
unfolding sstf_add_request
known-sstf_add_request i e rq = let k = go e.queue in omega arith
  where
    go : (q : List Request) → count i (add_to e.end_sector rq q) ≡ count i (rq ∷ q)
    go [] = refl
    go (c ∷ q) = count-add_from i e.end_sector rq (c ∷ q)

known-dispatch_from :
    (i : ℕ) (e : Elevator) (q : List Request)
    → e.queue ≡ q
    → known i (dispatch_from e q).0 ≡ known i e
unfolding dispatch_from
known-dispatch_from i e [] h = refl
known-dispatch_from i e (rq ∷ q) h = rw h (omega arith)

count-unlink :
    (i next : ℕ) (q : List Request)
    → count i (unlink next q) + (if next == i && leb 1 (count i q) then 1 else 0) ≡ count i q
unfolding unlink
count-unlink i next [] = ground arith
count-unlink i next (a ∷ q) = let rest = count-unlink i next q in ground arith

-- Whatever additions, dispatches and merges the block layer makes, every request that was added, or
-- was there before, is in the queue, has been handed over or has been merged into another, as often
-- as it was added.
pub calls-known :
    (i : ℕ) (e : Elevator) (cs : List Call)
    → known i (calls e cs) + merged i e cs ≡ count i (added cs) + known i e
unfolding sstf_dispatch sstf_merged_requests
calls-known i e [] = omega arith
calls-known i e (add rq ∷ cs) =
    let rest = calls-known i (sstf_add_request e rq) cs in
    let one = known-sstf_add_request i e rq in omega arith
calls-known i e (dispatch ∷ cs) =
    let rest = calls-known i (sstf_dispatch e).0 cs in
    let one = known-dispatch_from i e e.queue refl in omega arith
calls-known i e (merge next ∷ cs) =
    let rest = calls-known i (sstf_merged_requests e next) cs in
    let one = count-unlink i next e.queue in omega (arith, one, rest)

-- The first requests handed over last.
abbrev pub onto : List Request → List Request → List Request
onto [] done = done
onto (rq ∷ q) done = onto q (rq ∷ done)

-- `n` dispatches, and the sum of their results.
abbrev pub dispatches : ℕ → Elevator → Elevator × ℕ
dispatches zero e = (e, 0)
dispatches (suc n) e =
    let one = sstf_dispatch e in let rest = dispatches n one.0 in (rest.0, one.1 + rest.1)

-- As many dispatches as the queue is long hand over each request, from the front, with result 1
-- each, and leave the queue empty; the next one has result 0 and changes nothing.
pub dispatches-drains :
    (e : Elevator)
    → (dispatches (length e.queue) e
        ≡ (record e { queue = []; dispatched = onto e.queue e.dispatched }, length e.queue))
      × (sstf_dispatch (dispatches (length e.queue) e).0 ≡ ((dispatches (length e.queue) e).0, 0))
unfolding sstf_dispatch dispatch_from
dispatches-drains e = let all = go e.queue e.end_sector e.dispatched in (all, rw all refl)
  where
    go :
        (q : List Request) (s : ℕ) (d : List Request)
        → dispatches (length q) (record { queue = q; end_sector = s; dispatched = d })
          ≡ (record { queue = []; end_sector = s; dispatched = onto q d }, length q)
    go [] s d = refl
    go (rq ∷ q) s d = rw (go q s (rq ∷ d)) (
        ap (λ n. (record { queue = []; end_sector = s; dispatched = onto q (rq ∷ d) }, n))
          (omega arith))

-- No two requests of a queue are the same.
abbrev pub Distinct : List Request → Type 0
Distinct [] = Unit
Distinct (a ∷ q) = All (λ x. x.id ≢ a.id) q × Distinct q

count-absent : (i : ℕ) (q : List Request) → All (λ x. x.id ≢ i) q → count i q ≡ 0
count-absent i [] h = refl
count-absent i (a ∷ q) h = let k = count-absent i q h.1 in rw (ne→== a.id i h.0) (omega (arith, k))

-- Where the requests of the queue are distinct, merging takes the request merged into another out
-- of the queue, and no other.
pub sstf_merged_requests-count :
    (e : Elevator) (next i : ℕ)
    → Distinct e.queue
    → count i (sstf_merged_requests e next).queue ≡ (if next == i then 0 else count i e.queue)
unfolding sstf_merged_requests unlink
sstf_merged_requests-count e next i h = go e.queue h
  where
    go :
        (q : List Request)
        → Distinct q
        → count i (unlink next q) ≡ (if next == i then 0 else count i q)
    go [] k = ground arith
    go (a ∷ q) k = let rest = go q k.1 in let absent = count-absent a.id q k.0 in ground arith

former_in-behind :
    (prev : Option Request) (b : Request) (a : Request) (back front : List Request)
    → All (λ x. x.id ≢ b.id) (front ++ a ∷ [])
    → former_in prev b.id (front ++ a ∷ b ∷ back) ≡ some a
unfolding former_in
former_in-behind prev b a back [] h = rw (ne→== a.id b.id h.0) (rw (==-refl b.id) refl)
former_in-behind prev b a back (c ∷ front) h =
    rw (ne→== c.id b.id h.0) (former_in-behind (some c) b a back front h.1)

latter_in-front :
    (a b : Request) (back front : List Request)
    → All (λ x. x.id ≢ a.id) front
    → latter_in a.id (front ++ a ∷ b ∷ back) ≡ some b
unfolding latter_in
latter_in-front a b back [] h = rw (==-refl a.id) refl
latter_in-front a b back (c ∷ front) h =
    rw (ne→== c.id a.id h.0) (latter_in-front a b back front h.1)

All-behind {κ} :
    (P : Request → Type κ) (front back : List Request) → All P (front ++ back) → All P back
All-behind P [] back h = h
All-behind P (c ∷ front) back h = All-behind P front back h.1

Distinct-front :
    (front : List Request) (a : Request) (back : List Request)
    → Distinct (front ++ a ∷ back)
    → All (λ x. x.id ≢ a.id) front
Distinct-front [] a back h = tt
Distinct-front (c ∷ front) a back h =
    let apart = (All-behind (λ x. x.id ≢ c.id) front (a ∷ back) h.0).0 in
    (λ same. apart (sym same), Distinct-front front a back h.1)

Distinct-before :
    (front : List Request) (a b : Request) (back : List Request)
    → Distinct (front ++ a ∷ b ∷ back)
    → All (λ x. x.id ≢ b.id) (front ++ a ∷ [])
Distinct-before [] a b back h = (λ same. h.0.0 (sym same), tt)
Distinct-before (c ∷ front) a b back h =
    let apart = (All-behind (λ x. x.id ≢ c.id) front (a ∷ b ∷ back) h.0).1.0 in
    (λ same. apart (sym same), Distinct-before front a b back h.1)

-- Of two neighbours in a queue of distinct requests, `sstf_latter_request` of the one in front gives
-- the one behind, and `sstf_former_request` of the one behind the one in front.
pub sstf_former_request-latter :
    (e : Elevator) (front : List Request) (a b : Request) (back : List Request)
    → e.queue ≡ front ++ a ∷ b ∷ back
    → Distinct e.queue
    → (sstf_latter_request e a.id ≡ some b) × (sstf_former_request e b.id ≡ some a)
unfolding sstf_latter_request sstf_former_request
sstf_former_request-latter e front a b back q d =
    let d' = subst Distinct q d in
    rw q (
      latter_in-front a b back front (Distinct-front front a (b ∷ back) d'),
      former_in-behind none b a back front (Distinct-before front a b back d'),
    )
