-- ===== src/Sstf/Order.antt =====
-- Where `sstf_add_request` puts a request (CS444_project2_46/sstf-iosched.c).
use cs444_operating_systems.Prelude.{
  ℕ, ◌+◌, ◌*◌, ◌^◌, ◌≤◌, ◌<◌, ◌≡◌, refl, ap, List, [], ◌∷◌, ◌++◌, inl, inr, leb, Bool-cases, leb→le,
  arith, All, All-map, if◌then◌else◌, ◌-◌,
}
use cs444_operating_systems.Sstf.{Request, Elevator, distance, add_from, add_to, sstf_add_request}

-- Every request of a queue is strictly nearer to the one in front of it than `rq` would be; `ref` is
-- in front of the first.
abbrev pub Nearer : ℕ → Request → List Request → Type 0
Nearer ref rq [] = Unit
Nearer ref rq (c ∷ q) = (distance c.sector ref < distance rq.sector ref) × Nearer c.sector rq q

-- The sector in front of what follows a queue.
abbrev pub last_sector : ℕ → List Request → ℕ
last_sector ref [] = ref
last_sector ref (c ∷ q) = last_sector c.sector q

-- `rq` is at least as near to `ref` as the first request of a queue.
abbrev pub NoFarther : ℕ → Request → List Request → Type 0
NoFarther ref rq [] = Unit
NoFarther ref rq (c ∷ q) = distance rq.sector ref ≤ distance c.sector ref

pub record Placed (ref : ℕ) (rq : Request) (q q' : List Request) : Type 0 where
  pub front : List Request
  pub back : List Request
  pub before : q ≡ front ++ back
  pub after : q' ≡ front ++ rq ∷ back
  pub nearer : Nearer ref rq front
  pub here : NoFarther (last_sector ref front) rq back

add_from-Placed : (ref : ℕ) (rq : Request) (q : List Request) → Placed ref rq q (add_from ref rq q)
unfolding add_from
add_from-Placed ref rq [] = record {
  front = [];
  back = [];
  before = refl;
  after = refl;
  nearer = tt;
  here = tt;
}
add_from-Placed ref rq (c ∷ q) =
    elim (Bool-cases (leb (distance rq.sector ref) (distance c.sector ref))) [
      | inl stop ↦ rw stop (record {
        front = [];
        back = c ∷ q;
        before = refl;
        after = refl;
        nearer = tt;
        here = leb→le _ _ stop;
      })
      | inr on ↦
          let rest = add_from-Placed c.sector rq q in
          rw on (record {
            front = c ∷ rest.front;
            back = rest.back;
            before = ap (λ l. c ∷ l) rest.before;
            after = ap (λ l. c ∷ l) rest.after;
            nearer = (ground arith, rest.nearer);
            here = rest.here;
          })
    ]

-- `sstf_add_request` puts the request in front of the first one that is at least as far from its
-- predecessor as the new one would be, the predecessor of the first being `end_sector`; at the end
-- if there is none. The others keep their order.
pub sstf_add_request-Placed :
    (e : Elevator) (rq : Request) → Placed e.end_sector rq e.queue (sstf_add_request e rq).queue
unfolding sstf_add_request
sstf_add_request-Placed e rq = add_to-Placed e.queue
  where
    add_to-Placed : (q : List Request) → Placed e.end_sector rq q (add_to e.end_sector rq q)
    add_to-Placed [] = record {
      front = [];
      back = [];
      before = refl;
      after = refl;
      nearer = tt;
      here = tt;
    }
    add_to-Placed (c ∷ q) = add_from-Placed e.end_sector rq (c ∷ q)

-- The distance of two sectors, as it is, not cut to 32 bits.
abbrev pub gap : ℕ → ℕ → ℕ
gap a b = if leb b a then a - b else b - a

-- The first request of the queue is nearest to `ref`.
abbrev pub NearestFirst : ℕ → List Request → Type 0
NearestFirst ref [] = Unit
NearestFirst ref (c ∷ q) = All (λ x. gap c.sector ref ≤ gap x.sector ref) q

abbrev pub Below : ℕ → List Request → Type 0
Below n q = All (λ x. x.sector < n) q

All-add_from {κ} :
    (P : Request → Type κ) (ref : ℕ) (rq : Request) (q : List Request)
    → P rq
    → All P q
    → All P (add_from ref rq q)
unfolding add_from
All-add_from P ref rq [] h k = (h, tt)
All-add_from P ref rq (c ∷ q) h k =
    elim (Bool-cases (leb (distance rq.sector ref) (distance c.sector ref))) [
      | inl stop ↦ rw stop (h, k)
      | inr on ↦ rw on (k.0, All-add_from P c.sector rq q h k.1)
    ]

distance-gap : (a b : ℕ) → a < 2 ^ 32 → b < 2 ^ 32 → distance a b ≡ gap a b
unfolding distance
distance-gap a b ha hb = ground arith

add_from-NearestFirst :
    (ref : ℕ) (rq c : Request) (q : List Request)
    → ref < 2 ^ 32
    → rq.sector < 2 ^ 32
    → c.sector < 2 ^ 32
    → NearestFirst ref (c ∷ q)
    → NearestFirst ref (add_from ref rq (c ∷ q))
unfolding add_from
add_from-NearestFirst ref rq c q below_ref below_rq below_c h =
    let new = distance-gap rq.sector ref below_rq below_ref in
    let old = distance-gap c.sector ref below_c below_ref in
    elim (Bool-cases (leb (distance rq.sector ref) (distance c.sector ref))) [
      | inl stop ↦
          let d : gap rq.sector ref ≤ gap c.sector ref = omega (arith, leb→le _ _ stop, new, old) in
          rw stop (d, All-map _ _ (λ x k. omega (arith, d, k)) q h)
      | inr on ↦
          let d : gap c.sector ref ≤ gap rq.sector ref = ground (arith, new, old) in
          rw on (All-add_from _ c.sector rq q d h)
    ]

-- Let `end_sector` and all sectors be below 2^32. If the first request of the queue, the one that
-- is dispatched next, is the nearest to `end_sector`, it is so after `sstf_add_request` too.
pub sstf_add_request-NearestFirst :
    (e : Elevator) (rq : Request)
    → e.end_sector < 2 ^ 32
    → rq.sector < 2 ^ 32
    → Below (2 ^ 32) e.queue
    → NearestFirst e.end_sector e.queue
    → NearestFirst e.end_sector (sstf_add_request e rq).queue
unfolding sstf_add_request
sstf_add_request-NearestFirst e rq small s below h = go e.queue below h
  where
    go :
        (q : List Request)
        → Below (2 ^ 32) q
        → NearestFirst e.end_sector q
        → NearestFirst e.end_sector (add_to e.end_sector rq q)
    go [] b k = tt
    go (c ∷ q) b k = add_from-NearestFirst e.end_sector rq c q small s b.0 k

-- The sectors do not fall from `ref` on.
abbrev pub Ascending : ℕ → List Request → Type 0
Ascending ref [] = Unit
Ascending ref (c ∷ q) = (ref ≤ c.sector) × Ascending c.sector q

-- They do not rise.
abbrev pub Descending : ℕ → List Request → Type 0
Descending ref [] = Unit
Descending ref (c ∷ q) = (c.sector ≤ ref) × Descending c.sector q

add_from-Ascending :
    (ref : ℕ) (rq : Request) (q : List Request)
    → Below (2 ^ 32) q
    → rq.sector < 2 ^ 32
    → ref ≤ rq.sector
    → Ascending ref q
    → Ascending ref (add_from ref rq q)
unfolding add_from distance
add_from-Ascending ref rq [] small s l h = (l, tt)
add_from-Ascending ref rq (c ∷ q) small s l h =
    elim (Bool-cases (leb (distance rq.sector ref) (distance c.sector ref))) [
      | inl stop ↦ rw stop (l, (ground arith, h.1))
      | inr on ↦ rw on (h.0, add_from-Ascending c.sector rq q small.1 s (ground arith) h.1)
    ]

add_from-Descending :
    (ref : ℕ) (rq : Request) (q : List Request)
    → ref < 2 ^ 32
    → rq.sector ≤ ref
    → Descending ref q
    → Descending ref (add_from ref rq q)
unfolding add_from distance
add_from-Descending ref rq [] small l h = (l, tt)
add_from-Descending ref rq (c ∷ q) small l h =
    elim (Bool-cases (leb (distance rq.sector ref) (distance c.sector ref))) [
      | inl stop ↦ rw stop (l, (ground arith, h.1))
      | inr on ↦ rw on (h.0, add_from-Descending c.sector rq q (omega arith) (ground arith) h.1)
    ]

-- Let `end_sector` and all sectors be below 2^32. If the new request is not below `end_sector` and
-- the sectors of the queue do not fall from there on, they do not fall after `sstf_add_request`
-- either; if it is not above `end_sector` and they do not rise from there on, they do not rise
-- after it either.
pub sstf_add_request-sweep :
    (e : Elevator) (rq : Request)
    → e.end_sector < 2 ^ 32
    → rq.sector < 2 ^ 32
    → Below (2 ^ 32) e.queue
    → (e.end_sector ≤ rq.sector
        → Ascending e.end_sector e.queue
        → Ascending e.end_sector (sstf_add_request e rq).queue)
      × (rq.sector ≤ e.end_sector
          → Descending e.end_sector e.queue
          → Descending e.end_sector (sstf_add_request e rq).queue)
unfolding sstf_add_request
sstf_add_request-sweep e rq small s below = (up e.queue below, down e.queue)
  where
    up :
        (q : List Request)
        → Below (2 ^ 32) q
        → e.end_sector ≤ rq.sector
        → Ascending e.end_sector q
        → Ascending e.end_sector (add_to e.end_sector rq q)
    up [] b l h = (l, tt)
    up (c ∷ q) b l h = add_from-Ascending e.end_sector rq (c ∷ q) b s l h

    down :
        (q : List Request)
        → rq.sector ≤ e.end_sector
        → Descending e.end_sector q
        → Descending e.end_sector (add_to e.end_sector rq q)
    down [] l h = (l, tt)
    down (c ∷ q) l h = add_from-Descending e.end_sector rq (c ∷ q) small l h

-- A request whose sector lies a multiple of 2^32 above `end_sector` is put first, however large the
-- multiple is.
pub sstf_add_request-wraps :
    (e : Elevator) (rq : Request) (k : ℕ)
    → rq.sector ≡ e.end_sector + k * 2 ^ 32
    → (sstf_add_request e rq).queue ≡ rq ∷ e.queue
unfolding sstf_add_request
sstf_add_request-wraps e rq k far = go e.queue
  where
    go : (q : List Request) → add_to e.end_sector rq q ≡ rq ∷ q
    go [] = refl
    go (c ∷ q) = ground arith
