-- ===== src/Buffer/Stack.antt =====
-- The buffer is a bounded stack (Concurrency1/concurrency.c).
use cs444_operating_systems.Prelude.{
  ℕ, zero, suc, ◌+◌, ◌-◌, ◌≤◌, ◌<◌, ◌≡◌, refl, sym, subst, ap, ◌∙◌, ==-refl, ne→==, lt→ltb, le→ltb,
  leb→le, true, false, Option, none, some, List, [], ◌∷◌, inl, inr, ltb, leb, Bool-cases, arith,
  length, if◌then◌else◌,
}
use cs444_operating_systems.Buffer.{
  max_buffer_size, Item, Buffer, set, producer, consumer, Round, produce, consume, Answer, added,
  removed, round, rounds,
}

-- The specification: a stack of at most `max_buffer_size` items.
abbrev pub push : List Item → Item → List Item × Answer
push st item =
    if ltb (length st) max_buffer_size then (item ∷ st, added true) else (st, added false)

abbrev pub pop : List Item → List Item × Answer
pop [] = ([], removed none)
pop (item ∷ st) = (st, removed (some item))

abbrev pub spec : List Item → Round → List Item × Answer
spec st (produce item) = push st item
spec st consume = pop st

abbrev pub specs : List Item → List Round → List Item × List Answer
specs st [] = (st, [])
specs st (r ∷ rs) = let one = spec st r in let rest = specs one.0 rs in (rest.0, one.1 ∷ rest.1)

-- The last item first.
abbrev pub first_items : (ℕ → Item) → ℕ → List Item
first_items b zero = []
first_items b (suc n) = b n ∷ first_items b n

abbrev pub contents : Buffer → List Item
contents b = first_items b.buffer b.num_items

length-first_items : (b : ℕ → Item) (n : ℕ) → length (first_items b n) ≡ n
length-first_items b zero = refl
length-first_items b (suc n) = let k = length-first_items b n in omega arith

first_items-set :
    (b : ℕ → Item) (i : ℕ) (item : Item) (n : ℕ)
    → n ≤ i
    → first_items (set b i item) n ≡ first_items b n
unfolding set
first_items-set b i item zero h = refl
first_items-set b i item (suc n) h =
    let k = first_items-set b i item n (omega arith) in
    rw (ne→== n i (λ e. omega arith)) (ap (λ l. b n ∷ l) k)

first_items-push :
    (b : ℕ → Item) (n : ℕ) (item : Item)
    → first_items (set b n item) (n + 1) ≡ item ∷ first_items b n
unfolding set
first_items-push b n item =
    let more : n + 1 ≡ suc n = omega arith in
    ap (first_items (set b n item)) more
    ∙ rw (==-refl n) (ap (λ l. item ∷ l) (first_items-set b n item n (omega arith)))

consumer-suc :
    (items : ℕ → Item) (n : ℕ)
    → consumer (record { buffer = items; num_items = suc n })
      ≡ (record { buffer = items; num_items = n }, some (items n))
unfolding consumer
consumer-suc items n =
    let less : suc n - 1 ≡ n = omega arith in
    rw (ne→== (suc n) 0 (λ e. omega arith))
      (ap (λ m. (record { buffer = items; num_items = m }, some (items m))) less)

-- A round gives the stack and the answer of the specification, and keeps the bound.
record Refines (b : Buffer) (r : Round) : Type 0 where
  pub left : contents (round b r).0 ≡ (spec (contents b) r).0
  pub answer : (round b r).1 ≡ (spec (contents b) r).1
  pub bound : (round b r).0.num_items ≤ max_buffer_size

producer-Refines :
    (b : Buffer) (item : Item) → b.num_items ≤ max_buffer_size → Refines b (produce item)
unfolding producer
producer-Refines b item h =
    let len = length-first_items b.buffer b.num_items in
    elim (Bool-cases (leb max_buffer_size b.num_items)) [
      | inl full ↦
          let shut =
            le→ltb (length (contents b)) max_buffer_size (omega (arith, leb→le _ _ full)) in
          record {
            left = rw full (rw shut refl);
            answer = rw full (rw shut refl);
            bound = rw full h;
          }
      | inr room ↦
          let low : b.num_items < max_buffer_size = ground arith in
          let open_ = lt→ltb (length (contents b)) max_buffer_size (omega arith) in
          record {
            left = rw room (rw open_ (first_items-push b.buffer b.num_items item));
            answer = rw room (rw open_ refl);
            bound = rw room (omega arith);
          }
    ]

consumer-Refines :
    (items : ℕ → Item) (n : ℕ)
    → n ≤ max_buffer_size
    → Refines (record { buffer = items; num_items = n }) consume
unfolding consumer
consumer-Refines items zero h = record { left = refl; answer = refl; bound = h }
consumer-Refines items (suc n) h =
    let one = consumer-suc items n in
    record {
      left = ap (λ (x : Buffer × Option Item). contents x.0) one;
      answer = ap (λ (x : Buffer × Option Item). removed x.1) one;
      bound =
          subst (λ (x : Buffer × Option Item). x.0.num_items ≤ max_buffer_size) (sym one)
            (omega arith);
    }

round-Refines : (b : Buffer) (r : Round) → b.num_items ≤ max_buffer_size → Refines b r
round-Refines b (produce item) h = producer-Refines b item h
round-Refines b consume h = consumer-Refines b.buffer b.num_items h

-- For a buffer with at most 32 items, whatever rounds the producers and consumers make: what the
-- buffer holds, and what each round gives its thread, are those of a stack that takes no more than
-- 32 items; and the buffer still has at most 32 items.
pub rounds-specs :
    (b : Buffer) (rs : List Round)
    → b.num_items ≤ max_buffer_size
    → (contents (rounds b rs).0 ≡ (specs (contents b) rs).0)
      × ((rounds b rs).1 ≡ (specs (contents b) rs).1)
      × ((rounds b rs).0.num_items ≤ max_buffer_size)
rounds-specs b [] h = (refl, refl, h)
rounds-specs b (r ∷ rs) h =
    let one = round-Refines b r h in
    let rest = rounds-specs (round b r).0 rs one.bound in
    (
      rest.0 ∙ ap (λ st. (specs st rs).0) one.left,
      rw one.answer
          (ap (λ a. (spec (contents b) r).1 ∷ a) (rest.1 ∙ ap (λ st. (specs st rs).1) one.left)),
      rest.2,
    )
