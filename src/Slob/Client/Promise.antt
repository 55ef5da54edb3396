-- ===== src/Slob/Client/Promise.antt =====
-- The allocator's promises to a client, from an allocator with no block in use on
-- (CS444_project4_46/slob.c).
use cs444_operating_systems.Prelude.{ℕ, ◌≡◌, refl, false, Option, none, some, [], All, All-map}
use cs444_operating_systems.Slob.Block.{Ptr}
use cs444_operating_systems.Slob.Segment.{Blocks}
use cs444_operating_systems.Slob.State.{Slob, Run, ok, bug, out_of_fuel, page_of}
use cs444_operating_systems.Slob.Heap.{IsHeap}
use cs444_operating_systems.Slob.Free.{slob_free}
use cs444_operating_systems.Slob.Free.Heap.{FreedHeap}
use cs444_operating_systems.Slob.Alloc.Correct.{ZeroedOutcome}
use cs444_operating_systems.Slob.Client.{Client, Call, make, Step, Steps, here, later}
use cs444_operating_systems.Slob.Client.Sound.{units, IsSound}
use cs444_operating_systems.Slob.Client.Safe.{made, freed, Step-IsSound, others, Same, Step-Same}

abbrev pub fresh_client : Slob → Client
fresh_client s = record { slob = s; live = [] }

unfoldable pub fresh_client-IsSound :
    (s : Slob) (bs : ℕ → Blocks) → IsHeap s bs → IsSound (fresh_client s)
fresh_client-IsSound s bs heap = record { blocks = bs; heap = heap; live = tt; apart = tt }

-- On a heap, whatever a client allocates, writes and frees: its blocks are in use, each on one page
-- of the heap, no two of them share a unit, and the allocator has a heap.
pub Steps-IsSound :
    {s : Slob} {k : Client} (bs : ℕ → Blocks) → IsHeap s bs → Steps (fresh_client s) k → IsSound k
Steps-IsSound {s} bs heap here = fresh_client-IsSound s bs heap
Steps-IsSound bs heap (later {l} steps step) = Step-IsSound l (Steps-IsSound bs heap steps) step

-- On a heap, whatever a client has allocated, written and freed: its next step leaves the content of
-- all its blocks but the one that the step writes, allocates or frees.
pub Steps-Same :
    {s : Slob} {k l : Client} (bs : ℕ → Blocks)
    → IsHeap s bs
    → Steps (fresh_client s) k
    → (st : Step k l) → All (Same k l) (others k st)
Steps-Same {k} bs heap steps st = Step-Same k (Steps-IsSound bs heap steps) st

-- What a call of `slob_alloc` gives: a block, or none and no change if the page allocator has none.
abbrev pub Answers : (s : Slob) → Option Ptr → Run (Slob × Option Ptr) → Type 0
Answers s answer (ok (s', some b)) = Unit {0}
Answers s answer (ok (s', none)) = (s' ≡ s) × (answer ≡ none)
Answers s answer bug = ⊥
Answers s answer out_of_fuel = ⊥

ZeroedOutcome-Answers :
    (k : Client) (sound : IsSound k) (c : Call k.slob) (r : Run (Slob × Option Ptr))
    → ZeroedOutcome k.slob sound.blocks c.size c.gfp
        (c.alloc (record (c.gfp) { is_zero = false }) 0 c.nid)
        r
    → Answers k.slob (c.alloc (record (c.gfp) { is_zero = false }) 0 c.nid) r
ZeroedOutcome-Answers k sound c (ok (s', some b)) h = tt
ZeroedOutcome-Answers k sound c (ok (s', none)) h = h
ZeroedOutcome-Answers k sound c bug h = h
ZeroedOutcome-Answers k sound c out_of_fuel h = h

pub FreedHeap-returns :
    (s : Slob) (bs : ℕ → Blocks) (sp b n : ℕ) (r : Run Slob)
    → FreedHeap s bs sp b n r
    → (s' : Slob) × (r ≡ ok s')
FreedHeap-returns s bs sp b n (ok s') h = (s', refl)
FreedHeap-returns s bs sp b n bug h = absurd h
FreedHeap-returns s bs sp b n out_of_fuel h = absurd h

-- Every call that the client may make returns.
pub record Serves (k : Client) : Type 0 where
  pub allocates :
      (c : Call k.slob)
      → Answers k.slob (c.alloc (record (c.gfp) { is_zero = false }) 0 c.nid) (make c)
  pub frees : All (λ y. (s' : Slob) × (slob_free k.slob y.block y.size ≡ ok s')) k.live

-- On a heap, whatever a client has allocated, written and freed: each further call of `slob_alloc`
-- that it may make returns a block, or NULL where the page allocator has no page, and each of its
-- blocks can be freed; no call meets a BUG_ON or runs for ever.
pub Steps-Serves :
    {s : Slob} {k : Client} (bs : ℕ → Blocks) → IsHeap s bs → Steps (fresh_client s) k → Serves k
Steps-Serves {k} bs heap steps =
    let sound = Steps-IsSound bs heap steps in
    record {
      allocates = λ c. ZeroedOutcome-Answers k sound c (make c) (made k sound c);
      frees =
          All-map _ _
            (λ y l.
              FreedHeap-returns k.slob sound.blocks (page_of y.block) y.block (units y) _
                (freed k sound y l))
            k.live sound.live;
    }
