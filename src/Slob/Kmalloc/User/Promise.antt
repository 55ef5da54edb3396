-- ===== src/Slob/Kmalloc/User/Promise.antt =====
-- The promise of `kmalloc`, `ksize` and `kfree` to a user (CS444_project4_46/slob.c).
use cs444_operating_systems.Prelude.{
  ℕ, ◌*◌, ◌≤◌, ◌≡◌, ◌∙◌, true, false, Option, none, some, List, [], ◌∷◌, arith, All, Bool-cases,
  inl, inr,
}
use cs444_operating_systems.Slob.Block.{Ptr, slob_units_of}
use cs444_operating_systems.Slob.Segment.{Blocks}
use cs444_operating_systems.Slob.State.{Slob, Run, ok, bug, out_of_fuel, page_of}
use cs444_operating_systems.Slob.Heap.{IsHeap}
use cs444_operating_systems.Slob.Alloc.Correct.{IsAlignment}
use cs444_operating_systems.Slob.Kmalloc.{Config, header, kfree, ksize}
use cs444_operating_systems.Slob.Kmalloc.Correct.{KmallocOutcome, do_kmalloc_node_lem}
use cs444_operating_systems.Slob.Client.{Live, holds}
use cs444_operating_systems.Slob.Client as Client
use cs444_operating_systems.Slob.Client.Sound.{units, IsLive, Apart, AllApart}
use cs444_operating_systems.Slob.Client.Safe.{freed, All-zip}
use cs444_operating_systems.Slob.Client.Promise.{Answers, FreedHeap-returns, Steps-IsSound}
use cs444_operating_systems.Slob.Kmalloc.User.{
  Held, User, Request, request, Step, Steps, here, later, below, below_all, client,
}
use cs444_operating_systems.Slob.Kmalloc.User.Header.{
  All-below, HasHeader, kfree-below, ksize-below,
}
use cs444_operating_systems.Slob.Kmalloc.User.Served.{fresh_user, IsKept}
use cs444_operating_systems.Slob.Kmalloc.User.After.{
  not_about, Step-IsKept, Step-Unchanged, Step-headers,
}

-- The bytes that the user was given.
abbrev pub content : Held → Live
content y = record { block = y.block; size = y.size }

abbrev pub contents : List Held → List Live
contents [] = []
contents (y ∷ ys) = content y ∷ contents ys

-- What holds for a user: each further call of `kmalloc` returns; `ksize` of each block is its size
-- in whole units; each block can be freed; no two blocks share a unit; and a step of the user
-- leaves the content of its other blocks.
pub record IsServed (c : Config) (k : User) : Type 0 where
  pub requests :
      (r : Request c k.slob)
      → Answers k.slob
          (r.alloc (record (c.allowed r.gfp) { is_zero = false }) 0 r.nid)
          (request c r)
  pub sizes : All (λ y. ksize c k.slob y.block ≡ ok (slob_units_of y.size * 2)) k.held
  pub frees : All (λ y. (s' : Slob) × (kfree c k.slob y.block ≡ ok s')) k.held
  pub apart : AllApart (contents k.held)
  pub keeps :
      {l : User} (st : Step c k l)
      → All
          (λ y. (x : ℕ) → holds (content y) x ≡ true → l.slob.mem x ≡ k.slob.mem x)
          (not_about c st)

KmallocOutcome-Answers :
    (c : Config) (s : Slob) (bs : ℕ → Blocks) (size : ℕ) (answer : Option Ptr)
    (r : Run (Slob × Option Ptr))
    → KmallocOutcome c s bs size answer r
    → Answers s answer r
KmallocOutcome-Answers c s bs size answer (ok (s', some b)) h = tt
KmallocOutcome-Answers c s bs size answer (ok (s', none)) h = h
KmallocOutcome-Answers c s bs size answer bug h = h
KmallocOutcome-Answers c s bs size answer out_of_fuel h = h

module _ (c : Config) (a : ℕ) (even : c.minalign ≡ 2 * a) (wide : 2 ≤ a) where
  abbrev HasIt : Slob → Held → Type 0
  HasIt = HasHeader c a even wide

  content-below :
      {s : Slob} (y : Held)
      → HasIt s y
      → (x : ℕ) → holds (content y) x ≡ true
      → holds (below c y) x ≡ true
  content-below y h x i = ground (arith, h.behind, h.some_size)

  content-Apart :
      {s : Slob} (y z : Held)
      → HasIt s y
      → HasIt s z
      → Apart (below c y) (below c z)
      → Apart (content y) (content z)
  content-Apart y z hy hz ap' x i = elim (Bool-cases (holds (content z) x)) [
    | inr out ↦ out
    | inl both ↦
        let o = ap' x (content-below y hy x i) in let o' = content-below z hz x both in absurd (cc)
  ]

  All-content-Apart :
      (s : Slob) (y : Held) (zs : List Held)
      → HasIt s y
      → All (HasIt s) zs
      → All (Apart (below c y)) (below_all c zs)
      → All (Apart (content y)) (contents zs)
  All-content-Apart s y [] hy hs ds = tt
  All-content-Apart s y (z ∷ zs) hy hs ds =
      (content-Apart y z hy hs.0 ds.0, All-content-Apart s y zs hy hs.1 ds.1)

  contents-AllApart :
      (s : Slob) (ys : List Held)
      → All (HasIt s) ys
      → AllApart (below_all c ys)
      → AllApart (contents ys)
  contents-AllApart s [] hs ds = tt
  contents-AllApart s (y ∷ ys) hs ds =
      (All-content-Apart s y ys hs.0 hs.1 ds.0, contents-AllApart s ys hs.1 ds.1)

module _ (c : Config) (a : ℕ) (even : c.minalign ≡ 2 * a) (wide : 2 ≤ a)
    (divides : IsAlignment c.minalign) (s₀ : Slob) (bs : ℕ → Blocks) (heap : IsHeap s₀ bs) where
  unfoldable pub Steps-IsKept :
      {k : User} → Steps c (fresh_user s₀) k → IsKept c a even wide divides s₀ bs heap k
  Steps-IsKept here = record { steps = Client.here; headers = tt }
  Steps-IsKept (later {l} steps st) =
      Step-IsKept c a even wide divides s₀ bs heap l (Steps-IsKept steps) st

  kept-IsServed : (k : User) → IsKept c a even wide divides s₀ bs heap k → IsServed c k
  kept-IsServed k kept =
      let sound = Steps-IsSound bs heap kept.steps in
      let live = All-below c (IsLive k.slob sound.blocks) k.held sound.live in
      record {
        requests = λ r. KmallocOutcome-Answers c k.slob sound.blocks r.size _ _ (
            do_kmalloc_node_lem c r.alloc k.slob sound.blocks r.size a r.gfp r.nid even wide divides
              r.some_size r.small sound.heap r.fresh);
        sizes =
            All-zip (HasIt c a even wide k.slob) (λ y. IsLive k.slob sound.blocks (below c y))
              (λ y. ksize c k.slob y.block ≡ ok (slob_units_of y.size * 2))
              (λ y h l. ksize-below c a even wide k.slob sound.blocks y h sound.heap l) k.held
              kept.headers live;
        frees =
            All-zip (HasIt c a even wide k.slob) (λ y. IsLive k.slob sound.blocks (below c y))
              (λ y. (s' : Slob) × (kfree c k.slob y.block ≡ ok s'))
              (λ y h l.
                let (s', e) =
                  FreedHeap-returns k.slob sound.blocks (page_of (header c y.block))
                    (header c y.block) (units (below c y)) _
                    (freed (client c k) sound (below c y) l) in
                (s', kfree-below c a even wide k.slob sound.blocks y h sound.heap l ∙ e))
              k.held kept.headers live;
        apart = contents-AllApart c a even wide k.slob k.held kept.headers sound.apart;
        keeps = λ {l} st.
            All-zip (HasIt c a even wide k.slob)
              (λ y. (x : ℕ) → holds (below c y) x ≡ true → l.slob.mem x ≡ k.slob.mem x)
              (λ y. (x : ℕ) → holds (content y) x ≡ true → l.slob.mem x ≡ k.slob.mem x)
              (λ y h same x i. same x (content-below c a even wide y h x i)) (not_about c st)
              (Step-headers c a even wide divides s₀ bs heap k kept st)
              (All-below c _ (not_about c st)
                (Step-Unchanged c a even wide divides s₀ bs heap k kept st));
      }

-- From a heap, where the minimal alignment is even, at least 4 and a divisor of the page size, and
-- with page allocators that give pages that the heap does not hold: whatever a user has allocated
-- with `kmalloc` (positive sizes that fit a page with the header), written inside its blocks and
-- freed once with `kfree`, each further such call of `kmalloc` returns a block, or NULL where the
-- page allocator has no page; `ksize` of each of its blocks is the size it asked for, rounded up to
-- whole units; `kfree` of each of them returns; no two of them share a unit; and its next call or
-- write leaves the content of its other blocks.
pub Steps-IsServed :
    (c : Config) (a : ℕ) (s : Slob) (bs : ℕ → Blocks) {k : User}
    → c.minalign ≡ 2 * a
    → 2 ≤ a
    → IsAlignment c.minalign
    → IsHeap s bs
    → Steps c (fresh_user s) k
    → IsServed c k
Steps-IsServed c a s bs {k} even wide divides heap steps =
    kept-IsServed c a even wide divides s bs heap k
      (Steps-IsKept c a even wide divides s bs heap steps)
