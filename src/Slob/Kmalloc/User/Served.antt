-- ===== src/Slob/Kmalloc/User/Served.antt =====
-- A user of `kmalloc` is a client of `slob_alloc`, and each call keeps its headers
-- (CS444_project4_46/slob.c).
use cs444_operating_systems.Prelude.{
  ℕ, ◌+◌, ◌*◌, ◌≤◌, ◌≡◌, refl, sym, ◌∙◌, ap, subst, true, some, List, [], ◌∷◌, arith, All,
}
use cs444_operating_systems.Slob.Block.{Ptr, Mem, slob_units_of}
use cs444_operating_systems.Slob.Segment.{Blocks}
use cs444_operating_systems.Slob.State.{Slob, ok}
use cs444_operating_systems.Slob.Heap.{IsHeap}
use cs444_operating_systems.Slob.Alloc.Correct.{IsAlignment}
use cs444_operating_systems.Slob.Kmalloc.{Config, store_size, load_size, header}
use cs444_operating_systems.Slob.Kmalloc.Correct.{load_size-store_size, store_size-outside}
use cs444_operating_systems.Slob.Client.{Live, Client, Call, holds}
use cs444_operating_systems.Slob.Client as Client
use cs444_operating_systems.Slob.Client.Safe.{All-zip, Same}
use cs444_operating_systems.Slob.Client.Promise.{fresh_client, Steps-Same}
use cs444_operating_systems.Slob.Kmalloc.User.{
  Held, User, Request, request, below, below_all, client,
}
use cs444_operating_systems.Slob.Kmalloc.User.Header.{
  All-below, HasHeader, HasHeader-keep, Made, request-Made,
}

abbrev pub fresh_user : Slob → User
fresh_user s = record { slob = s; held = [] }

-- The content of some blocks stays.
abbrev pub Unchanged : Slob → Slob → List Live → Type 0
Unchanged s s' ys = All (λ z. (x : ℕ) → holds z x ≡ true → s'.mem x ≡ s.mem x) ys

module _ (c : Config) (a : ℕ) (even : c.minalign ≡ 2 * a) (wide : 2 ≤ a)
    (divides : IsAlignment c.minalign) (s₀ : Slob) (bs : ℕ → Blocks) (heap : IsHeap s₀ bs) where
  -- The user is a client of the allocator underneath, and its headers are in place.
  pub record IsKept (k : User) : Type 0 where
    pub steps : Client.Steps (fresh_client s₀) (client c k)
    pub headers : All (HasHeader c a even wide k.slob) k.held

  abbrev pub HasIt : Slob → Held → Type 0
  HasIt = HasHeader c a even wide

  -- Headers that a step of the client leaves alone.
  pub keep_all :
      (s s' : Slob) (ys : List Held)
      → Unchanged s s' (below_all c ys)
      → All (HasIt s) ys
      → All (HasIt s') ys
  keep_all s s' ys same h =
      All-zip (λ y. (x : ℕ) → holds (below c y) x ≡ true → s'.mem x ≡ s.mem x) (HasIt s) (HasIt s')
        (λ y k l. HasHeader-keep c a even wide y l k) ys (All-below c _ ys same) h

  abbrev pub the_call : {s : Slob} → Request c s → Call s
  the_call r = record {
    page_to_nid = c.page_to_nid;
    alloc = r.alloc;
    size = r.size + c.minalign;
    gfp = c.allowed r.gfp;
    align = c.minalign;
    nid = r.nid;
    some_size = omega (arith, r.some_size);
    small = omega (arith, r.small);
    divides = divides;
    fresh = r.fresh;
  }

  module _ (k : User) (kept : IsKept k) where
    open kept use {steps, headers}

    -- A call that gives a block: the client allocates, then writes the header.
    module _ {s' : Slob} {b : Ptr} (r : Request c k.slob) (e : request c r ≡ ok (s', some b)) where
      abbrev made : Made c a even wide k.slob r s' b
      made = request-Made c a even wide k.slob r s' b e

      abbrev made_below : Live
      made_below = record { block = made.made_at; size = r.size + c.minalign }

      abbrev stored : Mem
      stored = store_size made.made_slob.mem made.made_at r.size

      abbrev allocated : Client
      allocated = record { slob = made.made_slob; live = made_below ∷ below_all c k.held }

      abbrev with_size : Client
      with_size = record { slob = record (made.made_slob) { mem = stored }; live = allocated.live }

      abbrev allocates : Client.Step (client c k) allocated
      allocates = Client.allocate (the_call r) made.made_run

      abbrev stores : Client.Step allocated with_size
      stores = Client.write [] made_below (below_all c k.held) stored refl (λ x o.
          store_size-outside made.made_slob.mem made.made_at r.size
            (slob_units_of (r.size + c.minalign)) x (omega (arith, r.some_size)) o)

      abbrev user_after : User
      user_after = record { slob = s'; held = record { block = b; size = r.size } ∷ k.held }

      at_header : made.made_at ≡ header c b
      at_header = omega (arith, made.made_block)

      with_size-client : with_size ≡ client c user_after
      with_size-client i = record {
        slob = sym made.made_header i;
        live = record { block = at_header i; size = r.size + c.minalign } ∷ below_all c k.held;
      }

      pub kmallocs-same : Unchanged k.slob s' (below_all c k.held)
      kmallocs-same =
          All-zip (Same (client c k) allocated) (Same allocated with_size)
            (λ z. (x : ℕ) → holds z x ≡ true → s'.mem x ≡ k.slob.mem x)
            (λ z p q x h. ap (λ t. t.mem x) made.made_header ∙ q x h ∙ p x h) (below_all c k.held)
            (Steps-Same bs heap steps allocates)
            (Steps-Same bs heap (Client.later steps allocates) stores)

      known_size : load_size s'.mem (header c b) ≡ r.size
      known_size =
          ap (λ t. load_size t.mem (header c b)) made.made_header
          ∙ ap (λ t. load_size stored t) (sym at_header)
          ∙ load_size-store_size made.made_slob.mem made.made_at r.size (omega (arith, r.small))

      pub kmallocs-IsKept : IsKept user_after
      kmallocs-IsKept = record {
        steps =
            subst (Client.Steps (fresh_client s₀)) with_size-client
              (Client.later (Client.later steps allocates) stores);
        headers = (
          record {
            behind = omega (arith, made.made_block);
            known = known_size;
            some_size = r.some_size;
            small = r.small;
          },
          keep_all k.slob s' k.held kmallocs-same headers,
        );
      }
