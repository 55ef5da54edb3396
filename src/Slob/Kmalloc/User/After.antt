-- ===== src/Slob/Kmalloc/User/After.antt =====
-- What a user of `kmalloc` writes and frees keeps its headers, and leaves its other blocks as they are
-- (CS444_project4_46/slob.c).
use cs444_operating_systems.Prelude.{
  ℕ, ◌+◌, ◌*◌, ◌≤◌, ◌≡◌, sym, ◌∙◌, ap, subst, false, none, List, ◌∷◌, ◌++◌, arith, All,
}
use cs444_operating_systems.Slob.Block.{Mem, slob_units_of}
use cs444_operating_systems.Slob.Segment.{Blocks}
use cs444_operating_systems.Slob.State.{Slob, ok}
use cs444_operating_systems.Slob.Cover.{inside}
use cs444_operating_systems.Slob.Heap.{IsHeap}
use cs444_operating_systems.Slob.Alloc.Correct.{IsAlignment}
use cs444_operating_systems.Slob.Kmalloc.{Config, header, kfree}
use cs444_operating_systems.Slob.Client.{Live, Client, Call, holds}
use cs444_operating_systems.Slob.Client as Client
use cs444_operating_systems.Slob.Client.Sound.{IsLive}
use cs444_operating_systems.Slob.Client.Safe.{All-middle}
use cs444_operating_systems.Slob.Client.Promise.{fresh_client, Steps-IsSound, Steps-Same}
use cs444_operating_systems.Slob.Kmalloc.User.{
  Held, User, Request, request, Step, kmallocs, refused, writes, kfrees, below, below_all, client,
}
use cs444_operating_systems.Slob.Kmalloc.User.Header.{
  All-insert, load_size-frame, below_all-append, HasHeader, request-refused, kfree-below,
}
use cs444_operating_systems.Slob.Kmalloc.User.Served.{
  IsKept, Unchanged, keep_all, the_call, kmallocs-same, kmallocs-IsKept,
}

-- The blocks that a step is not about.
abbrev pub not_about : (c : Config) {k l : User} → Step c k l → List Held
not_about c {k} (kmallocs r e) = k.held
not_about c {k} (refused r e) = k.held
not_about c (writes front y back m at outside) = front ++ back
not_about c (kfrees front y back at e) = front ++ back

module _ (c : Config) (a : ℕ) (even : c.minalign ≡ 2 * a) (wide : 2 ≤ a)
    (divides : IsAlignment c.minalign) (s₀ : Slob) (bs : ℕ → Blocks) (heap : IsHeap s₀ bs)
    (k : User) (kept : IsKept c a even wide divides s₀ bs heap k) where
  open kept use {steps, headers}

  abbrev HasIt : Slob → Held → Type 0
  HasIt = HasHeader c a even wide

  abbrev Kept : User → Type 0
  Kept = IsKept c a even wide divides s₀ bs heap

  module _ (front : List Held) (y : Held) (back : List Held) (at : k.held ≡ front ++ y ∷ back) where
    at_below : below_all c k.held ≡ below_all c front ++ below c y ∷ below_all c back
    at_below = ap (below_all c) at ∙ below_all-append c front (y ∷ back)

    its_header : HasIt k.slob y × All (HasIt k.slob) (front ++ back)
    its_header = All-middle (HasIt k.slob) front y back (subst (All (HasIt k.slob)) at headers)

    its-IsLive : IsLive k.slob (Steps-IsSound bs heap steps).blocks (below c y)
    its-IsLive =
        let sound = Steps-IsSound bs heap steps in
        (All-middle (IsLive k.slob sound.blocks) (below_all c front) (below c y) (below_all c back)
          (subst (All (IsLive k.slob sound.blocks)) at_below sound.live)).0

    module _ (m : Mem)
        (outside : (x : ℕ)
          → inside y.block (slob_units_of y.size) x ≡ false
          → m x ≡ k.slob.mem x) where
      abbrev written : Slob
      written = record (k.slob) { mem = m }

      outside_below :
          (x : ℕ)
          → inside (header c y.block) (slob_units_of (y.size + c.minalign)) x ≡ false
          → m x ≡ k.slob.mem x
      outside_below x o = let h = its_header.0 in outside x (ground (arith, h.behind, h.some_size))

      abbrev writes-below :
          Client.Step (client c k) (record { slob = written; live = below_all c k.held })
      writes-below =
          Client.write (below_all c front) (below c y) (below_all c back) m at_below outside_below

      writes-same : Unchanged k.slob written (below_all c (front ++ back))
      writes-same =
          subst (Unchanged k.slob written) (sym (below_all-append c front back))
            (Steps-Same bs heap steps writes-below)

      its_header_after : HasIt written y
      its_header_after =
          let h = its_header.0 in
          record {
            behind = h.behind;
            known =
                load_size-frame k.slob.mem m (header c y.block)
                  (outside (header c y.block) (ground (arith, h.behind)))
                  (outside (header c y.block + 1) (ground (arith, h.behind)))
                ∙ h.known;
            some_size = h.some_size;
            small = h.small;
          }

      writes-IsKept : Kept (record k { slob = written })
      writes-IsKept = record {
        steps = Client.later steps writes-below;
        headers = subst (All (HasIt written)) (sym at) (
            All-insert (HasIt written) front y back its_header_after (
              keep_all c a even wide divides s₀ bs heap k.slob written (front ++ back) writes-same
                its_header.1));
      }

    module _ {s' : Slob} (e : kfree c k.slob y.block ≡ ok s') where
      abbrev frees-below :
          Client.Step
            (client c k)
            (record { slob = s'; live = below_all c front ++ below_all c back })
      frees-below =
          let sound = Steps-IsSound bs heap steps in
          Client.free (below_all c front) (below c y) (below_all c back) at_below (
            sym (kfree-below c a even wide k.slob sound.blocks y its_header.0 sound.heap its-IsLive)
            ∙ e)

      kfrees-same : Unchanged k.slob s' (below_all c (front ++ back))
      kfrees-same =
          subst (Unchanged k.slob s') (sym (below_all-append c front back))
            (Steps-Same bs heap steps frees-below)

      kfrees-IsKept : Kept (record { slob = s'; held = front ++ back })
      kfrees-IsKept = record {
        steps =
            subst (λ l. Client.Steps (fresh_client s₀) (record { slob = s'; live = l }))
              (sym (below_all-append c front back)) (Client.later steps frees-below);
        headers =
            keep_all c a even wide divides s₀ bs heap k.slob s' (front ++ back) kfrees-same
              its_header.1;
      }

  -- A call that gives nothing.
  module _ {s' : Slob} (r : Request c k.slob) (e : request c r ≡ ok (s', none)) where
    abbrev refused-below : Client.Step (client c k) (client c (record k { slob = s' }))
    refused-below =
        Client.refused (the_call c a even wide divides s₀ bs heap r)
          (request-refused c a even wide k.slob r s' e)

    refused-IsKept : Kept (record k { slob = s' })
    refused-IsKept = record {
      steps = Client.later steps refused-below;
      headers =
          keep_all c a even wide divides s₀ bs heap k.slob s' k.held
            (Steps-Same bs heap steps refused-below) headers;
    }

  pub Step-IsKept : {l : User} → Step c k l → Kept l
  Step-IsKept (kmallocs r e) = kmallocs-IsKept c a even wide divides s₀ bs heap k kept r e
  Step-IsKept (refused r e) = refused-IsKept r e
  Step-IsKept (writes front y back m at outside) = writes-IsKept front y back at m outside
  Step-IsKept (kfrees front y back at e) = kfrees-IsKept front y back at e

  -- The blocks, with their headers, that a step is not about are left as they are.
  pub Step-Unchanged :
      {l : User} (st : Step c k l) → Unchanged k.slob l.slob (below_all c (not_about c st))
  Step-Unchanged (kmallocs r e) = kmallocs-same c a even wide divides s₀ bs heap k kept r e
  Step-Unchanged (refused r e) = Steps-Same bs heap steps (refused-below r e)
  Step-Unchanged (writes front y back m at outside) = writes-same front y back at m outside
  Step-Unchanged (kfrees front y back at e) = kfrees-same front y back at e

  pub Step-headers : {l : User} (st : Step c k l) → All (HasIt k.slob) (not_about c st)
  Step-headers (kmallocs r e) = headers
  Step-headers (refused r e) = headers
  Step-headers (writes front y back m at outside) = (its_header front y back at).1
  Step-headers (kfrees front y back at e) = (its_header front y back at).1
