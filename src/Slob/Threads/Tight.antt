-- ===== src/Slob/Threads/Tight.antt =====
-- Threads in the allocator lose no unit and keep no page for nothing (CS444_project4_46/slob.c).
use cs444_operating_systems.Prelude.{ℕ, ◌≡◌, sym, subst, false, ◌∷◌}
use cs444_operating_systems.Slob.Block.{Ptr, slob_units_of}
use cs444_operating_systems.Slob.Segment.{Blocks}
use cs444_operating_systems.Slob.State.{Slob}
use cs444_operating_systems.Slob.Heap.{IsHeap}
use cs444_operating_systems.Slob.Alloc.{cleared}
use cs444_operating_systems.Slob.Alloc.Search.{Allocated}
use cs444_operating_systems.Slob.Alloc.Correct.{cleared-Allocated}
use cs444_operating_systems.Slob.Client as Client
use cs444_operating_systems.Slob.Client.{Client}
use cs444_operating_systems.Slob.Client.Safe.{Step-IsSound, Allocated-IsSound}
use cs444_operating_systems.Slob.Client.Leak.{IsTight, Allocated-NoLeak, Step-NoLeak, Steps-IsTight}
use cs444_operating_systems.Slob.Threads.{
  Ask, System, live_block, Step, find, miss, no_page, get_page, add, write, free, Reach, init,
  later,
}
use cs444_operating_systems.Slob.Threads.Sound.{
  together, IsSafe, found, not_found, added, Reach-IsSafe,
}

module _ (s : System) (h : IsSafe s) (t : IsTight (together s)) where
  -- The same state, with the free blocks of `t`.
  abbrev safe : IsSafe s
  safe = record { sound = t.sound; pending = h.pending; distinct = h.distinct }

  with_block-IsTight :
      (a : Ask) (s' : Slob) (b : Ptr)
      → Allocated s.slob t.sound.blocks b (slob_units_of a.size) s'
      → IsTight (record { slob = cleared a.gfp a.size s' b; live = live_block a b ∷ s.live })
  unfolding Allocated-IsSound
  with_block-IsTight a s' b al =
      let al' = cleared-Allocated s.slob t.sound.blocks a.size a.gfp b s' al in
      record {
        sound =
            Allocated-IsSound (together s) t.sound (cleared a.gfp a.size s' b) b a.size a.some_size
              al';
        none_lost =
            Allocated-NoLeak (together s) t.sound t.none_lost (cleared a.gfp a.size s' b) b a.size
              al';
      }

  client-IsTight : {k : Client} → Client.Step (together s) k → IsTight k
  client-IsTight st = record {
    sound = Step-IsSound (together s) t.sound st;
    none_lost = Step-NoLeak (together s) t.sound t.none_lost st;
  }

  Step-IsTight : {page_to_nid : ℕ → ℕ} {u : System} → Step page_to_nid s u → IsTight (together u)
  Step-IsTight {page_to_nid} (find i a {s'} {b} at e) =
      with_block-IsTight a s' b (found s safe page_to_nid a e).0
  Step-IsTight {page_to_nid} (miss i a at e) =
      subst (λ x. IsTight (record { slob = x; live = s.live }))
        (sym (not_found s safe page_to_nid a e)) t
  Step-IsTight (no_page i a at) = t
  Step-IsTight (get_page i a b at new) = t
  Step-IsTight (add i a b {s'} {c} at e) = with_block-IsTight a s' c (added s safe i a b at e).0
  Step-IsTight (write front y back m at o) = client-IsTight (Client.write front y back m at o)
  Step-IsTight (free front y back at e) = client-IsTight (Client.free front y back at e)

-- From an allocator that holds no page, whatever steps any number of threads make, in any order:
-- every unit of a page that the allocator holds is on its free list or in a block of a thread, and
-- every such page has a block of a thread on it.
pub Reach-IsTight :
    {page_to_nid : ℕ → ℕ} {s : Slob} {t : System} (bs : ℕ → Blocks)
    → IsHeap s bs
    → ((i : ℕ) → (s.page i).is_slab ≡ false)
    → Reach page_to_nid s t
    → IsTight (together t)
Reach-IsTight bs heap unused init = Steps-IsTight bs heap unused Client.here
Reach-IsTight bs heap unused (later {t} r st) =
    Step-IsTight t (Reach-IsSafe bs heap r) (Reach-IsTight bs heap unused r) st
