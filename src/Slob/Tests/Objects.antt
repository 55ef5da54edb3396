-- ===== src/Slob/Tests/Objects.antt =====
-- Objects of caches at concrete states (CS444_project4_46/slob.c).
use cs444_operating_systems.Prelude.{false, some, ◌==◌, if◌then◌else◌}
use cs444_operating_systems.Slob.Tests.{config}
use cs444_operating_systems.Prelude.Int.{pos}
use cs444_operating_systems.Slob.Block.{Ptr, Mem}
use cs444_operating_systems.Slob.Cache.{RcuConfig, KmemCache}

-- A `struct slob_rcu` of 32-bit words: two of the `rcu_head`, and the size. RCU writes nothing here.
abbrev rcu32 : RcuConfig
rcu32 = record { config = config; rcu_bytes = 12; size_offset = 8; call_rcu = λ m head. m }

-- Writes 7 to the first unit.
abbrev seven_first : Mem → Ptr → Mem
seven_first m b x = if x == b then pos 7 else m x

abbrev objects_88 : KmemCache
objects_88 = record { size = 88; align = 8; destroy_by_rcu = false; ctor = some seven_first }
