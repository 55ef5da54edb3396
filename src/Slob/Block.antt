-- ===== src/Slob/Block.antt =====
-- CS444_project4_46/slob.c, `set_slob`, `slob_units`, `slob_next` and `slob_last`: a free block in
-- the memory of a page.
-- A `slob_t *` is the number of a 2-byte unit, and memory holds an `s16` at each. With PAGE_SIZE
-- 4096, `s & PAGE_MASK` is the unit `s / 2048 * 2048`.
use cs444_operating_systems.Prelude.{
  ℕ, ◌+◌, ◌-◌, ◌*◌, ◌/◌, ◌%◌, Bool, true, false, ltb, ◌==◌, if◌then◌else◌,
}
use cs444_operating_systems.Prelude.Int.{ℤ, pos, negsuc, pos_part, neg_part, sub_ℕ, neg, to_s16}

abbrev pub page_size : ℕ
page_size = 4096

-- SLOB_UNIT
abbrev pub slob_unit : ℕ
slob_unit = 2

-- SLOB_UNITS
abbrev pub slob_units_of : ℕ → ℕ
slob_units_of size = (size + 1) / slob_unit

-- SLOB_UNITS(PAGE_SIZE)
abbrev pub page_units : ℕ
page_units = 2048

abbrev pub Ptr : Type 0
Ptr = ℕ

abbrev pub Mem : Type 0
Mem = ℕ → ℤ

abbrev pub write : Mem → Ptr → ℤ → Mem
write m a v x = if a == x then v else m x

-- (slob_t *)((unsigned long)s & PAGE_MASK)
abbrev pub page_base : Ptr → Ptr
page_base s = s / page_units * page_units

abbrev pub is_positive : ℤ → Bool
is_positive (pos n) = ltb 0 n
is_positive (negsuc n) = false

abbrev pub is_negative : ℤ → Bool
is_negative (pos n) = false
is_negative (negsuc n) = true

-- Encode the size and the successor of a free block `s`. The parameter `size` is a `slobidx_t`.
unfoldable pub set_slob : Mem → Ptr → ℕ → Ptr → Mem
set_slob m s size next =
    let size' = to_s16 (pos size) in
    let offset = to_s16 (sub_ℕ next (page_base s)) in
    if ltb 1 (pos_part size')
    then write (write m s size') (s + 1) offset
    else write m s (to_s16 (neg offset))

unfoldable pub slob_units : Mem → Ptr → ℕ
slob_units m s = if is_positive (m s) then pos_part (m s) else 1

-- base + next, for a signed `next`
abbrev pub offset_from : Ptr → ℤ → Ptr
offset_from base z = base + pos_part z - neg_part z

unfoldable pub slob_next : Mem → Ptr → Ptr
slob_next m s =
    offset_from (page_base s) (if is_negative (m s) then to_s16 (neg (m s)) else m (s + 1))

-- Whether `s` is the last free block of its page.
unfoldable pub slob_last : Mem → Ptr → Bool
unfolding slob_next
slob_last m s = slob_next m s % page_units == 0
