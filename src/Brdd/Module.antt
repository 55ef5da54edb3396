-- ===== src/Brdd/Module.antt =====
-- What loading and unloading the RAM disk sets, takes and gives back (CS444_project3_46/brdd.c).
use cs444_operating_systems.Prelude.{
  ℕ, zero, suc, ◌≡◌, ◌≤◌, Bool, true, false, if◌then◌else◌, ◌*◌, ◌/◌, ◌-◌, ◌%◌, ◌^◌, ◌==◌, ltb,
  Option, none, some,
}
use cs444_operating_systems.Prelude.Int.{ℤ, pos, negsuc}
use cs444_operating_systems.Brdd.{Params}

-- `nsectors * logical_block_size`: an `int`, which wraps, and then an `unsigned long`.
unfoldable pub device_size : Params → ℕ
device_size params =
    let product = params.nsectors * params.logical_block_size % 2 ^ 32 in
    if ltb product (2 ^ 31) then product else 2 ^ params.ulong_bits - (2 ^ 32 - product)

-- What the module holds of the kernel: the `vmalloc`ed data, the request queue, the major number
-- that is registered, the disk, and the cipher.
pub record Held : Type 0 where
  pub disk_data : Bool
  pub queue : Bool
  pub blkdev : Option ℤ
  pub gendisk : Bool
  pub cipher : Bool

abbrev pub nothing : Held
nothing = record {
  disk_data = false;
  queue = false;
  blkdev = none;
  gendisk = false;
  cipher = false;
}

-- `Device.size`, the capacity of the disk, and `major_num`.
pub record State : Type 0 where
  pub size : ℕ
  pub capacity : ℕ
  pub major_num : ℤ
  pub held : Held

-- Before the load, with the module's parameter `major_num`.
abbrev pub idle : ℤ → State
idle major = record { size = 0; capacity = 0; major_num = major; held = nothing }

-- NULL, an error number as a pointer (ERR_PTR), or a valid pointer.
pub data Pointer : Type 0 where
  null : Pointer
  err_ptr : Pointer
  valid : Pointer

-- What the kernel's functions answer in a load; a Bool is false for NULL.
pub record Kernel : Type 0 where
  pub vmalloc : Bool
  pub blk_init_queue : Bool
  pub register_blkdev : ℤ
  pub alloc_disk : Bool
  pub crypto_alloc_cipher : Pointer

-- Documented of `register_blkdev`: asked for 0 it answers the number that it found, and for any
-- other number 0; a negative answer is an error.
abbrev pub IsAnswer : (asked answer : ℤ) → Type 0
IsAnswer asked (negsuc n) = Unit
IsAnswer (pos zero) (pos n) = 1 ≤ n
IsAnswer (pos (suc m)) (pos n) = n ≡ 0
IsAnswer (negsuc m) (pos n) = n ≡ 0

-- The number that is registered then.
abbrev pub registered : (asked answer : ℤ) → Option ℤ
registered asked (negsuc n) = none
registered (pos zero) (pos n) = some (pos n)
registered (pos (suc m)) (pos n) = some (pos (suc m))
registered (negsuc m) (pos n) = some (negsuc m)

abbrev pub same_number : ℤ → ℤ → Bool
same_number (pos m) (pos n) = m == n
same_number (pos m) (negsuc n) = false
same_number (negsuc m) (pos n) = false
same_number (negsuc m) (negsuc n) = m == n

-- Gives a number back, if it is the one that is registered.
abbrev pub unregister_blkdev : ℤ → Option ℤ → Option ℤ
unregister_blkdev n none = none
unregister_blkdev n (some m) = if same_number n m then none else some m

-- 0, -ENOMEM, or a call of `crypto_cipher_setkey` with an error number in place of a cipher.
pub data Result : Type 0 where
  loaded : Result
  enomem : Result
  setkey_of_error : Result

-- The labels `out` and `out_unregister`.
abbrev pub out : State → Result × State
out s = (enomem, record s { held = record (s.held) { disk_data = false } })

abbrev pub out_unregister : State → Result × State
out_unregister s =
    out
      (record s { held = record (s.held) { blkdev = unregister_blkdev s.major_num s.held.blkdev } })

-- From the allocation of the cipher on.
abbrev pub init_cipher : State → Pointer → Result × State
init_cipher s null = out_unregister s
init_cipher s err_ptr = (setkey_of_error, s)
init_cipher s valid = (loaded, record s { held = record (s.held) { cipher = true } })

-- From the answer of `register_blkdev` on.
abbrev pub init_number : Params → Kernel → State → ℤ → Result × State
init_number params k s (negsuc n) = out (record s { major_num = negsuc n })
init_number params k s (pos n) =
    let named = record s {
      major_num = pos n;
      held = record (s.held) { blkdev = registered s.major_num (pos n) };
    } in
    if k.alloc_disk
    then init_cipher
        (record named { capacity = params.nsectors; held = record (named.held) { gendisk = true } })
        k.crypto_alloc_cipher
    else out_unregister named

unfoldable pub brdd_init : Params → Kernel → State → Result × State
unfolding device_size
brdd_init params k s0 =
    let s1 = record s0 { size = device_size params } in
    if k.vmalloc
    then (let s2 = record s1 { held = record (s1.held) { disk_data = true } } in
        if k.blk_init_queue
        then init_number params k (record s2 { held = record (s2.held) { queue = true } })
            k.register_blkdev
        else out s2)
    else (enomem, s1)

unfoldable pub brdd_exit : State → State
brdd_exit s = record s {
  held = record (s.held) {
    gendisk = false;
    cipher = false;
    blkdev = unregister_blkdev s.major_num s.held.blkdev;
    queue = false;
  };
}

-- `size & ~0x3f` is `size` less `size % 64`; `cylinders` is an `unsigned short`.
unfoldable pub brdd_getgeo : Params → (size : ℕ) → ℕ × ℕ × ℕ × ℕ
brdd_getgeo params device_size =
    let size = device_size * (params.logical_block_size / 512) in
    ((size - size % 64) / 64 % 2 ^ 16, 4, 16, 0)
