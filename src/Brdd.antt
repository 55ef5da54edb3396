-- ===== src/Brdd.antt =====
-- CS444_project3_46/brdd.c: the encrypted RAM disk.
-- The bytes of the disk and of a buffer are functions of the offset. An `unsigned long` has
-- `ulong_bits` bits. The cipher is the kernel's: its block size and what it makes of a block are
-- parameters. Printing is left out.
pub mod Cipher
pub mod Transfer
pub mod RoundTrip
pub mod Requests
pub mod Serving
pub mod Bounds
pub mod Module
pub mod Loading
mod Tests
use mathlib.Core.Option
use cs444_operating_systems.Prelude.{
  ℕ, zero, suc, ◌+◌, ◌-◌, ◌*◌, ◌/◌, ◌%◌, ◌^◌, Bool, true, false, Option, none, some, List, [], ◌∷◌,
  leb, ltb, if◌then◌else◌,
}

abbrev pub Bytes : Type 0
Bytes = ℕ → ℕ

-- `struct crypto_cipher` with its key: of a block, the first `blocksize` bytes count.
pub record CryptoCipher : Type 0 where
  pub blocksize : ℕ
  pub encrypt : Bytes → Bytes
  pub decrypt : Bytes → Bytes

-- The module's parameters, and the machine's.
pub record Params : Type 0 where
  pub logical_block_size : ℕ
  pub nsectors : ℕ
  pub ulong_bits : ℕ

pub record Device : Type 0 where
  pub size : ℕ
  pub bytes : Bytes

-- The `len` bytes from `at` on are those of `block`.
unfoldable pub store : Bytes → (at len : ℕ) → Bytes → Bytes
store mem at len block x =
    if leb at x then (if ltb x (at + len) then block (x - at) else mem x) else mem x

-- The bytes that a pointer `origin + i` points to.
abbrev pub from : Bytes → ℕ → Bytes
from origin i u = origin (i + u)

module _ (params : Params) (tfm : CryptoCipher) where
  -- The loop of a write; none when the fuel is used up.
  unfoldable pub encrypt_loop :
      ℕ → (i nbytes : ℕ) (origin : Bytes) (target : ℕ) → Bytes → Option Bytes
  unfolding store
  encrypt_loop zero i nbytes origin target disk = none
  encrypt_loop (suc fuel) i nbytes origin target disk =
      let next = (i + tfm.blocksize) % 2 ^ params.ulong_bits in
      let block = tfm.encrypt (from origin i) in
      let written = store disk (target + i) tfm.blocksize block in
      let rest = encrypt_loop fuel next nbytes origin target written in
      if ltb i nbytes then rest else some disk

  -- The loop of a read, whose target is the start of the buffer in each round.
  unfoldable pub decrypt_loop :
      ℕ → (i nbytes : ℕ) (origin : Bytes) (offset : ℕ) → Bytes → Option Bytes
  unfolding store
  decrypt_loop zero i nbytes origin offset buffer = none
  decrypt_loop (suc fuel) i nbytes origin offset buffer =
      let next = (i + tfm.blocksize) % 2 ^ params.ulong_bits in
      let block = tfm.decrypt (from origin (offset + i)) in
      let read = store buffer 0 tfm.blocksize block in
      let rest = decrypt_loop fuel next nbytes origin offset read in
      if ltb i nbytes then rest else some buffer

  -- `write` chooses the direction. The result is the device and the buffer.
  unfoldable pub brdd_transfer :
      Device → (sector nsect : ℕ) (buffer : Bytes) (write : Bool) → Option (Device × Bytes)
  unfolding encrypt_loop decrypt_loop
  brdd_transfer dev sector nsect buffer true =
      let offset = sector * params.logical_block_size % 2 ^ params.ulong_bits in
      let nbytes = nsect * params.logical_block_size % 2 ^ params.ulong_bits in
      Option.map (λ disk. (record dev { bytes = disk }, buffer))
        (encrypt_loop (suc nbytes) 0 nbytes buffer offset dev.bytes)
  brdd_transfer dev sector nsect buffer false =
      let offset = sector * params.logical_block_size % 2 ^ params.ulong_bits in
      let nbytes = nsect * params.logical_block_size % 2 ^ params.ulong_bits in
      Option.map (λ read. (dev, read)) (decrypt_loop (suc nbytes) 0 nbytes dev.bytes offset buffer)
