-- ===== src/Brdd/RoundTrip.antt =====
-- Transfers in both directions, and a read of what was written (CS444_project3_46/brdd.c).
use cs444_operating_systems.Prelude.{
  ℕ, zero, suc, ◌+◌, ◌*◌, ◌^◌, ◌<◌, ◌≤◌, ◌≡◌, refl, ◌∙◌, true, false, some, ◌⊎◌, arith,
}
use native.Mathlib.Nat.{mod-eq_of_lt}
use cs444_operating_systems.Brdd.{Bytes, CryptoCipher, Params, Device, from, brdd_transfer}
use cs444_operating_systems.Brdd.Cipher.{IsCipher}
use cs444_operating_systems.Brdd.Transfer.{
  Blocks, encrypt_loop-Written, LastBlock, decrypt_loop-Read,
}

-- A transfer of `m` whole cipher blocks whose offsets an `unsigned long` holds.
pub record IsRange (params : Params) (tfm : CryptoCipher) (sector nsect m : ℕ) : Type 0 where
  pub whole : nsect * params.logical_block_size ≡ m * tfm.blocksize
  pub low : sector * params.logical_block_size < 2 ^ params.ulong_bits
  pub short : nsect * params.logical_block_size < 2 ^ params.ulong_bits

-- What a transfer to the disk gives: the device, with the blocks of the buffer encrypted from the
-- sector's offset on and nothing else changed, and the buffer as it was.
pub record WriteOutcome (params : Params) (tfm : CryptoCipher) (dev : Device) (sector nsect m : ℕ)
    (buffer : Bytes) : Type 0 where
  pub disk : Bytes
  pub returned :
      brdd_transfer params tfm dev sector nsect buffer true
      ≡ some (record dev { bytes = disk }, buffer)
  pub blocks : Blocks tfm m 0 buffer (sector * params.logical_block_size) disk
  pub kept :
      (x : ℕ)
      → (x < sector * params.logical_block_size)
        ⊎ (sector * params.logical_block_size + nsect * params.logical_block_size ≤ x)
      → disk x ≡ dev.bytes x

-- What a transfer from the disk gives: the device as it was, and the buffer with one block changed:
-- its first bytes are those of the last block read, decrypted.
pub record ReadOutcome (params : Params) (tfm : CryptoCipher) (dev : Device) (sector nsect m : ℕ)
    (buffer : Bytes) : Type 0 where
  pub read : Bytes
  pub returned : brdd_transfer params tfm dev sector nsect buffer false ≡ some (dev, read)
  pub last : LastBlock tfm m 0 dev.bytes (sector * params.logical_block_size) read
  pub kept : (x : ℕ) → tfm.blocksize ≤ x → read x ≡ buffer x

blocks-le : (m size nbytes : ℕ) → 0 < size → nbytes ≡ m * size → m < suc nbytes
blocks-le zero size nbytes h e = omega arith
blocks-le (suc m) size nbytes h e = let k = blocks-le m size (m * size) h refl in omega arith

module _ {params : Params} {tfm : CryptoCipher} (some_bytes : 0 < tfm.blocksize) where
  brdd_transfer-write :
      (dev : Device) (sector nsect m : ℕ) (buffer : Bytes)
      → IsRange params tfm sector nsect m
      → WriteOutcome params tfm dev sector nsect m buffer
  unfolding brdd_transfer
  brdd_transfer-write dev sector nsect m buffer h =
      let w =
        encrypt_loop-Written params tfm some_bytes m (suc nbytes) 0 nbytes buffer offset dev.bytes
          (omega (arith, h.whole)) (blocks-le m tfm.blocksize nbytes some_bytes h.whole) h.short in
      record {
        disk = w.final;
        returned = rw (mod-eq_of_lt h.low) (rw (mod-eq_of_lt h.short) (rw w.returned refl));
        blocks = w.blocks;
        kept = λ x o. w.kept x (ground (arith, h.whole));
      }
    where
      nbytes : ℕ
      nbytes = nsect * params.logical_block_size

      offset : ℕ
      offset = sector * params.logical_block_size

  brdd_transfer-read :
      (dev : Device) (sector nsect m : ℕ) (buffer : Bytes)
      → IsRange params tfm sector nsect m
      → ReadOutcome params tfm dev sector nsect m buffer
  unfolding brdd_transfer
  brdd_transfer-read dev sector nsect m buffer h =
      let r =
        decrypt_loop-Read params tfm some_bytes m (suc nbytes) 0 nbytes dev.bytes offset buffer
          (omega (arith, h.whole)) (blocks-le m tfm.blocksize nbytes some_bytes h.whole) h.short in
      record {
        read = r.final;
        returned = rw (mod-eq_of_lt h.low) (rw (mod-eq_of_lt h.short) (rw r.returned refl));
        last = r.last;
        kept = r.kept;
      }
    where
      nbytes : ℕ
      nbytes = nsect * params.logical_block_size

      offset : ℕ
      offset = sector * params.logical_block_size

-- A transfer of whole cipher blocks ends, in both directions. To the disk, it encrypts each block of
-- the buffer into its place, and changes no other byte of the disk. From the disk, it changes the
-- first block of the buffer only, to the last block of the range, decrypted.
pub brdd_transfer_lem :
    (params : Params) (tfm : CryptoCipher) (dev : Device) (sector nsect m : ℕ) (buffer : Bytes)
    → 0 < tfm.blocksize
    → IsRange params tfm sector nsect m
    → WriteOutcome params tfm dev sector nsect m buffer
      × ReadOutcome params tfm dev sector nsect m buffer
brdd_transfer_lem params tfm dev sector nsect m buffer some_bytes h = (
  brdd_transfer-write some_bytes dev sector nsect m buffer h,
  brdd_transfer-read some_bytes dev sector nsect m buffer h,
)

-- The start of a buffer has the last of the `m` blocks from `i` on of another.
abbrev pub LastPlain : (size m i : ℕ) (buffer read : Bytes) → Type 0
LastPlain size zero i buffer read = Unit
LastPlain size (suc zero) i buffer read = (t : ℕ) → t < size → read t ≡ buffer (i + t)
LastPlain size (suc (suc m)) i buffer read = LastPlain size (suc m) (i + size) buffer read

module _ {tfm : CryptoCipher} (cipher : IsCipher tfm) where
  LastBlock-LastPlain :
      (m i target : ℕ) (buffer disk read : Bytes)
      → Blocks tfm m i buffer target disk
      → LastBlock tfm m i disk target read
      → LastPlain tfm.blocksize m i buffer read
  LastBlock-LastPlain zero i target buffer disk read b l = tt
  LastBlock-LastPlain (suc zero) i target buffer disk read b l =
      λ t s. l t s ∙ cipher.reads _ _ b.0 t s ∙ cipher.inverse (from buffer i) t s
  LastBlock-LastPlain (suc (suc m)) i target buffer disk read b l =
      LastBlock-LastPlain (suc m) (i + tfm.blocksize) target buffer disk read b.1 l

-- What is read back of a range that was written.
pub record ReadBack (params : Params) (tfm : CryptoCipher) (dev : Device) (sector nsect m : ℕ)
    (buffer other : Bytes) : Type 0 where
  pub after : Device
  pub read : Bytes
  pub write_returned : brdd_transfer params tfm dev sector nsect buffer true ≡ some (after, buffer)
  pub read_returned : brdd_transfer params tfm after sector nsect other false ≡ some (after, read)
  pub last : LastPlain tfm.blocksize m 0 buffer read
  pub kept : (x : ℕ) → tfm.blocksize ≤ x → read x ≡ other x

-- With a cipher whose decryption undoes its encryption, reading a range of whole cipher blocks
-- after writing it gives back the last block written, at the start of the other buffer, and leaves
-- the rest of that buffer as it was.
pub brdd_transfer-ReadBack :
    (params : Params) (tfm : CryptoCipher) (dev : Device) (sector nsect m : ℕ)
    (buffer other : Bytes)
    → IsCipher tfm
    → IsRange params tfm sector nsect m
    → ReadBack params tfm dev sector nsect m buffer other
brdd_transfer-ReadBack params tfm dev sector nsect m buffer other cipher h =
    let w = brdd_transfer-write cipher.some_bytes dev sector nsect m buffer h in
    let after = record dev { bytes = w.disk } in
    let r = brdd_transfer-read cipher.some_bytes after sector nsect m other h in
    record {
      after = after;
      read = r.read;
      write_returned = w.returned;
      read_returned = r.returned;
      last = LastBlock-LastPlain cipher m 0 _ buffer w.disk r.read w.blocks r.last;
      kept = r.kept;
    }
