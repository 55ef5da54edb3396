-- ===== src/Brdd/Bounds.antt =====
-- A transfer stays within the device's data (CS444_project3_46/brdd.c): `brdd_transfer` makes no test
-- of its own, and relies on requests within the capacity that `brdd_init` sets, `nsectors`, and on
-- the size of the data that it sets. The latter is an `int` product, which overflows for a disk of
-- 2 GiB or more.
use cs444_operating_systems.Prelude.{
  ℕ, zero, suc, ◌+◌, ◌*◌, ◌≤◌, ◌<◌, ◌≡◌, sym, ◌∙◌, true, false, some, inl, inr, arith, ltb, ltb→lt,
  Bool-cases, ◌%◌, ◌^◌, lt→ltb,
}
use native.Mathlib.Nat.{mul-le-mul_right}
use cs444_operating_systems.Brdd.{Bytes, CryptoCipher, Params, Device, from, brdd_transfer}
use cs444_operating_systems.Brdd.Module.{device_size}
use cs444_operating_systems.Brdd.Cipher.{IsCipher}
use cs444_operating_systems.Brdd.Transfer.{LastBlock}
use cs444_operating_systems.Brdd.RoundTrip.{IsRange, brdd_transfer_lem}

-- Two reads of the same range show the same first block where the bytes of the range agree.
LastBlock-agree :
    (tfm : CryptoCipher) (m i offset : ℕ) (disk other read read' : Bytes)
    → IsCipher tfm
    → ((x : ℕ) → x < offset + i + suc m * tfm.blocksize → disk x ≡ other x)
    → LastBlock tfm (suc m) i disk offset read
    → LastBlock tfm (suc m) i other offset read'
    → (t : ℕ) → t < tfm.blocksize
    → read t ≡ read' t
LastBlock-agree tfm zero i offset disk other read read' cipher same l l' t h =
    l t h
    ∙ cipher.reads (from disk (offset + i)) (from other (offset + i))
        (λ u k. same (offset + i + u) (omega (arith, k))) t h
    ∙ sym (l' t h)
LastBlock-agree tfm (suc m) i offset disk other read read' cipher same l l' t h =
    LastBlock-agree tfm m (i + tfm.blocksize) offset disk other read read' cipher
      (λ x k. same x (omega (arith, k))) l l' t h

end_le_size :
    (sector nsect nsectors size : ℕ)
    → sector + nsect ≤ nsectors
    → sector * size + nsect * size ≤ nsectors * size
end_le_size sector nsect nsectors size h = let k = mul-le-mul_right size h in omega (arith, k)

-- Below 2^31, the product is not cut.
device_size-small :
    (params : Params)
    → params.nsectors * params.logical_block_size < 2 ^ 31
    → device_size params ≡ params.nsectors * params.logical_block_size
unfolding device_size
device_size-small params small =
    let whole : params.nsectors * params.logical_block_size % 2 ^ 32
        ≡ params.nsectors * params.logical_block_size =
      omega (arith, small) in
    rw (whole, lt→ltb (params.nsectors * params.logical_block_size) (2 ^ 31) small)

-- What is written stands below the device's size, and what is read depends on no byte behind it.
pub record InBounds (params : Params) (tfm : CryptoCipher) (dev : Device) (sector nsect : ℕ)
    (buffer : Bytes) : Type 0 where
  pub disk : Bytes
  pub written :
      brdd_transfer params tfm dev sector nsect buffer true
      ≡ some (record dev { bytes = disk }, buffer)
  pub not_behind : (x : ℕ) → dev.size ≤ x → disk x ≡ dev.bytes x
  pub read : Bytes
  pub has_read : brdd_transfer params tfm dev sector nsect buffer false ≡ some (dev, read)
  pub same_read :
      (other : Bytes)
      → ((x : ℕ) → x < dev.size → dev.bytes x ≡ other x)
      → (read' : Bytes) × (brdd_transfer params tfm
            (record dev { bytes = other })
            sector
            nsect
            buffer
            false
          ≡ some (record dev { bytes = other }, read'))
        × ((x : ℕ) → read x ≡ read' x)

-- With the device's size as `brdd_init` sets it, for fewer than 2^31 bytes in all sectors, and a block
-- cipher, which decrypts what it encrypts and reads no more than a block: a transfer of at least one cipher block, of whole cipher blocks with offsets that an `unsigned long` holds,
-- and within the `nsectors` sectors of the disk's capacity, ends in both directions; to the disk, it changes no byte behind the device's size; from the disk, what it gives does not
-- depend on the bytes behind the device's size.
pub brdd_transfer-InBounds :
    (params : Params) (tfm : CryptoCipher) (dev : Device) (sector nsect m : ℕ) (buffer : Bytes)
    → IsCipher tfm
    → IsRange params tfm sector nsect (suc m)
    → sector + nsect ≤ params.nsectors
    → params.nsectors * params.logical_block_size < 2 ^ 31
    → dev.size ≡ device_size params
    → InBounds params tfm dev sector nsect buffer
brdd_transfer-InBounds params tfm dev sector nsect m buffer cipher range within small set =
    let size = set ∙ device_size-small params small in
    let (w, r) =
      brdd_transfer_lem params tfm dev sector nsect (suc m) buffer cipher.some_bytes range in
    let end = end_le_size sector nsect params.nsectors params.logical_block_size within in
    record {
      disk = w.disk;
      written = w.returned;
      not_behind = λ x h. w.kept x (inr (omega (arith, end, size, h)));
      read = r.read;
      has_read = r.returned;
      same_read = λ other same.
          let r' =
            (brdd_transfer_lem params tfm (record dev { bytes = other }) sector nsect (suc m) buffer
              cipher.some_bytes range).1 in
          (
            r'.read,
            r'.returned,
            λ x. elim (Bool-cases (ltb x tfm.blocksize)) [
              | inl front ↦
                  LastBlock-agree tfm m 0 (sector * params.logical_block_size) dev.bytes other
                    r.read r'.read cipher (λ y k. same y (omega (arith, end, size, range.whole, k)))
                    r.last r'.last x (ltb→lt x tfm.blocksize front)
              | inr behind ↦
                  r.kept x (ground (arith, behind)) ∙ sym (r'.kept x (ground (arith, behind)))
            ],
          );
    }
