-- ===== src/Brdd/Transfer.antt =====
-- What a transfer does to the disk and to the buffer (CS444_project3_46/brdd.c).
use cs444_operating_systems.Prelude.{
  ℕ, zero, suc, ◌+◌, ◌*◌, ◌^◌, ◌<◌, ◌≤◌, ◌≡◌, refl, ◌∙◌, Option, some, ◌⊎◌, inl, inr, arith, lt→ltb,
  le→ltb,
}
use native.Mathlib.Nat.{mod-eq_of_lt}
use cs444_operating_systems.Brdd.{
  Bytes, CryptoCipher, Params, store, from, encrypt_loop, decrypt_loop,
}

store-in :
    (mem : Bytes) (at len : ℕ) (block : Bytes) (t : ℕ)
    → t < len
    → store mem at len block (at + t) ≡ block t
unfolding store
store-in mem at len block t h = ground arith

store-head :
    (mem : Bytes) (len : ℕ) (block : Bytes) (t : ℕ) → t < len → store mem 0 len block t ≡ block t
unfolding store
store-head mem len block t h = ground arith

store-out :
    (mem : Bytes) (at len : ℕ) (block : Bytes) (x : ℕ)
    → (x < at) ⊎ (at + len ≤ x)
    → store mem at len block x ≡ mem x
unfolding store
store-out mem at len block x h = ground arith

module _ (tfm : CryptoCipher) where
  -- The `m` blocks from `i` on of the buffer are on the disk, encrypted, from `target + i` on.
  abbrev pub Blocks : (m i : ℕ) (origin : Bytes) (target : ℕ) → Bytes → Type 0
  Blocks zero i origin target disk = Unit
  Blocks (suc m) i origin target disk =
      ((t : ℕ) → t < tfm.blocksize → disk (target + i + t) ≡ tfm.encrypt (from origin i) t)
      × Blocks m (i + tfm.blocksize) origin target disk

  pub record Written (m i : ℕ) (origin : Bytes) (target : ℕ) (disk : Bytes) (result : Option Bytes)
      : Type 0 where
    pub final : Bytes
    pub returned : result ≡ some final
    pub blocks : Blocks m i origin target final
    pub kept : (x : ℕ) → (x < target + i) ⊎ (target + i + m * tfm.blocksize ≤ x) → final x ≡ disk x

  -- Where a read leaves the last of the `m` blocks from `i` on: at the start of the buffer.
  abbrev pub LastBlock : (m i : ℕ) (origin : Bytes) (offset : ℕ) → Bytes → Type 0
  LastBlock zero i origin offset read = Unit
  LastBlock (suc zero) i origin offset read =
      (t : ℕ) → t < tfm.blocksize → read t ≡ tfm.decrypt (from origin (offset + i)) t
  LastBlock (suc (suc m)) i origin offset read =
      LastBlock (suc m) (i + tfm.blocksize) origin offset read

  pub record Read (m i : ℕ) (origin : Bytes) (offset : ℕ) (buffer : Bytes) (result : Option Bytes)
      : Type 0 where
    pub final : Bytes
    pub returned : result ≡ some final
    pub last : LastBlock m i origin offset final
    pub kept : (x : ℕ) → tfm.blocksize ≤ x → final x ≡ buffer x
    pub none_read : m ≡ 0 → final ≡ buffer

  LastBlock-suc :
      (m i : ℕ) (origin : Bytes) (offset : ℕ) (read : Bytes)
      → LastBlock m (i + tfm.blocksize) origin offset read
      → (m ≡ 0 → (t : ℕ) → t < tfm.blocksize → read t ≡ tfm.decrypt (from origin (offset + i)) t)
      → LastBlock (suc m) i origin offset read
  LastBlock-suc zero i origin offset read h one = one refl
  LastBlock-suc (suc m) i origin offset read h one = h

module _ (params : Params) (tfm : CryptoCipher) (some_bytes : 0 < tfm.blocksize) where
  pub encrypt_loop-Written :
      (m fuel i nbytes : ℕ) (origin : Bytes) (target : ℕ) (disk : Bytes)
      → i + m * tfm.blocksize ≡ nbytes
      → m < fuel
      → nbytes < 2 ^ params.ulong_bits
      → Written tfm m i origin target disk
          (encrypt_loop params tfm fuel i nbytes origin target disk)
  unfolding encrypt_loop
  encrypt_loop-Written m zero i nbytes origin target disk all enough small = absurd (omega arith)
  encrypt_loop-Written zero (suc fuel) i nbytes origin target disk all enough small = record {
    final = disk;
    returned = rw (le→ltb i nbytes (omega arith)) refl;
    blocks = tt;
    kept = λ x o. refl;
  }
  encrypt_loop-Written (suc m) (suc fuel) i nbytes origin target disk all enough small =
      let block = tfm.encrypt (from origin i) in
      let written = store disk (target + i) tfm.blocksize block in
      let rest =
        encrypt_loop-Written m fuel (i + tfm.blocksize) nbytes origin target written (omega arith)
          (omega arith) small in
      record {
        final = rest.final;
        returned = rw (lt→ltb i nbytes (omega arith)) (
            rw (mod-eq_of_lt {n = i + tfm.blocksize} {m = 2 ^ params.ulong_bits} (omega arith))
              rest.returned);
        blocks = (
          λ t l.
              rest.kept (target + i + t) (inl (omega arith))
              ∙ store-in disk (target + i) tfm.blocksize block t l,
          rest.blocks,
        );
        kept = λ x o.
            rest.kept x (ground arith)
            ∙ store-out disk (target + i) tfm.blocksize block x (ground arith);
      }

  pub decrypt_loop-Read :
      (m fuel i nbytes : ℕ) (origin : Bytes) (offset : ℕ) (buffer : Bytes)
      → i + m * tfm.blocksize ≡ nbytes
      → m < fuel
      → nbytes < 2 ^ params.ulong_bits
      → Read tfm m i origin offset buffer
          (decrypt_loop params tfm fuel i nbytes origin offset buffer)
  unfolding decrypt_loop
  decrypt_loop-Read m zero i nbytes origin offset buffer all enough small = absurd (omega arith)
  decrypt_loop-Read zero (suc fuel) i nbytes origin offset buffer all enough small = record {
    final = buffer;
    returned = rw (le→ltb i nbytes (omega arith)) refl;
    last = tt;
    kept = λ x o. refl;
    none_read = λ z. refl;
  }
  decrypt_loop-Read (suc m) (suc fuel) i nbytes origin offset buffer all enough small =
      let block = tfm.decrypt (from origin (offset + i)) in
      let read = store buffer 0 tfm.blocksize block in
      let rest =
        decrypt_loop-Read m fuel (i + tfm.blocksize) nbytes origin offset read (omega arith)
          (omega arith) small in
      record {
        final = rest.final;
        returned = rw (lt→ltb i nbytes (omega arith)) (
            rw (mod-eq_of_lt {n = i + tfm.blocksize} {m = 2 ^ params.ulong_bits} (omega arith))
              rest.returned);
        last =
            LastBlock-suc tfm m i origin offset rest.final rest.last
              (λ z t l. rw (rest.none_read z) (store-head buffer tfm.blocksize block t l));
        kept = λ x o. rest.kept x o ∙ store-out buffer 0 tfm.blocksize block x (inr (omega arith));
        none_read = λ z. absurd (omega arith);
      }
