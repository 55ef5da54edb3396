-- ===== src/Brdd/Cipher.antt =====
-- What the RAM disk relies on of the kernel's cipher (CS444_project3_46/brdd.c).
use cs444_operating_systems.Prelude.{ℕ, ◌<◌, ◌≡◌}
use cs444_operating_systems.Brdd.{Bytes, CryptoCipher}

-- A block cipher: decryption undoes encryption, and reads one block only.
pub record IsCipher (tfm : CryptoCipher) : Type 0 where
  pub some_bytes : 0 < tfm.blocksize
  pub inverse : (b : Bytes) (t : ℕ) → t < tfm.blocksize → tfm.decrypt (tfm.encrypt b) t ≡ b t
  pub reads :
      (b c : Bytes)
      → ((u : ℕ) → u < tfm.blocksize → b u ≡ c u)
      → (t : ℕ) → t < tfm.blocksize
      → tfm.decrypt b t ≡ tfm.decrypt c t
