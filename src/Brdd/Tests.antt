-- ===== src/Brdd/Tests.antt =====
-- Runs of the RAM disk (CS444_project3_46/brdd.c).
use cs444_operating_systems.Prelude.{
  ◌-◌, ◌≡◌, refl, true, false, none, [], ◌∷◌, arith, ltb, if◌then◌else◌,
}
use cs444_operating_systems.Prelude.Int.{pos}
use cs444_operating_systems.Brdd.{Bytes, CryptoCipher, Params, Device}
use cs444_operating_systems.Brdd.Cipher.{IsCipher}
use cs444_operating_systems.Brdd.RoundTrip.{
  IsRange, WriteOutcome, ReadOutcome, ReadBack, brdd_transfer_lem, brdd_transfer-ReadBack,
}
use cs444_operating_systems.Brdd.Bounds.{InBounds, brdd_transfer-InBounds}
use cs444_operating_systems.Brdd.Requests.{Request, Segment, brdd_request, brdd_request-stuck}
use cs444_operating_systems.Brdd.Serving.{IsWhole, Serves, brdd_request-Serves}
use cs444_operating_systems.Brdd.Module.{
  Kernel, valid, err_ptr, setkey_of_error, idle, device_size, brdd_init,
}
use cs444_operating_systems.Brdd.Loading.{LoadOutcome, brdd_init-brdd_exit}

abbrev defaults : Params
defaults = record { logical_block_size = 512; nsectors = 1024; ulong_bits = 32 }

-- A cipher with the block size of AES that turns a block around.
abbrev reversing : CryptoCipher
reversing = record {
  blocksize = 16;
  encrypt = λ b t. if ltb t 16 then b (15 - t) else 0;
  decrypt = λ b t. if ltb t 16 then b (15 - t) else 0;
}

reversing-IsCipher : IsCipher reversing
reversing-IsCipher = record {
  some_bytes = omega arith;
  inverse = λ b t h. ground arith;
  reads = λ b c h t l. ground (arith, h (15 - t));
}

abbrev blank : Device
blank = record { size = 524288; bytes = λ x. 0 }

abbrev sevens : Bytes
sevens x = 7

-- One sector is 32 blocks of the cipher.
sector_3 : IsRange defaults reversing 3 1 32
sector_3 = record { whole = refl; low = omega arith; short = omega arith }

brdd_transfer_lem_example :
    WriteOutcome defaults reversing blank 3 1 32 sevens
    × ReadOutcome defaults reversing blank 3 1 32 sevens
brdd_transfer_lem_example =
    brdd_transfer_lem defaults reversing blank 3 1 32 sevens (omega arith) sector_3

brdd_transfer-ReadBack_example : ReadBack defaults reversing blank 3 1 32 sevens (λ x. 0)
brdd_transfer-ReadBack_example =
    brdd_transfer-ReadBack defaults reversing blank 3 1 32 sevens (λ x. 0) reversing-IsCipher
      sector_3

defaults_size : blank.size ≡ device_size defaults
unfolding device_size
defaults_size = refl

brdd_transfer-InBounds_example : InBounds defaults reversing blank 3 1 sevens
brdd_transfer-InBounds_example =
    brdd_transfer-InBounds defaults reversing blank 3 1 31 sevens reversing-IsCipher sector_3
      (omega arith) (omega arith) defaults_size

abbrev write_sevens : Segment
write_sevens = record { sector = 3; nsect = 1; buffer = sevens; write = true }

abbrev two_segments : Request
two_segments = record { is_fs = true; current = write_sevens; more = write_sevens ∷ [] }

-- A request as it was, after it is ended.
abbrev unchanged : Request → Request
unchanged r = r

abbrev command : Request
command = record two_segments { is_fs = false }

brdd_request-stuck_example :
    brdd_request defaults reversing unchanged 100 blank (command ∷ []) ≡ none
brdd_request-stuck_example =
    brdd_request-stuck defaults reversing unchanged 100 blank command [] (λ r h. h) refl

-- Loads with 240 for the parameter `major_num`: with a cipher, and with an error number for one.
abbrev fixed_number : Kernel
fixed_number = record {
  vmalloc = true;
  blk_init_queue = true;
  register_blkdev = pos 0;
  alloc_disk = true;
  crypto_alloc_cipher = valid;
}

brdd_init-brdd_exit_example :
    LoadOutcome defaults (pos 240) fixed_number (brdd_init defaults fixed_number (idle (pos 240)))
brdd_init-brdd_exit_example = brdd_init-brdd_exit defaults (pos 240) fixed_number refl

-- The cipher is an error number.
no_cipher_result :
    (brdd_init defaults (record fixed_number { crypto_alloc_cipher = err_ptr }) (idle (pos 240))).0
    ≡ setkey_of_error
unfolding brdd_init
no_cipher_result = refl

-- 8388609 sectors of 512 bytes have 512 bytes of data.
wrapped_size : device_size (record defaults { nsectors = 8388609 }) ≡ 512
unfolding device_size
wrapped_size = refl

sevens_IsWhole : IsWhole defaults reversing write_sevens
sevens_IsWhole = record { blocks = 32; range = sector_3 }

brdd_request-Serves_example : Serves defaults reversing unchanged blank (two_segments ∷ [])
brdd_request-Serves_example =
    brdd_request-Serves defaults reversing unchanged blank (two_segments ∷ []) (omega arith)
      (refl, tt) (sevens_IsWhole, (sevens_IsWhole, tt))
