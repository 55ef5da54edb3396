-- ===== src/Brdd/Loading.antt =====
-- The ways a load of the RAM disk ends, and an unload (CS444_project3_46/brdd.c).
use cs444_operating_systems.Prelude.{
  ℕ, zero, suc, ◌≡◌, refl, Bool, true, false, ◌⊎◌, inl, inr, Option, none, some, arith, ◌==◌,
  ==-refl, ne→==,
}
use cs444_operating_systems.Prelude.Int.{ℤ, pos, negsuc}
use cs444_operating_systems.Brdd.{Params}
use cs444_operating_systems.Brdd.Module.{
  Held, nothing, State, idle, Pointer, null, err_ptr, valid, Kernel, IsAnswer, registered,
  unregister_blkdev, Result, loaded, enomem, setkey_of_error, device_size, brdd_init, brdd_exit,
}

-- What stays registered for good: a number that the module was asked to take.
abbrev pub kept : (major : ℤ) → Option ℤ
kept (pos zero) = none
kept (pos (suc m)) = some (pos (suc m))
kept (negsuc m) = some (negsuc m)

-- `register_blkdev` gave a number.
pub record IsNumbered (major : ℤ) (k : Kernel) (number : ℕ) : Type 0 where
  pub data_given : k.vmalloc ≡ true
  pub queue_given : k.blk_init_queue ≡ true
  pub answered : k.register_blkdev ≡ pos number

-- What a failed load leaves: by the call that failed, the first one first.
pub data Left (major : ℤ) (k : Kernel) : Held → Type 0 where
  no_data : k.vmalloc ≡ false → Left major k nothing
  no_queue : k.vmalloc ≡ true → k.blk_init_queue ≡ false → Left major k nothing
  no_number :
      (n : ℕ)
      → k.vmalloc ≡ true
      → k.blk_init_queue ≡ true
      → k.register_blkdev ≡ negsuc n
      → Left major k (record nothing { queue = true })
  no_disk :
      (n : ℕ)
      → IsNumbered major k n
      → k.alloc_disk ≡ false
      → Left major k (record nothing { queue = true; blkdev = kept major })
  no_cipher :
      (n : ℕ)
      → IsNumbered major k n
      → k.alloc_disk ≡ true
      → k.crypto_alloc_cipher ≡ null
      → Left major k (record nothing { queue = true; blkdev = kept major; gendisk = true })

pub record IsFailed (major : ℤ) (k : Kernel) (r : Result × State) : Type 0 where
  pub result : r.0 ≡ enomem
  pub left : Left major k r.1.held

-- Everything up to the cipher was given.
pub record IsDisk (params : Params) (major : ℤ) (k : Kernel) (s : State) : Type 0 where
  pub number : ℕ
  pub numbered : IsNumbered major k number
  pub disk_given : k.alloc_disk ≡ true
  pub size : s.size ≡ device_size params
  pub capacity : s.capacity ≡ params.nsectors
  pub major_num : s.major_num ≡ pos number

-- The load goes on with an error pointer as its cipher, and has all the rest.
pub record IsBroken (params : Params) (major : ℤ) (k : Kernel) (r : Result × State) : Type 0 where
  pub disk : IsDisk params major k r.1
  pub cipher_error : k.crypto_alloc_cipher ≡ err_ptr
  pub result : r.0 ≡ setkey_of_error
  pub left : r.1.held ≡ record {
    disk_data = true;
    queue = true;
    blkdev = registered major (pos disk.number);
    gendisk = true;
    cipher = false;
  }

-- The load gives 0; an unload leaves the data, and the number if it was asked for.
pub record IsLoaded (params : Params) (major : ℤ) (k : Kernel) (r : Result × State) : Type 0 where
  pub disk : IsDisk params major k r.1
  pub cipher_given : k.crypto_alloc_cipher ≡ valid
  pub result : r.0 ≡ loaded
  pub unloaded : (brdd_exit r.1).held ≡ record nothing { disk_data = true; blkdev = kept major }

abbrev pub LoadOutcome : Params → ℤ → Kernel → Result × State → Type 0
LoadOutcome params major k r =
    IsLoaded params major k r ⊎ IsFailed major k r ⊎ IsBroken params major k r

-- To give back the answer of `register_blkdev` frees a number that it found, and no other.
unregister-registered :
    (major : ℤ) (n : ℕ)
    → IsAnswer major (pos n)
    → unregister_blkdev (pos n) (registered major (pos n)) ≡ kept major
unregister-registered (pos zero) n law = rw (==-refl n) refl
unregister-registered (pos (suc m)) n law =
    let other : (n == suc m) ≡ false = ne→== n (suc m) (λ e. absurd (omega (arith, e, law))) in
    rw other refl
unregister-registered (negsuc m) n law = refl

module _ (params : Params) (major : ℤ) where
  abbrev kernel : Bool → Bool → ℤ → Bool → Pointer → Kernel
  kernel a b answer d e = record {
    vmalloc = a;
    blk_init_queue = b;
    register_blkdev = answer;
    alloc_disk = d;
    crypto_alloc_cipher = e;
  }

  abbrev Ended : Kernel → Type 0
  Ended k = LoadOutcome params major k (brdd_init params k (idle major))

  numbered : (n : ℕ) (d : Bool) (e : Pointer) → IsNumbered major (kernel true true (pos n) d e) n
  numbered n d e = record { data_given = refl; queue_given = refl; answered = refl }

  brdd_init-numbered :
      (n : ℕ) (d : Bool) (e : Pointer)
      → IsAnswer major (pos n)
      → Ended (kernel true true (pos n) d e)
  unfolding brdd_init brdd_exit
  brdd_init-numbered n false e law = inr (
      inl (record {
        result = refl;
        left = rw (unregister-registered major n law) (no_disk n (numbered n false e) refl);
      }))
  brdd_init-numbered n true null law = inr (
      inl (record {
        result = refl;
        left =
            rw (unregister-registered major n law) (no_cipher n (numbered n true null) refl refl);
      }))
  brdd_init-numbered n true err_ptr law = inr (
      inr (record {
        disk = record {
          number = n;
          numbered = numbered n true err_ptr;
          disk_given = refl;
          size = refl;
          capacity = refl;
          major_num = refl;
        };
        cipher_error = refl;
        result = refl;
        left = refl;
      }))
  brdd_init-numbered n true valid law = inl (record {
    disk = record {
      number = n;
      numbered = numbered n true valid;
      disk_given = refl;
      size = refl;
      capacity = refl;
      major_num = refl;
    };
    cipher_given = refl;
    result = refl;
    unloaded = rw (unregister-registered major n law) refl;
  })

-- A load from an idle module, with `major` for the parameter `major_num` and what is documented of
-- `register_blkdev`, ends in one of three ways. Loaded: every call gave what it was asked for, the
-- device's size is the product as an `int`, the capacity is `nsectors`, and an unload leaves the
-- `vmalloc`ed data and, where `major` is not 0, the number `major` registered. Failed with -ENOMEM:
-- a call answered NULL or a negative number, and what is left is the queue if there was one, the disk
-- if the cipher alone was NULL, and a `major` that is not 0 if it was registered. Or, where
-- `crypto_alloc_cipher` answers an error pointer, the load sets the key of that pointer, with all
-- that it took still held.
pub brdd_init-brdd_exit :
    (params : Params) (major : ℤ) (k : Kernel)
    → IsAnswer major k.register_blkdev
    → LoadOutcome params major k (brdd_init params k (idle major))
unfolding brdd_init
brdd_init-brdd_exit params major k =
    go k.vmalloc k.blk_init_queue k.register_blkdev k.alloc_disk k.crypto_alloc_cipher
  where
    go :
        (a b : Bool) (answer : ℤ) (d : Bool) (e : Pointer)
        → IsAnswer major answer
        → Ended params major (kernel params major a b answer d e)
    go false b answer d e law = inr (inl (record { result = refl; left = no_data refl }))
    go true false answer d e law = inr (inl (record { result = refl; left = no_queue refl refl }))
    go true true (negsuc n) d e law =
        inr (inl (record { result = refl; left = no_number n refl refl refl }))
    go true true (pos n) d e law = brdd_init-numbered params major n d e law
