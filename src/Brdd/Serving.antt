-- ===== src/Brdd/Serving.antt =====
-- The request function ends (CS444_project3_46/brdd.c).
use cs444_operating_systems.Prelude.{
  ℕ, suc, ◌<◌, ◌≡◌, refl, ◌∙◌, Bool, true, false, Option, some, List, [], ◌∷◌, All, length,
}
use cs444_operating_systems.Brdd.{Bytes, CryptoCipher, Params, Device, brdd_transfer}
use cs444_operating_systems.Brdd.RoundTrip.{IsRange, brdd_transfer_lem}
use cs444_operating_systems.Brdd.Requests.{
  Request, Segment, with_buffer, transfer, brdd_request, transfers, segments,
  brdd_request-transfers,
}

-- A computation that gives a result.
pub record Ends {ℓ} {A : Type ℓ} (result : Option A) : Type ℓ where
  pub final : A
  pub returned : result ≡ some final

-- A segment of whole cipher blocks whose offsets an `unsigned long` holds.
pub record IsWhole (params : Params) (tfm : CryptoCipher) (s : Segment) : Type 0 where
  pub blocks : ℕ
  pub range : IsRange params tfm s.sector s.nsect blocks

module _ (params : Params) (tfm : CryptoCipher) (some_bytes : 0 < tfm.blocksize) where
  transfer-Ends :
      (dev : Device) (s : Segment) → IsWhole params tfm s → Ends (transfer params tfm dev s)
  unfolding transfer
  transfer-Ends dev s h = go s.write
    where
      go : (write : Bool) → Ends (brdd_transfer params tfm dev s.sector s.nsect s.buffer write)
      go true =
          let r =
            brdd_transfer_lem params tfm dev s.sector s.nsect h.blocks s.buffer some_bytes
              h.range in
          record { final = _; returned = r.0.returned }
      go false =
          let r =
            brdd_transfer_lem params tfm dev s.sector s.nsect h.blocks s.buffer some_bytes
              h.range in
          record { final = _; returned = r.1.returned }

  transfers-Ends :
      (dev : Device) (ss : List Segment)
      → All (IsWhole params tfm) ss
      → Ends (transfers params tfm dev ss)
  transfers-Ends dev [] h = record { final = (dev, []); returned = refl }
  transfers-Ends dev (s ∷ ss) h =
      let one = transfer-Ends dev s h.0 in
      let rest = transfers-Ends one.final.0 ss h.1 in
      record {
        final = with_buffer one.final.1 rest.final;
        returned = rw one.returned (rw rest.returned refl);
      }

-- A result of the request function, which is that of the transfers one after the other.
pub record Serves (params : Params) (tfm : CryptoCipher) (give_back : Request → Request)
    (dev : Device) (q : List Request) : Type 0 where
  pub result : Device × List Bytes
  pub served : brdd_request params tfm give_back (suc (length (segments q))) dev q ≡ some result
  pub in_order : transfers params tfm dev (segments q) ≡ some result

-- On a queue of file system requests whose segments are whole cipher blocks, of at least one byte,
-- with offsets that an `unsigned long` holds: with as much fuel as there are segments, and one more,
-- the request function gives a device and the buffers, and they are those that the transfers of all segments, made one
-- after the other in the order of the queue, give.
pub brdd_request-Serves :
    (params : Params) (tfm : CryptoCipher) (give_back : Request → Request) (dev : Device)
    (q : List Request)
    → 0 < tfm.blocksize
    → All (λ req. req.is_fs ≡ true) q
    → All (IsWhole params tfm) (segments q)
    → Serves params tfm give_back dev q
brdd_request-Serves params tfm give_back dev q some_bytes fs whole =
    let all = transfers-Ends params tfm some_bytes dev (segments q) whole in
    record {
      result = all.final;
      served = brdd_request-transfers params tfm give_back dev q fs ∙ all.returned;
      in_order = all.returned;
    }
