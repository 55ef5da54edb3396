-- ===== src/Brdd/Requests.antt =====
-- The request function of the RAM disk, and its geometry (CS444_project3_46/brdd.c).
-- A request is a list of segments. `__blk_end_request_cur` is the block layer's: it completes the
-- first segment, and says whether more of them are left. `__blk_end_request_all` is too: the code
-- reads the request again after that, and `give_back` is what it finds.
use mathlib.Core.Option
use cs444_operating_systems.Prelude.{
  ℕ, zero, suc, ◌≡◌, refl, ap, Bool, true, false, Option, none, some, List, [], ◌∷◌, ◌++◌, All,
  length,
}
use cs444_operating_systems.Brdd.{Bytes, CryptoCipher, Params, Device, brdd_transfer}

pub record Segment : Type 0 where
  pub sector : ℕ
  pub nsect : ℕ
  pub buffer : Bytes
  pub write : Bool

-- `is_fs` for a command type of REQ_TYPE_FS; `current` is the first segment.
pub record Request : Type 0 where
  pub is_fs : Bool
  pub current : Segment
  pub more : List Segment

-- `__blk_end_request_cur`, and `blk_fetch_request` when the request is done.
abbrev pub end_request_cur : Request → List Segment → List Request → List Request
end_request_cur req [] q = q
end_request_cur req (s ∷ more) q = record req { current = s; more = more } ∷ q

-- The device, and the buffers of the segments in the order of the transfers.
abbrev pub Served : Type 0
Served = Device × List Bytes

abbrev pub with_buffer : Bytes → Served → Served
with_buffer b r = (r.0, b ∷ r.1)

abbrev pub then_next : Option (Device × Bytes) → (Device → Option Served) → Option Served
then_next none serve = none
then_next (some r) serve = Option.map (with_buffer r.1) (serve r.0)

module _ (params : Params) (tfm : CryptoCipher) where
  unfoldable pub transfer : Device → Segment → Option (Device × Bytes)
  transfer dev s = brdd_transfer params tfm dev s.sector s.nsect s.buffer s.write

  -- The transfers of a list of segments, one after the other.
  abbrev pub transfers : Device → List Segment → Option Served
  transfers dev [] = some (dev, [])
  transfers dev (s ∷ ss) = then_next (transfer dev s) (λ d. transfers d ss)

  -- The loop over the queue, whose head is `req`; none when the fuel is used up. A request that is
  -- not of the file system is ended, and `continue` takes it again.
  unfoldable pub brdd_request :
      (give_back : Request → Request) → ℕ → Device → List Request → Option Served
  unfolding transfer
  brdd_request give_back zero dev q = none
  brdd_request give_back (suc fuel) dev [] = some (dev, [])
  brdd_request give_back (suc fuel) dev (req ∷ q) = elim req.is_fs [
    | false ↦ brdd_request give_back fuel dev (give_back req ∷ q)
    | true ↦
        then_next (transfer dev req.current)
          (λ d. brdd_request give_back fuel d (end_request_cur req req.more q))
  ]

abbrev pub segments : List Request → List Segment
segments [] = []
segments (req ∷ q) = req.current ∷ req.more ++ segments q

module _ (params : Params) (tfm : CryptoCipher) (give_back : Request → Request) where
  -- One request, by induction on its segments behind the first.
  brdd_request-segments :
      (more : List Segment) (req : Request) (dev : Device) (q : List Request)
      → req.is_fs ≡ true
      → ((d : Device)
          → brdd_request params tfm give_back (suc (length (segments q))) d q
            ≡ transfers params tfm d (segments q))
      → brdd_request params tfm give_back
          (suc (length (req.current ∷ more ++ segments q)))
          dev
          (record req { more = more } ∷ q)
        ≡ transfers params tfm dev (req.current ∷ more ++ segments q)
  unfolding brdd_request
  brdd_request-segments [] req dev q fs ih =
      rw fs (ap (then_next (transfer params tfm dev req.current)) (λ i d. ih d i))
  brdd_request-segments (s ∷ more) req dev q fs ih = rw fs (
      ap (then_next (transfer params tfm dev req.current))
        (λ i d. brdd_request-segments more (record req { current = s }) d q fs ih i))

  -- With as much fuel as there are segments, and one more, the request function on a queue of file
  -- system requests does what the transfers of all their segments do, in order, with the same
  -- buffers as the result.
  pub brdd_request-transfers :
      (dev : Device) (q : List Request)
      → All (λ req. req.is_fs ≡ true) q
      → brdd_request params tfm give_back (suc (length (segments q))) dev q
        ≡ transfers params tfm dev (segments q)
  unfolding brdd_request
  brdd_request-transfers dev [] fs = refl
  brdd_request-transfers dev (req ∷ q) fs =
      brdd_request-segments req.more req dev q fs.0 (λ d. brdd_request-transfers d q fs.1)

  -- With a request that is not of the file system at the head of the queue, the request function
  -- runs out of any fuel, where a request that is ended with an error does not turn into one of the
  -- file system.
  pub brdd_request-stuck :
      (fuel : ℕ) (dev : Device) (req : Request) (q : List Request)
      → ((r : Request) → r.is_fs ≡ false → (give_back r).is_fs ≡ false)
      → req.is_fs ≡ false
      → brdd_request params tfm give_back fuel dev (req ∷ q) ≡ none
  unfolding brdd_request
  brdd_request-stuck zero dev req q still other = refl
  brdd_request-stuck (suc fuel) dev req q still other =
      rw other (brdd_request-stuck fuel dev (give_back req) q still (still req other))
