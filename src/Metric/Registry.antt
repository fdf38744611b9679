-- ===== src/Metric/Registry.antt =====
-- The registry of the Prometheus client, as it is documented: two collectors are equal where they
-- describe the same descriptors; a collector that equals a registered one is refused, and
-- `Unregister` takes out the registered collector that equals its argument.
use go_infrastructure.Prelude.{◌≡◌, Bool, true, false, Option, some, List, GoString}
use go_infrastructure.Metric.{Desc}

pub record Registry (W : Type 0) : Type 0 where
  -- Whether a collector of these descriptors is registered, and so scraped.
  pub holds : List Desc → W → Bool
  pub register : List Desc → W → Option GoString × W
  pub unregister : List Desc → W → W
  pub register_again :
      (ds : List Desc) (w : W)
      → holds ds w ≡ true
      → (err : GoString) × (register ds w ≡ (some err, w))
  pub unregister_lem : (ds : List Desc) (w : W) → holds ds (unregister ds w) ≡ false
