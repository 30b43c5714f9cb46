-- ===== src/Brightness.antt =====
-- src/brightness.{h,c}: a handle to one display's brightness, whatever technology drives it, and the
-- calls that list and release all of them. `W` is the world outside: displays, buses, the allocator.
use dimmit.Source.{BrightnessSource}
use dimmit.Base.{Option, List, [], ◌∷◌}
use dimmit.Base.World.{Action, pure, ◌>>◌}
use dimmit.Ddc.{Platform}
use dimmit.Ddc.Sources.{ddc_enumerate_sources}

module _ {W : Type 0} where
  -- `none` is the result -1, `some` the array and its count.
  unfoldable pub brightness_enumerate : Platform W → Action W (Option (List (BrightnessSource W)))
  brightness_enumerate p = ddc_enumerate_sources p

  -- Closes every source. (`ops` and `ops->close` are never NULL: see `BrightnessOps`.)
  unfoldable pub brightness_free : List (BrightnessSource W) → Action W (Unit {0})
  brightness_free [] = pure tt
  brightness_free (s ∷ sources) = do s.ops.close s.ctx; brightness_free sources
