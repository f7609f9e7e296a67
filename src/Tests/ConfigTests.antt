-- ===== src/Tests/ConfigTests.antt =====
-- The configuration and the description of the machine, for a file with the required keys only.
use Prim.Native.String.{String}
use openpressod.Prelude.{arith, Bool, true, ◌&&◌, not, List, ◌∷◌, none, [], ◌≡◌, refl, ◌∙◌, map}
use openpressod.Results.{Result, ok, err}
use openpressod.Config.{Kind}
use openpressod.Config.Sample.{library, minimal}
use openpressod.Config.Panel.{buttons_pull_mode}
use openpressod.Config.Defaults.{
  optional_keys, AllAbsent, HasDocumentedDefaults, absent-HasDocumentedDefaults,
}
use openpressod.ConfigMaker.Components.{DeviceConfig}
use openpressod.ConfigMaker
use openpressod.ConfigMaker.Wiring.{shape}
use openpressod.ConfigMaker.WellTyped.{IsWellWired, make-IsWellWired}
use openpressod.ConfigMaker.Complete.{returns, present, all_present, required_keys, make-returns}

abbrev all_absent : List (Kind × List String) → Bool
all_absent [] = true
all_absent ((k, path) ∷ l) = not (present library minimal k path) && all_absent l

all_absent-AllAbsent :
    (l : List (Kind × List String)) → all_absent l ≡ true → AllAbsent library minimal l
all_absent-AllAbsent [] h = tt
all_absent-AllAbsent ((k, path) ∷ l) h = (ground arith, all_absent-AllAbsent l (ground arith))

absent-HasDocumentedDefaults_example : HasDocumentedDefaults library minimal
absent-HasDocumentedDefaults_example =
    absent-HasDocumentedDefaults library minimal (all_absent-AllAbsent optional_keys refl)

make-returns_example :
    returns (ConfigMaker.make library minimal)
    ≡ (all_present library minimal required_keys && returns (buttons_pull_mode library minimal))
make-returns_example = make-returns library minimal

-- The required keys are enough.
minimal-returns : returns (ConfigMaker.make library minimal) ≡ true
unfolding buttons_pull_mode
minimal-returns = make-returns_example ∙ refl

abbrev device_of : Result (DeviceConfig library) → DeviceConfig library
device_of (ok d) = d
device_of (err e) = record { components = []; watchdog = none }

abbrev device : DeviceConfig library
device = device_of (ConfigMaker.make library minimal)

returns-device_of : (x : Result (DeviceConfig library)) → returns x ≡ true → x ≡ ok (device_of x)
returns-device_of (ok d) h = refl
returns-device_of (err e) h = absurd (ground arith)

make-IsWellWired_example : IsWellWired (map (shape {lib = library}) device.components)
make-IsWellWired_example =
    make-IsWellWired library minimal device
      (returns-device_of (ConfigMaker.make library minimal) minimal-returns)
