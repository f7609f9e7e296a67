-- ===== src/ConfigMaker/WellTyped.antt =====
-- Every description that is made can be built, and has what the daemon asks for.
use mathlib.Core.Path.{subst}
use openpressod.Prelude.{true, [], List, map, ◌≡◌, sym, arith}
use openpressod.Results.{ok, >>=-returns}
use openpressod.Config.{ConfigLibrary}
use openpressod.ConfigMaker.Components.{DeviceConfig}
use openpressod.ConfigMaker.Wiring.{
  Shape, shape, find_role, Resolved, AllResolved, distinct, left_after, wiring, wiring-AllResolved,
  wiring-distinct, wiring-left, in_order-Gives, component_configs-Gives,
}
use openpressod.ConfigMaker.Clients.{daemon_uses}
use openpressod.ConfigMaker.{make, in_order, component_configs}

-- What makes a description fit for use.
pub record IsWellWired (all : List Shape) : Type 0 where
  -- Each reference names a component of the kind that it is for.
  pub resolved : AllResolved all all
  -- No two components have the same label.
  pub distinct_labels : distinct all ≡ true
  -- In six rounds each component can be built from those that are built already.
  pub buildable : left_after 6 all ≡ []
  -- What the daemon's classes ask for is there, and of the kind they ask for.
  pub served : Resolved daemon_uses all

wiring-served : Resolved daemon_uses wiring
unfolding find_role
wiring-served = ground arith

wiring-IsWellWired : IsWellWired wiring
wiring-IsWellWired = record {
  resolved = wiring-AllResolved;
  distinct_labels = wiring-distinct;
  buildable = wiring-left;
  served = wiring-served;
}

make-shapes :
    (lib : ConfigLibrary) (config : lib.Value) (d : DeviceConfig lib)
    → make lib config ≡ ok d
    → map (shape {lib = lib}) d.components ≡ wiring
unfolding make
make-shapes lib config d h =
    let (es, h₁, e) = >>=-returns (in_order (component_configs lib config)) _ d h in
    let q : d.components ≡ es = ground arith in
    rw q (
      in_order-Gives (component_configs lib config) wiring es (component_configs-Gives lib config)
        e)

-- Whatever the configuration file holds, in a description that is made without an exception every
-- label that a component refers to is that of a component of the kind that it needs, no two
-- components have the same label, the references form no circle, and each component that the daemon's
-- classes ask for by its label is there and of the kind that they ask for.
pub make-IsWellWired :
    (lib : ConfigLibrary) (config : lib.Value) (d : DeviceConfig lib)
    → make lib config ≡ ok d
    → IsWellWired (map (shape {lib = lib}) d.components)
make-IsWellWired lib config d h =
    subst IsWellWired (sym (make-shapes lib config d h)) wiring-IsWellWired
