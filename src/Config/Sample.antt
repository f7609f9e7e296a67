-- ===== src/Config/Sample.antt =====
-- A library that meets the laws, with a file as the value of each key, and a file that holds the
-- required keys.
use Prim.Native.String.{String}
use package.text.Mathlib.Text.{◌==◌}
use openpressod.Prelude.{
  pos, Bool, true, false, Option, none, some, List, [], ◌∷◌, ◌≡◌, refl, arith, if◌then◌else◌,
}
use openpressod.Config.{
  ConfigLibrary, Kind, Carrier, boolean, text, integer, natural, real, milliseconds, seconds,
}

abbrev pub File : Type 0
File = (k : Kind) → List String → Option (Carrier k)

abbrev pub value_or : {A : Type 0} → Option A → A → A
value_or none a = a
value_or (some b) a = b

pub value_or-some : {A : Type 0} (o : Option A) (a b : A) → o ≡ some a → value_or o b ≡ a
value_or-some o a b h = ground arith

pub value_or-none : {A : Type 0} (o : Option A) (b : A) → o ≡ none → value_or o b ≡ b
value_or-none o b h = ground arith

-- Two pull modes, as the Booleans.
abbrev pub pull_of : String → Option Bool
pull_of s = if s == "PullUp" then some true else if s == "None" then some false else none

abbrev pub name_of : Bool → String
name_of b = if b then "PullUp" else "None"

pub pull_of-name : (b : Bool) → pull_of (name_of b) ≡ some b
pull_of-name true = refl
pull_of-name false = refl

abbrev pub library : ConfigLibrary
library = record {
  Value = File;
  find = λ k v path. v k path;
  find_or = λ k v path a. value_or (v k path) a;
  find_or-some = λ k v path a b h. value_or-some (v k path) a b h;
  find_or-none = λ k v path b h. value_or-none (v k path) b h;
  PinPull = Bool;
  pull_up = true;
  pull_name = name_of;
  pull_cast = pull_of;
  pull_cast-name = pull_of-name;
  LogLevel = Bool;
  info = true;
  level_name = name_of;
  level_cast = pull_of;
  level_cast-name = pull_of-name;
  data_dir = "/var/lib/openpressod";
  default_socket_path = "/run/openpresso/openpresso.sock";
  join_path = λ a b. b;
}

abbrev is_i2c : List String → Bool
is_i2c (t ∷ k ∷ []) = k == "i2c_addr"
is_i2c _ = false

abbrev is_pump : List String → Bool
is_pump (t ∷ k ∷ []) = t == "pump"
is_pump _ = false

-- The required keys and no other.
abbrev pub minimal : File
minimal boolean path = none
minimal text path = none
minimal integer path = if is_pump path then some (pos 18500) else none
minimal natural path = if is_i2c path then none else some 17
minimal real path = some 0
minimal milliseconds path = none
minimal seconds path = none
