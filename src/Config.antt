-- ===== src/Config.antt =====
-- src/config/openpressod_config.hpp, openpressod_config.cpp and config_defaults.hpp: the values of the
-- configuration file. What reads the file is outside the repository: toml11 (toml::find, which
-- throws, and toml::find_or, which gives its last argument), magic_enum, spdlog's levels, the pull
-- modes of libopenpresso, and the paths that the build defines.
pub mod Constants
pub mod System
pub mod Panel
pub mod Sensors
pub mod Boiler
pub mod Defaults
pub mod Sample
use Prim.Native.String.{String}
use openpressod.Prelude.{ℕ, ℤ, ◌≡◌, Bool, Option, none, some, List}
use openpressod.Messages.{Float}
use openpressod.Results.{Result, ok, err, missing_key}

-- The C++ types that a value is read as. A duration counts its own unit.
pub data Kind : Type 0 where
  boolean text integer natural real milliseconds seconds : Kind

abbrev pub Carrier : Kind → Type 0
Carrier boolean = Bool
Carrier text = String
Carrier integer = ℤ
Carrier natural = ℕ
Carrier real = Float
Carrier milliseconds = ℤ
Carrier seconds = ℤ

pub record ConfigLibrary : Type 1 where
  -- toml::value, and a key path looked up in it; `none` stands for the exception.
  pub Value : Type 0
  pub find : (k : Kind) → Value → List String → Option (Carrier k)
  pub find_or : (k : Kind) → Value → List String → Carrier k → Carrier k
  pub find_or-some :
      (k : Kind) (v : Value) (path : List String) (a b : Carrier k)
      → find k v path ≡ some a
      → find_or k v path b ≡ a
  pub find_or-none :
      (k : Kind) (v : Value) (path : List String) (b : Carrier k)
      → find k v path ≡ none
      → find_or k v path b ≡ b
  -- libopenpresso::PinPull and spdlog::level, with magic_enum's enum_name and enum_cast.
  pub PinPull : Type 0
  pub pull_up : PinPull
  pub pull_name : PinPull → String
  pub pull_cast : String → Option PinPull
  pub pull_cast-name : (p : PinPull) → pull_cast (pull_name p) ≡ some p
  pub LogLevel : Type 0
  pub info : LogLevel
  pub level_name : LogLevel → String
  pub level_cast : String → Option LogLevel
  pub level_cast-name : (l : LogLevel) → level_cast (level_name l) ≡ some l
  -- OPENPRESSOD_DATA_DIR, OPENPRESSOD_SOCKET_PATH, and `/` of std::filesystem::path.
  pub data_dir : String
  pub default_socket_path : String
  pub join_path : String → String → String

-- What `find` gives, or the exception that it throws.
abbrev pub or_missing : {A : Type 0} → List String → Option A → Result A
or_missing path none = err (missing_key path)
or_missing path (some a) = ok a

unfoldable pub required :
    (lib : ConfigLibrary) (k : Kind) → lib.Value → List String → Result (Carrier k)
required lib k v path = or_missing path (lib.find k v path)
