-- ===== src/Files.antt =====
-- What the settings managers share: a file on disk, what a write can leave in it, and the JSON
-- functions of protobuf (google/protobuf/util/json_util.h), which are outside this repository.
use Prim.Native.String.{String}
use openpressod.Prelude.{Bool, true, ◌≡◌, Option, some}
use openpressod.Messages.{BrewProfile, UserSettings}

-- A file that does not open, one that opens and fails to be read, and one with a text.
pub data File : Type 0 where
  unreadable : File
  broken : File
  content : String → File

-- How an `ofstream` went: it did not open; `fail()` was set; or it was not. The file afterwards is
-- whatever is left, in the last case too, since the buffer is flushed only after `fail()` was read.
pub data Write : Type 0 where
  refused : Write
  failed : File → Write
  finished : File → Write

-- `MessageToJsonString`, and `JsonStringToMessage` with its status and the message that it leaves.
pub record Json : Type 0 where
  pub print_profile : BrewProfile → Option String
  pub parse_profile : String → Bool × BrewProfile
  pub print_settings : UserSettings → Option String
  pub parse_settings : String → Bool × UserSettings

-- A profile that is printed is read back as it was.
abbrev pub ReadsBack : Json → BrewProfile → String → Type 0
ReadsBack j p s = (j.print_profile p ≡ some s) × (j.parse_profile s ≡ (true, p))

abbrev pub ReadsBackSettings : Json → UserSettings → String → Type 0
ReadsBackSettings j u s = (j.print_settings u ≡ some s) × (j.parse_settings s ≡ (true, u))
