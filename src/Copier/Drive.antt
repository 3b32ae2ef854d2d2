-- ===== src/Copier/Drive.antt =====
-- `DriveClientProtocol` of src/gdrive_turbo_copy/models.py: what the engine asks of Drive. The answers
-- come from a world that each call may change. Drive, the clock and the JSON codec are parameters.
use gdrive_turbo_copy.Prelude.{ℕ, String, Bool, Option, List}
use gdrive_turbo_copy.Prelude.Dict.{Dict}
use gdrive_turbo_copy.Prelude.Int.{Float}
use gdrive_turbo_copy.Models.DriveFile.{FileReply}
use gdrive_turbo_copy.Retry.Loop.{Reply}
use gdrive_turbo_copy.Resume.Payload.{Codec}

-- One page of a listing, and the token of the next.
abbrev pub Page : Type 0
Page = List FileReply × Option String

-- The request body of a copy.
pub record CopyBody : Type 0 where
  pub name : String
  pub parent : Option String
  pub app_properties : Dict String
  pub modified_time : Option String
  pub created_time : Option String
  pub description : Option String

pub record Drive : Type 1 where
  pub World : Type 0
  pub list_children : String → List String → Option String → World → Reply Page × World
  pub list_children_multi : List String → List String → Option String → World → Reply Page × World
  pub get_metadata : String → World → Reply FileReply × World
  pub copy_file : String → CopyBody → Bool → Bool → World → Reply (Option String) × World
  pub create_folder : String → String → Dict String → World → Reply (Option String) × World
  pub search : String → World → Reply (List String) × World
  pub about_user : World → Reply (Option String) × World
  pub get_media : String → World → Reply String × World
  pub create_json_file :
      String → String → String → Dict String → World → Reply (Option String) × World
  pub update_file_content : String → String → World → Reply (Unit {0}) × World
  pub trash_file : String → World → Reply (Unit {0}) × World
  -- `now_iso()`
  pub now : World → String
  pub codec : Codec
  -- How Python prints a size in GB with so many decimals, and a float.
  pub show_gb : ℕ → ℕ → String
  pub show_float : Float → String
