-- ===== src/Models.antt =====
-- pkg/models.go: the rows of the database, and the database behind `gorm`, which is a parameter.
use radio_chatter.Common.{ℕ, ◌≡◌, List, Option, Bytes, Result, ok}
use radio_chatter.Duration.{Duration}
use radio_chatter.Ffmpeg.{Time}

-- The fields of `gorm.Model` stand first, but for `DeletedAt`: rows that are deleted are not found. The
-- id 0 stands for a row that is not saved yet, and the time 0 for the zero `time.Time`, from which the
-- nanoseconds are counted. The rows that belong to a row are left out where no code fills them in.
pub record Stream : Type 0 where
  pub id : ℕ
  pub created_at : ℕ
  pub updated_at : ℕ
  pub display_name : Bytes
  pub url : Bytes

pub record Transcription : Type 0 where
  pub id : ℕ
  pub created_at : ℕ
  pub updated_at : ℕ
  pub transmission_id : ℕ
  pub content : Bytes

pub record Transmission : Type 0 where
  pub id : ℕ
  pub created_at : ℕ
  pub updated_at : ℕ
  pub timestamp : Time
  pub length : Duration
  pub sha256 : Bytes
  pub chunk_id : ℕ
  pub transcription : Option Transcription

-- `none` is the nil slice.
pub record Chunk : Type 0 where
  pub id : ℕ
  pub created_at : ℕ
  pub updated_at : ℕ
  pub timestamp : Time
  pub sha256 : Bytes
  pub stream_id : ℕ
  pub transmissions : Option (List Transmission)

-- `db.Save` of a pointer: what it leaves in the row, or an error.
pub record Database : Type 1 where
  pub State : Type 0
  pub Error : Type 0
  pub save_chunk : Chunk → State → State × Result Error Chunk
  pub save_transmission : Transmission → State → State × Result Error Transmission

-- `Save` fills in the primary key and the times, and leaves the other fields of the row as they are.
abbrev pub FillsIn : Database → Type 0
FillsIn D =
    (c c' : Chunk) (s : D.State)
    → (D.save_chunk c s).1 ≡ ok c'
    → c' ≡ record c { id = c'.id; created_at = c'.created_at; updated_at = c'.updated_at }
