-- ===== src/Transaction/Filesystem.antt =====
-- What transaction.rs asks of the operating system, for the three locations of each target.
use srcmv.Base.{is_some, ℕ, ◌≡◌, ◌≢◌, Bool, Option, none}
use srcmv.Fs.Errors.{FsResult, ok}
use srcmv.Transaction.Manifest.{Fingerprint}

-- The target path, the generated candidate name and the generated backup name.
pub data Place : Type 0 where
  at_target at_candidate at_backup : Place

abbrev pub Location : Type 0
Location = ℕ × Place

-- The system calls, over the states `W` of the disk. `fingerprint` inspects and reads a location,
-- `rename` is `renameat2` with `NOREPLACE`, `metadata` is `fs::metadata`, whose "not found" is
-- the answer `false`, `target_paths` is the validation of the path and its parent, and
-- `revalidate_control` is `revalidate_control_identities` of the lock. A call that fails leaves
-- what the others read.
pub record Filesystem (W : Type 0) : Type 0 where
  pub target_paths : ℕ → W → FsResult (Unit {0})
  pub fingerprint : Location → W → FsResult (Option Fingerprint)
  pub metadata : Location → W → FsResult Bool
  pub rename : Location → Location → W → FsResult W
  pub remove_file : Location → W → FsResult W
  pub mode_of : Location → W → FsResult ℕ
  pub set_mode : Location → ℕ → W → FsResult W
  pub sync : W → FsResult (Unit {0})
  pub publish_record : ℕ → W → FsResult W
  pub validate_partial : Location → W → FsResult (Unit {0})
  pub revalidate_control : W → FsResult (Unit {0})

-- The documented effect of the calls that succeed, on what is at each location.
pub record FilesystemLaws (W : Type 0) (fs : Filesystem W) : Type 0 where
  pub contents : Location → W → Option Fingerprint
  pub fingerprint_reads :
      (l : Location) (w : W) (seen : Option Fingerprint)
      → fs.fingerprint l w ≡ ok seen
      → seen ≡ contents l w
  pub metadata_reads :
      (l : Location) (w : W) (found : Bool)
      → fs.metadata l w ≡ ok found
      → found ≡ is_some (contents l w)
  pub rename_moves :
      (a b : Location) (w after : W)
      → fs.rename a b w ≡ ok after
      → (contents b w ≡ none)
        × (contents b after ≡ contents a w)
        × (contents a after ≡ none)
        × ((l : Location) → l ≢ a → l ≢ b → contents l after ≡ contents l w)
  pub remove_removes :
      (a : Location) (w after : W)
      → fs.remove_file a w ≡ ok after
      → (contents a after ≡ none) × ((l : Location) → l ≢ a → contents l after ≡ contents l w)
  pub set_mode_keeps :
      (a : Location) (mode : ℕ) (w after : W)
      → fs.set_mode a mode w ≡ ok after
      → (l : Location) → contents l after ≡ contents l w
  pub publish_keeps :
      (sequence : ℕ) (w after : W)
      → fs.publish_record sequence w ≡ ok after
      → (l : Location) → contents l after ≡ contents l w
