-- ===== src/Transaction/Run.antt =====
-- Running steps over the disk and the journal, with every state that an interruption can leave.
use srcmv.Base.{Bytes, List, [], ◌∷◌, ◌++◌}
use srcmv.Fs.Errors.{FsResult, ok, err}
use srcmv.Journal.State.{StateSnapshot}
use srcmv.Journal.Publish.{TransactionJournal}

-- `Progress`.
pub record Progress : Type 0 where
  pub state : StateSnapshot
  pub checksum : Bytes

pub record World (W : Type 0) : Type 0 where
  pub files : W
  pub journal : TransactionJournal
  pub progress : Progress

-- What a run returns, the world it leaves, and the worlds after each of its effects.
pub record Ran (W T : Type 0) : Type 0 where
  pub trace : List (World W)
  pub value : FsResult T
  pub world : World W

abbrev pub Run : Type 0 → Type 0 → Type 0
Run W T = World W → Ran W T

abbrev pub continue_with :
    {W T U : Type 0} → (T → Run W U) → List (World W) → World W → FsResult T → Ran W U
continue_with next trace world (err e) = record { trace = trace; value = err e; world = world }
continue_with next trace world (ok a) =
    let later = next a world in
    record { trace = trace ++ later.trace; value = later.value; world = later.world }

infixl 5 ◌>>=◌ ◌>>◌
abbrev pub ◌>>=◌ : {W T U : Type 0} → Run W T → (T → Run W U) → Run W U
(first >>= next) world =
    let done = first world in continue_with next done.trace done.world done.value

abbrev pub ◌>>◌ : {W U : Type 0} → Run W (Unit {0}) → Run W U → Run W U
first >> next = first >>= λ _. next

-- A computation without an effect.
abbrev pub pure : {W T : Type 0} → T → Run W T
pure a world = record { trace = []; value = ok a; world = world }

-- A question to the world.
abbrev pub ask : {W T : Type 0} → (World W → FsResult T) → Run W T
ask question world = record { trace = []; value = question world; world = world }

abbrev pub changed_files : {W : Type 0} → World W → FsResult W → Ran W (Unit {0})
changed_files world (err e) = record { trace = []; value = err e; world = world }
changed_files world (ok files) =
    let next = record world { files = files } in
    record { trace = next ∷ []; value = ok tt; world = next }

-- A call that changes the disk.
abbrev pub effect : {W : Type 0} → (W → FsResult W) → Run W (Unit {0})
effect call world = changed_files world (call world.files)
