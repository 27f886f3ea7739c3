-- ===== src/Recovery/Lag.antt =====
-- A journal that is behind the filesystem: a record is written after the rename that it records,
-- so an interruption leaves the record of an earlier step with the files of a later one.
use srcmv.Base.{ℕ, ◌≤◌, ◌≡◌, Bool, true, false, arith}
use srcmv.Recovery.State.{
  CommitKind, untouched, backed_up, installed, TargetState, committing, SyntheticTargetObservation,
  RecoveryDisposition,
}
use srcmv.Recovery.Classify.{is_committing, classify_committing, classify_as, classify_recovery}
use srcmv.Fs.Errors.{ok}

-- `commit_rank` of crates/srcmv-fs/src/journal.rs.
unfoldable pub commit_rank : CommitKind → ℕ
commit_rank untouched = 0
commit_rank backed_up = 1
commit_rank installed = 2

-- The first condition of `validate_state_against_originals`: only a file that existed is backed up.
abbrev pub is_recordable : Bool → CommitKind → Bool
is_recordable false backed_up = false
is_recordable _ _ = true

is_committing-earlier :
    (existed : Bool) (before after : CommitKind) (observed : SyntheticTargetObservation)
    → is_recordable existed before ≡ true
    → commit_rank before ≤ commit_rank after
    → is_committing existed after observed ≡ true
    → is_committing existed before observed ≡ true
unfolding is_committing commit_rank
is_committing-earlier true untouched untouched observed r k h = h
is_committing-earlier true untouched backed_up observed r k h = ground arith
is_committing-earlier true untouched installed observed r k h = ground arith
is_committing-earlier true backed_up untouched observed r k h = ground arith
is_committing-earlier true backed_up backed_up observed r k h = h
is_committing-earlier true backed_up installed observed r k h = ground arith
is_committing-earlier true installed untouched observed r k h = ground arith
is_committing-earlier true installed backed_up observed r k h = ground arith
is_committing-earlier true installed installed observed r k h = h
is_committing-earlier false untouched untouched observed r k h = h
is_committing-earlier false untouched backed_up observed r k h = ground arith
is_committing-earlier false untouched installed observed r k h = ground arith
is_committing-earlier false backed_up after observed r k h = ground arith
is_committing-earlier false installed untouched observed r k h = ground arith
is_committing-earlier false installed backed_up observed r k h = ground arith
is_committing-earlier false installed installed observed r k h = h

-- While committing, an observation that is allowed an action with one recorded commit state is
-- allowed the same with every recordable commit state of at most its rank, so that a record that
-- lags behind the renames stays recoverable.
pub classify_recovery-commit_rank :
    (existed : Bool) (before after : TargetState) (observed : SyntheticTargetObservation)
    (disposition : RecoveryDisposition)
    → is_recordable existed before.commit.kind ≡ true
    → commit_rank before.commit.kind ≤ commit_rank after.commit.kind
    → classify_recovery committing existed after observed ≡ ok disposition
    → classify_recovery committing existed before observed ≡ ok disposition
unfolding classify_recovery classify_as classify_committing
classify_recovery-commit_rank existed before after observed disposition r k h =
    ground (arith, is_committing-earlier existed before.commit.kind after.commit.kind observed r k)
