-- ===== src/Examples/Recovery.antt =====
-- An interruption between the installation of a candidate and its record.
use srcmv.Base.{◌≡◌, refl, ◌⊎◌, true, none, some, arith}
use srcmv.Recovery.State.{
  ready, untouched, installed, CommitState, not_restored, TargetState, committing, original,
  candidate, absent, SyntheticTargetObservation,
}
use srcmv.Recovery.Classify.{
  completion_and_rollback, is_committing, classify_committing, classify_as, classify_recovery,
}
use srcmv.Recovery.Safety.{
  disposition_of, classify_recovery-original, classify_recovery-candidate,
  classify_recovery-disposition_of,
}
use srcmv.Recovery.Lag.{commit_rank, classify_recovery-commit_rank}
use srcmv.Fs.Errors.{ok}

abbrev recorded : CommitState → TargetState
recorded commit = record {
  target_index = 0;
  candidate = record { kind = ready; identity = some (record { device = 1; inode = 9 }) };
  commit = commit;
  rollback = record { kind = not_restored; identity = none };
}

abbrev before : TargetState
before = recorded (record { kind = untouched; identity = none; preserved_mode = none })

abbrev after : TargetState
after = recorded (record {
  kind = installed;
  identity = some (record { device = 1; inode = 9 });
  preserved_mode = some 420;
})

abbrev swapped : SyntheticTargetObservation
swapped = record {
  parent_matches = true;
  target = candidate;
  candidate = absent;
  backup = original;
}

after-allowed : classify_recovery committing true after swapped ≡ ok completion_and_rollback
unfolding classify_recovery classify_as classify_committing is_committing
after-allowed = refl

classify_recovery-original_example : (swapped.target ≡ original) ⊎ (swapped.backup ≡ original)
classify_recovery-original_example =
    classify_recovery-original committing after swapped completion_and_rollback after-allowed

classify_recovery-candidate_example : (swapped.target ≡ candidate) ⊎ (swapped.candidate ≡ candidate)
classify_recovery-candidate_example =
    classify_recovery-candidate committing true after swapped completion_and_rollback after-allowed
      refl

classify_recovery-disposition_of_example : completion_and_rollback ≡ disposition_of committing
classify_recovery-disposition_of_example =
    classify_recovery-disposition_of committing true after swapped completion_and_rollback
      after-allowed

classify_recovery-commit_rank_example :
    classify_recovery committing true before swapped ≡ ok completion_and_rollback
unfolding commit_rank
classify_recovery-commit_rank_example =
    classify_recovery-commit_rank true before after swapped completion_and_rollback refl
      (omega arith) after-allowed
