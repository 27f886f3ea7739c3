-- ===== src/Journal/Chain.antt =====
-- A journal that publishes states one after the other: they form a history of valid transitions.
use srcmv.Base.{
  if◌then◌else◌, length, Bytes, bytes_eq, ℕ, suc, ◌≤◌, ◌≡◌, refl, sym, Bool, none, some, List,
  arith, subst,
}
use srcmv.Fs.Errors.{
  state_manifest_checksum_mismatch, state_prior_checksum_mismatch, FsResource,
  projected_transaction_disk_bytes, FsResult, ok, err, >>=-eq-ok, ok_injective,
}
use srcmv.Recovery.State.{preparing}
use srcmv.Journal.State.{TransactionLimits, StateSnapshot, corrupt, option_eq}
use srcmv.Journal.Shape.{validate_state_shape}
use srcmv.Journal.Transition.{validate_state_against_originals}
use srcmv.Journal.History.{History, here, extend}
use srcmv.Journal.Publish.{
  TransactionJournal, Formats, encode_state_record, record_checksum, validate_next, charge_bytes,
  publish_state,
}

-- What a journal says of its last state: it ends a history that began as `Preparing`.
pub data Records (journal : TransactionJournal) : Type 0 where
  nothing : journal.last_state ≡ none → Records journal
  states :
      (start last : StateSnapshot) (n : ℕ)
      → journal.last_state ≡ some last
      → start.sequence ≡ 0
      → start.global_state ≡ preparing
      → History journal.limits start last n
      → validate_state_shape last journal.limits ≡ ok tt
      → validate_state_against_originals last journal.original_existence ≡ ok tt
      → Records journal

-- What a publication that succeeds has checked, and what it leaves.
pub record Published (published : FsResult (Unit {0})) (journal : TransactionJournal)
    (state : StateSnapshot) (after : TransactionJournal) : Type 0 where
  pub checked : validate_next journal.last_state state journal.limits ≡ ok tt
  pub originals : validate_state_against_originals state journal.original_existence ≡ ok tt
  pub shape : validate_state_shape state journal.limits ≡ ok tt
  pub last : after.last_state ≡ some state
  pub same_limits : after.limits ≡ journal.limits
  pub same_originals : after.original_existence ≡ journal.original_existence
  pub within : after.state_record_bytes ≤ journal.limits.state_bytes
  pub durable : published ≡ ok tt

charge_bytes-le :
    (resource : FsResource) (current added limit total : ℕ)
    → charge_bytes resource current added limit ≡ ok total
    → total ≤ limit
unfolding charge_bytes
charge_bytes-le resource current added limit total h = ground arith

pub publish_state-Published :
    (formats : Formats) (published : FsResult (Unit {0})) (journal : TransactionJournal)
    (state : StateSnapshot) (result : TransactionJournal × Bytes)
    → publish_state formats published journal state ≡ ok result
    → Published published journal state result.0
unfolding publish_state encode_state_record
publish_state-Published formats published journal state result h =
    let (a, _, h1) =
      >>=-eq-ok
        (if bytes_eq state.manifest_checksum journal.manifest_checksum
          then ok tt
          else err (corrupt state_manifest_checksum_mismatch))
        _ h in
    let (b, originals, h2) =
      >>=-eq-ok (validate_state_against_originals state journal.original_existence) _ h1 in
    let (c, _, h3) =
      >>=-eq-ok
        (if option_eq bytes_eq state.prior_state_checksum journal.last_checksum
          then ok tt
          else err (corrupt state_prior_checksum_mismatch))
        _ h2 in
    let (d, checked, h4) = >>=-eq-ok (validate_next journal.last_state state journal.limits) _ h3 in
    let (encoded, e, h5) = >>=-eq-ok (encode_state_record formats state journal.limits) _ h4 in
    let (shaped, shape, _) = >>=-eq-ok (validate_state_shape state journal.limits) _ e in
    let (recorded, room, h6) =
      >>=-eq-ok
        (charge_bytes FsResource.state_record_bytes journal.state_record_bytes (length encoded)
          journal.limits.state_bytes)
        _ h5 in
    let (projected, _, h7) =
      >>=-eq-ok
        (charge_bytes projected_transaction_disk_bytes journal.projected_disk_bytes (length encoded)
          journal.limits.projected_disk_bytes)
        _ h6 in
    let (digest, _, h8) = >>=-eq-ok (record_checksum encoded) _ h7 in
    let (g, durable, h9) = >>=-eq-ok published _ h8 in
    let within =
      charge_bytes-le FsResource.state_record_bytes journal.state_record_bytes (length encoded)
        journal.limits.state_bytes recorded room in
    subst (λ (r : TransactionJournal × Bytes). Published published journal state r.0)
      (ok_injective _ result h9)
      (record {
        checked = checked;
        originals = originals;
        shape = shape;
        last = refl;
        same_limits = refl;
        same_originals = refl;
        within = within;
        durable = durable;
      })

first-global :
    (state : StateSnapshot) (limits : TransactionLimits)
    → validate_next none state limits ≡ ok tt
    → (state.sequence ≡ 0) × (state.global_state ≡ preparing)
unfolding validate_next
first-global state limits h = ground arith

Records-move :
    (journal after : TransactionJournal) (state : StateSnapshot) (limits : TransactionLimits)
    (originals : List Bool)
    → after.last_state ≡ some state
    → after.limits ≡ limits
    → after.original_existence ≡ originals
    → (start : StateSnapshot) (n : ℕ) → start.sequence ≡ 0
    → start.global_state ≡ preparing
    → History limits start state n
    → validate_state_shape state limits ≡ ok tt
    → validate_state_against_originals state originals ≡ ok tt
    → Records after
Records-move journal after state limits originals last same existed start n zeroth fresh history
      shape fits =
    states start state n last zeroth fresh (subst (λ l. History l start state n) (sym same) history)
      (subst (λ l. validate_state_shape state l ≡ ok tt) (sym same) shape)
      (subst (λ o. validate_state_against_originals state o ≡ ok tt) (sym existed) fits)

Published-Records :
    (published : FsResult (Unit {0})) (journal after : TransactionJournal) (state : StateSnapshot)
    → Records journal
    → Published published journal state after
    → Records after
unfolding validate_next
Published-Records published journal after state (nothing empty) p =
    let first = first-global state journal.limits (rw empty at p.checked) in
    Records-move journal after state journal.limits journal.original_existence p.last p.same_limits
      p.same_originals state 0 first.0 first.1 here p.shape p.originals
Published-Records published journal after state
      (states start last n ended zeroth fresh history shape fits) p =
    Records-move journal after state journal.limits journal.original_existence p.last p.same_limits
      p.same_originals start (suc n) zeroth fresh (extend history (rw ended at p.checked)) p.shape
      p.originals

-- A journal that has no state, or whose last state is well formed, fits its originals and ends a
-- chain of valid transitions from a state `Preparing` of sequence 0, is such a journal again after
-- a state is published.
pub publish_state-Records :
    (formats : Formats) (published : FsResult (Unit {0})) (journal : TransactionJournal)
    (state : StateSnapshot) (result : TransactionJournal × Bytes)
    → Records journal
    → publish_state formats published journal state ≡ ok result
    → Records result.0
publish_state-Records formats published journal state result records h =
    Published-Records published journal result.0 state records
      (publish_state-Published formats published journal state result h)
