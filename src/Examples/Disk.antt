-- ===== src/Examples/Disk.antt =====
-- A disk that is a function from locations to contents, and its calls.
use srcmv.Base.{
  ◌==◌, if◌then◌else◌, ==_iff, Bool-cases, is_some, ◌≡◌, refl, sym, ap, ◌∙◌, ◌≢◌, inl, inr, Bool,
  true, false, ◌&&◌, Option, none, some, arith,
}
use srcmv.Fs.Errors.{recorded_original_mismatch, recovery_conflict, FsResult, ok, err, ok_injective}
use srcmv.Transaction.Manifest.{Fingerprint}
use srcmv.Transaction.Filesystem.{
  Place, at_target, at_candidate, at_backup, Location, Filesystem, FilesystemLaws,
}

abbrev pub Disk : Type 0
Disk = Location → Option Fingerprint

abbrev pub place_eq : Place → Place → Bool
place_eq at_target at_target = true
place_eq at_candidate at_candidate = true
place_eq at_backup at_backup = true
place_eq _ _ = false

abbrev pub location_same : Location → Location → Bool
location_same a b = (a.0 == b.0) && place_eq a.1 b.1

abbrev pub put : Location → Option Fingerprint → Disk → Disk
put a content disk l = if location_same l a then content else disk l

-- A rename onto a location that is taken fails.
abbrev pub move_file : Location → Location → Disk → FsResult Disk
move_file a b disk = elim (disk b) [
  | some taken ↦ err (recovery_conflict recorded_original_mismatch)
  | none ↦ ok (put a none (put b (disk a) disk))
]

abbrev pub disk_calls : Filesystem Disk
disk_calls = record {
  target_paths = λ index disk. ok tt;
  fingerprint = λ l disk. ok (disk l);
  metadata = λ l disk. ok (is_some (disk l));
  rename = move_file;
  remove_file = λ l disk. ok (put l none disk);
  mode_of = λ l disk. ok 420;
  set_mode = λ l mode disk. ok disk;
  sync = λ disk. ok tt;
  publish_record = λ sequence disk. ok disk;
  validate_partial = λ l disk. ok tt;
  revalidate_control = λ disk. ok tt;
}

place_eq→eq : (a b : Place) → place_eq a b ≡ true → a ≡ b
place_eq→eq at_target at_target h = refl
place_eq→eq at_candidate at_candidate h = refl
place_eq→eq at_backup at_backup h = refl
place_eq→eq _ _ h = cc

location_same→eq : (a b : Location) → location_same a b ≡ true → a ≡ b
location_same→eq (i, p) (j, q) h =
    let same : i ≡ j = ground (arith, ==_iff i j) in
    let place : p ≡ q = place_eq→eq p q (ground arith) in cc

place_eq_refl : (p : Place) → place_eq p p ≡ true
place_eq_refl at_target = refl
place_eq_refl at_candidate = refl
place_eq_refl at_backup = refl

location_same_refl : (a : Location) → location_same a a ≡ true
location_same_refl (i, p) = let same : (i == i) ≡ true = ground arith in rw same (place_eq_refl p)

pub put_at :
    (a : Location) (content : Option Fingerprint) (disk : Disk) → put a content disk a ≡ content
put_at a content disk = rw (location_same_refl a)

pub put_elsewhere :
    (a l : Location) (content : Option Fingerprint) (disk : Disk)
    → l ≢ a
    → put a content disk l ≡ disk l
put_elsewhere a l content disk away = elim (Bool-cases (location_same l a)) [
  | inl same ↦ absurd (away (location_same→eq l a same))
  | inr other ↦ rw other
]

move_file-put :
    (a b : Location) (disk after : Disk)
    → move_file a b disk ≡ ok after
    → (disk b ≡ none) × (put a none (put b (disk a) disk) ≡ after)
move_file-put a b disk after h = ground arith

put_over :
    (a b : Location) (disk : Disk) → disk b ≡ none → put a none (put b (disk a) disk) b ≡ disk a
put_over a b disk free = elim (Bool-cases (location_same b a)) [
  | inl same ↦ let place = location_same→eq b a same in rw same (sym free ∙ ap disk place)
  | inr other ↦ rw other (put_at b (disk a) disk)
]

pub moves_files :
    (a b : Location) (disk after : Disk)
    → move_file a b disk ≡ ok after
    → (disk b ≡ none)
      × (after b ≡ disk a)
      × (after a ≡ none)
      × ((l : Location) → l ≢ a → l ≢ b → after l ≡ disk l)
moves_files a b disk after h =
    let (free, made) = move_file-put a b disk after h in
    let at : (l : Location) → put a none (put b (disk a) disk) l ≡ after l =
      λ l. ap (λ f. f l) made in
    (
      free,
      sym (at b) ∙ put_over a b disk free,
      sym (at a) ∙ put_at a none (put b (disk a) disk),
      λ l not_a not_b.
          sym (at l)
          ∙ put_elsewhere a l none (put b (disk a) disk) not_a
          ∙ put_elsewhere b l (disk a) disk not_b,
    )

unfoldable pub disk_laws : FilesystemLaws Disk disk_calls
disk_laws = record {
  contents = λ l disk. disk l;
  fingerprint_reads = λ l disk seen h. sym (ok_injective (disk l) seen h);
  metadata_reads = λ l disk found h. sym (ok_injective (is_some (disk l)) found h);
  rename_moves = moves_files;
  remove_removes = λ a disk after h.
      let made : put a none disk ≡ after = ok_injective (put a none disk) after h in
      (
        sym (ap (λ f. f a) made) ∙ put_at a none disk,
        λ l away. sym (ap (λ f. f l) made) ∙ put_elsewhere a l none disk away,
      );
  set_mode_keeps = λ a mode disk after h l. sym (ap (λ f. f l) (ok_injective disk after h));
  publish_keeps = λ sequence disk after h l. sym (ap (λ f. f l) (ok_injective disk after h));
}
