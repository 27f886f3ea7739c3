-- ===== src/Transaction/Hoare.antt =====
-- Runs that keep an invariant in every world they pass, from a precondition to a postcondition.
use srcmv.Base.{All, All-append, ◌≡◌, refl, List}
use srcmv.Fs.Errors.{FsResult, ok, err}
use srcmv.Transaction.Run.{World, Run, continue_with, ◌>>=◌, ask, changed_files, effect}

abbrev pub Post : {W T : Type 0} → (T → World W → Type 0) → FsResult T → World W → Type 0
Post Q (err e) w = Unit
Post Q (ok a) w = Q a w

module _ {W : Type 0} (Safe : World W → Type 0) where
  -- From `P`, the run passes only safe worlds, and a value that it returns satisfies `Q`.
  abbrev pub Keeps : {T : Type 0} → (World W → Type 0) → Run W T → (T → World W → Type 0) → Type 0
  Keeps P run Q = (w : World W) → P w → All Safe (run w).trace × Post Q (run w).value (run w).world

  continue-Keeps :
      {T U : Type 0} (R : T → World W → Type 0) (next : T → Run W U) (Q : U → World W → Type 0)
      (trace : List (World W)) (world : World W) (value : FsResult T)
      → ((a : T) → Keeps (R a) (next a) Q)
      → All Safe trace
      → Post R value world
      → let ran = continue_with next trace world value in
        All Safe ran.trace × Post Q ran.value ran.world
  continue-Keeps R next Q trace world (err e) step safe post = (safe, tt)
  continue-Keeps R next Q trace world (ok a) step safe post =
      let later = step a world post in
      (All-append Safe trace (next a world).trace safe later.0, later.1)

  -- One run after the other.
  pub >>=-Keeps :
      {T U : Type 0} (P : World W → Type 0) (R : T → World W → Type 0) (Q : U → World W → Type 0)
      (first : Run W T) (next : T → Run W U)
      → Keeps P first R
      → ((a : T) → Keeps (R a) (next a) Q)
      → Keeps P (first >>= next) Q
  >>=-Keeps P R Q first next start step w p =
      let done = start w p in
      continue-Keeps R next Q (first w).trace (first w).world (first w).value step done.0 done.1

  -- A question changes nothing.
  pub ask-Keeps :
      {T : Type 0} (P : World W → Type 0) (Q : T → World W → Type 0)
      (question : World W → FsResult T)
      → ((w : World W) (a : T) → P w → question w ≡ ok a → Q a w)
      → Keeps P (ask question) Q
  ask-Keeps {T = T} P Q question answer w p = (tt, go (question w) refl)
    where
      go : (value : FsResult T) → question w ≡ value → Post Q value w
      go (err e) same = tt
      go (ok a) same = answer w a p same

  -- A call that changes the disk.
  pub effect-Keeps :
      (P Q : World W → Type 0) (call : W → FsResult W)
      → ((w : World W) (after : W)
          → P w
          → call w.files ≡ ok after
          → Safe (record w { files = after }) × Q (record w { files = after }))
      → Keeps P (effect call) (λ _. Q)
  effect-Keeps P Q call step w p = go (call w.files) refl
    where
      go :
          (value : FsResult W)
          → call w.files ≡ value
          → let ran = changed_files w value in
            All Safe ran.trace × Post (λ _. Q) ran.value ran.world
      go (err e) same = (tt, tt)
      go (ok after) same = let (safe, post) = step w after p same in ((safe, tt), post)

  -- A weaker postcondition.
  pub weaken-Keeps :
      {T : Type 0} (P : World W → Type 0) (Q R : T → World W → Type 0) (run : Run W T)
      → ((a : T) (w : World W) → Q a w → R a w)
      → Keeps P run Q
      → Keeps P run R
  weaken-Keeps {T = T} P Q R run weaker kept w p =
      let (safe, post) = kept w p in (safe, go (run w).value post)
    where
      go : (value : FsResult T) → Post Q value (run w).world → Post R value (run w).world
      go (err e) q = tt
      go (ok a) q = weaker a (run w).world q
