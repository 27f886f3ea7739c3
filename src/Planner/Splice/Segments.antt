-- ===== src/Planner/Splice/Segments.antt =====
-- The loop over the points renders what a walk over every offset renders.
use srcmv.Base.{
  ltb, ◌==◌, if◌then◌else◌, ltb→lt, Bool-cases, length, take, drop, drop-nil, drop-drop, Bytes, ℕ,
  zero, suc, ◌+◌, ◌-◌, ◌≤◌, ◌<◌, ◌≡◌, refl, sym, ap, ◌∙◌, ◌⊎◌, inl, inr, Bool, true, false, none,
  some, List, [], ◌∷◌, ◌++◌, map, append-nil, append_assoc, arith, subst,
}
use srcmv.Base.Ordered.{or_default, get, nat_key, bytes_key}
use srcmv.Domain.Errors.{Result, ok, err, ◌>>=◌}
use srcmv.Domain.Types.{SnapshotFileId, OutputSegment, original_slice}
use srcmv.Planner.Edits.{
  OutputEdits, PointEvents, no_events, Points, Walk, payload, push_original, visit_point,
  visit_points, fresh_walk,
}
use srcmv.Planner.Splice.Spec.{slice, render}

-- A result that is a list of segments with these bytes.
abbrev pub Renders : (OutputSegment → Bytes) → Result (List OutputSegment) → Bytes → Type 0
Renders view (ok segments) content = render view segments ≡ content
Renders view (err e) content = ⊥

-- `view` shows the original bytes of the output, or there are none.
abbrev pub IsView : (OutputSegment → Bytes) → OutputEdits → Bytes → Type 0
IsView view edits original =
    (original ≡ [])
    ⊎ ((id : SnapshotFileId) × (edits.existing_file_id ≡ some id)
        × ((s e : ℕ)
            → s ≤ e
            → e ≤ length original
            → view (original_slice id (record { start = s; end = e })) ≡ slice s e original))

pub render-append :
    (view : OutputSegment → Bytes) (xs ys : List OutputSegment)
    → render view (xs ++ ys) ≡ render view xs ++ render view ys
unfolding render
render-append view [] ys = refl
render-append view (x ∷ xs) ys = simp (render-append view xs ys, append_assoc)

abbrev pub after_point : PointEvents → Bool → Bool
after_point point deleting =
    if point.deletion_start then true else if point.deletion_end then false else deleting

abbrev pub point_at : ℕ → Points → PointEvents
point_at q points = or_default no_events (get q points)

-- The walk over every offset from `q`, `content` being the original bytes from there.
unfoldable pub walk_from : (OutputSegment → Bytes) → Points → ℕ → Bool → Bytes → Bytes
walk_from view points q deleting [] = render view (map payload (point_at q points).insertions)
walk_from view points q deleting (b ∷ content) =
    let point = point_at q points in
    render view (map payload point.insertions)
    ++ ((if after_point point deleting then [] else b ∷ [])
        ++ walk_from view points (suc q) (after_point point deleting) content)

point_at-skip :
    (o : ℕ) (point : PointEvents) (points : Points) (q : ℕ)
    → o < q
    → point_at q ((o, point) ∷ points) ≡ point_at q points
unfolding get
point_at-skip o point points q h = ground arith

-- A point that lies behind the walk is not seen.
walk_from-skip :
    (view : OutputSegment → Bytes) (o : ℕ) (point : PointEvents) (points : Points) (q : ℕ)
    (deleting : Bool) (content : Bytes)
    → o < q
    → walk_from view ((o, point) ∷ points) q deleting content
      ≡ walk_from view points q deleting content
unfolding walk_from
walk_from-skip view o point points q deleting [] h =
    rw (point_at-skip o point points q h, walk_from)
walk_from-skip view o point points q deleting (b ∷ content) h =
    rw (point_at-skip o point points q h, walk_from)
      (rw (walk_from-skip view o point points (suc q) _ content (omega arith)))

get-nil : (q : ℕ) → get {V = PointEvents} q [] ≡ none
unfolding get
get-nil q = refl

walk_from-nil :
    (view : OutputSegment → Bytes) (q : ℕ) (deleting : Bool) → walk_from view [] q deleting [] ≡ []
unfolding walk_from get render
walk_from-nil view q deleting = refl

walk_from-last :
    (view : OutputSegment → Bytes) (q : ℕ) (point : PointEvents) (deleting : Bool)
    → walk_from view ((q, point) ∷ []) q deleting []
      ≡ render view (map payload point.insertions) ++ []
unfolding walk_from get
walk_from-last view q point deleting =
    ground (arith, append-nil (render view (map payload point.insertions)))

point_at-here :
    (q : ℕ) (point : PointEvents) (points : Points) → point_at q ((q, point) ∷ points) ≡ point
unfolding get
point_at-here q point points = ground arith

walk_from-cons :
    (view : OutputSegment → Bytes) (q : ℕ) (point : PointEvents) (points : Points) (deleting : Bool)
    (b : ℕ) (content : Bytes)
    → walk_from view ((q, point) ∷ points) q deleting (b ∷ content)
      ≡ render view (map payload point.insertions)
        ++ ((if after_point point deleting then [] else b ∷ [])
            ++ walk_from view points (suc q) (after_point point deleting) content)
unfolding walk_from get
walk_from-cons view q point points deleting b content = rw (point_at-here q point points) (
    rw (
      walk_from-skip view q point points (suc q) (after_point point deleting) content
        (omega arith)))

take-suc :
    (q : ℕ) (original : Bytes) (b : ℕ) (content : Bytes)
    → drop q original ≡ b ∷ content
    → take (suc q) original ≡ take q original ++ (b ∷ [])
take-suc q [] b content e = absurd (cc (drop-nil q))
take-suc zero (x ∷ original) b content e = cc
take-suc (suc q) (x ∷ original) b content e = ap (◌∷◌ x) (take-suc q original b content e)

slice-suc :
    (c q : ℕ) (original : Bytes) (b : ℕ) (content : Bytes)
    → c ≤ q
    → drop q original ≡ b ∷ content
    → slice c (suc q) original ≡ slice c q original ++ (b ∷ [])
slice-suc c q original b content h e =
    let f : suc q - c ≡ suc (q - c) = omega arith in
    let g : c + (q - c) ≡ q = omega arith in
    rw f (take-suc (q - c) (drop c original) b content (drop-drop (q - c) c original ∙ rw g e))

drop-suc :
    (q : ℕ) (original : Bytes) (b : ℕ) (content : Bytes)
    → drop q original ≡ b ∷ content
    → drop (suc q) original ≡ content
drop-suc q [] b content e = absurd (cc (drop-nil q))
drop-suc zero (x ∷ original) b content e = cc
drop-suc (suc q) (x ∷ original) b content e = drop-suc q original b content e

pub slice_self : (c : ℕ) (original : Bytes) → slice c c original ≡ []
slice_self c original = let e : c - c ≡ 0 = omega arith in rw e

pub Renders-ok :
    (view : OutputSegment → Bytes) (r : Result (List OutputSegment)) (content : Bytes)
    → Renders view r content
    → (segments : List OutputSegment) × (r ≡ ok segments) × (render view segments ≡ content)
Renders-ok view (ok segments) content h = (segments, refl, h)
Renders-ok view (err e) content h = absurd h

-- The keys ascend and lie between `lo` and `hi`.
abbrev pub KeysIn : ℕ → ℕ → Points → Type 0
KeysIn lo hi [] = Unit
KeysIn lo hi ((o, _) ∷ points) = (lo ≤ o) × (o ≤ hi) × KeysIn (suc o) hi points

get-KeysIn : (q lo hi : ℕ) (points : Points) → KeysIn lo hi points → q < lo → get q points ≡ none
unfolding get
get-KeysIn q lo hi [] keys h = refl
get-KeysIn q lo hi ((o, point) ∷ points) keys h =
    ground (arith, get-KeysIn q (suc o) hi points keys.2)

slice-one :
    (q : ℕ) (original : Bytes) (b : ℕ) (content : Bytes)
    → drop q original ≡ b ∷ content
    → slice q (suc q) original ≡ b ∷ []
slice-one q original b content e =
    rw (slice-suc q q original b content (omega arith) e, slice_self q original)

module _ (view : OutputSegment → Bytes) (edits : OutputEdits) (original : Bytes)
    (shown : IsView view edits original) (whole : edits.original_length ≡ length original) where
  source_id :
      0 < length original
      → (id : SnapshotFileId) × (edits.existing_file_id ≡ some id)
        × ((s e : ℕ)
            → s ≤ e
            → e ≤ length original
            → view (original_slice id (record { start = s; end = e })) ≡ slice s e original)
  source_id h = elim shown [ inl e ↦ absurd (omega (arith, ap length e)) | inr found ↦ found ]

  push_original-Renders :
      (limit : ℕ) (walk : Walk)
      → walk.cursor ≤ limit
      → limit ≤ length original
      → Renders view (push_original edits limit walk) (
          render view walk.segments
          ++ (if walk.deleting then [] else slice walk.cursor limit original))
  unfolding push_original render
  push_original-Renders limit walk h k = elim (Bool-cases (ltb walk.cursor limit)) [
    | inl more ↦ elim (Bool-cases walk.deleting) [
      | inl gone ↦ rw (gone, more) (sym (append-nil _))
      | inr kept ↦
          let (id, known, seen) = source_id (omega (arith, ltb→lt walk.cursor limit more)) in
          rw (more, kept, known)
            (render-append view walk.segments _ ∙ rw (append-nil, seen walk.cursor limit h k))
    ]
    | inr done ↦
        let here : walk.cursor ≡ limit = ground arith in
        rw done (rw (← here, slice_self) (ground (arith, append-nil (render view walk.segments))))
  ]

  -- The rest of `build_segments` from a state of its loop.
  abbrev finish : Points → Walk → Result (List OutputSegment)
  finish points walk = visit_points edits points walk >>= push_original edits edits.original_length

  abbrev advance : ℕ → PointEvents → List OutputSegment → Walk → Walk
  advance o point segments walk = record {
    segments = segments ++ map payload point.insertions;
    cursor = o;
    deleting = after_point point walk.deleting;
  }

  finish-cons :
      (o : ℕ) (point : PointEvents) (points : Points) (walk : Walk) (segments : List OutputSegment)
      → o ≤ length original
      → push_original edits o walk ≡ ok segments
      → finish ((o, point) ∷ points) walk ≡ finish points (advance o point segments walk)
  unfolding visit_points visit_point
  finish-cons o point points walk segments h e =
      let inside : ltb edits.original_length o ≡ false = ground arith in rw (inside, e)

  -- The bytes between the cursor and `q` that are still to be pushed.
  abbrev pending : Walk → ℕ → Bytes
  pending walk q = if walk.deleting then [] else slice walk.cursor q original

  pending_self : (walk : Walk) → pending walk walk.cursor ≡ []
  pending_self walk = elim (Bool-cases walk.deleting) [
    | inl gone ↦ rw gone
    | inr kept ↦ rw kept (slice_self walk.cursor original)
  ]

  finish-nil :
      (q : ℕ) (walk : Walk)
      → walk.cursor ≤ q
      → q ≡ length original
      → Renders view (finish [] walk) (render view walk.segments ++ pending walk q)
  unfolding visit_points
  finish-nil q walk h e =
      subst
        (λ n.
          Renders view (push_original edits n walk) (render view walk.segments ++ pending walk q))
        (e ∙ sym whole) (push_original-Renders q walk h (omega arith))

  -- An offset without a point extends the pending bytes by its byte.
  quiet-step :
      (b : ℕ) (content : Bytes) (q : ℕ) (points : Points) (walk : Walk)
      → walk.cursor ≤ q
      → drop q original ≡ b ∷ content
      → get q points ≡ none
      → pending walk q ++ walk_from view points q walk.deleting (b ∷ content)
        ≡ pending walk (suc q) ++ walk_from view points (suc q) walk.deleting content
  unfolding walk_from render
  quiet-step b content q points walk h d g = elim (Bool-cases walk.deleting) [
    | inl gone ↦ rw (gone, g)
    | inr kept ↦
        rw (kept, g) (rw (slice-suc walk.cursor q original b content h d) (simp append_assoc))
  ]

  -- A point at `q` is passed, and its payloads are pushed behind the pending bytes.
  point-step :
      (q : ℕ) (point : PointEvents) (points : Points) (walk : Walk) (rest : Bytes)
      → walk.cursor ≤ q
      → q ≤ length original
      → ((segments : List OutputSegment)
          → Renders view
              (finish points (advance q point segments walk))
              (render view (advance q point segments walk).segments ++ rest))
      → Renders view (finish ((q, point) ∷ points) walk) (
          render view walk.segments
          ++ (pending walk q ++ (render view (map payload point.insertions) ++ rest)))
  point-step q point points walk rest h k later =
      let (segments, pushed, bytes) = Renders-ok view _ _ (push_original-Renders q walk h k) in
      rw (finish-cons q point points walk segments k pushed) (
        subst (Renders view (finish points (advance q point segments walk)))
          (ap (λ x. x ++ rest) (render-append view segments _)
            ∙ ap (λ x. (x ++ render view (map payload point.insertions)) ++ rest) bytes
            ∙ simp append_assoc)
          (later segments))

  finish-Renders :
      (content : Bytes) (q : ℕ) (points : Points) (walk : Walk)
      → walk.cursor ≤ q
      → drop q original ≡ content
      → q + length content ≡ length original
      → KeysIn q (length original) points
      → Renders view (finish points walk) (
          render view walk.segments
          ++ (pending walk q ++ walk_from view points q walk.deleting content))
  finish-Renders [] q [] walk h d e keys =
      rw (walk_from-nil view q walk.deleting, append-nil) (finish-nil q walk h (omega arith))
  finish-Renders [] q ((o, point) ∷ []) walk h d e keys =
      let here : o ≡ q = omega arith in
      rw (here, walk_from-last view q point walk.deleting)
        (point-step q point [] walk [] h (omega arith) λ segments.
          let w = advance q point segments walk in
          subst (λ x. Renders view (finish [] w) (render view w.segments ++ x)) (pending_self w)
            (finish-nil q w (omega arith) (omega arith)))
  finish-Renders [] q ((o, point) ∷ (p, _) ∷ points) walk h d e keys = absurd (omega arith)
  finish-Renders (b ∷ content) q [] walk h d e keys =
      rw (quiet-step b content q [] walk h d (get-nil q)) (
        finish-Renders content (suc q) [] walk (omega arith) (drop-suc q original b content d)
          (omega arith) tt)
  finish-Renders (b ∷ content) q ((o, point) ∷ points) walk h d e keys =
      elim (Bool-cases (o == q)) [
        | inl at ↦
            let here : o ≡ q = ground arith in
            let above = subst (λ k. KeysIn (suc k) (length original) points) here keys.2 in
            rw (here, walk_from-cons view q point points walk.deleting b content)
              (point-step q point points walk _ h (omega arith) λ segments.
                let w = advance q point segments walk in
                subst
                  (λ x. Renders view (finish points w) (
                    render view w.segments
                    ++ ((if w.deleting then [] else x)
                        ++ walk_from view points (suc q) w.deleting content)))
                  (slice-one q original b content d)
                  (finish-Renders content (suc q) points w (omega arith)
                    (drop-suc q original b content d) (omega arith) above))
        | inr behind ↦
            rw
              (quiet-step b content q ((o, point) ∷ points) walk h d (
                get-KeysIn q o (length original) ((o, point) ∷ points) (ground arith)
                  (ground arith)))
              (finish-Renders content (suc q) ((o, point) ∷ points) walk (omega arith)
                (drop-suc q original b content d) (omega arith) (ground arith))
      ]

  -- The loop of `build_segments`, from its start, renders the walk over every offset.
  pub visit_points-Renders :
      (points : Points)
      → KeysIn 0 (length original) points
      → Renders view
          (visit_points edits points fresh_walk >>= push_original edits edits.original_length)
          (walk_from view points 0 false original)
  unfolding render
  visit_points-Renders points keys =
      finish-Renders original 0 points fresh_walk (omega arith) refl (omega arith) keys
