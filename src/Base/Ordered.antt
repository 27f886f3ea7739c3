-- ===== src/Base/Ordered.antt =====
-- `BTreeMap` as an association list in strictly ascending key order, and `sort_by_key` as a
-- stable insertion sort.
use srcmv.Base.{
  ℕ, ◌≡◌, refl, Bool, true, false, Option, none, some, List, [], ◌∷◌, arith, ltb, ◌==◌,
  if◌then◌else◌, Bytes, ◌↔◌, ◌&&◌, ◌||◌, bytes_eq, bytes_eq→eq, bytes_eq_refl,
}

-- Keys with a strict total order, `Ord`.
pub record Key {ℓ} (K : Type ℓ) : Type ℓ where
  pub eqb : K → K → Bool
  pub lt : K → K → Bool
  pub eqb_iff : (a b : K) → (eqb a b ≡ true) ↔ (a ≡ b)
  pub lt_irrefl : (a : K) → lt a a ≡ false
  pub lt_trans : (a b c : K) → lt a b ≡ true → lt b c ≡ true → lt a c ≡ true
  pub lt_total : (a b : K) → lt a b ≡ false → eqb a b ≡ false → lt b a ≡ true

-- The order of byte strings, `[u8]::cmp`, which is also the order of `str`.
abbrev pub bytes_lt : Bytes → Bytes → Bool
bytes_lt [] [] = false
bytes_lt [] (y ∷ ys) = true
bytes_lt (x ∷ xs) [] = false
bytes_lt (x ∷ xs) (y ∷ ys) = ltb x y || ((x == y) && bytes_lt xs ys)

pub bytes_lt_irrefl : (a : Bytes) → bytes_lt a a ≡ false
bytes_lt_irrefl [] = refl
bytes_lt_irrefl (x ∷ a) = ground (arith, bytes_lt_irrefl a)

pub bytes_lt_trans :
    (a b c : Bytes) → bytes_lt a b ≡ true → bytes_lt b c ≡ true → bytes_lt a c ≡ true
bytes_lt_trans [] [] c h k = cc
bytes_lt_trans [] (y ∷ b) [] h k = cc
bytes_lt_trans [] (y ∷ b) (z ∷ c) h k = refl
bytes_lt_trans (x ∷ a) [] c h k = cc
bytes_lt_trans (x ∷ a) (y ∷ b) [] h k = cc
bytes_lt_trans (x ∷ a) (y ∷ b) (z ∷ c) h k = ground (arith, bytes_lt_trans a b c)

pub bytes_lt_total :
    (a b : Bytes) → bytes_lt a b ≡ false → bytes_eq a b ≡ false → bytes_lt b a ≡ true
bytes_lt_total [] [] h k = cc
bytes_lt_total [] (y ∷ b) h k = cc
bytes_lt_total (x ∷ a) [] h k = refl
bytes_lt_total (x ∷ a) (y ∷ b) h k = ground (arith, bytes_lt_total a b)

pub bytes_eq_iff : (a b : Bytes) → (bytes_eq a b ≡ true) ↔ (a ≡ b)
bytes_eq_iff a b = (bytes_eq→eq a b, λ e. rw e (bytes_eq_refl b))

pub nat_eqb_iff : (a b : ℕ) → ((a == b) ≡ true) ↔ (a ≡ b)
nat_eqb_iff a b = ground arith

pub nat_lt_irrefl : (a : ℕ) → ltb a a ≡ false
nat_lt_irrefl a = ground arith

pub nat_lt_trans : (a b c : ℕ) → ltb a b ≡ true → ltb b c ≡ true → ltb a c ≡ true
nat_lt_trans a b c h k = ground arith

pub nat_lt_total : (a b : ℕ) → ltb a b ≡ false → (a == b) ≡ false → ltb b a ≡ true
nat_lt_total a b h k = ground arith

instance abbrev pub nat_key : Key ℕ
nat_key = record {
  eqb = ◌==◌;
  lt = ltb;
  eqb_iff = nat_eqb_iff;
  lt_irrefl = nat_lt_irrefl;
  lt_trans = nat_lt_trans;
  lt_total = nat_lt_total;
}

instance abbrev pub bytes_key : Key Bytes
bytes_key = record {
  eqb = bytes_eq;
  lt = bytes_lt;
  eqb_iff = bytes_eq_iff;
  lt_irrefl = bytes_lt_irrefl;
  lt_trans = bytes_lt_trans;
  lt_total = bytes_lt_total;
}

lt-eqb {ℓ} : {K : Type ℓ} ⦃o : Key K⦄ (a b : K) → o.lt a b ≡ true → o.eqb b a ≡ false
lt-eqb ⦃o⦄ a b h = ground (arith, o.eqb_iff b a, o.lt_irrefl a)

-- The value that an update starts from.
abbrev pub or_default {ℓ} : {V : Type ℓ} → V → Option V → V
or_default d none = d
or_default d (some v) = v

abbrev pub BTreeMap {ℓ κ} : Type ℓ → Type κ → Type (ℓ ⊔ κ)
BTreeMap K V = List (K × V)

module _ {ℓ κ} {K : Type ℓ} {V : Type κ} ⦃o : Key K⦄ where
  -- `BTreeMap::get`.
  unfoldable pub get : K → BTreeMap K V → Option V
  get k [] = none
  get k ((j, v) ∷ m) = if o.eqb j k then some v else get k m

  -- `entry(k).or_insert(d)`, and then an update in place.
  unfoldable pub entry : K → V → (V → V) → BTreeMap K V → BTreeMap K V
  entry k d f [] = (k, f d) ∷ []
  entry k d f ((j, v) ∷ m) =
      if o.eqb j k
      then (j, f v) ∷ m
      else if o.lt k j
      then (k, f d) ∷ (j, v) ∷ m
      else (j, v) ∷ entry k d f m

  -- `BTreeMap::insert`: `get` before it tells the value that it returns.
  unfoldable pub insert : K → V → BTreeMap K V → BTreeMap K V
  insert k v m = entry k v (λ _. v) m

  -- `k` is below every key of the map.
  abbrev pub Below : K → BTreeMap K V → Type 0
  Below k [] = Unit
  Below k ((j, v) ∷ m) = (o.lt k j ≡ true) × Below k m

  abbrev pub IsSorted : BTreeMap K V → Type 0
  IsSorted [] = Unit
  IsSorted ((k, v) ∷ m) = Below k m × IsSorted m

  pub Below-trans : (a b : K) (m : BTreeMap K V) → o.lt a b ≡ true → Below b m → Below a m
  Below-trans a b [] h _ = tt
  Below-trans a b ((j, v) ∷ m) h (k, r) = (o.lt_trans a b j h k, Below-trans a b m h r)

  pub get-Below : (k : K) (m : BTreeMap K V) → Below k m → get k m ≡ none
  unfolding get
  get-Below k [] _ = refl
  get-Below k ((j, v) ∷ m) (h, r) = ground (arith, get-Below k m r, lt-eqb k j h)

  entry-Below :
      (a k : K) (d : V) (f : V → V) (m : BTreeMap K V)
      → o.lt a k ≡ true
      → Below a m
      → Below a (entry k d f m)
  unfolding entry
  entry-Below a k d f [] h b = (h, tt)
  entry-Below a k d f ((j, v) ∷ m) h (b, r) = ground (arith, entry-Below a k d f m h r)

  -- The entry interface keeps the key order.
  pub entry-IsSorted :
      (k : K) (d : V) (f : V → V) (m : BTreeMap K V) → IsSorted m → IsSorted (entry k d f m)
  unfolding entry
  entry-IsSorted k d f [] s = (tt, tt)
  entry-IsSorted k d f ((j, v) ∷ m) (b, s) = ground (
    arith,
    entry-IsSorted k d f m s,
    Below-trans k j m,
    o.lt_total k j,
    o.eqb_iff j k,
    o.eqb_iff k j,
    entry-Below j k d f m,
  )

module _ {ℓ κ} {K : Type ℓ} {V : Type κ} ⦃o : Key K⦄ where
  -- What a lookup finds behind an update through the entry interface.
  pub get-entry :
      (j k : K) (d : V) (f : V → V) (m : BTreeMap K V)
      → IsSorted m
      → get j (entry k d f m) ≡ (if o.eqb k j then some (f (or_default d (get k m))) else get j m)
  unfolding get entry
  get-entry j k d f [] s = refl
  get-entry j k d f ((i, v) ∷ m) (b, s) = ground (
    arith,
    get-entry j k d f m s,
    o.eqb_iff i k,
    o.eqb_iff i j,
    o.eqb_iff k j,
    get-Below k m,
    Below-trans k i m,
  )
