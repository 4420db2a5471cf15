-- ===== src/Controller/PanelSelector/Sets.antt =====
-- What the operations on a panel set do to its members.
use lightnet_firmware.Common.{
  ℕ, zero, suc, ◌+◌, ◌≤◌, ◌<◌, ◌≡◌, refl, ap, sym, ◌∙◌, Bool, true, false, inl, inr, Bool-cases,
  not, ◌&&◌, ◌||◌, List, [], ◌∷◌, arith, ltb, leb, ◌==◌, if◌then◌else◌, length, get_or, length-set,
  get_or-set_self, get_or-set_ne, get_or-replicate,
}
use lightnet_firmware.Controller.TopologyIndex.{
  PanelSet, clear_all, set_bit, unset_bit, test, zip_bits, and_with, or_with, invert_from, invert,
}
use lightnet_firmware.Controller.PanelSelector.{set_where}

-- The array has a bit for every slot.
abbrev pub IsSized : PanelSet → Type 0
IsSized s = length s.bits ≡ 104

pub set_bit-IsSized : (s : PanelSet) (i : ℕ) → IsSized s → IsSized (set_bit s i)
unfolding set_bit
set_bit-IsSized s i h = length-set s.bits i true ∙ h

unset_bit-IsSized : (s : PanelSet) (i : ℕ) → IsSized s → IsSized (unset_bit s i)
unfolding unset_bit
unset_bit-IsSized s i h = length-set s.bits i false ∙ h

pub test-set_bit :
    (s : PanelSet) (i x : ℕ) → IsSized s → i < 104 → test (set_bit s i) x ≡ ((x == i) || test s x)
unfolding set_bit
test-set_bit s i x h l =
    ground (arith, get_or-set_self s.bits i true false, get_or-set_ne s.bits i x true false)

test-unset_bit :
    (s : PanelSet) (i x : ℕ)
    → IsSized s
    → i < 104
    → test (unset_bit s i) x ≡ (not (x == i) && test s x)
unfolding unset_bit
test-unset_bit s i x h l =
    ground (arith, get_or-set_self s.bits i false false, get_or-set_ne s.bits i x false false)

pub clear_all-IsSized : IsSized clear_all
unfolding clear_all
clear_all-IsSized = refl

pub test-clear_all : (x : ℕ) → test clear_all x ≡ false
unfolding clear_all
test-clear_all x = get_or-replicate 104 x false

pub set_where-IsSized :
    (k x : ℕ) (f : ℕ → Bool) (s : PanelSet) → IsSized s → IsSized (set_where k x f s)
unfolding set_where
set_where-IsSized zero x f s h = h
set_where-IsSized (suc k) x f s h =
    set_where-IsSized k (x + 1) f (if f x then set_bit s x else s)
      (ground (arith, set_bit-IsSized s x h))

-- Exactly the slots of the range that pass are added.
pub test-set_where :
    (k x : ℕ) (f : ℕ → Bool) (s : PanelSet) (y : ℕ)
    → IsSized s
    → x + k ≤ 104
    → test (set_where k x f s) y ≡ (test s y || leb x y && ltb y (x + k) && f y)
unfolding set_where
test-set_where zero x f s y h l = ground arith
test-set_where (suc k) x f s y h l = elim (Bool-cases (f x)) [
  | inl chosen ↦
      rw (chosen, set_where)
        (ground (
          arith,
          test-set_bit s x y h,
          test-set_where k (x + 1) f (set_bit s x) y (set_bit-IsSized s x h) (omega arith),
        ))
  | inr passed ↦
      rw (passed, set_where) (ground (arith, test-set_where k (x + 1) f s y h (omega arith)))
]

zip_bits-length :
    (f : Bool → Bool → Bool) (xs ys : List Bool) → length (zip_bits f xs ys) ≡ length xs
unfolding zip_bits
zip_bits-length f [] ys = refl
zip_bits-length f (x ∷ xs) [] = refl
zip_bits-length f (x ∷ xs) (y ∷ ys) = ap suc (zip_bits-length f xs ys)

get_or-zip_bits :
    (f : Bool → Bool → Bool) (xs ys : List Bool) (i : ℕ)
    → f false false ≡ false
    → length xs ≡ length ys
    → get_or (zip_bits f xs ys) i false ≡ f (get_or xs i false) (get_or ys i false)
unfolding zip_bits
get_or-zip_bits f [] [] i e l = sym e
get_or-zip_bits f [] (y ∷ ys) i e l = absurd (omega arith)
get_or-zip_bits f (x ∷ xs) [] i e l = absurd (omega arith)
get_or-zip_bits f (x ∷ xs) (y ∷ ys) zero e l = refl
get_or-zip_bits f (x ∷ xs) (y ∷ ys) (suc i) e l = get_or-zip_bits f xs ys i e (omega arith)

module _ (a b : PanelSet) (ha : IsSized a) (hb : IsSized b) where
  pub and_with-IsSized : IsSized (and_with a b)
  unfolding and_with
  and_with-IsSized = zip_bits-length ◌&&◌ a.bits b.bits ∙ ha

  pub or_with-IsSized : IsSized (or_with a b)
  unfolding or_with
  or_with-IsSized = zip_bits-length ◌||◌ a.bits b.bits ∙ ha

  pub test-and_with : (x : ℕ) → test (and_with a b) x ≡ (test a x && test b x)
  unfolding and_with
  test-and_with x = get_or-zip_bits ◌&&◌ a.bits b.bits x refl (ha ∙ sym hb)

  pub test-or_with : (x : ℕ) → test (or_with a b) x ≡ (test a x || test b x)
  unfolding or_with
  test-or_with x = get_or-zip_bits ◌||◌ a.bits b.bits x refl (ha ∙ sym hb)

invert_from-IsSized : (k i : ℕ) (s : PanelSet) → IsSized s → IsSized (invert_from k i s)
unfolding invert_from
invert_from-IsSized zero i s h = h
invert_from-IsSized (suc k) i s h =
    invert_from-IsSized k (i + 1) (if test s i then unset_bit s i else set_bit s i)
      (ground (arith, set_bit-IsSized s i h, unset_bit-IsSized s i h))

test-invert_from :
    (k i : ℕ) (s : PanelSet) (x : ℕ)
    → IsSized s
    → i + k ≤ 104
    → test (invert_from k i s) x ≡ (if leb i x && ltb x (i + k) then not (test s x) else test s x)
unfolding invert_from
test-invert_from zero i s x h l = ground arith
test-invert_from (suc k) i s x h l = elim (Bool-cases (test s i)) [
  | inl member ↦
      rw (member, invert_from)
        (ground (
          arith,
          test-unset_bit s i x h,
          test-invert_from k (i + 1) (unset_bit s i) x (unset_bit-IsSized s i h) (omega arith),
        ))
  | inr absent ↦
      rw (absent, invert_from)
        (ground (
          arith,
          test-set_bit s i x h,
          test-invert_from k (i + 1) (set_bit s i) x (set_bit-IsSized s i h) (omega arith),
        ))
]

pub invert-IsSized : (s : PanelSet) (n : ℕ) → IsSized s → IsSized (invert s n)
unfolding invert
invert-IsSized s n h = invert_from-IsSized n 0 s h

-- The slots in use change sides.
pub test-invert :
    (s : PanelSet) (n x : ℕ) → IsSized s → n ≤ 104 → x < n → test (invert s n) x ≡ not (test s x)
unfolding invert
test-invert s n x h l b = ground (arith, test-invert_from n 0 s x h (omega arith))
