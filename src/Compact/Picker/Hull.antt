-- ===== src/Compact/Picker/Hull.antt =====
-- The span that `widen` builds covers the files it has seen.
use elysiumkv.Base.{
  Bool, true, false, ◌||◌, List, [], ◌∷◌, ◌==◌, if◌then◌else◌, length, All, Member, ◌≡◌, arith,
  Bool-cases, inl, inr, here, there, ◌∙◌, sym,
}
use elysiumkv.Slice.{Bytes, key_lt, key_gt}
use elysiumkv.Slice.Order.{key_lt_irrefl, key_lt_asym, key_lt_of_lt_not, key_lt-nil, key_gt-key_lt}
use elysiumkv.Version.Metadata.{FileMetadata, effective_smallest, effective_largest}
use elysiumkv.Version.Levels.{overlaps_inclusive}
use elysiumkv.Compact.Picker.{widen_lower, widen_upper}

-- The first key is not above the second.
abbrev pub Le : Bytes → Bytes → Type 0
Le a b = ◌≡◌ {A = Bool} (key_lt b a) false

-- The files whose span does not begin at the empty key, which `widen` takes for no bound.
abbrev pub IsKeyed : FileMetadata → Type 0
IsKeyed f = ◌≡◌ {A = Bool} (length (effective_smallest f) == 0) false

pub Le_trans : (a b c : Bytes) → Le a b → Le b c → Le a c
Le_trans a b c h k = elim (Bool-cases (key_lt c a)) [
  | inl e ↦ absurd (ground (arith, key_lt_of_lt_not c b a e h))
  | inr e ↦ e
]

lower_step : Bytes → FileMetadata → Bytes
lower_step lower f =
    if length lower == 0 || key_lt (effective_smallest f) lower then effective_smallest f else lower

lower_step_le :
    (lower : Bytes) (f : FileMetadata) → (length lower == 0) ≡ false → Le (lower_step lower f) lower
unfolding lower_step
lower_step_le lower f h = rw h (elim (Bool-cases (key_lt (effective_smallest f) lower)) [
  | inl e ↦ rw e (key_lt_asym (effective_smallest f) lower e)
  | inr e ↦ rw e (key_lt_irrefl lower)
])

lower_step_covers :
    (lower : Bytes) (f : FileMetadata) → Le (lower_step lower f) (effective_smallest f)
unfolding lower_step
lower_step_covers lower f = elim (Bool-cases (length lower == 0)) [
  | inl z ↦ rw z (key_lt_irrefl (effective_smallest f))
  | inr z ↦ rw z (elim (Bool-cases (key_lt (effective_smallest f) lower)) [
    | inl e ↦ rw e (key_lt_irrefl (effective_smallest f))
    | inr e ↦ rw e e
  ])
]

lower_step_keyed :
    (lower : Bytes) (f : FileMetadata) → IsKeyed f → (length (lower_step lower f) == 0) ≡ false
unfolding lower_step
lower_step_keyed lower f k = elim (Bool-cases (length lower == 0)) [
  | inl z ↦ rw z k
  | inr z ↦
      rw z (elim (Bool-cases (key_lt (effective_smallest f) lower)) [
        | inl e ↦ rw e k
        | inr e ↦ rw e z
      ])
]

pub widen_lower_le :
    (lower : Bytes) (files : List FileMetadata)
    → All IsKeyed files
    → (length lower == 0) ≡ false
    → Le (widen_lower lower files) lower
unfolding widen_lower lower_step
widen_lower_le lower [] k h = key_lt_irrefl lower
widen_lower_le lower (f ∷ files) (kf, k) h =
    Le_trans (widen_lower (lower_step lower f) files) (lower_step lower f) lower
      (widen_lower_le (lower_step lower f) files k (lower_step_keyed lower f kf))
      (lower_step_le lower f h)

pub widen_lower_keyed :
    (lower : Bytes) (files : List FileMetadata)
    → All IsKeyed files
    → (length lower == 0) ≡ false
    → (length (widen_lower lower files) == 0) ≡ false
unfolding widen_lower lower_step
widen_lower_keyed lower [] k h = h
widen_lower_keyed lower (f ∷ files) (kf, k) h =
    widen_lower_keyed (lower_step lower f) files k (lower_step_keyed lower f kf)

pub widen_lower_covers :
    (lower : Bytes) (files : List FileMetadata) {f : FileMetadata}
    → All IsKeyed files
    → Member f files
    → Le (widen_lower lower files) (effective_smallest f)
unfolding widen_lower lower_step
widen_lower_covers lower [] k m = elim m [ ]
widen_lower_covers lower (f ∷ files) (kf, k) here =
    Le_trans (widen_lower (lower_step lower f) files) (lower_step lower f) (effective_smallest f)
      (widen_lower_le (lower_step lower f) files k (lower_step_keyed lower f kf))
      (lower_step_covers lower f)
widen_lower_covers lower (f ∷ files) (kf, k) (there m) =
    widen_lower_covers (lower_step lower f) files k m

upper_step : Bytes → FileMetadata → Bytes
upper_step upper f =
    if length upper == 0 || key_gt (effective_largest f) upper then effective_largest f else upper

nil_le : (a b : Bytes) → (length a == 0) ≡ true → Le a b
nil_le [] b h = key_lt-nil b
nil_le (x ∷ a) b h = absurd (ground arith)

upper_step_ge : (upper : Bytes) (f : FileMetadata) → Le upper (upper_step upper f)
unfolding upper_step
upper_step_ge upper f = elim (Bool-cases (length upper == 0)) [
  | inl z ↦ nil_le upper _ z
  | inr z ↦ rw z (elim (Bool-cases (key_gt (effective_largest f) upper)) [
    | inl e ↦ rw e (
        key_lt_asym upper (effective_largest f)
          (sym (key_gt-key_lt (effective_largest f) upper) ∙ e))
    | inr e ↦ rw e (key_lt_irrefl upper)
  ])
]

upper_step_covers :
    (upper : Bytes) (f : FileMetadata) → Le (effective_largest f) (upper_step upper f)
unfolding upper_step
upper_step_covers upper f = elim (Bool-cases (length upper == 0)) [
  | inl z ↦ rw z (key_lt_irrefl (effective_largest f))
  | inr z ↦ rw z (elim (Bool-cases (key_gt (effective_largest f) upper)) [
    | inl e ↦ rw e (key_lt_irrefl (effective_largest f))
    | inr e ↦ rw e (sym (key_gt-key_lt (effective_largest f) upper) ∙ e)
  ])
]

pub widen_upper_ge :
    (upper : Bytes) (files : List FileMetadata) → Le upper (widen_upper upper files)
unfolding widen_upper upper_step
widen_upper_ge upper [] = key_lt_irrefl upper
widen_upper_ge upper (f ∷ files) =
    Le_trans upper (upper_step upper f) (widen_upper (upper_step upper f) files)
      (upper_step_ge upper f) (widen_upper_ge (upper_step upper f) files)

pub widen_upper_covers :
    (upper : Bytes) (files : List FileMetadata) {f : FileMetadata}
    → Member f files
    → Le (effective_largest f) (widen_upper upper files)
unfolding widen_upper upper_step
widen_upper_covers upper [] m = elim m [ ]
widen_upper_covers upper (f ∷ files) here =
    Le_trans (effective_largest f) (upper_step upper f) (widen_upper (upper_step upper f) files)
      (upper_step_covers upper f) (widen_upper_ge (upper_step upper f) files)
widen_upper_covers upper (f ∷ files) (there m) = widen_upper_covers (upper_step upper f) files m

-- A wider span meets the files that a narrower one meets.
pub overlaps_inclusive_wider :
    (lower upper outer_lower outer_upper : Bytes) (g : FileMetadata)
    → Le outer_lower lower
    → Le upper outer_upper
    → overlaps_inclusive lower upper g ≡ true
    → overlaps_inclusive outer_lower outer_upper g ≡ true
unfolding overlaps_inclusive
overlaps_inclusive_wider lower upper outer_lower outer_upper g hl hu h =
    let first = Le_trans outer_lower lower (effective_largest g) hl (ground arith) in
    let last = Le_trans (effective_smallest g) upper outer_upper (ground arith) hu in ground arith
