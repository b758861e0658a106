-- ===== src/Compact/Picker/Trim.antt =====
-- Trimming keeps the oldest inputs.
use elysiumkv.Base.{
  ℕ, ◌+◌, ◌<◌, ◌≤◌, Bool, true, false, not, ◌&&◌, ◌||◌, List, [], ◌∷◌, ltb, leb, ◌==◌,
  if◌then◌else◌, length, keep, any, map, All, Member, any-keep, ◌≡◌, sym, ap, ◌∙◌, arith,
  Bool-cases, inl, inr, tests, here, there,
}
use elysiumkv.Base.Sort.{sort_by, Sorted, sort_by-Sorted, any-sort_by, IsStrictWeak}
use elysiumkv.Base.Membership.{Member-keep, none_of_any}
use elysiumkv.Version.Metadata.{FileMetadata}
use elysiumkv.Compact.Picker.{
  contains, keep_oldest, oldest_kept, trim_to_budget, bytes_in, bytes_of,
}

ltb-IsStrictWeak : IsStrictWeak ltb
ltb-IsStrictWeak = record { asym = λ a b h. ground arith; co_trans = λ a b c h k. ground arith }

contains_bound :
    (x : ℕ) (ns : List ℕ)
    → All (λ m. ◌≡◌ {A = Bool} (ltb m x) false) ns
    → (n : ℕ) → contains ns n ≡ true
    → x ≤ n
contains_bound x [] h n k = absurd (ground arith)
contains_bound x (y ∷ ns) (hy, h) n k = elim (Bool-cases (y == n)) [
  | inl e ↦ ground arith
  | inr e ↦ contains_bound x ns h n (ground arith)
]

-- The set only grows.
keep_oldest_grows :
    (inputs : List FileMetadata) (budget : ℕ) (ns kept : List ℕ) (bytes n : ℕ)
    → contains kept n ≡ true
    → contains (keep_oldest inputs budget ns kept bytes) n ≡ true
unfolding keep_oldest
keep_oldest_grows inputs budget [] kept bytes n h = h
keep_oldest_grows inputs budget (x ∷ ns) kept bytes n h =
    let ih =
      keep_oldest_grows inputs budget ns (x ∷ kept) (bytes + bytes_of inputs x) n (ground arith) in
    ground arith

push_bound :
    (x : ℕ) (ns kept : List ℕ)
    → All (λ m. ◌≡◌ {A = Bool} (ltb m x) false) ns
    → ((t m : ℕ) → contains kept t ≡ true → contains (x ∷ ns) m ≡ true → t ≤ m)
    → (t m : ℕ) → contains (x ∷ kept) t ≡ true
    → contains ns m ≡ true
    → t ≤ m
push_bound x ns kept hx inv t m ht hm = elim (Bool-cases (x == t)) [
  | inl e ↦ let b = contains_bound x ns hx m hm in ground arith
  | inr e ↦ inv t m (ground arith) (ground arith)
]

-- What is kept is at most what is not.
keep_oldest_le :
    (inputs : List FileMetadata) (budget : ℕ) (ns kept : List ℕ) (bytes a n : ℕ)
    → Sorted ltb ns
    → ((t m : ℕ) → contains kept t ≡ true → contains ns m ≡ true → t ≤ m)
    → contains (keep_oldest inputs budget ns kept bytes) a ≡ true
    → contains (keep_oldest inputs budget ns kept bytes) n ≡ false
    → contains ns n ≡ true
    → a ≤ n
unfolding keep_oldest
keep_oldest_le inputs budget [] kept bytes a n s inv = λ ha hn k. absurd (ground arith)
keep_oldest_le inputs budget (x ∷ ns) kept bytes a n (hx, s) inv =
    at (not (length kept == 0) && ltb budget (bytes + bytes_of inputs x))
      (keep_oldest_le inputs budget ns (x ∷ kept) (bytes + bytes_of inputs x) a n s
        (push_bound x ns kept hx inv))
      (keep_oldest_grows inputs budget ns (x ∷ kept) (bytes + bytes_of inputs x) n)
  where
    rest : List ℕ
    rest = keep_oldest inputs budget ns (x ∷ kept) (bytes + bytes_of inputs x)

    at :
        (b : Bool)
        → (contains rest a ≡ true → contains rest n ≡ false → contains ns n ≡ true → a ≤ n)
        → (contains (x ∷ kept) n ≡ true → contains rest n ≡ true)
        → contains (if b then kept else rest) a ≡ true
        → contains (if b then kept else rest) n ≡ false
        → contains (x ∷ ns) n ≡ true
        → a ≤ n
    at true ih grows ha hn k = inv a n ha k
    at false ih grows ha hn k = elim (Bool-cases (x == n)) [
      | inl e ↦ let g = grows (ground arith) in absurd (ground arith)
      | inr e ↦ ih ha hn (ground arith)
    ]

contains_number :
    (inputs : List FileMetadata) {g : FileMetadata}
    → Member g inputs
    → contains (map (λ f. f.file_number) inputs) g.file_number ≡ true
contains_number [] m = elim m [ ]
contains_number (f ∷ inputs) here = ground arith
contains_number (f ∷ inputs) (there m) = let ih = contains_number inputs m in ground arith

oldest_kept_le :
    (inputs : List FileMetadata) (budget : ℕ) (a : ℕ) {g : FileMetadata}
    → contains (oldest_kept inputs budget) a ≡ true
    → contains (oldest_kept inputs budget) g.file_number ≡ false
    → Member g inputs
    → a ≤ g.file_number
unfolding oldest_kept
oldest_kept_le inputs budget a {g} ha hn m =
    let numbers = map (λ f. f.file_number) inputs in
    keep_oldest_le inputs budget (sort_by ltb numbers) [] 0 a g.file_number
      (sort_by-Sorted ltb ltb-IsStrictWeak numbers) (λ t m ht hm. absurd (ground arith)) ha hn
      (any-sort_by ltb (λ k. k == g.file_number) numbers ∙ contains_number inputs m)

equal_of : (a b : ℕ) → a ≤ b → ltb a b ≡ false → a ≡ b
equal_of a b le h = ground arith

strictly_lt : (p : ℕ → Bool) (a b : ℕ) → p a ≡ true → p b ≡ false → a ≤ b → a < b
strictly_lt p a b ha hb le = elim (Bool-cases (ltb a b)) [
  | inl h ↦ omega tests
  | inr h ↦ absurd (ground (arith, sym ha ∙ ap p (equal_of a b le h) ∙ hb))
]

-- Among the inputs of a compaction, each file that trimming keeps has a smaller number than each
-- file that it leaves behind.
pub trim_to_budget_oldest :
    (inputs : List FileMetadata) (budget : ℕ) {f g : FileMetadata}
    → Member f (trim_to_budget inputs budget).0
    → Member g inputs
    → any (λ k. k.file_number == g.file_number) (trim_to_budget inputs budget).0 ≡ false
    → f.file_number < g.file_number
unfolding trim_to_budget
trim_to_budget_oldest inputs budget {f} {g} = at (budget == 0 || leb (bytes_in inputs) budget)
  where
    same : FileMetadata → Bool
    same k = k.file_number == g.file_number

    kept : FileMetadata → Bool
    kept k = contains (oldest_kept inputs budget) k.file_number

    at :
        (b : Bool)
        → Member f
            (if◌then◌else◌ {A = List FileMetadata × Bool} b
              (inputs, false)
              (keep kept inputs, true)).0
        → Member g inputs
        → any same
            (if◌then◌else◌ {A = List FileMetadata × Bool} b
              (inputs, false)
              (keep kept inputs, true)).0
          ≡ false
        → f.file_number < g.file_number
    at true m n h = let e = none_of_any same inputs h n in absurd (ground arith)
    at false m n h =
        let (hf, e) = Member-keep kept inputs m in
        let left =
          none_of_any (λ k. kept k && same k) inputs (sym (any-keep same kept inputs) ∙ h) n in
        let le = oldest_kept_le inputs budget f.file_number hf (ground arith) n in
        strictly_lt (contains (oldest_kept inputs budget)) f.file_number g.file_number hf
          (ground arith) le
