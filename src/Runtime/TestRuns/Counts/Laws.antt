-- ===== src/Runtime/TestRuns/Counts/Laws.antt =====
-- The counts that are written into a summary line are read from it: `parseCounts`.
use mathlib.Core.Path.{subst}
use mathlib.Core.List.{append_assoc}
use text.Mathlib.TextEquality.{eq_iff}
use htn.Prelude.{
  ℕ, ◌+◌, ◌-◌, ◌≡◌, refl, sym, ap, ◌∙◌, String, Bool, true, false, some, List, [], ◌∷◌, ◌++◌, map,
  All, length, arith, Bool-cases, inl, inr, string_eq, ◌==◌, contains, length-append,
}
use htn.Prelude.Int.{pos}
use htn.Runtime.TestRuns.{TestCount}
use htn.Runtime.TestRuns.Counts.{
  Codes, codes, is_digit, is_space, take_while, labels, label_at, number, match_at, scan_counts,
}

-- A count as it is written: a digit, further digits, and one of the labels.
pub record Item : Type 0 where
  pub digit : ℕ
  pub digits : Codes
  pub label : String

abbrev pub IsItem : Item → Type 0
IsItem i =
    (is_digit i.digit ≡ true)
    × All (λ c. is_digit c ≡ true) i.digits
    × (contains i.label labels ≡ true)

-- `12 passed, 1 failed, `, and what comes after it.
abbrev pub written : List Item → Codes → Codes
written [] tail = tail
written (i ∷ is) tail =
    i.digit ∷ (i.digits ++ (32 ∷ (codes i.label ++ (44 ∷ (32 ∷ written is tail)))))

abbrev pub count_of : Item → TestCount
count_of i = record { label = i.label; value = pos (number (i.digit ∷ i.digits)) }

take_while-append :
    (test : ℕ → Bool) (taken rest : Codes) (c : ℕ)
    → All (λ d. test d ≡ true) taken
    → test c ≡ false
    → take_while test (taken ++ (c ∷ rest)) ≡ (taken, c ∷ rest)
unfolding take_while
take_while-append test [] rest c a h = rw h refl
take_while-append test (d ∷ taken) rest c a h =
    rw (a.0, take_while-append test taken rest c a.1 h) refl

-- What is passed over.
scan_counts-skip :
    (taken rest : Codes) → scan_counts (length taken) (taken ++ rest) ≡ scan_counts 0 rest
unfolding scan_counts
scan_counts-skip [] rest = refl
scan_counts-skip (c ∷ taken) rest = scan_counts-skip taken rest

All-contains :
    (P : String → Type 0) (ls : List String) (l : String) → All P ls → contains l ls ≡ true → P l
unfolding contains
All-contains P [] l a h = cc
All-contains P (k ∷ ls) l a h = elim (Bool-cases (k == l)) [
  | inl same ↦ subst P ((eq_iff k l).0 same) a.0
  | inr other ↦ All-contains P ls l a.1 (rw other at h)
]

-- A label before a comma is found, and starts with no space.
abbrev IsFound : Codes → String → Type 0
IsFound rest l =
    (label_at labels (codes l ++ (44 ∷ rest)) ≡ some l)
    × (take_while is_space (codes l ++ (44 ∷ rest)) ≡ ([], codes l ++ (44 ∷ rest)))

labels-IsFound : (rest : Codes) → All (IsFound rest) labels
unfolding scan_counts
labels-IsFound rest = (
  (refl, refl),
  (
    (refl, refl),
    (
      (refl, refl),
      ((refl, refl), ((refl, refl), ((refl, refl), ((refl, refl), ((refl, refl), tt))))),
    ),
  ),
)

match_at-written :
    (i : Item) (rest : Codes)
    → IsItem i
    → match_at (i.digit ∷ (i.digits ++ (32 ∷ (codes i.label ++ (44 ∷ rest)))))
      ≡ some (count_of i, length (i.digit ∷ i.digits) + 1 + length (codes i.label))
unfolding match_at
match_at-written i rest (first, more, known) =
    let found = All-contains (IsFound rest) labels i.label (labels-IsFound rest) known in
    rw
      (
        take_while-append is_digit (i.digit ∷ i.digits) (codes i.label ++ (44 ∷ rest)) 32
            (first, more) refl,
        found.1,
        found.0,
      )
      refl

-- No count starts at a comma or at a space.
scan_counts_between : (s : Codes) → scan_counts 0 (44 ∷ (32 ∷ s)) ≡ scan_counts 0 s
unfolding scan_counts
scan_counts_between s = refl

scan_counts-match :
    (c : ℕ) (s : Codes) (count : TestCount) (len : ℕ)
    → match_at (c ∷ s) ≡ some (count, len)
    → scan_counts 0 (c ∷ s) ≡ count ∷ scan_counts (len - 1) s
unfolding scan_counts
scan_counts-match c s count len h = rw (h, scan_counts) refl

-- The codes of a count behind its first digit.
abbrev rest_of : Item → Codes
rest_of i = i.digits ++ (32 ∷ codes i.label)

-- If a line holds counts, each a number of one digit or more, a space and one of the labels, followed
-- by a comma and a space, then they are read from it in their order, each with its label and the
-- value of its digits, and after them whatever is read from the rest of the line.
pub scan_counts-written :
    (is : List Item) (tail : Codes)
    → All IsItem is
    → scan_counts 0 (written is tail) ≡ map count_of is ++ scan_counts 0 tail
unfolding scan_counts
scan_counts-written [] tail a = refl
scan_counts-written (i ∷ is) tail a =
    let rest = 44 ∷ (32 ∷ written is tail) in
    let tidy : rest_of i ++ rest ≡ i.digits ++ (32 ∷ (codes i.label ++ rest)) =
      append_assoc i.digits (32 ∷ codes i.label) rest in
    let long : length (i.digit ∷ i.digits) + 1 + length (codes i.label) - 1 ≡ length (rest_of i) =
      rw (length-append i.digits (32 ∷ codes i.label)) (omega arith) in
    scan_counts-match i.digit (i.digits ++ (32 ∷ (codes i.label ++ rest))) (count_of i)
      (length (i.digit ∷ i.digits) + 1 + length (codes i.label))
      (match_at-written i (32 ∷ written is tail) a.0)
    ∙ ap (λ skip. count_of i ∷ scan_counts skip (i.digits ++ (32 ∷ (codes i.label ++ rest)))) long
    ∙ ap (λ s. count_of i ∷ scan_counts (length (rest_of i)) s) (sym tidy)
    ∙ ap (λ cs. count_of i ∷ cs)
        (scan_counts-skip (rest_of i) rest
          ∙ scan_counts_between (written is tail)
          ∙ scan_counts-written is tail a.1)
