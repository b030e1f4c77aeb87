-- ===== src/Runtime/TestRuns/Counts.antt =====
-- The counts in pytest's summary line: `parseCounts` of frontend/src/lib/runtime/testRuns.ts. The text
-- is read as its character codes; the regular expression is tried at each place in turn, and its
-- parts take as much as they can, which for this one is the only way to match. Numbers are exact.
pub mod Laws
mod Tests
use Prim.Native.Char.{code}
use htn.Prelude.{
  ℕ, zero, suc, ◌+◌, ◌-◌, ◌*◌, ◌≡◌, refl, String, Bool, true, false, ◌&&◌, ◌||◌, Option, none, some,
  List, [], ◌∷◌, length, leb, nat_eq, foldl, if◌then◌else◌,
}
use htn.Prelude.Int.{pos}
use htn.Runtime.TestRuns.{TestCount}

abbrev pub Codes : Type 0
Codes = List ℕ

unfoldable pub codes : String → Codes
codes String.[] = []
codes (String.◌∷◌ c s) = code c ∷ codes s

-- `\d`
abbrev pub is_digit : ℕ → Bool
is_digit c = leb 48 c && leb c 57

-- `\s`
abbrev pub is_space : ℕ → Bool
is_space c =
    leb 9 c && leb c 13
    || nat_eq c 32
    || nat_eq c 160
    || nat_eq c 5760
    || leb 8192 c && leb c 8202
    || nat_eq c 8232
    || nat_eq c 8233
    || nat_eq c 8239
    || nat_eq c 8287
    || nat_eq c 12288
    || nat_eq c 65279

-- The flag `i`, and `toLowerCase` of what it matches.
abbrev pub lower : ℕ → ℕ
lower c = if leb 65 c && leb c 90 then c + 32 else c

-- The longest start whose codes pass a test, and the rest.
unfoldable pub take_while : (ℕ → Bool) → Codes → Codes × Codes
take_while test [] = ([], [])
take_while test (c ∷ s) =
    let (taken, rest) = take_while test s in if test c then (c ∷ taken, rest) else ([], c ∷ s)

unfoldable pub starts_with : Codes → Codes → Bool
starts_with [] s = true
starts_with (k ∷ ks) [] = false
starts_with (k ∷ ks) (c ∷ s) = nat_eq (lower c) k && starts_with ks s

-- The alternatives, in the order in which they are tried: `errors?` takes the longer one first.
abbrev pub labels : List String
labels =
    "passed" ∷ "failed" ∷ "errors" ∷ "error" ∷ "skipped" ∷ "xfailed" ∷ "xpassed" ∷ "deselected" ∷ []

unfoldable pub label_at : List String → Codes → Option String
unfolding codes starts_with
label_at [] s = none
label_at (l ∷ ls) s = if starts_with (codes l) s then some l else label_at ls s

-- `Number(match[1])`
abbrev pub number : Codes → ℕ
number = foldl (λ n c. n * 10 + (c - 48)) 0

-- A match, if there is a part of each kind.
unfoldable pub matched : Codes → Codes → Option String → Option (TestCount × ℕ)
matched (d ∷ digits) (c ∷ spaces) (some l) = some (
  record { label = l; value = pos (number (d ∷ digits)) },
  length (d ∷ digits) + length (c ∷ spaces) + length (codes l),
)
matched _ _ _ = none

-- A match at a place: the count, and the length of what is matched.
unfoldable pub match_at : Codes → Option (TestCount × ℕ)
unfolding take_while label_at matched
match_at s =
    let (digits, after_digits) = take_while is_digit s in
    let (spaces, after_spaces) = take_while is_space after_digits in
    matched digits spaces (label_at labels after_spaces)

-- `matchAll`: so many codes belong to the last match and are passed over.
unfoldable pub scan_counts : ℕ → Codes → List TestCount
unfolding match_at
scan_counts skip [] = []
scan_counts (suc skip) (c ∷ s) = scan_counts skip s
scan_counts zero (c ∷ s) = elim (match_at (c ∷ s)) [
  | none ↦ scan_counts zero s
  | some (count, len) ↦ count ∷ scan_counts (len - 1) s
]

unfoldable pub parse_counts : String → List TestCount
unfolding scan_counts codes
parse_counts summary = scan_counts 0 (codes summary)
