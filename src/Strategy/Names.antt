-- ===== src/Strategy/Names.antt =====
-- test/name_generator.cpp: names are made of two lists, which are gone through in turn, and a number
-- from 2 to 10 that is drawn.
use Prim.Native.Char.{code}
use Prim.Native.String.{String}
use iqoption_test_task.Prelude.{
  ℕ, zero, suc, ◌+◌, ◌%◌, ◌/◌, ◌<◌, ◌≤◌, List, [], ◌∷◌, ◌++◌, arith, length, length-append, get_or,
  ltb, ◌==◌, if◌then◌else◌, Every,
}

-- The bytes of a text.
abbrev pub codes : String → List ℕ
codes String.[] = []
codes (String.◌∷◌ c s) = code c ∷ codes s

unfoldable pub names : List String
names =
    "Johnny" ∷ "David" ∷ "Maria" ∷ "Michael" ∷ "Hannah" ∷ "Jacob" ∷ "Alex" ∷ "Sarah" ∷ "Ashley"
    ∷ "Austin" ∷ "Rachel" ∷ "Tyler" ∷ "Taylor" ∷ "Andrew" ∷ "Jessica" ∷ "Daniel" ∷ "Katie" ∷ "Emma"
    ∷ "Matthew" ∷ "Lauren" ∷ "Ryan" ∷ "Samantha" ∷ "Bill" ∷ []

unfoldable pub last_names : List String
last_names =
    "Smith" ∷ "Johnson" ∷ "Williams" ∷ "Jones" ∷ "Brown" ∷ "Davis" ∷ "Miller" ∷ "Wilson" ∷ "Moore"
    ∷ "Anderson" ∷ "Thomas" ∷ "Thomas" ∷ "Jackson" ∷ "White" ∷ "Harris" ∷ "Martin" ∷ "Thompson"
    ∷ "Garcia" ∷ "Martinez" ∷ "Robinson" ∷ "Clark" ∷ "Rodriguez" ∷ "Lewis" ∷ "Lee" ∷ "Walker"
    ∷ "Hall" ∷ "Allen" ∷ "Young" ∷ "King" ∷ "Hernandez" ∷ "Wright" ∷ []

-- The two static indexes.
pub record NameGenerator : Type 0 where
  pub name_index : ℕ
  pub last_name_index : ℕ

-- A number below 100 as it is printed.
abbrev pub decimal : ℕ → List ℕ
decimal n = if ltb n 10 then (48 + n) ∷ [] else (48 + n / 10) ∷ (48 + n % 10) ∷ []

-- Back to 0 at the end of a list.
abbrev pub wrapped : ℕ → ℕ → ℕ
wrapped n i = if i == n then 0 else i

-- newName
unfoldable pub new_name : ℕ → NameGenerator → List ℕ × NameGenerator
unfolding names last_names
new_name number g = (
  codes (get_or names g.name_index "")
      ++ (32 ∷ (codes (get_or last_names g.last_name_index "") ++ (32 ∷ decimal number))),
  record {
    name_index = wrapped 23 (g.name_index + 1);
    last_name_index = wrapped 31 (g.last_name_index + 1);
  },
)

pub record InRange (g : NameGenerator) : Type 0 where
  pub name_in : g.name_index < length names
  pub last_name_in : g.last_name_index < length last_names

short :
    (n : ℕ) (texts : List String) (i : ℕ)
    → Every (λ t. length (codes t) ≤ n) texts
    → length (codes (get_or texts i "")) ≤ n
short n [] i h = omega arith
short n (t ∷ texts) zero h = h.0
short n (t ∷ texts) (suc i) h = short n texts i h.1

names_short : Every (λ t. length (codes t) ≤ 9) names
unfolding names
names_short = omega arith

last_names_short : Every (λ t. length (codes t) ≤ 9) last_names
unfolding last_names
last_names_short = omega arith

length-decimal : (n : ℕ) → length (decimal n) ≤ 2
length-decimal n = ground arith

-- The indexes stay in their lists, and a name is short enough for a message.
pub new_name-InRange :
    (number : ℕ) (g : NameGenerator)
    → InRange g
    → InRange (new_name number g).1 × (length (new_name number g).0 ≤ 255)
unfolding new_name names last_names
new_name-InRange number g h = (
  record { name_in = ground arith; last_name_in = ground arith },
  omega (
    arith,
    short 9 names g.name_index names_short,
    short 9 last_names g.last_name_index last_names_short,
    length-decimal number,
    length-append (codes (get_or names g.name_index ""))
        (32 ∷ (codes (get_or last_names g.last_name_index "") ++ (32 ∷ decimal number))),
    length-append (codes (get_or last_names g.last_name_index "")) (32 ∷ decimal number),
  ),
)
