-- ===== src/Parser/Regex.antt =====
-- Python's `re`: a backtracking matcher, as the list of its matches in the order it tries them.
use snapshot_fs.Prelude.{
  ℕ, zero, suc, ◌+◌, ◌-◌, Bool, true, false, Option, none, some, List, [], ◌∷◌, ◌++◌, Text,
  if◌then◌else◌, ltb, ◌==◌, min, length, take, drop,
}

pub data Group : Type 0 where
  first second date separator time meridiem directory size name : Group

-- `chars greedy least most p` is `[p]{least,most}`, lazy unless `greedy`.
pub data Regex : Type 0 where
  nothing : Regex
  chars : Bool → ℕ → Option ℕ → (ℕ → Bool) → Regex
  literal : Text → Regex
  seq alt : Regex → Regex → Regex
  star : Regex → Regex
  group : Group → Regex → Regex
  back : Group → Regex

abbrev pub Groups : Type 0
Groups = List (Group × Text)

abbrev number : Group → ℕ
number Group.first = 0
number Group.second = 1
number Group.date = 2
number Group.separator = 3
number Group.time = 4
number Group.meridiem = 5
number Group.directory = 6
number Group.size = 7
number Group.name = 8

-- `match.group(g)`
unfoldable pub captured : Group → Groups → Option Text
captured g [] = none
captured g ((h, t) ∷ rest) = if number h == number g then some t else captured g rest

abbrev Matches : Type 0
Matches = List (Groups × Text)

-- How many characters at the front are in the class.
run_length : (ℕ → Bool) → Text → ℕ
run_length p [] = 0
run_length p (c ∷ cs) = elim (p c) [ true ↦ suc (run_length p cs) | false ↦ 0 ]

abbrev at_most : Option ℕ → ℕ → ℕ
at_most none n = n
at_most (some m) n = min m n

-- The texts left after `least + k`, …, `least` characters, and the other way round.
greedy_rests : Groups → ℕ → ℕ → Text → Matches
greedy_rests g least zero t = (g, drop least t) ∷ []
greedy_rests g least (suc k) t = (g, drop (least + suc k) t) ∷ greedy_rests g least k t

lazy_rests : Groups → ℕ → ℕ → Text → Matches
lazy_rests g least zero t = (g, drop least t) ∷ []
lazy_rests g least (suc k) t = (g, drop least t) ∷ lazy_rests g (suc least) k t

-- The text after a prefix.
after : Text → Text → Option Text
after [] t = some t
after (p ∷ ps) [] = none
after (p ∷ ps) (c ∷ cs) = if p == c then after ps cs else none

abbrev one_match : Groups → Option Text → Matches
one_match g none = []
one_match g (some t) = (g, t) ∷ []

each : (Groups → Text → Matches) → Matches → Matches
each f [] = []
each f ((g, t) ∷ ms) = f g t ++ each f ms

-- A greedy repetition of a match that consumes something: `fuel` bounds the rounds.
repeat : ℕ → (Groups → Text → Matches) → Groups → Text → Matches
unfolding each
repeat zero f g t = (g, t) ∷ []
repeat (suc fuel) f g t = each (repeat fuel f) (f g t) ++ (g, t) ∷ []

close : Group → Text → Matches → Matches
close h t [] = []
close h t ((g, rest) ∷ ms) = ((h, take (length t - length rest) t) ∷ g, rest) ∷ close h t ms

unfoldable pub match_from : Regex → Groups → Text → Matches
unfolding captured run_length greedy_rests lazy_rests after each repeat close
match_from nothing g t = (g, t) ∷ []
match_from (chars greedy least most p) g t =
    let n = at_most most (run_length p t) in
    if ltb n least
    then []
    else if greedy
    then greedy_rests g least (n - least) t
    else lazy_rests g least (n - least) t
match_from (literal text) g t = one_match g (after text t)
match_from (seq r q) g t = each (match_from q) (match_from r g t)
match_from (alt r q) g t = match_from r g t ++ match_from q g t
match_from (star r) g t = repeat (length t) (match_from r) g t
match_from (group h r) g t = close h t (match_from r g t)
match_from (back h) g t = elim (captured h g) [ none ↦ [] | some text ↦ one_match g (after text t) ]

first_full : Matches → Option Groups
first_full [] = none
first_full ((g, []) ∷ ms) = some g
first_full ((g, c ∷ cs) ∷ ms) = first_full ms

-- `pattern.fullmatch(text)`
unfoldable pub full_match : Regex → Text → Option Groups
unfolding match_from first_full
full_match r t = first_full (match_from r [] t)

-- `pattern.match(text) is not None`
unfoldable pub matches_start : Regex → Text → Bool
unfolding match_from
matches_start r t = elim (match_from r [] t) [ [] ↦ false | m ∷ ms ↦ true ]

-- Patterns in a row.
abbrev pub seqs : List Regex → Regex
seqs [] = nothing
seqs (r ∷ []) = r
seqs (r ∷ q ∷ rs) = seq r (seqs (q ∷ rs))
