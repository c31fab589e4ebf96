-- ===== src/Weaving/Examples.antt =====
-- A path that two files take, a file where a directory stands, and one that stands alone.
use susentorno.Base.{◌≡◌, refl, List, [], ◌∷◌, String, same_text}
use susentorno.Weaving.Collisions.{WeaveItem, file, two_files, ancestor_conflict, detect_collisions}

abbrev item : String → String → WeaveItem
item path origin = record { dest_path = path; kind = file; origin = origin }

abbrev items : List WeaveItem
items = item "a/b" "base" ∷ item "/a//b" "mine" ∷ item "a/b/c" "other" ∷ item "d" "base" ∷ []

found :
    detect_collisions (λ path. path) items
    ≡ record { dest_path = "a/b"; a = "base"; b = "mine"; reason = two_files }
      ∷ record { dest_path = "a/b"; a = "base"; b = "other"; reason = ancestor_conflict }
      ∷ []
unfolding detect_collisions same_text
found = refl
