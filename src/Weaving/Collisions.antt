-- ===== src/Weaving/Collisions.antt =====
-- `detectCollisions` of src/collisions.ts. `key` is its own `key`: `toLowerCase` or the path itself.
use Prim.Native.Char.{code}
use Prim.Native.String.{[] as empty, ◌∷◌ as char}
use susentorno.Base.{
  Bool, true, false, not, Option, none, some, List, [], ◌∷◌, ◌++◌, String, same_text, ◌==◌,
  if◌then◌else◌,
}
use susentorno.Base.Strings.{join}

pub data Kind : Type 0 where
  file dir : Kind

pub record WeaveItem : Type 0 where
  pub dest_path : String
  pub kind : Kind
  pub origin : String

pub data Reason : Type 0 where
  ancestor_conflict case_only_directory two_files file_against_directory : Reason

pub record Collision : Type 0 where
  pub dest_path : String
  pub a : String
  pub b : String
  pub reason : Reason

pub record Node : Type 0 where
  pub kind : Kind
  pub display_path : String
  pub origin : String

-- The map of the nodes, and the collisions so far.
pub record Weave : Type 0 where
  pub nodes : List (String × Node)
  pub collisions : List Collision

-- `destPath.split('/')`, with what has been read of the segment.
abbrev split_slash : String → String → List String
split_slash read empty = read ∷ []
split_slash read (char c s) =
    if code c == 47 then read ∷ split_slash "" s else split_slash (join read (char c "")) s

abbrev without_empty : List String → List String
without_empty [] = []
without_empty (segment ∷ rest) =
    let kept = without_empty rest in if same_text segment "" then kept else segment ∷ kept

abbrev pub segments_of : String → List String
segments_of path = without_empty (split_slash "" path)

-- `segments.slice(0, index).join('/')` for each index from 1 on, short of all segments.
abbrev ancestors_from : String → List String → List String
ancestors_from path [] = []
ancestors_from path (segment ∷ rest) = path ∷ ancestors_from (join path (join "/" segment)) rest

abbrev pub ancestors_of : List String → List String
ancestors_of [] = []
ancestors_of (segment ∷ rest) = ancestors_from segment rest

-- `segments.join('/')`
abbrev full_from : String → List String → String
full_from path [] = path
full_from path (segment ∷ rest) = full_from (join path (join "/" segment)) rest

abbrev pub full_of : List String → String
full_of [] = ""
full_of (segment ∷ rest) = full_from segment rest

abbrev pub node_at : String → List (String × Node) → Option Node
node_at key [] = none
node_at key ((other, node) ∷ nodes) = if same_text key other then some node else node_at key nodes

-- `nodes.set` of a key that the map does not have.
abbrev add_node : String → Node → Weave → Weave
add_node key node s = record s { nodes = s.nodes ++ ((key, node) ∷ []) }

abbrev collide : String → Node → WeaveItem → Reason → Weave → Weave
collide path existing item reason s = record s {
  collisions =
      s.collisions
      ++ (record { dest_path = path; a = existing.origin; b = item.origin; reason = reason } ∷ []);
}

abbrev collide_if : Bool → String → Node → WeaveItem → Reason → Weave → Weave
collide_if false path existing item reason s = s
collide_if true path existing item reason s = collide path existing item reason s

abbrev other_case : Node → String → Bool
other_case existing path = not (same_text existing.display_path path)

-- An ancestor that is there already, by its kind.
abbrev meet_ancestor : Kind → String → Node → WeaveItem → Weave → Weave
meet_ancestor file path existing item s = collide path existing item ancestor_conflict s
meet_ancestor dir path existing item s =
    collide_if (other_case existing path) path existing item case_only_directory s

-- A full path that is there already, by its kind and the item's.
abbrev meet_full : Kind → Kind → String → Node → WeaveItem → Weave → Weave
meet_full dir dir path existing item s =
    collide_if (other_case existing path) path existing item case_only_directory s
meet_full file file path existing item s = collide path existing item two_files s
meet_full file dir path existing item s = collide path existing item file_against_directory s
meet_full dir file path existing item s = collide path existing item file_against_directory s

abbrev node_of : Kind → String → WeaveItem → Node
node_of kind path item = record { kind = kind; display_path = path; origin = item.origin }

module _ (key : String → String) where
  abbrev on_ancestor : String → WeaveItem → Option Node → Weave → Weave
  on_ancestor path item none s = add_node (key path) (node_of dir path item) s
  on_ancestor path item (some existing) s = meet_ancestor existing.kind path existing item s

  abbrev walk_ancestors : List String → WeaveItem → Weave → Weave
  walk_ancestors [] item s = s
  walk_ancestors (path ∷ paths) item s =
      walk_ancestors paths item (on_ancestor path item (node_at (key path) s.nodes) s)

  abbrev on_full : String → WeaveItem → Option Node → Weave → Weave
  on_full path item none s = add_node (key path) (node_of item.kind path item) s
  on_full path item (some existing) s = meet_full existing.kind item.kind path existing item s

  abbrev pub weave_item : WeaveItem → Weave → Weave
  weave_item item s =
      let segments = segments_of item.dest_path in
      let s' = walk_ancestors (ancestors_of segments) item s in
      let full = full_of segments in on_full full item (node_at (key full) s'.nodes) s'

  abbrev pub weave_all : List WeaveItem → Weave → Weave
  weave_all [] s = s
  weave_all (item ∷ items) s = weave_all items (weave_item item s)

  unfoldable pub detect_collisions : List WeaveItem → List Collision
  detect_collisions items = (weave_all items (record { nodes = []; collisions = [] })).collisions
