-- ===== src/Hotstring.antt =====
-- hotstring.rs: the rolling matcher that recognises the triggers of hotstrings in the typed text.
-- `Text` stands for `String`. The matcher is fed with one character at a time, as `&str`.
pub mod Spelling
pub mod Soundness
pub mod Start
pub mod Boundary
pub mod Completeness
use ahk_wayland.Prelude.{
  ℕ, ◌+◌, Bool, not, Option, none, some, List, [], ◌∷◌, ◌++◌, map, Text, text, text_eq,
  eq_ignore_ascii_case, any, leb, length, get_elem?, is_some, if◌then◌else◌,
}

pub data RollingItem : Type 0 where
  word_separator : RollingItem
  char : Text → RollingItem
  char_insensitive : Text → RollingItem

pub record HotstringMatch : Type 0 where
  pub id : ℕ
  pub trigger : Text
  pub replacement : Text
  pub items : List RollingItem
  pub immediate : Bool
  pub case_sensitive : Bool
  pub omit_char : Bool
  pub execute : Bool

-- What `from_trigger` pushes for each character of the trigger.
abbrev pub trigger_item : Bool → ℕ → RollingItem
trigger_item case_sensitive c = if case_sensitive then char (c ∷ []) else char_insensitive (c ∷ [])

abbrev pub boundary : Bool → List RollingItem
boundary immediate = if not immediate then word_separator ∷ [] else []

unfoldable pub from_trigger : ℕ → Text → Text → Bool → Bool → Bool → Bool → HotstringMatch
from_trigger id trigger replacement immediate case_sensitive omit_char execute = record {
  id = id;
  trigger = trigger;
  replacement = replacement;
  items = boundary immediate ++ (map (trigger_item case_sensitive) trigger ++ boundary immediate);
  immediate = immediate;
  case_sensitive = case_sensitive;
  omit_char = omit_char;
  execute = execute;
}

pub record HotstringPath : Type 0 where
  pub item_index : ℕ
  pub match_id : ℕ
  pub chars_matched : Text

-- `HotstringMatcherState`
abbrev pub Paths : Type 0
Paths = List HotstringPath

abbrev pub word_separators : List Text
word_separators = text " " ∷ text "\t" ∷ text "\n" ∷ text "." ∷ text "," ∷ []

unfoldable pub is_word_sep : Text → Bool
is_word_sep c = any (λ s. text_eq s c) word_separators

-- The `match item` of both loops.
unfoldable pub item_matches : RollingItem → Text → Bool
item_matches word_separator c = is_word_sep c
item_matches (char d) c = text_eq d c
item_matches (char_insensitive d) c = eq_ignore_ascii_case d c

-- What one round of a loop of `process` does: it goes on with at most one more path, it returns
-- a match, or it panics (an index out of range).
pub data Round : Type 0 where
  advance : Paths → Round
  matched : HotstringMatch → Round
  panic : Round

-- What both loops do with the item at hand (none: the index is past the items): `id` and `chars`
-- are those of the path that goes on if the item matches and is not the last.
unfoldable pub take_item : HotstringMatch → ℕ → ℕ → Text → Text → Option RollingItem → Round
take_item m id next_index chars c none = advance []
take_item m id next_index chars c (some item) =
    if item_matches item c
    then (if leb (length m.items) next_index
        then matched m
        else advance
            (record { item_index = next_index; match_id = id; chars_matched = chars } ∷ []))
    else advance []

-- One round of the first loop, over `state.paths`: `self.matches[path.match_id]` may be out of range.
unfoldable pub continue_match : Text → HotstringPath → Option HotstringMatch → Round
continue_match c path none = panic
continue_match c path (some m) =
    take_item m path.match_id (path.item_index + 1) (path.chars_matched ++ c) c
      (get_elem? m.items path.item_index)

unfoldable pub continue_path : List HotstringMatch → Text → HotstringPath → Round
continue_path matches c path = continue_match c path (get_elem? matches path.match_id)

-- One round of the second loop, over `self.matches`, with the first item of the hotstring. The
-- first argument is `prev_state.is_some()`.
unfoldable pub start_match : Bool → Text → ℕ → HotstringMatch → Option RollingItem → Round
start_match has_prev c idx m none = advance []
start_match has_prev c idx m (some word_separator) =
    if not has_prev
    then take_item m idx 2 c c (get_elem? m.items 1)
    else if is_word_sep c
    then take_item m idx 2 c c (get_elem? m.items 1)
    else advance []
start_match has_prev c idx m (some (char d)) = take_item m idx 1 c c (some (char d))
start_match has_prev c idx m (some (char_insensitive d)) =
    take_item m idx 1 c c (some (char_insensitive d))

unfoldable pub start_path : Bool → Text → ℕ → HotstringMatch → Round
start_path has_prev c idx m = start_match has_prev c idx m (get_elem? m.items 0)

-- The first match or panic ends the loops; the new paths of the rounds before it are then dropped.
abbrev pub then_round : Round → Round → Round
then_round (advance ps) (advance qs) = advance (ps ++ qs)
then_round (advance ps) (matched m) = matched m
then_round (advance ps) panic = panic
then_round (matched m) r = matched m
then_round panic r = panic

unfoldable pub continue_paths : List HotstringMatch → Text → Paths → Round
continue_paths matches c [] = advance []
continue_paths matches c (path ∷ paths) =
    then_round (continue_path matches c path) (continue_paths matches c paths)

unfoldable pub start_paths : Bool → Text → ℕ → List HotstringMatch → Round
start_paths has_prev c idx [] = advance []
start_paths has_prev c idx (m ∷ ms) =
    then_round (start_path has_prev c idx m) (start_paths has_prev c (idx + 1) ms)

abbrev pub prev_paths : Option Paths → Paths
prev_paths none = []
prev_paths (some paths) = paths

-- `HotstringMatcher::process`, up to the panic: the new paths, or the match (with no paths left).
unfoldable pub process : List HotstringMatch → Option Paths → Text → Round
unfolding continue_paths start_paths continue_path start_path continue_match start_match take_item
    item_matches is_word_sep
process matches prev_state c =
    then_round (continue_paths matches c (prev_paths prev_state))
      (start_paths (is_some prev_state) c 0 matches)

-- Text typed one character at a time, the state being kept from one to the next: where it
-- ends, or the first match with the text that is left.
pub data Feed : Type 0 where
  typed : Option Paths → Feed
  found : HotstringMatch → Text → Feed
  crashed : Feed

abbrev feed_round : Round → Text → (Option Paths → Feed) → Feed
feed_round (advance ps) rest k = k (some ps)
feed_round (matched m) rest k = found m rest
feed_round panic rest k = crashed

unfoldable pub feed : List HotstringMatch → Option Paths → Text → Feed
unfolding process
feed matches s [] = typed s
feed matches s (c ∷ rest) =
    feed_round (process matches s (c ∷ [])) rest (λ s'. feed matches s' rest)
