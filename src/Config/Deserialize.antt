-- ===== src/Config/Deserialize.antt =====
-- config/keymap_action.rs, remap.rs, keymap.rs, modmap_action.rs, modmap.rs, application.rs and
-- key.rs: the deserialisers. A value is what serde hands them: a text, a list or a map is read at its
-- own kind only, an untagged enum is its first variant that can be read, and a struct is given as a
-- map, whose unknown keys are passed over. The keys of a map are distinct texts; two that are read as
-- the same key press are one entry of the `HashMap`, which has the later value. Errors are none.
pub mod Grammar
pub mod Modmaps
use ahk_wayland.Prelude.{
  ℕ, Bool, true, false, Option, none, some, List, [], ◌∷◌, ◌||◌, Text, text, text_eq, if◌then◌else◌,
}
use ahk_wayland.Key.{Key}
use ahk_wayland.Config.Types.{
  KeyPress, KeymapAction, key_press_and_release, key_press, key_repeat, key_release, remap, launch,
  set_mode, set_mark, with_mark, escape_next_key, sleep, KeymapActions, nil, cons, Remaps, end,
  entry, key_press_eq,
}
use ahk_wayland.Config.KeyNames.{KeyLibrary, parse_key, parse_key_press}

mutual
  pub data Value : Type 0 where
    null : Value
    boolean : Bool → Value
    number : ℕ → Value
    string : Text → Value
    list : Items → Value
    table : Fields → Value

  pub data Items : Type 0 where
    no_items : Items
    item : Value → Items → Items

  pub data Fields : Type 0 where
    no_fields : Fields
    field : Value → Value → Fields → Fields

infixl 5 ◌>>=◌
abbrev pub ◌>>=◌ {ℓ κ} : {A : Type ℓ} {B : Type κ} → Option A → (A → Option B) → Option B
none >>= f = none
some a >>= f = f a

abbrev pub or_else {ℓ} : {A : Type ℓ} → Option A → Option A → Option A
or_else none b = b
or_else (some a) b = some a

abbrev pub as_text : Value → Option Text
as_text (string s) = some s
as_text _ = none

abbrev pub as_bool : Value → Option Bool
as_bool (boolean b) = some b
as_bool _ = none

abbrev pub as_number : Value → Option ℕ
as_number (number n) = some n
as_number _ = none

abbrev pub item_texts : Items → Option (List Text)
item_texts no_items = some []
item_texts (item v vs) = do s ← as_text v; rest ← item_texts vs; some (s ∷ rest)

-- `Vec::<String>::deserialize`
abbrev pub as_texts : Value → Option (List Text)
as_texts (list vs) = item_texts vs
as_texts _ = none

-- The value of the only key of a map, which is this one: `remove` leaves an empty map.
abbrev pub is_key : Text → Value → Bool
is_key tag (string s) = text_eq s tag
is_key tag _ = false

abbrev pub single : Text → Value → Option Value
single tag (table (field k v no_fields)) = if is_key tag k then some v else none
single tag _ = none

-- A field of a struct.
abbrev pub get_field : Text → Fields → Option Value
get_field tag no_fields = none
get_field tag (field k v rest) =
    let later = get_field tag rest in if is_key tag k then some v else later

-- A field that may be missing: an `Option`, which null is none of.
abbrev pub optional : {A : Type 0} → (Value → Option A) → Option Value → Option (Option A)
optional read none = some none
optional read (some null) = some none
optional read (some (boolean b)) = do a ← read (boolean b); some (some a)
optional read (some (number n)) = do a ← read (number n); some (some a)
optional read (some (string s)) = do a ← read (string s); some (some a)
optional read (some (list vs)) = do a ← read (list vs); some (some a)
optional read (some (table fs)) = do a ← read (table fs); some (some a)

abbrev pub string_or_vec : Value → Option (List Text)
string_or_vec (string s) = some (s ∷ [])
string_or_vec v = as_texts v

-- `deserialize_string_or_vec` at a field with a default: null is an error.
unfoldable pub deserialize_string_or_vec : Option Value → Option (Option (List Text))
deserialize_string_or_vec none = some none
deserialize_string_or_vec (some v) = do xs ← string_or_vec v; some (some xs)

abbrev pub all_keys : KeyLibrary → List Text → Option (List Key)
all_keys lib [] = some []
all_keys lib (s ∷ ss) = do k ← parse_key lib s; ks ← all_keys lib ss; some (k ∷ ks)

abbrev pub maybe_keys : KeyLibrary → Option (List Text) → Option (Option (List Key))
maybe_keys lib none = some none
maybe_keys lib (some ss) = do ks ← all_keys lib ss; some (some ks)

-- An entry before others in the text: a later one of the same key press takes its place.
unfoldable pub has_entry : KeyPress → Remaps → Bool
unfolding key_press_eq
has_entry p end = false
has_entry p (entry q actions more) = key_press_eq q p || has_entry p more

unfoldable pub put_entry : KeyPress → KeymapActions → Remaps → Remaps
unfolding has_entry
put_entry p actions more = if has_entry p more then more else entry p actions more

module _ (lib : KeyLibrary) where
  unfoldable pub deserialize_key : Value → Option Key
  deserialize_key v = do s ← as_text v; parse_key lib s

  abbrev pub as_key_press : Value → Option KeyPress
  as_key_press v = do s ← as_text v; parse_key_press lib s

  -- `deserialize_key_press` and the like, by their tags.
  unfoldable pub deserialize_tagged_key : Text → Value → Option Key
  unfolding deserialize_key
  deserialize_tagged_key tag v = do w ← single tag v; deserialize_key w

  unfoldable pub deserialize_launch : Value → Option (List Text)
  deserialize_launch v = do w ← single (text "launch") v; as_texts w

  unfoldable pub deserialize_set_mode : Value → Option Text
  deserialize_set_mode v = do w ← single (text "set_mode") v; as_text w

  unfoldable pub deserialize_flag : Text → Value → Option Bool
  deserialize_flag tag v = do w ← single tag v; as_bool w

  unfoldable pub deserialize_with_mark : Value → Option KeyPress
  deserialize_with_mark v = do w ← single (text "with_mark") v; as_key_press w

  unfoldable pub deserialize_sleep : Value → Option ℕ
  deserialize_sleep v = do w ← single (text "sleep") v; as_number w

  abbrev pub as_action : {A : Type 0} → (A → KeymapAction) → Option A → Option KeymapAction
  as_action f none = none
  as_action f (some a) = some (f a)

  -- The variants of `KeymapAction` before Remap, and those after it.
  unfoldable pub variants_before : Value → Option KeymapAction
  unfolding deserialize_tagged_key
  variants_before v = or_else (as_action key_press_and_release (as_key_press v)) (
      or_else (as_action key_press (deserialize_tagged_key (text "press") v)) (
        or_else (as_action key_repeat (deserialize_tagged_key (text "repeat") v))
          (as_action key_release (deserialize_tagged_key (text "release") v))))

  unfoldable pub variants_after : Value → Option KeymapAction
  unfolding deserialize_launch deserialize_set_mode deserialize_flag deserialize_with_mark
      deserialize_sleep
  variants_after v = or_else (as_action launch (deserialize_launch v)) (
      or_else (as_action set_mode (deserialize_set_mode v)) (
        or_else (as_action set_mark (deserialize_flag (text "set_mark") v)) (
          or_else (as_action with_mark (deserialize_with_mark v)) (
            or_else (as_action escape_next_key (deserialize_flag (text "escape_next_key") v))
              (as_action sleep (deserialize_sleep v))))))

  -- The part of `deserialize_remap` that is left when the entries are read.
  unfoldable pub with_timeouts : Fields → Option Remaps → Option KeymapAction
  unfolding deserialize_string_or_vec
  with_timeouts fs entries = do
    es ← entries
    timeout ← optional as_number (get_field (text "timeout_millis") fs)
    names ← deserialize_string_or_vec (get_field (text "timeout_key") fs)
    keys ← maybe_keys lib names
    some (remap es timeout keys)

  -- The variants for a map, whose entries under `remap` are read.
  unfoldable pub table_action : Fields → Option Remaps → Option KeymapAction
  unfolding variants_before variants_after with_timeouts
  table_action fs entries =
      or_else (variants_before (table fs))
        (or_else (with_timeouts fs entries) (variants_after (table fs)))

  abbrev pub lone : Option KeymapAction → Option KeymapActions
  lone none = none
  lone (some a) = some (cons a nil)

  unfoldable mutual
    unfolding variants_before table_action put_entry

    -- `KeymapAction::deserialize`
    pub deserialize_action : Value → Option KeymapAction
    deserialize_action (table fs) = table_action fs (remap_field fs)
    deserialize_action (string s) = variants_before (string s)
    deserialize_action _ = none

    -- The entries of the field `remap`.
    pub remap_field : Fields → Option Remaps
    remap_field no_fields = none
    remap_field (field k v rest) =
        let later = remap_field rest in if is_key (text "remap") k then remaps v else later

    pub remaps : Value → Option Remaps
    remaps (table fs) = remap_fields fs
    remaps _ = none

    -- `HashMap::<KeyPress, Actions>::deserialize`, and `into_vec` of each.
    pub remap_fields : Fields → Option Remaps
    remap_fields no_fields = some end
    remap_fields (field k v rest) = do
      p ← as_key_press k
      actions ← deserialize_actions v
      more ← remap_fields rest
      some (put_entry p actions more)

    -- `Actions`: none for null, one action, or a list.
    pub deserialize_actions : Value → Option KeymapActions
    deserialize_actions null = some nil
    deserialize_actions (list vs) = action_items vs
    deserialize_actions (table fs) = lone (table_action fs (remap_field fs))
    deserialize_actions (string s) = lone (variants_before (string s))
    deserialize_actions _ = none

    pub action_items : Items → Option KeymapActions
    action_items no_items = some nil
    action_items (item v vs) = do
      a ← deserialize_action v
      rest ← action_items vs
      some (cons a rest)
