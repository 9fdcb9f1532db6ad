-- ===== src/Config/Deserialize/Grammar.antt =====
-- config/keymap_action.rs: the values that are written for actions.
use ahk_wayland.Prelude.{ℕ, ◌≡◌, refl, ap, Bool, Option, none, some, List, [], ◌∷◌, Text, text}
use ahk_wayland.Key.{Key}
use ahk_wayland.Config.Types.{
  KeyPress, KeymapAction, key_press_and_release, key_press, key_repeat, key_release, remap, launch,
  set_mode, set_mark, with_mark, escape_next_key, sleep, KeymapActions, nil, cons, Remaps, end,
}
use ahk_wayland.Config.KeyNames.{KeyLibrary, parse_key, parse_key_press}
use ahk_wayland.Config.Deserialize.{
  Value, null, boolean, number, string, list, table, Items, no_items, item, Fields, no_fields,
  field, item_texts, maybe_keys, variants_before, variants_after, with_timeouts, table_action, lone,
  deserialize_string_or_vec, deserialize_action, remap_fields, put_entry, deserialize_actions,
  action_items,
}

-- A map with one key.
abbrev pub under_tag : Text → Value → Value
under_tag tag v = table (field (string tag) v no_fields)

abbrev pub texts : List Text → Items
texts [] = no_items
texts (s ∷ ss) = item (string s) (texts ss)

abbrev pub timeout_field : Option ℕ → Fields → Fields
timeout_field none fs = fs
timeout_field (some ms) fs = field (string (text "timeout_millis")) (number ms) fs

abbrev pub keys_field : Option (List Text) → Fields
keys_field none = no_fields
keys_field (some names) = field (string (text "timeout_key")) (list (texts names)) no_fields

abbrev pub remap_value : Fields → Option ℕ → Option (List Text) → Value
remap_value fs timeout names =
    table (field (string (text "remap")) (table fs) (timeout_field timeout (keys_field names)))

module _ (lib : KeyLibrary) where
  mutual
    -- How each action is written: a key press as a text, an action on a key, a command, a mode, a
    -- flag or a number under its tag, and nested remaps with their timeout and its keys.
    pub data IsAction : Value → KeymapAction → Type 0 where
      chord :
          (s : Text) (p : KeyPress)
          → parse_key_press lib s ≡ some p
          → IsAction (string s) (key_press_and_release p)
      pressed :
          (s : Text) (k : Key)
          → parse_key lib s ≡ some k
          → IsAction (under_tag (text "press") (string s)) (key_press k)
      repeated :
          (s : Text) (k : Key)
          → parse_key lib s ≡ some k
          → IsAction (under_tag (text "repeat") (string s)) (key_repeat k)
      released :
          (s : Text) (k : Key)
          → parse_key lib s ≡ some k
          → IsAction (under_tag (text "release") (string s)) (key_release k)
      launched :
          (ss : List Text) → IsAction (under_tag (text "launch") (list (texts ss))) (launch ss)
      mode_set : (s : Text) → IsAction (under_tag (text "set_mode") (string s)) (set_mode s)
      mark_set : (b : Bool) → IsAction (under_tag (text "set_mark") (boolean b)) (set_mark b)
      marked :
          (s : Text) (p : KeyPress)
          → parse_key_press lib s ≡ some p
          → IsAction (under_tag (text "with_mark") (string s)) (with_mark p)
      escaped :
          (b : Bool) → IsAction (under_tag (text "escape_next_key") (boolean b)) (escape_next_key b)
      slept : (n : ℕ) → IsAction (under_tag (text "sleep") (number n)) (sleep n)
      remapped :
          (fs : Fields) (es : Remaps) (timeout : Option ℕ) (names : Option (List Text))
          (keys : Option (List Key))
          → AreRemaps fs es
          → maybe_keys lib names ≡ some keys
          → IsAction (remap_value fs timeout names) (remap es timeout keys)

    pub data AreRemaps : Fields → Remaps → Type 0 where
      no_remaps : AreRemaps no_fields end
      one_more :
          (s : Text) (p : KeyPress) (v : Value) (actions : KeymapActions) (fs : Fields)
          (es : Remaps)
          → parse_key_press lib s ≡ some p
          → AreActions v actions
          → AreRemaps fs es
          → AreRemaps (field (string s) v fs) (put_entry p actions es)

    -- No action as null, one as itself, and any number as a list.
    pub data AreActions : Value → KeymapActions → Type 0 where
      no_action : AreActions null nil
      one_action : (v : Value) (a : KeymapAction) → IsAction v a → AreActions v (cons a nil)
      several :
          (vs : Items) (actions : KeymapActions)
          → AreItems vs actions
          → AreActions (list vs) actions

    pub data AreItems : Items → KeymapActions → Type 0 where
      none_left : AreItems no_items nil
      first_of :
          (v : Value) (a : KeymapAction) (vs : Items) (actions : KeymapActions)
          → IsAction v a
          → AreItems vs actions
          → AreItems (item v vs) (cons a actions)

  item_texts-texts : (ss : List Text) → item_texts (texts ss) ≡ some ss
  item_texts-texts [] = refl
  item_texts-texts (s ∷ ss) = rw (item_texts-texts ss) refl

  deserialize_actions-lone :
      (v : Value) (a : KeymapAction)
      → deserialize_action lib v ≡ some a
      → deserialize_actions lib v ≡ some (cons a nil)
  unfolding deserialize_action
  deserialize_actions-lone (table fs) a e = ap (lone lib) e
  deserialize_actions-lone (string s) a e = ap (lone lib) e
  deserialize_actions-lone null a e = absurd (cc e)
  deserialize_actions-lone (boolean b) a e = absurd (cc e)
  deserialize_actions-lone (number n) a e = absurd (cc e)
  deserialize_actions-lone (list vs) a e = absurd (cc e)

  abbrev with_keys : Remaps → Option ℕ → Option (Option (List Key)) → Option KeymapAction
  with_keys es timeout none = none
  with_keys es timeout (some keys) = some (remap es timeout keys)

  remap_value-reads :
      (fs : Fields) (es : Remaps) (timeout : Option ℕ) (names : Option (List Text))
      → (keys : Option (List Key)) → remap_fields lib fs ≡ some es
      → maybe_keys lib names ≡ some keys
      → deserialize_action lib (remap_value fs timeout names) ≡ some (remap es timeout keys)
  unfolding deserialize_action variants_before variants_after with_timeouts table_action
      deserialize_string_or_vec
  remap_value-reads fs es none none keys h k = rw h (ap (with_keys es none) k)
  remap_value-reads fs es (some ms) none keys h k = rw h (ap (with_keys es (some ms)) k)
  remap_value-reads fs es none (some names) keys h k =
      rw h (rw (item_texts-texts names) (rw k refl))
  remap_value-reads fs es (some ms) (some names) keys h k =
      rw h (rw (item_texts-texts names) (rw k refl))

  mutual
    unfolding deserialize_action variants_before variants_after with_timeouts table_action

    written_action :
        {v : Value} {a : KeymapAction} → IsAction v a → deserialize_action lib v ≡ some a
    written_action (chord s p h) = rw h refl
    written_action (pressed s k h) = rw h refl
    written_action (repeated s k h) = rw h refl
    written_action (released s k h) = rw h refl
    written_action (launched ss) = rw (item_texts-texts ss) refl
    written_action (mode_set s) = refl
    written_action (mark_set b) = refl
    written_action (marked s p h) = rw h refl
    written_action (escaped b) = refl
    written_action (slept n) = refl
    written_action (remapped fs es timeout names keys h k) =
        remap_value-reads fs es timeout names keys (remap_fields-AreRemaps h) k

    remap_fields-AreRemaps :
        {fs : Fields} {es : Remaps} → AreRemaps fs es → remap_fields lib fs ≡ some es
    remap_fields-AreRemaps no_remaps = refl
    remap_fields-AreRemaps (one_more s p v actions fs es e h k) =
        rw e (rw (deserialize_actions-AreActions h) (rw (remap_fields-AreRemaps k) refl))

    deserialize_actions-AreActions :
        {v : Value} {actions : KeymapActions}
        → AreActions v actions
        → deserialize_actions lib v ≡ some actions
    deserialize_actions-AreActions no_action = refl
    deserialize_actions-AreActions (one_action v a h) =
        deserialize_actions-lone v a (written_action h)
    deserialize_actions-AreActions (several vs actions h) = action_items-AreItems h

    action_items-AreItems :
        {vs : Items} {actions : KeymapActions}
        → AreItems vs actions
        → action_items lib vs ≡ some actions
    action_items-AreItems none_left = refl
    action_items-AreItems (first_of v a vs actions h k) =
        rw (written_action h) (rw (action_items-AreItems k) refl)

  -- What is written as an action is read as that action, nested remaps and lists of actions in it
  -- included: no variant that is tried before takes it.
  pub deserialize_action-IsAction :
      (v : Value) (a : KeymapAction) → IsAction v a → deserialize_action lib v ≡ some a
  deserialize_action-IsAction v a h = written_action h
