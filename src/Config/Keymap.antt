-- ===== src/Config/Keymap.antt =====
-- config/keymap.rs: the tables from a triggering key to the entries for it.
use ahk_wayland.Prelude.{
  ◌≡◌, ap, ◌∙◌, Bool, Option, none, some, List, [], ◌∷◌, ◌++◌, append_assoc, append-nil, ◌==◌,
  arith, map_get, map_insert, map_get-insert, if◌then◌else◌, Bool-cases, inl, inr,
}
use ahk_wayland.Key.{Key}
use ahk_wayland.Config.Types.{
  KeyPress, KeymapAction, Keymap, KeymapEntry, OverrideEntry, Remaps, remap_entries,
}

abbrev pub or_empty {ℓ} : {E : Type ℓ} → Option (List E) → List E
or_empty none = []
or_empty (some es) = es

-- `get`, and an empty vector where the key is missing.
abbrev pub entries_of {ℓ} : {E : Type ℓ} → Key → List (Key × List E) → List E
entries_of k table = or_empty (map_get k table)

-- One round of both builders: the entry is appended to those of its key.
abbrev pub push_entry {ℓ} : {E : Type ℓ} → Key → E → List (Key × List E) → List (Key × List E)
push_entry k e table = map_insert k (entries_of k table ++ e ∷ []) table

abbrev pub keymap_entry : Keymap → KeyPress × List KeymapAction → KeymapEntry
keymap_entry m (k, xs) = record {
  actions = xs;
  modifiers = k.modifiers;
  application = m.application;
  title = m.window;
  device = m.device;
  mode = m.mode;
  exact_match = m.exact_match;
}

unfoldable pub add_keymap :
    Keymap
    → List (KeyPress × List KeymapAction)
    → List (Key × List KeymapEntry)
    → List (Key × List KeymapEntry)
add_keymap m [] table = table
add_keymap m ((k, xs) ∷ rest) table =
    add_keymap m rest (push_entry k.key (keymap_entry m (k, xs)) table)

unfoldable pub add_keymaps :
    List Keymap → List (Key × List KeymapEntry) → List (Key × List KeymapEntry)
add_keymaps [] table = table
add_keymaps (m ∷ ms) table = add_keymaps ms (add_keymap m m.remap table)

unfoldable pub build_keymap_table : List Keymap → List (Key × List KeymapEntry)
build_keymap_table keymaps = add_keymaps keymaps []

abbrev pub override_entry : Bool → KeyPress × List KeymapAction → OverrideEntry
override_entry exact_match (k, xs) = record {
  actions = xs;
  modifiers = k.modifiers;
  exact_match = exact_match;
}

unfoldable pub add_overrides :
    Bool
    → List (KeyPress × List KeymapAction)
    → List (Key × List OverrideEntry)
    → List (Key × List OverrideEntry)
add_overrides exact_match [] table = table
add_overrides exact_match ((k, xs) ∷ rest) table =
    add_overrides exact_match rest (push_entry k.key (override_entry exact_match (k, xs)) table)

unfoldable pub build_override_table : Remaps → Bool → List (Key × List OverrideEntry)
build_override_table remap exact_match = add_overrides exact_match (remap_entries remap) []

-- What the table should hold for a key: the entries of the key presses on that key, in order.
abbrev pub for_key {ℓ} :
    {E : Type ℓ}
    → (KeyPress × List KeymapAction → E)
    → Key
    → List (KeyPress × List KeymapAction)
    → List E
for_key f j [] = []
for_key f j ((k, xs) ∷ rest) =
    let others = for_key f j rest in if k.key == j then f (k, xs) ∷ others else others

abbrev pub keymap_entries : Key → List Keymap → List KeymapEntry
keymap_entries j [] = []
keymap_entries j (m ∷ ms) = for_key (keymap_entry m) j m.remap ++ keymap_entries j ms

entries_of-push {ℓ} :
    {E : Type ℓ} (k : Key) (e : E) (table : List (Key × List E)) (j : Key)
    → entries_of j (push_entry k e table)
      ≡ (if k == j then entries_of j table ++ e ∷ [] else entries_of j table)
entries_of-push k e table j = elim (Bool-cases (k == j)) [
  | inl same ↦ let p : k ≡ j = ground arith in rw (map_get-insert, same, p)
  | inr other ↦ rw (map_get-insert, other)
]

push-for_key {ℓ} :
    {E : Type ℓ} (f : KeyPress × List KeymapAction → E) (j : Key) (k : KeyPress)
    (xs : List KeymapAction) (rest : List (KeyPress × List KeymapAction)) (es : List E)
    → (if k.key == j then es ++ f (k, xs) ∷ [] else es) ++ for_key f j rest
      ≡ es ++ for_key f j ((k, xs) ∷ rest)
push-for_key f j k xs rest es = elim (Bool-cases (k.key == j)) [
  | inl same ↦ rw same (append_assoc es (f (k, xs) ∷ []) (for_key f j rest))
  | inr other ↦ rw other
]

add_overrides-entries :
    (exact_match : Bool) (rest : List (KeyPress × List KeymapAction))
    (table : List (Key × List OverrideEntry)) (j : Key)
    → entries_of j (add_overrides exact_match rest table)
      ≡ entries_of j table ++ for_key (override_entry exact_match) j rest
unfolding add_overrides
add_overrides-entries exact_match [] table j = rw append-nil
add_overrides-entries exact_match ((k, xs) ∷ rest) table j =
    add_overrides-entries exact_match rest _ j
    ∙ ap (λ (es : List OverrideEntry). es ++ for_key (override_entry exact_match) j rest)
        (entries_of-push k.key (override_entry exact_match (k, xs)) table j)
    ∙ push-for_key (override_entry exact_match) j k xs rest (entries_of j table)

-- The table of a nested remap holds, for each key, just the entries of the key presses on that
-- key, with their modifiers and actions, in the order of the remap.
build_override_table-entries :
    (remap : Remaps) (exact_match : Bool) (j : Key)
    → entries_of j (build_override_table remap exact_match)
      ≡ for_key (override_entry exact_match) j (remap_entries remap)
unfolding build_override_table
build_override_table-entries remap exact_match j =
    add_overrides-entries exact_match (remap_entries remap) [] j

add_keymap-entries :
    (m : Keymap) (rest : List (KeyPress × List KeymapAction))
    (table : List (Key × List KeymapEntry)) (j : Key)
    → entries_of j (add_keymap m rest table) ≡ entries_of j table ++ for_key (keymap_entry m) j rest
unfolding add_keymap
add_keymap-entries m [] table j = rw append-nil
add_keymap-entries m ((k, xs) ∷ rest) table j =
    add_keymap-entries m rest _ j
    ∙ ap (λ (es : List KeymapEntry). es ++ for_key (keymap_entry m) j rest)
        (entries_of-push k.key (keymap_entry m (k, xs)) table j)
    ∙ push-for_key (keymap_entry m) j k xs rest (entries_of j table)

add_keymaps-entries :
    (ms : List Keymap) (table : List (Key × List KeymapEntry)) (j : Key)
    → entries_of j (add_keymaps ms table) ≡ entries_of j table ++ keymap_entries j ms
unfolding add_keymaps
add_keymaps-entries [] table j = rw append-nil
add_keymaps-entries (m ∷ ms) table j =
    add_keymaps-entries ms _ j
    ∙ ap (λ (es : List KeymapEntry). es ++ keymap_entries j ms)
        (add_keymap-entries m m.remap table j)
    ∙ append_assoc (entries_of j table) (for_key (keymap_entry m) j m.remap) (keymap_entries j ms)

-- The keymap table holds, for each key, the entries of all keymaps for key presses on that key,
-- each with the conditions of its keymap: those of an earlier keymap before those of a later one.
pub build_keymap_table-entries :
    (keymaps : List Keymap) (j : Key)
    → entries_of j (build_keymap_table keymaps) ≡ keymap_entries j keymaps
unfolding build_keymap_table
build_keymap_table-entries keymaps j = add_keymaps-entries keymaps [] j
