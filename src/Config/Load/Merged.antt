-- ===== src/Config/Load/Merged.antt =====
-- config/mod.rs, load_configs: what is in the configuration that comes of several files.
use ahk_wayland.Prelude.{
  ◌≡◌, refl, ◌∙◌, not, some, List, [], ◌∷◌, ◌++◌, retain, append_assoc, append-nil, Bool-cases, inl,
  inr,
}
use ahk_wayland.Key.{key_capslock}
use ahk_wayland.Ahk.Types.{AhkHotkey, AhkConfig}
use ahk_wayland.Ahk.Transpiler.{extract_hotstrings}
use ahk_wayland.Config.Types.{Config, Keymap}
use ahk_wayland.Config.Convert.{convert_ahk_hotkey_to_keymap}
use ahk_wayland.Config.Load.{
  File, Libraries, new_config, has_filter, split_hotkeys, matcher_of, ahk_to_config, read_config,
}
use ahk_wayland.Handler.State.{ok}

-- The hotkeys are those of the keymaps, one for one.
abbrev pub AreConverted : Libraries → List AhkHotkey → List Keymap → Type 0
AreConverted lib [] [] = Unit
AreConverted lib [] (m ∷ ms) = ⊥
AreConverted lib (h ∷ hs) [] = ⊥
AreConverted lib (h ∷ hs) (m ∷ ms) =
    (convert_ahk_hotkey_to_keymap lib.shell lib.contexts h ≡ some m) × AreConverted lib hs ms

split_from :
    (lib : Libraries) (hs : List AhkHotkey) (ms : List Keymap) (cs gs : List Keymap)
    → AreConverted lib hs ms
    → split_hotkeys lib hs (cs, gs)
      ≡ ok (cs ++ retain has_filter ms, gs ++ retain (λ m. not (has_filter m)) ms)
unfolding split_hotkeys
split_from lib [] [] cs gs h = rw (append-nil cs, append-nil gs) refl
split_from lib [] (m ∷ ms) cs gs h = absurd h
split_from lib (k ∷ hs) [] cs gs h = absurd h
split_from lib (k ∷ hs) (m ∷ ms) cs gs h = elim (Bool-cases (has_filter m)) [
  | inl e ↦
      rw (h.0, e)
        (split_from lib hs ms (cs ++ m ∷ []) gs h.1
          ∙ rw (append_assoc cs (m ∷ []) (retain has_filter ms)) refl)
  | inr e ↦
      rw (h.0, e)
        (split_from lib hs ms cs (gs ++ m ∷ []) h.1
          ∙ rw (append_assoc gs (m ∷ []) (retain (λ m'. not (has_filter m')) ms)) refl)
]

-- The keymaps of an AutoHotkey file, if no hotkey makes the conversion panic: first those with an
-- application or a window, then the others, each in the order of the file. Its hotstrings have a
-- matcher exactly if there are any, and CapsLock is a virtual modifier.
pub ahk_to_config-order :
    (lib : Libraries) (ahk : AhkConfig) (ms : List Keymap)
    → AreConverted lib ahk.hotkeys ms
    → ahk_to_config lib ahk
      ≡ ok (record new_config {
        virtual_modifiers = key_capslock ∷ [];
        keymap = retain has_filter ms ++ retain (λ m. not (has_filter m)) ms;
        hotstrings = extract_hotstrings ahk;
        hotstring_matcher = matcher_of (extract_hotstrings ahk);
      })
unfolding ahk_to_config
ahk_to_config-order lib ahk ms h = rw (split_from lib ahk.hotkeys ms [] [] h) refl

-- Each file is read as the configuration at its place.
abbrev pub AreRead : Libraries → List File → List Config → Type 0
AreRead lib [] [] = Unit
AreRead lib [] (c ∷ cs) = ⊥
AreRead lib (f ∷ fs) [] = ⊥
AreRead lib (f ∷ fs) (c ∷ cs) = (read_config lib f ≡ ok c) × AreRead lib fs cs

-- A list of each configuration, in their order.
abbrev pub gathered {ℓ} : {A : Type ℓ} → (Config → List A) → List Config → List A
gathered field [] = []
gathered field (c ∷ cs) = field c ++ gathered field cs

abbrev with_gathered : Config → List Config → Config
with_gathered c cs = record c {
  modmap = c.modmap ++ gathered (λ d. d.modmap) cs;
  keymap = c.keymap ++ gathered (λ d. d.keymap) cs;
  virtual_modifiers = c.virtual_modifiers ++ gathered (λ d. d.virtual_modifiers) cs;
  hotstrings = c.hotstrings ++ gathered (λ d. d.hotstrings) cs;
}
