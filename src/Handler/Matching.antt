-- ===== src/Handler/Matching.antt =====
-- event_handler.rs: whether the window, the application, the device and the mode are those that an
-- entry of the configuration asks for. The window manager is asked at most once an event for each.
use ahk_wayland.Prelude.{
  ◌+◌, Bool, true, false, not, ◌&&◌, Option, none, some, List, [], ◌∷◌, Text, text_eq,
  has_substring, after_last, any, all, map_get, if◌then◌else◌,
}
use ahk_wayland.Key.{Key}
use ahk_wayland.World.{World}
use ahk_wayland.Config.Types.{
  ApplicationMatcher, literal, name, regex, OnlyOrNot, Device, Modmap, ModmapAction,
}
use ahk_wayland.InputDevice.{InputDeviceInfo, match_device}
use ahk_wayland.Handler.State.{EventHandler, Env}

-- application.rs: `ApplicationMatcher::matches`.
abbrev pub name_of : Text → Option Text → Text
name_of app none = app
name_of app (some s) = s

unfoldable pub matcher_matches : World → ApplicationMatcher → Text → Bool
matcher_matches w (literal s) app = text_eq s app
matcher_matches w (name s) app = text_eq s (name_of app (after_last b'.' app))
matcher_matches w (regex r) app = w.is_match r app

-- An `only` list takes a literal as a part of the text, whatever the case of its letters.
unfoldable pub only_matches : World → Text → ApplicationMatcher → Bool
unfolding matcher_matches
only_matches w t (literal s) = has_substring (w.to_lowercase s) (w.to_lowercase t)
only_matches w t (name s) = matcher_matches w (name s) t
only_matches w t (regex r) = matcher_matches w (regex r) t

abbrev pub not_list : World → Text → Option (List ApplicationMatcher) → Bool
not_list w t none = false
not_list w t (some ms) = all (λ m. not (matcher_matches w m t)) ms

abbrev pub only_list :
    World → Text → Option (List ApplicationMatcher) → Option (List ApplicationMatcher) → Bool
only_list w t (some ms) nots = any (only_matches w t) ms
only_list w t none nots = not_list w t nots

unfoldable pub match_text : World → OnlyOrNot → Text → Bool
unfolding only_matches
match_text w m t = only_list w t m.only m.not

abbrev pub or_empty_text : Option Text → Text
or_empty_text none = []
or_empty_text (some t) = t

-- The title in the cache, or the answer of the window manager, which is then kept.
abbrev pub title_from : Env → Option Text → EventHandler → Text × EventHandler
title_from env (some t) s = (t, s)
title_from env none s =
    let t = or_empty_text (env.world.current_window s.queries) in
    (t, record s { title_cache = some t; queries = s.queries + 1 })

abbrev pub application_from : Env → Option Text → EventHandler → Text × EventHandler
application_from env (some t) s = (t, s)
application_from env none s =
    let t = or_empty_text (env.world.current_application s.queries) in
    (t, record s { application_cache = some t; queries = s.queries + 1 })

unfoldable pub match_window : Env → OnlyOrNot → EventHandler → Bool × EventHandler
unfolding match_text
match_window env m s =
    let (t, s') = title_from env s.title_cache s in (match_text env.world m t, s')

unfoldable pub match_application : Env → OnlyOrNot → EventHandler → Bool × EventHandler
unfolding match_text
match_application env m s =
    let (t, s') = application_from env s.application_cache s in (match_text env.world m t, s')

-- A condition that is not there holds.
abbrev pub window_ok : Env → Option OnlyOrNot → EventHandler → Bool × EventHandler
window_ok env none s = (true, s)
window_ok env (some m) s = match_window env m s

abbrev pub application_ok : Env → Option OnlyOrNot → EventHandler → Bool × EventHandler
application_ok env none s = (true, s)
application_ok env (some m) s = match_application env m s

abbrev pub device_ok : Option Device → InputDeviceInfo → Bool
device_ok none d = true
device_ok (some m) d = match_device m d

abbrev pub mode_ok : Option (List Text) → Text → Bool
mode_ok none mode = true
mode_ok (some modes) mode = any (λ m. text_eq m mode) modes

-- The conditions of a modmap, one after the other: a later one is not asked if one before it fails.
unfoldable pub modmap_ok : Env → InputDeviceInfo → Modmap → EventHandler → Bool × EventHandler
modmap_ok env d m s =
    let (w, s1) = window_ok env m.window s in
    if w
    then (let (a, s2) = application_ok env m.application s1 in
        if a then (device_ok m.device d && mode_ok m.mode s2.mode, s2) else (false, s2))
    else (false, s1)

-- The first modmap for the key whose conditions hold.
unfoldable pub find_modmap :
    Env → InputDeviceInfo → Key → List Modmap → EventHandler → Option ModmapAction × EventHandler
unfolding modmap_ok
find_modmap env d k [] s = (none, s)
find_modmap env d k (m ∷ ms) s = elim (map_get k m.remap) [
  | none ↦ find_modmap env d k ms s
  | some action ↦
      let (holds, s') = modmap_ok env d m s in
      let later = find_modmap env d k ms s' in if holds then (some action, s') else later
]
