-- ===== src/Handler/Asked.antt =====
-- event_handler.rs, find_keymap: the search in the keymap table changes nothing but what is known of
-- the window.
use ahk_wayland.Prelude.{
  ℕ, ◌≡◌, refl, ap, ◌∙◌, Bool, true, false, not, Option, none, some, List, [], ◌∷◌, Bool-cases,
  Option-cases, inl, inr, Text,
}
use ahk_wayland.Config.Types.{KeymapEntry}
use ahk_wayland.InputDevice.{InputDeviceInfo}
use ahk_wayland.Handler.State.{EventHandler, Env}
use ahk_wayland.Handler.Matching.{match_window, match_application, title_from, application_from}
use ahk_wayland.Handler.Lookup.{
  Found, or_else_do, scan_table, scan_pass, scan_contexts, context_ok, entry_ok,
}

-- From `s` to `s'` the window manager was asked, and nothing else.
pub record IsAsked (s s' : EventHandler) : Type 0 where
  pub application : Option Text
  pub title : Option Text
  pub queries : ℕ
  pub same :
      s' ≡ record s { application_cache = application; title_cache = title; queries = queries }

pub IsAsked-refl : (s : EventHandler) → IsAsked s s
IsAsked-refl s = record {
  application = s.application_cache;
  title = s.title_cache;
  queries = s.queries;
  same = refl;
}

IsAsked-trans : (s t u : EventHandler) → IsAsked s t → IsAsked t u → IsAsked s u
IsAsked-trans s t u h k = record {
  application = k.application;
  title = k.title;
  queries = k.queries;
  same =
      k.same
      ∙ ap
          (λ (x : EventHandler). record x {
            application_cache = k.application;
            title_cache = k.title;
            queries = k.queries;
          })
          h.same;
}

title_from-IsAsked :
    (env : Env) (o : Option Text) (s : EventHandler) → IsAsked s (title_from env o s).1
title_from-IsAsked env none s = record { application = _; title = _; queries = _; same = refl }
title_from-IsAsked env (some t) s = IsAsked-refl s

application_from-IsAsked :
    (env : Env) (o : Option Text) (s : EventHandler) → IsAsked s (application_from env o s).1
application_from-IsAsked env none s = record {
  application = _;
  title = _;
  queries = _;
  same = refl;
}
application_from-IsAsked env (some t) s = IsAsked-refl s

context_ok-IsAsked :
    (env : Env) (e : KeymapEntry) (s : EventHandler) → IsAsked s (context_ok env e s).1
unfolding context_ok match_window match_application
context_ok-IsAsked env e s = elim (Option-cases e.title) [
  | inr (m, t) ↦ rw t (title_from-IsAsked env s.title_cache s)
  | inl t ↦ elim (Option-cases e.application) [
    | inr (m, a) ↦ rw (t, a) (application_from-IsAsked env s.application_cache s)
    | inl a ↦ rw (t, a) (IsAsked-refl s)
  ]
]

scan_contexts-IsAsked :
    (env : Env) (d : InputDeviceInfo) (pass : Bool) (es : List KeymapEntry) (s : EventHandler)
    → IsAsked s (scan_contexts env d pass es s).1
unfolding scan_contexts
scan_contexts-IsAsked env d pass [] s = IsAsked-refl s
scan_contexts-IsAsked env d pass (e ∷ es) s =
    let asked = context_ok-IsAsked env e s in
    let s' = (context_ok env e s).1 in
    elim (Bool-cases (not (entry_ok pass d e s))) [
      | inl skipped ↦ rw skipped (scan_contexts-IsAsked env d pass es s)
      | inr tried ↦ elim (Bool-cases (context_ok env e s).0) [
        | inl holds ↦ rw (tried, holds) asked
        | inr fails ↦
            rw (tried, fails) (IsAsked-trans s s' _ asked (scan_contexts-IsAsked env d pass es s'))
      ]
    ]

pub or_else_do-IsAsked :
    (s : EventHandler) (r : Found) (next : EventHandler → Found)
    → IsAsked s r.1
    → ((t : EventHandler) → IsAsked t (next t).1)
    → IsAsked s (or_else_do r next).1
or_else_do-IsAsked s (some xs, t) next h k = h
or_else_do-IsAsked s (none, t) next h k = IsAsked-trans s t _ h (k t)

scan_pass-IsAsked :
    (env : Env) (d : InputDeviceInfo) (pass : Bool) (es : List KeymapEntry) (s : EventHandler)
    → IsAsked s (scan_pass env d pass es s).1
unfolding scan_pass
scan_pass-IsAsked env d pass es s =
    or_else_do-IsAsked s (scan_contexts env d pass es s) _ (scan_contexts-IsAsked env d pass es s)
      (λ t. IsAsked-refl t)

pub scan_table-IsAsked :
    (env : Env) (d : InputDeviceInfo) (es : List KeymapEntry) (s : EventHandler)
    → IsAsked s (scan_table env d es s).1
unfolding scan_table
scan_table-IsAsked env d es s =
    or_else_do-IsAsked s (scan_pass env d true es s) _ (scan_pass-IsAsked env d true es s)
      (λ t. scan_pass-IsAsked env d false es t)
