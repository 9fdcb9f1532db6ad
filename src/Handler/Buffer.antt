-- ===== src/Handler/Buffer.antt =====
-- event_handler.rs: the hotstring buffer stays short.
use ahk_wayland.Prelude.{
  ℕ, zero, suc, ◌-◌, ◌≤◌, ◌≡◌, Bool, true, false, Option, none, some, List, [], ◌∷◌, ◌++◌, Text,
  length, arith, All, if◌then◌else◌, ◌==◌, contains,
}
use ahk_wayland.Key.{Key, key_backspace}
use ahk_wayland.Hotstring.{HotstringMatch, Round, process, prev_paths}
use ahk_wayland.Hotstring.Spelling.{IsPath}
use ahk_wayland.Hotstring.Soundness.{RoundIsSound, process-IsSound}
use ahk_wayland.Handler.State.{EventHandler, Outcome, ok}
use ahk_wayland.Handler.Typing.{
  pop, typed_char, untyped_key, drop, push_char, type_char, type_key, after_round, clearing_keys,
}

length-pop : (s : Text) → length (pop s) ≤ length s
unfolding pop
length-pop [] = omega arith
length-pop (c ∷ []) = omega arith
length-pop (c ∷ d ∷ s) = omega (arith, length-pop (d ∷ s))

length-drop : (n : ℕ) (s : Text) → length (drop n s) ≡ length s - n
unfolding drop
length-drop zero s = omega arith
length-drop (suc n) [] = omega arith
length-drop (suc n) (c ∷ s) = omega (arith, length-drop n s)

length-push_char : (c : ℕ) (s : Text) → length (push_char c s) ≤ 100
unfolding push_char
length-push_char c s = ground (arith, length-drop (length (s ++ c ∷ []) - 100) (s ++ c ∷ []))

-- Between two keys: the buffer has at most 100 characters, and the paths stand for some text.
pub record IsTyping (ms : List HotstringMatch) (s : EventHandler) : Type 0 where
  pub short : length s.hotstring_buffer ≤ 100
  pub seen : Text
  pub paths : All (IsPath ms seen) (prev_paths s.hotstring_state)

-- The outcome is a state of that kind: neither an error nor a panic.
abbrev pub KeepsTyping : List HotstringMatch → Outcome (EventHandler × Bool) → Type 0
KeepsTyping ms (ok (s, taken)) = IsTyping ms s
KeepsTyping ms _ = ⊥

after_round-IsTyping :
    (ms : List HotstringMatch) (w : Text) (r : Round) (s : EventHandler)
    → length s.hotstring_buffer ≤ 100
    → RoundIsSound ms w r
    → KeepsTyping ms (after_round r s)
after_round-IsTyping ms w (Round.advance ps) s h sound = record {
  short = h;
  seen = w;
  paths = sound;
}
after_round-IsTyping ms w (Round.matched m) s h sound = record {
  short = omega arith;
  seen = [];
  paths = tt;
}
after_round-IsTyping ms w Round.panic s h sound = sound

if-IsTyping :
    (ms : List HotstringMatch) (b : Bool) (s t : EventHandler)
    → IsTyping ms s
    → IsTyping ms t
    → IsTyping ms (if b then s else t)
if-IsTyping ms true s t h k = h
if-IsTyping ms false s t h k = k

untyped_key-IsTyping :
    (ms : List HotstringMatch) (k : Key) (s : EventHandler)
    → IsTyping ms s
    → IsTyping ms (untyped_key k s)
unfolding untyped_key
untyped_key-IsTyping ms k s h =
    if-IsTyping ms (k == key_backspace) _ _
      (record {
        short = omega (arith, length-pop s.hotstring_buffer, h.short);
        seen = h.seen;
        paths = h.paths;
      })
      (if-IsTyping ms (contains clearing_keys k) _ s
        (record { short = omega arith; seen = []; paths = tt }) h)

type_char-IsTyping :
    (ms : List HotstringMatch) (o : Option ℕ) (k : Key) (s : EventHandler)
    → IsTyping ms s
    → KeepsTyping ms (type_char ms o k s)
type_char-IsTyping ms none k s h = untyped_key-IsTyping ms k s h
type_char-IsTyping ms (some c) k s h =
    after_round-IsTyping ms (h.seen ++ c ∷ []) (process ms s.hotstring_state (c ∷ [])) _
      (length-push_char c s.hotstring_buffer)
      (process-IsSound ms h.seen s.hotstring_state c h.paths)

-- Whatever key is pressed, the hotstring part of the handler returns without a panic, with a buffer
-- of at most 100 characters and with paths that stand for typed text, if it began so.
pub type_key-IsTyping :
    (ms : List HotstringMatch) (k : Key) (s : EventHandler)
    → IsTyping ms s
    → KeepsTyping ms (type_key (some ms) k s)
unfolding type_key
type_key-IsTyping ms k s h = type_char-IsTyping ms (typed_char k) k s h
