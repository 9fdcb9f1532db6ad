-- ===== src/Tests/Typing.antt =====
-- hotstring.rs and the typing part of event_handler.rs on concrete text.
use ahk_wayland.Prelude.{◌≡◌, refl, true, false, none, some, List, [], ◌∷◌, ◌++◌, Text, text, arith}
use ahk_wayland.Key.{key_b}
use ahk_wayland.Handler.Typing.{type_key}
use ahk_wayland.Handler.Buffer.{IsTyping, KeepsTyping, type_key-IsTyping}
use ahk_wayland.Hotstring.{
  RollingItem, char_insensitive, HotstringMatch, from_trigger, is_word_sep, item_matches, typed,
  found, feed,
}
use ahk_wayland.Hotstring.Soundness.{FeedIsSound, feed-IsSound}
use ahk_wayland.Hotstring.Completeness.{feed-finds_spelled}
use ahk_wayland.Hotstring.Boundary.{from_trigger-IsWordHotstring, feed-misses_words}
use ahk_wayland.Hotstring.Start.{feed-from_trigger}
use ahk_wayland.Tests.Fixtures.{fresh}

abbrev btw : HotstringMatch
btw = from_trigger 0 (text "btw") (text "by the way") false false false false

abbrev anywhere : HotstringMatch
anywhere = from_trigger 0 (text "ab") (text "alphabet") true false false false

-- At the start of the input the trigger and a separator are recognised.
btw_first : feed (btw ∷ []) none (text "btw ") ≡ found btw []
unfolding feed from_trigger
btw_first = refl

-- After anything else they are not.
btw_later : feed (btw ∷ []) none (text "so btw ") ≡ typed (some [])
unfolding feed from_trigger
btw_later = refl

anywhere_found : feed (anywhere ∷ []) none (text "xaBc") ≡ found anywhere (text "c")
unfolding feed from_trigger
anywhere_found = refl

feed-IsSound_example :
    FeedIsSound (anywhere ∷ btw ∷ []) (text "xaBc") (feed (anywhere ∷ btw ∷ []) none (text "xaBc"))
feed-IsSound_example = feed-IsSound (anywhere ∷ btw ∷ []) (text "xaBc")

abbrev letters : List RollingItem
letters = char_insensitive (text "b") ∷ []

feed-finds_spelled_example :
    (n : HotstringMatch) × (left : Text) × (feed
        (anywhere ∷ [])
        none
        (text "x" ++ (text "aB" ++ text "c"))
      ≡ found n left)
unfolding from_trigger item_matches
feed-finds_spelled_example =
    feed-finds_spelled (anywhere ∷ []) 0 anywhere (char_insensitive (text "a")) letters (text "x")
      (text "aB") (text "c") refl refl (ground arith) (refl, (refl, tt))

feed-misses_words_example : feed (btw ∷ []) (some []) (text " btw ") ≡ typed (some [])
unfolding is_word_sep
feed-misses_words_example =
    feed-misses_words (btw ∷ []) (text " btw ") (
      from_trigger-IsWordHotstring 0 b'b' (text "tw") (text "by the way") false false false refl,
      tt,
    )

feed-from_trigger_example :
    feed
      (from_trigger 0 (b'b' ∷ text "tw") (text "by the way") false false false false ∷ [])
      none
      ((b'b' ∷ text "tw") ++ b' ' ∷ text "x")
    ≡ found
        (from_trigger 0 (b'b' ∷ text "tw") (text "by the way") false false false false)
        (text "x")
unfolding is_word_sep
feed-from_trigger_example =
    feed-from_trigger 0 b'b' b' ' (text "tw") (text "by the way") false false false (text "x")
      (refl, (refl, (refl, tt))) refl

fresh-IsTyping : IsTyping (btw ∷ []) fresh
fresh-IsTyping = record { short = omega arith; seen = []; paths = tt }

type_key-IsTyping_example : KeepsTyping (btw ∷ []) (type_key (some (btw ∷ [])) key_b fresh)
type_key-IsTyping_example = type_key-IsTyping (btw ∷ []) key_b fresh fresh-IsTyping
