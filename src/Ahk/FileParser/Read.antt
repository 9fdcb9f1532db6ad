-- ===== src/Ahk/FileParser/Read.antt =====
-- ahk/parser.rs, parse_file: a grammar of files, and what a file of that grammar is read as.
use ahk_wayland.Prelude.{
  ℕ, zero, suc, ◌+◌, ◌<◌, ◌≡◌, refl, ap, sym, ◌∙◌, true, false, ◌||◌, Option, none, some, List, [],
  ◌∷◌, ◌++◌, Text, text, trim, length, length-append, lines, starts_with, ends_with, has_substring,
  append_assoc, append-nil, arith,
}
use ahk_wayland.Ahk.Types.{AhkAction, AhkHotkey, AhkHotstring}
use ahk_wayland.Ahk.Blocks.{closing, line_kind, is_skipped}
use ahk_wayland.Ahk.Blocks.Read.{Body, statements-Body}
use ahk_wayland.Ahk.Hotkeys.{
  as_one, hotkey_of, parse_hotkey, parse_multiline_hotkey, multiline_parts,
}
use ahk_wayland.Ahk.FileParser.{
  Library, FileState, add_hotkey, parse_hotstring, brace_next, definition_of, block_hotkey,
  line_hotkey, file_line, file_lines, parse_file,
}
use ahk_wayland.Ahk.FileParser.Errors.{OpensBlock, file_line-block}
use ahk_wayland.Ahk.Parsed.{Parsed, ok, ◌>>=◌}

-- A line that is a hotkey with its action, with the lines behind it.
pub record IsLineHotkey (lib : Library) (context : Option Text) (line : Text) (ls : List Text)
    (h : AhkHotkey) : Type 0 where
  pub not_skipped : is_skipped line ≡ false
  pub not_hotif : starts_with (text "#HotIf") line ≡ false
  pub not_hotstring : starts_with (text ":") line ≡ false
  pub is_hotkey : has_substring (text "::") line ≡ true
  pub no_block : (ends_with (text "::{") line || brace_next ls) ≡ false
  pub read : parse_hotkey lib.to_lowercase line context ≡ ok (some h)

-- Lines under a context, with the hotkeys and the hotstrings that they define. The context of an
-- entry is that of the last `#HotIf` before it.
pub data Entries (lib : Library)
    : Option Text → List Text → List AhkHotkey → List AhkHotstring → Type 0 where
  end : (context : Option Text) → Entries lib context [] [] []
  skip :
      (context : Option Text) (l : Text) (ls : List Text) (hs : List AhkHotkey)
      (ss : List AhkHotstring)
      → is_skipped (trim l) ≡ true
      → Entries lib context ls hs ss
      → Entries lib context (l ∷ ls) hs ss
  hotif :
      (context : Option Text) (l : Text) (ls : List Text) (hs : List AhkHotkey)
      (ss : List AhkHotstring)
      → is_skipped (trim l) ≡ false
      → starts_with (text "#HotIf") (trim l) ≡ true
      → Entries lib (lib.hotif_context (trim l)) ls hs ss
      → Entries lib context (l ∷ ls) hs ss
  hotstring :
      (context : Option Text) (l : Text) (h : AhkHotstring) (ls : List Text) (hs : List AhkHotkey)
      (ss : List AhkHotstring)
      → is_skipped (trim l) ≡ false
      → starts_with (text "#HotIf") (trim l) ≡ false
      → starts_with (text ":") (trim l) ≡ true
      → parse_hotstring lib (trim l) context ≡ some h
      → Entries lib context ls hs ss
      → Entries lib context (l ∷ ls) hs (h ∷ ss)
  line :
      (context : Option Text) (l : Text) (h : AhkHotkey) (ls : List Text) (hs : List AhkHotkey)
      (ss : List AhkHotstring)
      → IsLineHotkey lib context (trim l) ls h
      → Entries lib context ls hs ss
      → Entries lib context (l ∷ ls) (h ∷ hs) ss
  unknown :
      (context : Option Text) (l : Text) (ls : List Text) (hs : List AhkHotkey)
      (ss : List AhkHotstring)
      → is_skipped (trim l) ≡ false
      → starts_with (text "#HotIf") (trim l) ≡ false
      → starts_with (text ":") (trim l) ≡ false
      → has_substring (text "::") (trim l) ≡ false
      → Entries lib context ls hs ss
      → Entries lib context (l ∷ ls) hs ss
  block :
      (context : Option Text) (l : Text) (o : OpensBlock lib.to_lowercase (trim l))
      (body : List Text) (acts : List AhkAction) (last : Text) (ls : List Text)
      (hs : List AhkHotkey) (ss : List AhkHotstring)
      → Body lib.to_lowercase body acts
      → line_kind (trim last) ≡ closing
      → Entries lib context ls hs ss
      → Entries lib context
          (l ∷ (body ++ last ∷ ls))
          (hotkey_of o.combo (as_one acts) context ∷ hs)
          ss

abbrev gathered : Option Text → List AhkHotkey → List AhkHotstring → FileState
gathered context hs ss = record { context = context; hotkeys = hs; hotstrings = ss }

module _ (lib : Library) where
  multiline-read :
      (fuel : ℕ) (l : Text) (o : OpensBlock lib.to_lowercase l) (body : List Text)
      (acts : List AhkAction) (last : Text) (ls : List Text) (context : Option Text)
      → Body lib.to_lowercase body acts
      → line_kind (trim last) ≡ closing
      → length body < fuel
      → parse_multiline_hotkey fuel lib.to_lowercase
          (definition_of true l)
          (body ++ last ∷ ls)
          context
        ≡ ok (some (hotkey_of o.combo (as_one acts) context), ls)
  unfolding parse_multiline_hotkey
  multiline-read fuel l o body acts last ls context b e h =
      ap (multiline_parts fuel lib.to_lowercase context (body ++ last ∷ ls)) o.parts
      ∙ rw (o.keys_known, statements-Body lib.to_lowercase false fuel acts [] body last ls b e h)
          refl

  pub block-read :
      (fuel : ℕ) (l : Text) (o : OpensBlock lib.to_lowercase l) (body : List Text)
      (acts : List AhkAction) (last : Text) (ls : List Text) (s : FileState)
      → Body lib.to_lowercase body acts
      → line_kind (trim last) ≡ closing
      → length body < fuel
      → file_line fuel lib l (body ++ last ∷ ls) s
        ≡ ok (add_hotkey (some (hotkey_of o.combo (as_one acts) s.context)) s, ls)
  unfolding block_hotkey
  block-read fuel l o body acts last ls s b e h =
      file_line-block lib fuel l (body ++ last ∷ ls) s o
      ∙ rw (o.opens, multiline-read fuel l o body acts last ls s.context b e h) refl

  pub line-read :
      (fuel : ℕ) (l : Text) (ls : List Text) (s : FileState) (h : AhkHotkey)
      → IsLineHotkey lib s.context l ls h
      → file_line fuel lib l ls s ≡ ok (add_hotkey (some h) s, ls)
  unfolding file_line line_hotkey
  line-read fuel l ls s h i =
      rw (i.not_skipped, i.not_hotif, i.not_hotstring, i.is_hotkey, i.no_block, i.read) refl

  pub step :
      (fuel : ℕ) (l : Text) (ls ls' : List Text) (s s' : FileState)
      → file_line fuel lib (trim l) ls s ≡ ok (s', ls')
      → file_lines (suc fuel) lib (l ∷ ls) s ≡ file_lines fuel lib ls' s'
  unfolding file_lines
  step fuel l ls ls' s s' e =
      ap
        (λ (r : Parsed (FileState × List Text)).
          r >>= (λ (q : FileState × List Text). file_lines fuel lib q.1 q.0))
        e

  abbrev ReadsAs :
      ℕ
      → Option Text
      → List Text
      → List AhkHotkey
      → List AhkHotstring
      → List AhkHotkey
      → List AhkHotstring
      → Type 0
  ReadsAs fuel context ls hk st hs ss =
      (c : Option Text) × (file_lines fuel lib ls (gathered context hk st)
        ≡ ok (gathered c (hk ++ hs) (st ++ ss)))

  ReadsAs-hotkey :
      (fuel : ℕ) (context : Option Text) (l : Text) (ls ls' : List Text) (hk : List AhkHotkey)
      (st : List AhkHotstring) (h : AhkHotkey) (hs : List AhkHotkey) (ss : List AhkHotstring)
      → file_line fuel lib (trim l) ls (gathered context hk st)
        ≡ ok (gathered context (hk ++ h ∷ []) st, ls')
      → ReadsAs fuel context ls' (hk ++ h ∷ []) st hs ss
      → ReadsAs (suc fuel) context (l ∷ ls) hk st (h ∷ hs) ss
  ReadsAs-hotkey fuel context l ls ls' hk st h hs ss e (c, later) = (
    c,
    step fuel l ls ls' (gathered context hk st) (gathered context (hk ++ h ∷ []) st) e
        ∙ later
        ∙ ap (λ (xs : List AhkHotkey). ok (gathered c xs (st ++ ss))) (append_assoc hk (h ∷ []) hs),
  )

  file_lines-Entries :
      (fuel : ℕ) (context : Option Text) (ls : List Text) (hs : List AhkHotkey)
      (ss : List AhkHotstring) (hk : List AhkHotkey) (st : List AhkHotstring)
      → Entries lib context ls hs ss
      → length ls < fuel
      → ReadsAs fuel context ls hk st hs ss
  unfolding file_line file_lines
  file_lines-Entries zero context ls hs ss hk st b h = absurd (omega arith)
  file_lines-Entries (suc fuel) context ls hs ss hk st (end c) h = (
    c,
    ap (λ (xs : List AhkHotkey). ok (gathered c xs st)) (sym (append-nil hk))
        ∙ ap (λ (xs : List AhkHotstring). ok (gathered c (hk ++ []) xs)) (sym (append-nil st)),
  )
  file_lines-Entries (suc fuel) context ls hs ss hk st (skip c l ls' hs' ss' e b) h =
      let (c', later) = file_lines-Entries fuel c ls' hs ss hk st b (omega arith) in
      (c', step fuel l ls' ls' (gathered c hk st) (gathered c hk st) (rw e refl) ∙ later)
  file_lines-Entries (suc fuel) context ls hs ss hk st (hotif c l ls' hs' ss' e e2 b) h =
      let (c', later) =
        file_lines-Entries fuel (lib.hotif_context (trim l)) ls' hs ss hk st b (omega arith) in
      (
        c',
        step fuel l ls' ls' (gathered c hk st) (gathered (lib.hotif_context (trim l)) hk st)
              (rw (e, e2) refl)
            ∙ later,
      )
  file_lines-Entries (suc fuel) context ls hs ss hk st (hotstring c l x ls' hs' ss' e e2 e3 r b) h =
      let (c', later) = file_lines-Entries fuel c ls' hs ss' hk (st ++ x ∷ []) b (omega arith) in
      (
        c',
        step fuel l ls' ls' (gathered c hk st) (gathered c hk (st ++ x ∷ []))
              (rw (e, e2, e3, r) refl)
            ∙ later
            ∙ ap (λ (xs : List AhkHotstring). ok (gathered c' (hk ++ hs) xs))
                (append_assoc st (x ∷ []) ss'),
      )
  file_lines-Entries (suc fuel) context ls hs ss hk st (line c l x ls' hs' ss' i b) h =
      ReadsAs-hotkey fuel c l ls' ls' hk st x hs' ss
        (line-read fuel (trim l) ls' (gathered c hk st) x i)
        (file_lines-Entries fuel c ls' hs' ss (hk ++ x ∷ []) st b (omega arith))
  file_lines-Entries (suc fuel) context ls hs ss hk st
        (block c l o body acts last ls' hs' ss' bb e b) h =
      let size : length (body ++ last ∷ ls') ≡ length body + length (last ∷ ls') =
        length-append body (last ∷ ls') in
      ReadsAs-hotkey fuel c l (body ++ last ∷ ls') ls' hk st (hotkey_of o.combo (as_one acts) c) hs'
        ss (block-read fuel (trim l) o body acts last ls' (gathered c hk st) bb e (omega arith))
        (file_lines-Entries fuel c ls' hs' ss (hk ++ hotkey_of o.combo (as_one acts) c ∷ []) st b
          (omega arith))
  file_lines-Entries (suc fuel) context ls hs ss hk st (unknown c l ls' hs' ss' e e2 e3 e4 b) h =
      let (c', later) = file_lines-Entries fuel c ls' hs ss hk st b (omega arith) in
      (
        c',
        step fuel l ls' ls' (gathered c hk st) (gathered c hk st) (rw (e, e2, e3, e4) refl) ∙ later,
      )

-- A file of the grammar is read as just the hotkeys and hotstrings that its lines define, in their
-- order, each under the context of the last `#HotIf` before it: comments, empty lines and lines of
-- no known kind, hotkeys on one line, hotstrings, and hotkeys with a block of actions and scripts,
-- each block read up to its closing brace and not further.
pub parse_file-Entries :
    (lib : Library) (content : Text) (hs : List AhkHotkey) (ss : List AhkHotstring)
    → Entries lib none (lines content) hs ss
    → parse_file lib content ≡ ok (record { hotkeys = hs; hotstrings = ss })
unfolding parse_file
parse_file-Entries lib content hs ss b =
    let (c, e) =
      file_lines-Entries lib (suc (length (lines content))) none (lines content) hs ss [] [] b
        (omega arith) in
    rw e refl
