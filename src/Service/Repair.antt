-- ===== src/Service/Repair.antt =====
-- `extractExecStartLine` and `repairServiceUnit` of service.go on the units that the code renders.
use npvtunnel_creator_server.Base.{
  ℕ, ◌≡◌, refl, sym, ◌∙◌, false, List, [], ◌∷◌, ◌++◌, some, Text, text, All, arith, str_eq,
}
use npvtunnel_creator_server.Base.Strings.{
  trim_left, trim_right, trim_space, space_len, after_prefix, split_lines, unwords,
}
use npvtunnel_creator_server.Service.{
  DeployOpts, unit_head, render_unit_file_with_exec_start, continued, find_exec_start,
  extract_exec_start_line, parse_exec_start, adopt_from_unit, repair_service_unit,
}
use npvtunnel_creator_server.Service.Words.{
  Graphic, Word, Ends, fields-unwords, trim_space-Ends, before_last-Ends, split_lines-Ends,
  unwords-Ends, append-Ends, Ends-ne_nil,
}

-- No line of the template above the command sets one.
find_exec_start-unit_head :
    (s : Text) → find_exec_start (split_lines (unit_head ++ s)) ≡ find_exec_start (split_lines s)
unfolding find_exec_start split_lines trim_space trim_left trim_right space_len after_prefix str_eq
find_exec_start-unit_head s = refl

after_prefix-command :
    (e : Text) → after_prefix (text "ExecStart=") (text "ExecStart=" ++ e) ≡ some e
unfolding after_prefix
after_prefix-command e = refl

-- A command with no backslash at its end takes no further line.
continued-Ends :
    (c : ℕ) (s : Text) (lines : List Text)
    → Graphic c
    → Ends (c ∷ s)
    → continued (c ∷ s) lines ≡ c ∷ s
unfolding continued
continued-Ends c s [] g e = rw (trim_space-Ends c s g e, before_last-Ends (c ∷ s) e) refl
continued-Ends c s (l ∷ ls) g e = rw (trim_space-Ends c s g e, before_last-Ends (c ∷ s) e) refl

continued-unwords :
    (w : Text) (ws lines : List Text)
    → All Word (w ∷ ws)
    → continued (unwords (w ∷ ws)) lines ≡ unwords (w ∷ ws)
continued-unwords [] ws lines h = absurd (h.0.0 refl)
continued-unwords (c ∷ w) [] lines h =
    unfold unwords in continued-Ends c w lines h.0.1.0 (unwords-Ends (c ∷ w) [] h)
continued-unwords (c ∷ w) (v ∷ ws) lines h =
    unfold unwords in
    continued-Ends c (w ++ (32 ∷ unwords (v ∷ ws))) lines h.0.1.0 (unwords-Ends (c ∷ w) (v ∷ ws) h)

find_exec_start-command :
    (w : Text) (ws : List Text) (tail : Text)
    → All Word (w ∷ ws)
    → find_exec_start (split_lines (text "ExecStart=" ++ unwords (w ∷ ws) ++ (b'\n' ∷ tail)))
      ≡ unwords (w ∷ ws)
unfolding find_exec_start
find_exec_start-command w ws tail h =
    let ends =
      append-Ends (text "ExecStart=") (unwords (w ∷ ws)) (omega arith) (unwords-Ends w ws h) in
    rw
      (
        split_lines-Ends (text "ExecStart=" ++ unwords (w ∷ ws)) tail ends,
        trim_space-Ends b'E' (text "xecStart=" ++ unwords (w ∷ ws)) (omega arith) ends,
        after_prefix-command (unwords (w ∷ ws)),
        continued-unwords w ws (split_lines tail) h,
        fields-unwords (w ∷ ws) h,
      )
      refl

-- The command of plain words that a unit was rendered with is read back from it, whatever the
-- options.
pub extract-render :
    (o : DeployOpts) (w : Text) (ws : List Text)
    → All Word (w ∷ ws)
    → extract_exec_start_line (render_unit_file_with_exec_start o (unwords (w ∷ ws)))
      ≡ unwords (w ∷ ws)
unfolding extract_exec_start_line render_unit_file_with_exec_start
extract-render o w ws h = find_exec_start-unit_head _ ∙ find_exec_start-command w ws _ h

-- A unit of any kind whose command is plain words is repaired: the new unit has the same command,
-- is adopted with the same options, and is left as it is by another repair.
pub repair_keeps :
    (unit_text : Text) (w : Text) (ws : List Text)
    → All Word (w ∷ ws)
    → extract_exec_start_line unit_text ≡ unwords (w ∷ ws)
    → (repaired : Text) × (repair_service_unit (some unit_text) ≡ some repaired)
      × (extract_exec_start_line repaired ≡ extract_exec_start_line unit_text)
      × (adopt_from_unit (some repaired) ≡ adopt_from_unit (some unit_text))
      × (repair_service_unit (some repaired) ≡ some repaired)
unfolding repair_service_unit adopt_from_unit
repair_keeps unit_text w ws plain e =
    let opts = parse_exec_start (unwords (w ∷ ws)) in
    let again = extract-render opts w ws plain in
    let has : str_eq (unwords (w ∷ ws)) [] ≡ false = Ends-ne_nil _ (unwords-Ends w ws plain) in
    (
      render_unit_file_with_exec_start opts (unwords (w ∷ ws)),
      rw (e, has) refl,
      again ∙ sym e,
      rw (again, e) refl,
      rw (again, has) refl,
    )
