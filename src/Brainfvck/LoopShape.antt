-- ===== src/Brainfvck/LoopShape.antt =====
-- The parts of `Brainfvck::apply_loop_optimizations` that recognise a loop and analyse its body. The
-- functions take the lines from the index `i` on, which are all that the source looks at.
pub mod Sound
use custom_isa_8bit_vm.Base.{
  ltb, ◌==◌, if◌then◌else◌, length, drop, Bytes, codes, equal, ◌&&◌, Option, none, some, List, [],
  ◌∷◌, ◌++◌, map,
}
use custom_isa_8bit_vm.Base.{ℤ, pos, negsuc, eq_ℤ, ◌+ℤ◌, ◌-ℤ◌}
use custom_isa_8bit_vm.Assembler.Text.{from_chars, back, pop_back}
use custom_isa_8bit_vm.Brainfvck.Format.{format_int, starts_with}

-- `line.substr(prefix.size())`, for a line that starts with the prefix.
abbrev pub behind : Bytes → Bytes → Bytes
behind prefix line = drop (length prefix) line

unfoldable pub parse_par_id : Bytes → Bytes → Option ℤ
unfolding starts_with
parse_par_id line prefix =
    if starts_with line prefix && back line == b':'
    then from_chars (pop_back (behind prefix line))
    else none

unfoldable pub parse_instr_arg : Bytes → Bytes → Option ℤ
unfolding starts_with
parse_instr_arg line prefix =
    if starts_with line prefix then from_chars (behind prefix line) else none

pub record ParsedLoop : Type 0 where
  pub id : ℤ
  pub body : List Bytes
  -- the lines behind the closing jump, where `close_idx + 3` points
  pub after : List Bytes

-- The lines before the first one that is `label`, and those from it on.
unfoldable pub split_at : Bytes → List Bytes → List Bytes × List Bytes
split_at label [] = ([], [])
split_at label (line ∷ rest) =
    let (body, after) = split_at label rest in
    if equal line label then ([], line ∷ rest) else (line ∷ body, after)

-- The two lines behind the closing label.
unfoldable pub closed_loop : ℤ → List Bytes → List Bytes → Option ParsedLoop
closed_loop id body (label ∷ compare_line ∷ jump_line ∷ after) =
    if equal compare_line (codes "CMP [A], 0")
      && equal jump_line (codes "JNE start_par_" ++ format_int id)
    then some (record { id = id; body = body; after = after })
    else none
closed_loop id body _ = none

-- The lines behind the opening label, of a loop with the number `id`.
unfoldable pub parse_loop_body : ℤ → List Bytes → Option ParsedLoop
unfolding closed_loop split_at
parse_loop_body id (compare_line ∷ jump_line ∷ rest) =
    let label = codes "close_par_" ++ format_int id in
    if equal compare_line (codes "CMP [A], 0") && equal jump_line (codes "JE " ++ label)
    then closed_loop id (split_at (label ++ codes ":") rest).0
        (split_at (label ++ codes ":") rest).1
    else none
parse_loop_body id _ = none

unfoldable pub parse_loop_from : Option ℤ → List Bytes → Option ParsedLoop
unfolding parse_loop_body
parse_loop_from none rest = none
parse_loop_from (some id) rest = if ltb (length rest) 6 then none else parse_loop_body id rest

unfoldable pub try_parse_loop : List Bytes → Option ParsedLoop
unfolding parse_loop_from
try_parse_loop [] = none
try_parse_loop (line ∷ rest) = parse_loop_from (parse_par_id line (codes "start_par_")) rest

pub record CellMod : Type 0 where
  pub offset : ℤ
  pub value : ℤ

-- Add to the first entry of the offset, or enter a new one at the end.
unfoldable pub add_mod : ℤ → ℤ → List CellMod → List CellMod
add_mod ptr n [] = record { offset = ptr; value = n } ∷ []
add_mod ptr n (m ∷ mods) =
    if eq_ℤ m.offset ptr then record m { value = m.value +ℤ n } ∷ mods else m ∷ add_mod ptr n mods

pub data BodyLine : Type 0 where
  moves changes : ℤ → BodyLine
  stops : BodyLine

abbrev pub first_of_two : Option ℤ → (ℤ → BodyLine) → BodyLine → BodyLine
first_of_two none f other = other
first_of_two (some n) f other = f n

abbrev pub negated : ℤ → ℤ
negated n = pos 0 -ℤ n

-- The four tests on a line of the body, in order.
unfoldable pub body_line : Bytes → BodyLine
unfolding parse_instr_arg
body_line ln = first_of_two (parse_instr_arg ln (codes "ADD A, ")) moves (
    first_of_two (parse_instr_arg ln (codes "SUB A, ")) (λ n. moves (negated n))
      (first_of_two (parse_instr_arg ln (codes "ADD [A], ")) changes
        (first_of_two (parse_instr_arg ln (codes "SUB [A], ")) (λ n. changes (negated n)) stops)))

-- The loop over the body: the offsets and the pointer at its end.
unfoldable pub analyze : ℤ → List CellMod → List BodyLine → Option (List CellMod × ℤ)
unfolding add_mod
analyze ptr mods [] = some (mods, ptr)
analyze ptr mods (moves n ∷ body) = analyze (ptr +ℤ n) mods body
analyze ptr mods (changes n ∷ body) = analyze ptr (add_mod ptr n mods) body
analyze ptr mods (stops ∷ body) = none

-- The change of the loop's own cell, and the list without it.
unfoldable pub take_self : List CellMod → Option (ℤ × List CellMod)
take_self [] = none
take_self (m ∷ mods) =
    if eq_ℤ m.offset (pos 0)
    then some (m.value, mods)
    else elim (take_self mods) [ none ↦ none | some (v, rest) ↦ some (v, m ∷ rest) ]

unfoldable pub not_empty : List CellMod → Option (List CellMod)
not_empty [] = none
not_empty (m ∷ mods) = some (m ∷ mods)

unfoldable pub other_mods : Option (ℤ × List CellMod) → Option (List CellMod)
unfolding not_empty
other_mods none = none
other_mods (some (v, mods)) = if eq_ℤ v (negsuc 0) then not_empty mods else none

unfoldable pub mods_of : Option (List CellMod × ℤ) → Option (List CellMod)
unfolding other_mods take_self
mods_of none = none
mods_of (some (mods, ptr)) = if eq_ℤ ptr (pos 0) then other_mods (take_self mods) else none

unfoldable pub try_analyze_mult_body : List Bytes → Option (List CellMod)
unfolding analyze mods_of body_line
try_analyze_mult_body body = mods_of (analyze (pos 0) [] (map body_line body))
