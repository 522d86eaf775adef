-- ===== src/Brainfvck/RunLength.antt =====
-- `Brainfvck::apply_optimizations`: runs of increments, or of moves, become one line. An `int` is an
-- unbounded integer here; a run is shorter than 2 ^ 31 lines.
pub mod Meaning
pub mod Mode
pub mod Keeps
pub mod Plain
pub mod Text
use custom_isa_8bit_vm.Base.{
  if◌then◌else◌, Bytes, codes, Bool, true, false, not, ◌||◌, List, [], ◌∷◌, ◌++◌,
}
use custom_isa_8bit_vm.Base.{ℤ, pos, negsuc, ltb_ℤ, eq_ℤ, ◌+ℤ◌, ◌-ℤ◌}
use custom_isa_8bit_vm.Brainfvck.Format.{format_int, starts_with}

-- The captured locals of `flush`, and `optimized_code` as its lines.
pub record Run : Type 0 where
  pub accumulating_math : Bool
  pub accumulating_ptr : Bool
  pub accumulated_value : ℤ
  pub optimized_code : List Bytes

abbrev pub is_zero : ℤ → Bool
is_zero n = eq_ℤ n (pos 0)

-- `ADD target, n`, or `SUB target, -n` for a negative `n`.
unfoldable pub change_line : Bytes → ℤ → Bytes
unfolding format_int
change_line target n =
    if ltb_ℤ (pos 0) n
    then codes "ADD " ++ (target ++ (codes ", " ++ format_int n))
    else codes "SUB " ++ (target ++ (codes ", " ++ format_int (pos 0 -ℤ n)))

unfoldable pub flush : Run → Run
unfolding change_line
flush r = if is_zero r.accumulated_value then r else record {
  accumulating_math = false;
  accumulating_ptr = false;
  accumulated_value = pos 0;
  optimized_code =
      if r.accumulating_math
      then r.optimized_code ++ change_line (codes "[A]") r.accumulated_value ∷ []
      else if r.accumulating_ptr
      then r.optimized_code ++ change_line (codes "A") r.accumulated_value ∷ []
      else r.optimized_code;
}

-- Where no branch continues: flush, and keep the line.
unfoldable pub keep_line : Run → Bytes → Run
unfolding flush
keep_line r line = record (flush r) { optimized_code = (flush r).optimized_code ++ line ∷ [] }

-- A line that changes the cell by `by`: it joins a run unless a run of moves is under way.
unfoldable pub math_line : Run → Bytes → ℤ → Run
unfolding keep_line
math_line r line by =
    let math = r.accumulating_math || not r.accumulating_ptr in
    if math
    then record r { accumulating_math = true; accumulated_value = r.accumulated_value +ℤ by }
    else keep_line r line

unfoldable pub ptr_line : Run → Bytes → ℤ → Run
unfolding keep_line
ptr_line r line by =
    let ptr = r.accumulating_ptr || not r.accumulating_math in
    if ptr
    then record r { accumulating_ptr = true; accumulated_value = r.accumulated_value +ℤ by }
    else keep_line r line

unfoldable pub optimize_line : Run → Bytes → Run
unfolding math_line ptr_line keep_line starts_with
optimize_line r line =
    if starts_with line (codes "ADD [A]")
    then math_line r line (pos 1)
    else if starts_with line (codes "SUB [A]")
    then math_line r line (negsuc 0)
    else if starts_with line (codes "ADD A")
    then ptr_line r line (pos 1)
    else if starts_with line (codes "SUB A")
    then ptr_line r line (negsuc 0)
    else keep_line r line

unfoldable pub optimize_lines : Run → List Bytes → Run
unfolding optimize_line
optimize_lines r [] = r
optimize_lines r (line ∷ rest) = optimize_lines (optimize_line r line) rest

abbrev pub fresh : Run
fresh = record {
  accumulating_math = false;
  accumulating_ptr = false;
  accumulated_value = pos 0;
  optimized_code = [];
}

unfoldable pub apply_optimizations : List Bytes → List Bytes
unfolding optimize_lines flush
apply_optimizations ls = (flush (optimize_lines fresh ls)).optimized_code
