-- ===== src/Program/Syntax/Chars.antt =====
-- The switch of src/Brainfvck.cpp over one character, against the program that the text says.
use custom_isa_8bit_vm.Base.{
  ◌==◌, ==_iff, Bool-cases, inl, inr, Bytes, codes, ℕ, ◌+◌, ◌≡◌, refl, sym, ap, true, false, some,
  List, [], ◌∷◌, ◌++◌, arith,
}
use mathlib.Core.Path.{subst}
use custom_isa_8bit_vm.Exception.{ok, ok-injective}
use custom_isa_8bit_vm.Brainfvck.Translate.{
  Translation, start_label, close_label, emit, open_par, close_par, translate_char,
}
use custom_isa_8bit_vm.Brainfvck.Format.{format_int, decimal}
use custom_isa_8bit_vm.Program.TapeLines.{up, down, raise, lower}
use custom_isa_8bit_vm.Program.Tree.{done, line, show, enter, while}
use custom_isa_8bit_vm.Program.Syntax.{Opening, Reading, command, close, open_loop, read_char}
use custom_isa_8bit_vm.Program.Syntax.Frames.{
  opening_lines, closing_lines, Frame, Frame-line, Frame-show, Frame-enter, Stacked, Stacked-more,
  Stacked-open, Stacked-close,
}

abbrev pub numbers : List (ℕ × Opening) → List ℕ
numbers [] = []
numbers ((id, f) ∷ outer) = id ∷ numbers outer

-- The translation is as far as the reading.
pub record Agrees (r : Reading) (t : Translation) : Type 0 where
  pub counts : t.number_of_par ≡ r.loops
  pub open_ones : t.par_stack ≡ numbers r.outer
  pub written : Stacked r.outer r.inner r.loops t.code

-- Both go on alike at a character.
abbrev pub Follows : ℕ → Type 0
Follows c =
    (r : Reading) (t t' : Translation)
    → Agrees r t
    → translate_char t c ≡ ok t'
    → (r' : Reading) × (read_char r c ≡ some r') × Agrees r' t'

emits :
    (r : Reading) (t t' : Translation) (g : Opening) (s : Bytes)
    → Frame r.loops r.loops g (s ∷ [])
    → Agrees r t
    → ok (emit t (s ∷ [])) ≡ ok t'
    → Agrees (command g r) t'
unfolding emit
emits r t t' g s f a e = subst (Agrees (command g r)) (ok-injective e) (record {
  counts = a.counts;
  open_ones = a.open_ones;
  written = Stacked-more r.loops g (s ∷ []) f a.written;
})

Follows-up : Follows b'>'
unfolding translate_char read_char format_int decimal
Follows-up r t t' a e = (
  _,
  refl,
  emits r t t' (line (up 1)) (codes "ADD A, 1") (Frame-line r.loops (up 1) (omega arith)) a e,
)

Follows-down : Follows b'<'
unfolding translate_char read_char format_int decimal
Follows-down r t t' a e = (
  _,
  refl,
  emits r t t' (line (down 1)) (codes "SUB A, 1") (Frame-line r.loops (down 1) (omega arith)) a e,
)

Follows-raise : Follows b'+'
unfolding translate_char read_char format_int decimal
Follows-raise r t t' a e = (
  _,
  refl,
  emits r t t' (line (raise 1)) (codes "ADD [A], 1") (Frame-line r.loops (raise 1) (omega arith)) a
      e,
)

Follows-lower : Follows b'-'
unfolding translate_char read_char format_int decimal
Follows-lower r t t' a e = (
  _,
  refl,
  emits r t t' (line (lower 1)) (codes "SUB [A], 1") (Frame-line r.loops (lower 1) (omega arith)) a
      e,
)

Follows-show : Follows b'.'
unfolding translate_char read_char
Follows-show r t t' a e = (_, refl, emits r t t' show (codes "PRINT [A]") (Frame-show r.loops) a e)

Follows-enter : Follows b','
unfolding translate_char read_char
Follows-enter r t t' a e =
    (_, refl, emits r t t' enter (codes "INPUT [A]") (Frame-enter r.loops) a e)

Follows-open : Follows b'['
unfolding translate_char read_char open_par start_label close_label
Follows-open r t t' a e = (
  open_loop r,
  refl,
  subst (Agrees (open_loop r)) (ok-injective e) (record {
    counts = ap (λ n. n + 1) a.counts;
    open_ones = rw (a.counts, a.open_ones) refl;
    written =
        subst
          (λ n.
            Stacked ((r.loops, r.inner) ∷ r.outer) (λ rest. rest) (r.loops + 1)
              (t.code ++ opening_lines n))
          (sym a.counts) (Stacked-open a.written);
  }),
)

by_stack :
    (outer : List (ℕ × Opening)) (ids : List ℕ) (r : Reading) (t t' : Translation)
    → ids ≡ numbers outer
    → t.number_of_par ≡ r.loops
    → Stacked outer r.inner r.loops t.code
    → close_par ids t ≡ ok t'
    → (r' : Reading) × (close outer r ≡ some r') × Agrees r' t'
unfolding close_par close
by_stack [] [] r t t' n c s e = cc
by_stack [] (i ∷ ids) r t t' n c s e = cc
by_stack ((id, f) ∷ outer) [] r t t' n c s e = cc
by_stack ((id, f) ∷ outer) (i ∷ ids) r t t' n c s e =
    let same : i ≡ id = cc n in
    (
      _,
      refl,
      subst (Agrees (record r { inner = λ rest. f (while id (r.inner done) rest); outer = outer }))
          (ok-injective e)
          (record {
            counts = c;
            open_ones = cc n;
            written =
                subst
                  (λ k.
                    Stacked outer (λ rest. f (while id (r.inner done) rest)) r.loops
                      (t.code ++ closing_lines k))
                  (sym same) (Stacked-close s);
          }),
    )

Follows-close : Follows b']'
unfolding translate_char read_char
Follows-close r t t' a e = by_stack r.outer t.par_stack r t t' a.open_ones a.counts a.written e

-- The commands, and every other character.
abbrev commands : Bytes
commands = codes "><+-.,[]"

abbrev IsNone : Bytes → ℕ → Type 0
IsNone [] c = Unit
IsNone (d ∷ ds) c = ((c == d) ≡ false) × IsNone ds c

Follows-comment : (c : ℕ) → IsNone commands c → Follows c
unfolding translate_char read_char
Follows-comment c n r t t' a e =
    let kept =
      rw
        (
          n.0, n.1.0, n.1.1.0, n.1.1.1.0, n.1.1.1.1.0, n.1.1.1.1.1.0, n.1.1.1.1.1.1.0,
          n.1.1.1.1.1.1.1.0,
        )
        at e in
    (
      r,
      rw
          (
            n.0, n.1.0, n.1.1.0, n.1.1.1.0, n.1.1.1.1.0, n.1.1.1.1.1.0, n.1.1.1.1.1.1.0,
            n.1.1.1.1.1.1.1.0,
          )
          refl,
      subst (Agrees r) (ok-injective kept) a,
    )

at_command : (c d : ℕ) → (c == d) ≡ true → Follows d → Follows c
at_command c d e h = subst Follows (sym ((==_iff c d).0 e)) h

pub follows : (c : ℕ) → Follows c
follows c = elim (Bool-cases (c == b'>')) [
  | inl e ↦ at_command c b'>' e Follows-up
  | inr n₁ ↦ elim (Bool-cases (c == b'<')) [
    | inl e ↦ at_command c b'<' e Follows-down
    | inr n₂ ↦ elim (Bool-cases (c == b'+')) [
      | inl e ↦ at_command c b'+' e Follows-raise
      | inr n₃ ↦ elim (Bool-cases (c == b'-')) [
        | inl e ↦ at_command c b'-' e Follows-lower
        | inr n₄ ↦ elim (Bool-cases (c == b'.')) [
          | inl e ↦ at_command c b'.' e Follows-show
          | inr n₅ ↦ elim (Bool-cases (c == b',')) [
            | inl e ↦ at_command c b',' e Follows-enter
            | inr n₆ ↦ elim (Bool-cases (c == b'[')) [
              | inl e ↦ at_command c b'[' e Follows-open
              | inr n₇ ↦ elim (Bool-cases (c == b']')) [
                | inl e ↦ at_command c b']' e Follows-close
                | inr n₈ ↦ Follows-comment c (n₁, (n₂, (n₃, (n₄, (n₅, (n₆, (n₇, (n₈, tt))))))))
              ]
            ]
          ]
        ]
      ]
    ]
  ]
]
