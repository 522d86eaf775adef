-- ===== src/Program/Listing/Known.antt =====
-- What the first pass of src/Assembler.cpp knows behind a program, where no two loops share a number.
use custom_isa_8bit_vm.Base.{ℕ, ◌+◌, ◌≤◌, ◌<◌, ◌≡◌, ◌≢◌, ◌⊎◌, inl, inr, refl, ◌∙◌, some, arith}
use custom_isa_8bit_vm.Assembler.Encode.{Labels, find_label}
use custom_isa_8bit_vm.Assembler.Layout.{Layout}
use custom_isa_8bit_vm.Brainfvck.Translate.{start_label, close_label}
use custom_isa_8bit_vm.Program.Tree.{Tree, done, line, show, enter, while}
use custom_isa_8bit_vm.Program.Tree.Parts.{closing}
use custom_isa_8bit_vm.Program.Listing.Instruction.{grown}
use custom_isa_8bit_vm.Program.Listing.LabelLine.{
  labelled, start-start, close-close, start-close, close-start,
}

-- A number above those of all loops, from a number below them on.
unfoldable pub bound : ℕ → Tree → ℕ
bound low done = low
bound low (line l rest) = bound low rest
bound low (show rest) = bound low rest
bound low (enter rest) = bound low rest
bound low (while id body rest) = bound (bound (id + 1) body) rest

-- The loops are numbered in the order of their opening brackets.
unfoldable pub Ordered : ℕ → Tree → Type 0
unfolding bound
Ordered low done = Unit
Ordered low (line l rest) = Ordered low rest
Ordered low (show rest) = Ordered low rest
Ordered low (enter rest) = Ordered low rest
Ordered low (while id body rest) =
    (low ≤ id) × (Ordered (id + 1) body × Ordered (bound (id + 1) body) rest)

-- The first pass over the lines of a program.
unfoldable pub laid : Tree → Layout → Layout
laid done k = k
laid (line l rest) k = laid rest (grown 5 k)
laid (show rest) k = laid rest (grown 3 k)
laid (enter rest) k = laid rest (grown 3 k)
laid (while id body rest) k = laid rest (
    grown 4 (
      grown 5
        (labelled (close_label id) (laid body (grown 4 (grown 5 (labelled (start_label id) k)))))))

-- The addresses of all labels of a program at an address.
unfoldable pub Knows : Labels → ℕ → Tree → Type 0
Knows labels a done = Unit
Knows labels a (line l rest) = Knows labels (a + 5) rest
Knows labels a (show rest) = Knows labels (a + 3) rest
Knows labels a (enter rest) = Knows labels (a + 3) rest
Knows labels a (while id body rest) =
    (find_label labels (start_label id) ≡ some a)
    × ((find_label labels (close_label id) ≡ some (closing a body))
        × (Knows labels (a + 9) body × Knows labels (closing a body + 9) rest))

pub le-bound : (low : ℕ) (t : Tree) → Ordered low t → low ≤ bound low t
unfolding Ordered bound
le-bound low done h = omega arith
le-bound low (line l rest) h = le-bound low rest h
le-bound low (show rest) h = le-bound low rest h
le-bound low (enter rest) h = le-bound low rest h
le-bound low (while id body rest) h =
    omega (arith, h.0, le-bound (id + 1) body h.1.0, le-bound (bound (id + 1) body) rest h.1.1)

-- Two maps have the same addresses for the labels with a number.
abbrev pub SameAt : ℕ → Labels → Labels → Type 0
SameAt id labels labels' =
    (find_label labels' (start_label id) ≡ find_label labels (start_label id))
    × (find_label labels' (close_label id) ≡ find_label labels (close_label id))

pub SameAt-trans : (id : ℕ) (k l m : Labels) → SameAt id k l → SameAt id l m → SameAt id k m
SameAt-trans id k l m h i = (i.0 ∙ h.0, i.1 ∙ h.1)

labelled-start :
    (i id : ℕ) (k : Layout) → i ≢ id → SameAt id k.labels (labelled (start_label i) k).labels
unfolding find_label
labelled-start i id k n = (rw (start-start i id n) refl, rw (start-close i id) refl)

pub labelled-close :
    (i id : ℕ) (k : Layout) → i ≢ id → SameAt id k.labels (labelled (close_label i) k).labels
unfolding find_label
labelled-close i id k n = (rw (close-start i id) refl, rw (close-close i id n) refl)

-- The labels of other loops stay.
pub laid-SameAt :
    (t : Tree) (low id : ℕ) (k : Layout)
    → Ordered low t
    → (id < low) ⊎ (bound low t ≤ id)
    → SameAt id k.labels (laid t k).labels
unfolding laid Ordered bound
laid-SameAt done low id k h o = (refl, refl)
laid-SameAt (line l rest) low id k h o = laid-SameAt rest low id (grown 5 k) h o
laid-SameAt (show rest) low id k h o = laid-SameAt rest low id (grown 3 k) h o
laid-SameAt (enter rest) low id k h o = laid-SameAt rest low id (grown 3 k) h o
laid-SameAt (while i body rest) low id k h o =
    let k2 = grown 4 (grown 5 (labelled (start_label i) k)) in
    let kb = laid body k2 in
    let k5 = grown 4 (grown 5 (labelled (close_label i) kb)) in
    let over = le-bound (i + 1) body h.1.0 in
    let over_rest = le-bound (bound (i + 1) body) rest h.1.1 in
    let other : i ≢ id = λ e. elim o [
      | inl l ↦ absurd (omega (arith, h.0, e, l))
      | inr l ↦ absurd (omega (arith, over, over_rest, e, l))
    ] in
    let in_body : (id < i + 1) ⊎ (bound (i + 1) body ≤ id) = elim o [
      | inl l ↦ inl (omega (arith, h.0, l))
      | inr l ↦ inr (omega (arith, over_rest, l))
    ] in
    let in_rest : (id < bound (i + 1) body) ⊎ (bound (bound (i + 1) body) rest ≤ id) = elim o [
      | inl l ↦ inl (omega (arith, h.0, over, l))
      | inr l ↦ inr l
    ] in
    SameAt-trans id k.labels k2.labels (laid rest k5).labels (labelled-start i id k other) (
      SameAt-trans id k2.labels kb.labels (laid rest k5).labels
        (laid-SameAt body (i + 1) id k2 h.1.0 in_body)
        (SameAt-trans id kb.labels k5.labels (laid rest k5).labels (labelled-close i id kb other)
          (laid-SameAt rest (bound (i + 1) body) id k5 h.1.1 in_rest)))

pub Knows-SameAt :
    (t : Tree) (low a : ℕ) (labels labels' : Labels)
    → Ordered low t
    → ((id : ℕ) → low ≤ id → id < bound low t → SameAt id labels labels')
    → Knows labels a t
    → Knows labels' a t
unfolding Knows Ordered bound
Knows-SameAt done low a k k' h s n = tt
Knows-SameAt (line l rest) low a k k' h s n = Knows-SameAt rest low (a + 5) k k' h s n
Knows-SameAt (show rest) low a k k' h s n = Knows-SameAt rest low (a + 3) k k' h s n
Knows-SameAt (enter rest) low a k k' h s n = Knows-SameAt rest low (a + 3) k k' h s n
Knows-SameAt (while i body rest) low a k k' h s n =
    let over = le-bound (i + 1) body h.1.0 in
    let over_rest = le-bound (bound (i + 1) body) rest h.1.1 in
    let here = s i h.0 (omega (arith, over, over_rest)) in
    (
      here.0 ∙ n.0,
      (
        here.1 ∙ n.1.0,
        (
          Knows-SameAt body (i + 1) (a + 9) k k' h.1.0
              (λ id l g. s id (omega (arith, l, h.0)) (omega (arith, g, over_rest))) n.1.1.0,
          Knows-SameAt rest (bound (i + 1) body) (closing a body + 9) k k' h.1.1
              (λ id l g. s id (omega (arith, l, h.0, over)) g) n.1.1.1,
        ),
      ),
    )
