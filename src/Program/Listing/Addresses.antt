-- ===== src/Program/Listing/Addresses.antt =====
-- The addresses that the first pass of src/Assembler.cpp finds for the labels of a program.
use custom_isa_8bit_vm.Base.{
  equal_iff, ℕ, ◌+◌, ◌%◌, ◌^◌, ◌≤◌, ◌<◌, ◌≡◌, ◌≢◌, inl, refl, ap, ◌∙◌, some, arith,
}
use custom_isa_8bit_vm.Assembler.Encode.{find_label}
use custom_isa_8bit_vm.Assembler.Layout.{Layout}
use custom_isa_8bit_vm.Brainfvck.Translate.{start_label, close_label}
use custom_isa_8bit_vm.Program.Tree.{Tree, done, line, show, enter, while, size}
use custom_isa_8bit_vm.Program.Tree.Parts.{closing}
use custom_isa_8bit_vm.Program.Listing.Instruction.{grown}
use custom_isa_8bit_vm.Program.Listing.LabelLine.{labelled, close-start}
use custom_isa_8bit_vm.Program.Listing.Known.{
  bound, Ordered, laid, Knows, le-bound, SameAt-trans, laid-SameAt, Knows-SameAt, labelled-close,
}
use custom_isa_8bit_vm.Program.Listing.FirstPass.{laid-dimension}

start_first :
    (id : ℕ) (k : Layout)
    → find_label (labelled (start_label id) k).labels (start_label id) ≡ some (k.dimension % 2 ^ 16)
unfolding find_label
start_first id k = rw ((equal_iff (start_label id) (start_label id)).1 refl) refl

close_first :
    (id : ℕ) (k : Layout)
    → find_label (labelled (close_label id) k).labels (close_label id) ≡ some (k.dimension % 2 ^ 16)
unfolding find_label
close_first id k = rw ((equal_iff (close_label id) (close_label id)).1 refl) refl

start_kept :
    (id : ℕ) (k : Layout)
    → find_label (labelled (close_label id) k).labels (start_label id)
      ≡ find_label k.labels (start_label id)
unfolding find_label
start_kept id k = rw (close-start id id) refl

pub laid-Knows :
    (t : Tree) (low a : ℕ) (k : Layout)
    → Ordered low t
    → k.dimension ≡ a
    → a + size t < 2 ^ 16
    → Knows (laid t k).labels a t
unfolding laid Knows Ordered size
laid-Knows done low a k h e l = tt
laid-Knows (line x rest) low a k h e l =
    laid-Knows rest low (a + 5) (grown 5 k) h (omega (arith, e, l)) (omega (arith, l))
laid-Knows (show rest) low a k h e l =
    laid-Knows rest low (a + 3) (grown 3 k) h (omega (arith, e, l)) (omega (arith, l))
laid-Knows (enter rest) low a k h e l =
    laid-Knows rest low (a + 3) (grown 3 k) h (omega (arith, e, l)) (omega (arith, l))
laid-Knows (while id body rest) low a k h e l =
    let k2 = grown 4 (grown 5 (labelled (start_label id) k)) in
    let kb = laid body k2 in
    let k4 = labelled (close_label id) kb in
    let k5 = grown 4 (grown 5 k4) in
    let final = (laid rest k5).labels in
    let top = bound (id + 1) body in
    let over = le-bound (id + 1) body h.1.0 in
    let first : k2.dimension ≡ a + 9 = omega (arith, e, l) in
    let inner : kb.dimension ≡ closing a body =
      laid-dimension body k2 (omega (arith, l, first)) ∙ omega (arith, first) in
    let second : k5.dimension ≡ closing a body + 9 = omega (arith, inner, l) in
    -- the number itself, through the rest and the body
    let kept = laid-SameAt rest top id k5 h.1.1 (inl (omega (arith, over))) in
    let kept_body = laid-SameAt body (id + 1) id k2 h.1.0 (inl (omega arith)) in
    -- the numbers in the body, through the closing label and the rest
    let inside = λ (j : ℕ) (p : id + 1 ≤ j) (q : j < top).
      let other : id ≢ j = λ g. absurd (omega (arith, p, g)) in
      SameAt-trans j kb.labels k5.labels final (labelled-close id j kb other)
        (laid-SameAt rest top j k5 h.1.1 (inl q)) in
    (
      kept.0 ∙ start_kept id kb ∙ kept_body.0 ∙ start_first id k ∙ ap some (omega (arith, e, l)),
      (
        kept.1 ∙ close_first id kb ∙ ap some (omega (arith, inner, l)),
        (
          Knows-SameAt body (id + 1) (a + 9) kb.labels final h.1.0 inside
              (laid-Knows body (id + 1) (a + 9) k2 h.1.0 first (omega (arith, l))),
          laid-Knows rest top (closing a body + 9) k5 h.1.1 second (omega (arith, l)),
        ),
      ),
    )
