-- ===== src/Lib.antt =====
-- Verification of the 8-bit virtual machine: the machine with its loader and memory manager, the
-- assembler, and the compiler from Brainfvck. The code is C++ under custom-isa-8bit-vm/; all paths
-- below are from that directory.
--
-- How the program works. `main` (src/main.cpp) builds the table of instructions and the map of
-- registers, lets `Brainfvck::compile` (src/Brainfvck.cpp) turn a Brainfvck program into assembly,
-- shorten it and hand it to the `Assembler` (src/Assembler.cpp), which writes the binary; then the
-- `VM` (src/VM.cpp) loads the binary through `Loader` (include/Loader.hpp) into a region that the
-- `MemoryManager` (src/MemoryManager.cpp) allocates in the RAM of 64,000 bytes, and runs the
-- `Process` (include/Process.hpp) until it halts or leaves its code.
--
-- The files.
--   Base: names of the libraries, Boolean tests on numbers, lists, text as lists of character
--     codes, and the type `int`. Exception: what is thrown, and the result of a pure function.
--   Config: include/VMconf.hpp, include/VMRegisters.hpp. Isa: the tables of src/main.cpp.
--   MemoryManager: src/MemoryManager.cpp on the free list. Its children: the set of free addresses
--     (View), `allocate`, `free`, `check_integrity`, and all sequences of calls (Partition).
--   Process: include/Process.hpp. Loader: include/Loader.hpp, `VM::VM`, `VM::reset` and the part
--     of `main` that loads and runs; Loader/Image is the state behind `load_program`.
--   Vm: the class `VM`. State has the object together with the process and the locals of `exec`
--     as one record, `Machine`; a method is a function from it to an outcome: a value, an
--     exception, undefined behaviour (an index out of range, the window before it is set) or a
--     lack of fuel, each of the first two with the machine then. Operand is `fetch_argument` and
--     `resolve_writeable_arg`, whose C++ reference is a `Cell`. Alu, Stack, Control, Heap and
--     Framebuffer are the cases of the switch in `exec`, Host the calls of MiniFB, Exec the
--     switch, the loop and `exec`, with runs that come to HALT in its child
--     Halts, steps on MOV, ADD, SUB and MUL in Places and Compute, a comparison with its jump in
--     Branch, and the instruction table against the switch in Mnemonic. Invariant is what every
--     method keeps.
--   Assembler: Text is the parts of the standard library that it uses (lines, words, from_chars,
--     stoi, stoull), Encode `instruction_to_opcode`, with what the machine fetches there in its
--     child Fetch, Layout the first pass of `asm_to_opcodes`, Emit the second, `asm_to_bin` and
--     `asm_file_to_code`. Passes relates the two: Source says which lines are well-formed, Operand
--     and Size are about an operand, Lines and Count about a line, Block and Address about a
--     program, Wide about numbers above 255.
--   Brainfvck: Translate is `compile` up to the assembly, RunLength `apply_optimizations`,
--     LoopShape and LoopReplace `apply_loop_optimizations`, Compile the whole. A text is held as
--     its list of lines between these parts. Format is `std::to_string` and `std::format`, read
--     back in its child Decimal. Below RunLength, Meaning has a tape on which changes and moves
--     add up, Mode and Keeps are about one line, Plain and Text about a translated program. Below
--     LoopReplace, Memory has the registers A to C and 256 cells, Delta sums up what an analysis
--     finds for each cell, Body runs the body of a loop, Written and Emitted the lines in its
--     place, Found and Meaning compare the two. In Memory an operand is taken modulo 256.
--   Program: `main` as a whole, from the text of a Brainfvck program to the registers it prints.
--     Cells and Registers are about its run, TapeLines has the lines that change the tape with
--     their code, Encoded, Tape, Ready and Block are about the assembler and the
--     machine on them. Tree has programs of these lines, PRINT, INPUT and loops, with their
--     meaning and their code: below it Reached is about rounds of the loop of `exec`, Lines,
--     Commands and Jumps about one round each, Loops and Parts about the labels of a loop, Runs
--     about a program that ends, Late and Endless about one that does not. Listing is the text
--     of such a program and its binary: below it Word and Instruction are about texts, Operands,
--     TapeText, LoopText, LoopLines and LabelLine about the lines, Known, FirstPass and
--     Addresses about the first pass, SecondPass about the second, Newlines and Assembled about
--     the whole. Syntax reads a Brainfvck text as a program, and below it Frames, Chars and
--     Translated compare that with the translation. Whole is `main` on the binary: Binary and
--     Loaded are about the loading, Finished and Endless about the run, Source about the text.
--   Tests: runs on concrete programs, and each theorem applied.
--
-- Numbers. A `MemAddr` is a natural number that is taken modulo 2 ^ 16 where it is assigned, a
-- `MemCell` one modulo 2 ^ 8; `int` is an integer, and `size_t` is taken modulo 2 ^ 64 where a
-- difference may be negative. Sums of it in the memory manager are not reduced: they differ from the
-- code's only for blocks with sizes near 2 ^ 64, of which a sequence of calls that starts with the
-- shared RAM makes none.
--
-- Fuel. The two loops on the heap have fuel for 2 ^ 17 rounds: every round on a well-formed heap
-- goes on behind a header or joins two chunks, and there are fewer than 2 ^ 16 addresses. A program
-- may run for ever, so the fuel of `exec` is an argument. The loop over the lines in
-- `apply_loop_optimizations` has a round for each line, and every round takes a line or more.
-- A loop on the tape has one round more than the number in its cell. The meaning of a program has
-- fuel, of which every line and every round of a loop takes one: it is an argument too.
--
-- What is not modelled. MiniFB is a library: whether its window opens and what each call of it
-- answers, with the key events, is the parameter `Host`. Reading and writing files is left out:
-- the functions take the bytes or the text of the file and give those to write. The standard
-- input is the list of numbers read from it, and a number that cannot be read is 0. The reverse
-- table of `VM::reverse_is` is read by nothing. The order in which the `unordered_map` of the
-- registers gives its elements is a parameter, `elements`.
pub mod Base
pub mod Exception
pub mod Config
pub mod MemoryManager
pub mod Process
pub mod Isa
pub mod Vm
pub mod Loader
pub mod Assembler
pub mod Brainfvck
pub mod Program
mod Tests
