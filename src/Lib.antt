-- ===== src/Lib.antt =====
-- Verification of the Pokémon mini tool chain's own programs (sdcc88).
--
-- The repository adds an S1C88 target to SDCC: a code generator, the assembler as88 and two host
-- tools. This library models the assembler's instruction encoder, which turns a statement into machine
-- code and relocated fields, the code generator's knowledge of its own lines, and the host tools,
-- which carry the path from the linker's Intel HEX file to the cartridge image and to the debug
-- container:
--
-- As88 (sdas/as88) encodes one instruction at a time, from its class and its operands.
--   As88/Operand     the registers and addressing modes of s1c88.h
--   As88/Lexer       srch and admode of s1c88adr.c, over ccase, ctype and getnb of the assembler core
--   As88/Tables      the names that they look for
--   As88/Emit        the calls of outab, outrb, outrw, outr1be, outchk and xerr as a list; a field
--                    names the operand whose expression it writes, by `&e1` or `&e2`
--   As88/Expr        mchpcr, and the expression that a field is given
--   As88/Load, Alu, Other, Machine   `machine` in s1c88mch.c, one function for each class
--   As88/Manual      the chip's operation code map, and the encoder against it
--   As88/Branch      the instructions with a target, the conditions and their inversion, the banked
--                    slot; Flags says what a condition means and Run how the chip goes through it,
--                    with the bank in NB and the place where a linked displacement leads
--   As88/Relax       setbit, getbit, the part of minit about the bit table, and the choice of the short
--                    form by pass; the decision that pass 1 computes is given
--
-- Peep (src/s1c88/peep.c) answers what SDCC's peephole optimizer asks of the target. A line is its text,
-- as the code generator writes it.
--   Peep/Text        ISINST, argCont and the operands of a line
--   Peep/Names       isReg, isUReg, isRegPair, canAssign, canJoinRegs, canSplitReg
--   Peep/Env         what a scan knows besides the lines; s1c88IsReturned, s1c88IsRegArg and
--                    s1c88IsParmInCall of gen.c
--   Peep/Flags, Reads, Writes   which lines read or surely write a flag or a register
--   Peep/Scan        findLabel, scan4op and doTermScan; the `visited` flags are a list beside the lines
--   Peep/NotUsed     s1c88notUsed and s1c88notUsedFrom
--   Peep/Live        the executions that may read a register, as an inductive relation
--   Peep/Size        s1c88instructionSize
--   Peep/Print       how the assembler's statements are written, with four spellings of an expression
--   Peep/Effects     what the instructions read and write, by docs/s1c88/instruction-set.md
--   Peep/Contract, Branches   the counted sizes against As88's code
--
-- Romgen (tools/romgen.c) reads the linker's records, maps each linker address to a physical
-- cartridge address (banks of 32 KB in code, far ranges verbatim), collects the bytes in a growing
-- image with a mark for each byte written, and writes the flat ROM and the MINX container.
--   Romgen/Hex       hexbyte, and lines as lists of characters; behind the end stands 0
--   Romgen/Address   CART_BASE, far_ranges, is_far and phys_of, with its three return codes
--   Romgen/Result    the exits of main as errors
--   Romgen/Rom       the image (wr, rom, cap, size), the upper address and the banks touched; the
--                    body of the data loop: growth by realloc, the store, the mark
--   Romgen/Load      the loop over the lines, from the header bytes to the flat image and n_banks
--   Romgen/Buffer    buf_put with its growth, wle16, wle32, buf_u32, strtab_add
--   Romgen/Chunk     ck_pad, ck_open, ck_close, ck_blob
--   Romgen/Segments  the ROM chunk of main: one SEG chunk for each run of defined bytes
--   Romgen/Header    the header and the file of main
--   Romgen/Lines     the line table: line_cmp, the sort and the removal of duplicates in main, and the
--                    LINE chunk
--   Romgen/Intern    type_intern, file_id and struct_ordinal
--   Romgen/Vars      the insertion sort of the variables in main
-- Minxdump (tools/minxdump.c) reads the container.
--   Minxdump/Reader  rle16, rle32, next_chunk and find_chunk
--   Minxdump/Flat    the two walks of main that put the flat image together again
--   Minxdump/Header  the checks of the header
--   Minxdump/Lines   the checks of a LINE chunk and file_name
-- Common holds tests on numbers, lists that are measured by native numbers, 32-bit words, the
-- bitwise facts and crc32_buf, which has the same body in both tools.
-- The modules below each of these hold its proofs, and the files named Tests the examples.
--
-- Parameters. SDCC's StrStr, findSym and its table of labels are fields of a record; the registers in
-- which aopRet and aopArg place a value are given, by name. A read through a null pointer, where
-- the source asserts or crashes on a line that no code generator writes, sees an empty text.
-- The lines that fgets returns are a list, and qsort is a function that returns the same records in
-- order, which is all that the C library promises of it. realloc is an oracle that grants or refuses
-- a block of a size, since the tool reports a refusal; where a theorem says that memory is
-- granted, the oracle answers yes. malloc in minxdump is taken to succeed, and so is the growth of
-- a buffer in romgen, whose result the tool does not test.
--
-- An expression of the assembler is named, not evaluated: the linker resolves every field. The linker
-- is not part of the library; of it, Run takes that an R_PCR field is filled relative to the address
-- behind it, as the comment at mchpcr says. The code
-- behind the answer of `mchpcr` that it never gives is left out.
--
-- Machine integers. A uint32_t wraps: `u32` is the remainder by 2 ^ 32, written wherever the source
-- computes in 32 bits. The theorems on containers are stated below 4 GB, where positions do not
-- wrap.
--
-- Fuel. The loops over the bytes of a run, over the runs and over the chunks run on fuel. A run has
-- the bytes that are left as fuel, the loop over runs one round for each byte and one more, and a
-- walk over chunks one round for each byte of its container and one more, since a chunk takes
-- eight bytes at least. The round trip shows that it is enough for every container that romgen
-- writes, as its result is never the one that says that fuel ran out. scan4op has a round for each line
-- that is not visited times the lines, and doTermScan one for each line: Peep/Scan/Ends shows that
-- no scan runs out.
--
-- Not modelled: of romgen's debug records all but the line table, the interning
-- and the sort of the variables, the tables that
-- minxdump prints but for LINE, options and files; addr of as88, whose addressing modes the encoder takes as its input, and the
-- code of a local banked branch by the choice of its length; the peephole rules of peeph.def, which SDCC
-- interprets, and the counter of jumps to a label; the code generator, register allocator and port
-- driver under src/s1c88, which work on SDCC's data structures, which the repository does not hold; the
-- emulator in third_party/minimon-core, another project's library; the device run time in assembly.
pub mod Common
pub mod Romgen
pub mod Minxdump
pub mod As88
pub mod Peep
