-- ===== src/Lib.antt =====
-- Drivers of the HT repository: hardware access of the control system, in C, for Linux and LynxOS.
--
-- Four parts are modelled.
--
-- The PCI-VME bridge driver (vmebridge/driver). Processes and other drivers ask it for windows on the
-- VME bus and for mappings on top of the windows. The window manager (vme_window.c) keeps a table of
-- eight windows, takes PCI bus ranges and mapped addresses from the kernel, and lets the chip's code
-- (tsi148.c) write the window registers. The chip also reports bus errors, which vme_irq.c and
-- vme_misc.c keep for clients and hand to the handlers that were registered. Block transfers
-- (vme_dma.c) wait for one of two channels, turn a buffer's pages into a scatter-gather list and that
-- into a linked list of descriptors, which the chip follows. All interrupts of the chip come to one
-- loop (vme_irq.c), which calls the handlers of the vectors, wakes transfers and records bus errors.
--   Vme/Types, Vme/Am             vmebus.h: `struct vme_mapping`, address modifiers
--   Vme/Chip                      tsi148.c, tsi148.h: one outbound window's registers
--     Chip/Am, Chip/Codes           am_to_attr, attr_to_am, add64hi, sub64hi and the enums
--     Chip/Window                   tsi148_create_window, _remove_window, _get_window_attr
--   Vme/Berr                      vme_misc.c, vme_irq.c, tsi148.c: bus errors
--   Vme/Window                    vme_window.c
--     Window/State                  the state `Bridge`, the kernel's answers, the mutexes
--     Window/Mappings               add_mapping, remove_mapping, vme_window_release
--     Window/Create                 vme_create_window, vme_destroy_window, init and exit
--     Window/Find                   __vme_find_mapping, __vme_release_mapping
--     Window/Ioctl                  vme_window_ioctl, vme_window_mmap
--   Vme/Irq                       vme_irq.c, tsi148.h: the interrupt loop, the table of vectors
--   Vme/Raise                     tsi148.c: tsi148_generate_interrupt
--   Vme/Ces                       vme_cesif.c, on top of Vme/Window and Vme/Irq
--   Vme/Dma                       vme_dma.c, vme_dma.h and the DMA part of tsi148.c
--     Dma/Types, Attributes         descriptors, channels, attribute and control words
--     Dma/Chain, Setup              tsi148_dma_link_add, tsi148_dma_setup, _start, _abort, _release
--     Dma/Pages, Transfer           sgl_map_user_pages, vme_dma_setup, __vme_do_dma, vme_dma_ioctl
--     Dma/Channels                  vme_dma_channel_acquire, _release and vme_dma_exit, as steps
--     Dma/Pieces                    the pieces of a transfer, independent of the chain
--     Build, Loop, Entries, Whole, Ends, Kept, Release, Holders and Progress hold the proofs, with
--     Vme/IrqLaws, IrqLoop and IrqTable.
--   Window/Invariant, Steps, CreateSteps, FindSteps, Run, Owners, Ledger, Found, Align, Mmap and
--   Sanity hold the proofs, with Vme/BerrLaws, Chip/AmLaws and Chip/WindowLaws; Vme/Tests holds tests.
--
-- The clock generator of the CVORG board (cvorg/driver/clkgen.c). The driver sends commands to an
-- AD9516 chip by the board's CLKCTL register, and sets the dividers of its PLL.
--   Cvorg/Clkgen/Int, Reg         C `int` arithmetic, register addresses (ad9516_priv.h)
--   Cvorg/Clkgen/Spi              clkgen_rd, clkgen_wr, clkgen_or, clkgen_and
--   Cvorg/Clkgen/Pll              clkgen_check_pll, check_pll_dividers (ad9516.h)
--   Cvorg/Clkgen/Chip, Setup      the readers and writers, clkgen_apply_pll_conf, clkgen_startup
--   PllLaws, Registers, Roundtrip, Dividers and Calibration hold the proofs; Cvorg/Tests the tests.
--
-- The tools of the MTT timing module (mttn/tools, mttn/lib/opcodes.c, mttn/include). The assembler writes
-- programs of 8-byte instructions to object files; the emulator reads these, and executes them on 256
-- registers under the commands of a user.
--   Mttn/Types                    asm.h, opcodes.h, opcodes.c: instructions, the instruction set
--   Mttn/Text, Object             C's strtoul and "%X", WriteObject and ReadObject
--   Mttn/Regs                     opcodes.c, GetRegisterName, LookUpRegister, StringToReg
--   Mttn/Emu/Machine              emu.c: SetPSwd, Execute and Emulate
--   Mttn/Asm/Expression           asm.c, asmP.h: the stacks of expressions, DoExpression
--   Mttn/Asm/Atom, Assemble       asm.c: GetConfirm, GetSymbol, Assemble, the second pass of main
--   Mttn/Asm/Source               lines of a source, and what two passes over them make
--   Asm/Stack, Names, Fixups, Invariant, Labels, Writes, Arguments, Lines, Confirm, Start and
--   TwoPass, and
--   Emu/Status, Safe, Compare and Wait hold the proofs; Mttn/Tests the tests.
--
-- The frame that drivers of modules are written in (skel/driver). A client of such a driver has a ring of
-- 32 entries, which interrupts fill and reads empty; its semaphore counts the entries.
--   Skel/Queue                    skeldrvr.c: q_put, q_get, SkelDrvrRead, the ioctls on the queue
--   Skel/Fifo                     what a client may rely on
--   Skel/Ring and Refines hold the proofs; Skel/Tests a run.
--
-- State is passed explicitly. What the kernel answers (signals, allocation, bus ranges, ioremap,
-- copies to and from users) is the parameter `Kernel`, by the number of calls made before; what the
-- CLKCTL register reads as is the parameter `Board`. `IsMemory` says that the board answers at once
-- and holds what was written, as its data sheet has it.
--
-- Bounds: `unsigned int` sums and differences wrap at 2^32; pointers are numbers without wrap, a page
-- has 4096 bytes. All loops run over the eight windows, a list, or a fixed number of attempts, and are
-- structural recursion, but for the loop of tsi148_dma_link_add, which has fuel for each byte and one
-- more: a round moves a byte at least. The interrupt loop runs over what the chip has to say, a list. In
-- Mttn a long has 32 bits; what C leaves open there (an access out of range, a shift by 32 or more)
-- is `none`, and lines of a file have less than 128 characters, the length of the code's buffer.
--
-- Not modelled: calls that interleave inside a mutex's scope, the listings of /proc and of the log,
-- the set-up of the device, inbound windows, the cutting of an assembler's text into atoms and the
-- listings of Mttn's tools, and the other drivers of the repository; of Skel, all but the
-- queue of one client, whose calls and interrupts come in any order, each in one step. Tasks interleave
-- in Dma/Channels only.
pub mod Base
pub mod Vme
pub mod Cvorg
pub mod Mttn
pub mod Skel
