-- ===== src/Lib.antt =====
-- Keyboard drivers and consoles over xv6.
--
-- The repository holds variants of the keyboard driver and of the console of xv6, one in each author's
-- folder, each with a copy of the rest of the system around it. A key becomes a scan code at the
-- controller's port; `kbdgetc` of a kbd.c turns scan codes into characters and special codes, and
-- `kbdintr` hands it to `consoleintr` of the console.c in the same folder, which edits a line in the
-- ring buffer `input`, echoes it by `consputc` to the serial port and to the screen, and wakes the
-- processes that `consoleread` put to sleep.
--
-- Files and what they model:
--   Keyboard/Keymap, Modifiers   the tables of B22CS052/Helpful/kbd.h and the word `shift`
--   Keyboard/Plain               the unmodified `kbdgetc`, B22ES019/autocomplete/kbd.c
--   Keyboard/Dvorak              `kbdgetc` and `kbdintr` of B22CS039/kbd.c
--   Keyboard/Sticky, Anomaly     sticky_kbd.c and Anomaly_Mode_kbd.c of
--                                B22CS039/Modified_Keyboard_Driver
--   Keyboard/Annoying            `kbdgetc` of B22CS052/Annoying/kbd.c
--   Keyboard/Helpful             `kbdgetc` of B22CS052/Helpful/kbd.c: `commands`, `mode_keys` and
--                                `decode` are its tests before the tables, `translate` what follows
--   Console/Screen, Device       `cgaputc`, `consputc`, `consolewrite` of B22CS052/Helpful/console.c,
--                                `uartputc` of B22CS052/Helpful/uart.c
--   Console/Print                `printint` and `cprintf` of the same console.c
--   Console/Ring, Editor         the struct `input` and `consoleintr` of B22CS039/console.c
--   Console/Reader               `consoleread`
--   Console/Session              the two together
--   Console/Enigma               the cipher of B22CS052/Helpful/console.h
--   Console/Helpful              `consoleintr` of B22CS052/Helpful/console.c and the functions that it
--                                calls: State (strings, copy, paste, previous line), Complete, Devil,
--                                Interrupt
--   Console/Annoying             `consoleintr` of B22CS052/Annoying/console.c with its lock
--   Console/Autocomplete         `autocomplete` and `consoleintr` of B22ES019/autocomplete/console.c;
--                                Completion says what a completion means
--   Console/Bgcolor              `consoleintr` of B22ES019/bgcolor_change/console.c, with the colour that
--                                Ctrl+B changes
--   Xv6/Memory, Pipe             `memset`, `memcmp`, `memmove` of B22CS052/Helpful/string.c; pipe.c of the
--                                same folder
--   Xv6/Bcache                   `binit`, `bget` and `brelse` of bio.c
--   Xv6/Log                      log.c: `commit`, `recover_from_log` and what they call; Ops has
--                                `begin_op`, `log_write` and `end_op`
--   Xv6/Pages                    `kfree`, `kalloc` and `freerange` of kalloc.c
--   Xv6/Vm                       page tables: `walkpgdir` to `deallocuvm` of vm.c, with `growproc` of
--                                proc.c
--   Xv6/Syscall                  the arguments of system calls, syscall.c
--   Xv6/Proc                     the process table of proc.c
--   Xv6/Path                     `skipelem` and `namex` of fs.c
--   Xv6/Locks                    Cli and Spin for spinlock.c, Sleep for sleeplock.c with `wakeup` of proc.c
--   User/Grep                    `match` of grep.c; Lines has `grep`, with `strchr` of ulib.c
--   User/Shell                   the parser of sh.c: `gettoken`, `peek` and the functions from
--                                `parsecmd` to `parseexec`
--   Base                         lists, words, tests and texts that all of them share
--
-- State is passed explicitly: a driver is a function of what the ports give, of the clock and of its
-- static variables, a console a function of the codes that `getc` gives before its first negative one.
-- A `uint` is a number below 2 ^ 32 with its wrap-around written out, an `int` its two's-complement
-- pattern, a `char` a byte; memory is a function of the index. The word `shift` is a record of its
-- bits. `none` is an access outside an array, or the panic of a lock; a panic while something is shown
-- freezes the device. What C reads around `input.buf` is the parameter `Outside`; a write behind
-- `previous_line` or `word_to_match` is `none`. `end`, the first address behind the kernel, is a
-- parameter of the functions of vm.c that free pages, since `kfree` panics below it. Delay loops are left out, `wakeup`, `procdump` and restarts are counted, and a
-- `sleep` ends a pass of the reader with the bytes that it still wants.
--
-- Crashes and interleavings: a machine that commits or recovers has a number of writes left until its
-- power fails; later writes do not reach the disk, and a restart empties the cache, so the state behind
-- a commit with little power is every state that a crash can leave. One write of a block is atomic. A
-- processor's next access to a spin lock is one step, and so is what a process does on a sleeping lock
-- until it waits, holds the lock or has left it, since `lk->lk` is held throughout and `sleep` gives it
-- up together with the processor; a list of processors or processes is an interleaving. The calls that
-- use the log, the owners of pages, the users of buffers and the processes are runs of a step relation;
-- a step of a process is what it does under the lock of the process table.
--
-- Fuel: the loops that kill a line or erase a word run `e - w` rounds, since a round takes a byte off
-- the line; the recall of a line runs 128, since a round takes a byte of room; `put_digits` runs 32,
-- the most digits that a word has in any base; `find_start` runs `e - r + 1`;
-- the loops over the log run once for each entry, `freerange` once for each page, and
-- a walk along a path at most once for each of its bytes; the parser of the shell has `4 * length + 4`,
-- since each token pays for at most four calls, and a search of the process table runs 64 rounds;
-- the loops over pages run a round for each page of the range, and the scan of a string argument one
-- for each byte up to the end of the memory.
--
-- Not modelled: the rest of the kernel (the copies of user memory, the switch of contexts, the inodes and blocks of
-- the file system), the user programs but grep and the parser of the shell, the assembly and the set-up of the devices, the table
-- `hindimap`, which no code reads, the locks of the page allocator, of the buffer cache and of the log,
-- and the bytes that `panic` prints. In Console/Annoying `acquire` and `release` are modelled for one
-- processor.
pub mod Base
pub mod Console
pub mod Keyboard
pub mod User
pub mod Xv6
