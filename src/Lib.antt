-- ===== src/Lib.antt =====
-- A verification library for the course programs of this repository: the audio recoder of hw1,
-- the grading program of hw2, the
-- printer spooler of hw4 and the transactional server of hw5. Each program is a tree of
-- modules of its own; they share nothing but `Prelude`.
--
-- Audio models hw1/src/hw1.c and hw1/src/myrand.c, which read an audio file from standard input
-- and write it recoded. Standard input and output are lists of bytes, a buffer is a list with the
-- size it has in the program, and `none` is an access out of bounds or through a null pointer.
--   * Audio/Io: the loops that read and write a 32-bit word byte by byte.
--   * Audio/Header: `read_header` and `write_header`, as a sequence of readers, one to a field.
--   * Audio/Annotation: `read_annotation`, `write_annotation`, `annotationcpy`, and the
--     annotation that `recode` makes up from the arguments.
--   * Audio/Frame, Audio/Speed: `read_frame`, `write_frame`, `framecpy`, `calcu_frame`, and the
--     loops of the options -u and -d.
--   * Audio/Rand, Audio/Crypt: the random numbers, and the loop of the option -c.
--   * Audio/Args: `validargs`, `strToInt` and `strToHex` over the list `argv`.
--   * Audio/Recode: `recode`, which puts all of these together. What `validargs` leaves in
--     `global_options` is the number that `recode` takes.
-- An `int` or `unsigned int` is a number below 2 ^ 32, an `unsigned long` one below 2 ^ 64. A
-- variable that the code reads before it sets it is the parameter `uninit`.
--
-- Grades models the parts of hw2 that compute and its files: frequency tables, sums and moments
-- (hw2/src/stats.c) in Grades/Freqs and Grades/Sums, normalization (hw2/src/normal.c) in
-- Grades/Normal, and sorting (hw2/src/sort.c) in Grades/Sort, with the orders that it is for in
-- Grades/Sort/Compare/Order. Grades/Read and
-- Grades/Write have the reading of the data base (hw2/src/read.c), from the tokens up, and its
-- writing (hw2/src/write.c), with `sscanf`, `fopen` and `%f` as parameters. The type `double` with its
-- operations is the parameter `FloatOps`, whose `narrow` is the conversion to `float`; where a theorem needs the numbers to be ordered, as
-- they are where none is a NaN, `IsOrder` says so. A pointer to an assignment, a section or its
-- statistics is a position; Grades/Links has `do_links` itself, which sets these links and the
-- roster of the course.
--
-- Spooler models hw4/src/main.c with the records of hw4/include/imprimer.h: the tables of printers,
-- jobs, types and conversions in Spooler/State, the branches of the command loop in
-- Spooler/Commands and Spooler/Schedule, and the two loops in Spooler/Rounds. An array is the list
-- of its rows in use; a write behind an array or a buffer is `undefined`, and so is
-- a round whose scheduling loop shows the status of a printer that is not there. What the program writes is
-- a list of messages whose format is the library's. Spooler/Board is the abstract view of the
-- scheduling loop, and Spooler/Invariant what every command keeps. The clock is a parameter.
--
-- Xacto models hw5: the client registry (hw5/src/client_registry.c) in Xacto/Registry, the
-- transactions (hw5/src/transaction.c) in Xacto/Transaction, and blobs and keys
-- (hw5/src/data.c) in Xacto/Data; Xacto/Protocol has the packets (hw5/src/protocol.c). A semaphore is its count, and an operation that waits for one
-- that nobody posts gives `none`. A pointer to a transaction is its id; a call that never comes
-- back is `stuck`, and one that reads a freed transaction is `dangling`. Xacto/Registry/Waiting has the interleavings of
-- the scan of `creg_wait_for_empty` with unregistrations as a step relation.
--
-- Fuel: the loops of -u, -d and -c get one round more than the input has bytes, which is enough
-- since every round reads a byte (the theorem on -c has the result and not only a bound);
-- `partition` gets the length of its part, which each round makes one shorter; the busy loops of
-- `trans_commit` and `creg_wait_for_empty` may spin for ever in the program, and the theorems
-- say when they do not; `trans_abort` takes fuel for its
-- recursion and for the inner loop over the dependencies, which may not end; and
-- `sorttable` lasts with more than twice the number of its elements, which `sortrosters` gives it.
--
-- Not modelled: the allocator of hw3, getopt and the signal handler of hw4, the server loop of hw5,
-- the reports of hw2/src/report.c, freeing of memory,
-- warnings and debugging output, and hw5/src/csapp.c, which comes from elsewhere.
pub mod Prelude
pub mod Audio
pub mod Grades
pub mod Spooler
pub mod Xacto
