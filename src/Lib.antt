-- ===== src/Lib.antt =====
-- dimmit: brightness of external displays, controlled by a daemon and two small clients.
--
-- `dimmit-up` and `dimmit-down` (src/dimmit.c) send a word over a local socket. `dimmitd`
-- (src/dimmitd.c) reads it (src/command.c), turns it into a step of one sixteenth of the range, and
-- has the display controller (src/display_controller.c) add the step to the pending change of each
-- display's dimmer (src/dimmer.c). A worker thread writes what is due through the brightness sources
-- (src/brightness.c), which the DDC abstraction (src/platform/ddc/abstraction.c) makes from one of
-- several backends. An idle tick of the main thread looks for displays that came or went.
--
-- Where what is modelled:
--   Base           lists, tests on numbers, C's `int` (Base.Int: ℤ, with int32 for the wrap at 32
--                  bits), actions on an outside world (Base.World).
--   Dimmer         src/dimmer.c, function for function. Dimmer.Knob is the abstract view: a level, a
--                  goal and a top. Bounds and Ready: the bounds of the values; Steps: the rounding of a
--                  fraction; Coalesce: presses that land during a write.
--   Command        src/command.c; a C string is the list of its bytes. Wire: a word and its line;
--                  Chunks: which chunks of bytes are taken for a command.
--   Client         src/dimmit.c as the calls it makes, from the answers it gets. Name: the name of
--                  invocation; Session: what is sent and released.
--   Source         the types of src/brightness.h; Brightness: src/brightness.c.
--   Ddc            src/platform/ddc/implementation.h: the backend as a record of calls (Platform).
--                  Sources: src/platform/ddc/abstraction.c; Format: its number formats; Handles: who
--                  closes the handles; Origin: the sources run on DDC_OPS and read two levels; Answers:
--                  the types of the answers; Memory: the levels that displays keep; Identity: the ids;
--                  Mock: src/platform/ddc/in_memory_mock.c (Laws, Memory: what it keeps). Linux, Netbsd,
--                  Darwin, Windows: the backends of these systems, src/platform/ddc/linux.c, netbsd.c,
--                  darwin.c and windows.c, each over a record of the calls that it makes and giving a
--                  Platform; the Contract of each is about its handles. Darwin is also over the calls
--                  of darwin/arch.h, which Darwin.Intel (darwin/ddcctl.c) and Darwin.Silicon
--                  (darwin/m1ddc.m) give; Processors: both; Framebuffer: what ddcctl.c logs of a port,
--                  and the checksum of darwin.c. Netbsd.Frames: the messages of netbsd.c and
--                  those of DDC/CI; Windows.Monitors (over Growth and Allocations): the physical
--                  monitors that are obtained and destroyed.
--   Access         src/platform/access-control/: the three hooks of each system, and of the tests.
--   Controller     src/display_controller.c, function for function, loops as recursions on the list.
--                  Service and Drain: the writes of a pass; Lockstep: a press on all displays;
--                  Reconcile and Leak: what a reconcile keeps and leaves open; Handles, Bounds and
--                  Invariant: what every operation keeps; Press: a press and the pass after it;
--                  Spec: what the operations may do to a list of named knobs, and Refinement: they do;
--                  Replay: presses on the knob of one name, with what comes between them; Sync and
--                  Sync.Life: what a display says and what it is taken to show; Identity: what
--                  displays are known by; Lifetime: the handles from the open to the close; Dropped:
--                  what is dropped.
--   Input          src/platform/input/: the keys' callback of darwin.c, and the systems without one.
--                  Darwin: the start and the stop of darwin.c and its loop's thread as steps on the
--                  file's statics (Order: what every state satisfies; Stop: how the stop ends). Windows:
--                  windows.c from a message of the window to the steps that it passes on, over a record
--                  of the system's calls (Memory: its allocations; Steps: its result); Windows.Threads:
--                  its start, stop and thread as steps on the statics (Order, Progress).
--   Logging        src/platform/logging/; Darwin: where stdout and stderr of macOS go (Streams, and
--                  Outcome: what decides).
--   Compat         src/platform/compat/ and src/platform/ddc/darwin/compat_ioregistry.c. Clock: the
--                  worker's deadline from the clock of macOS before 10.12.
--   Daemon         src/dimmitd.c. Main: `main` as the calls it makes, from the answers of its startup
--                  and the turns of its loop; Protocol: their order; Address: the socket's file;
--                  Deadline: the worker's timeout; Threads: the worker, the main thread and the key
--                  thread as steps on the shared state; Presses, Ownership, Lock and Wakeup: what
--                  holds in every reachable state; Sections: the critical sections in smaller steps,
--                  which read the controller and write it back apart (Order: what the lock gives;
--                  Serial: they come to calls one after another); Serial: the calls of the steps;
--                  Replay: what a display comes to show; Offset: how far displays stay apart;
--                  Settle: what can be reached from each; Request: from a client to the displays.
--   Tests          runs on concrete inputs, and inputs for the theorems.
--
-- Conventions. A call on the outside takes the world and returns its result and the world after it;
-- the backend, the allocator, the network and the access control are parameters. What is relied on
-- of a backend is named: Ddc.Handles.Tracks (an open adds a handle, a close gives one back),
-- Ddc.Answers.Answers (the four values of an answer are bytes) and Ddc.Memory.Remembers (a display
-- keeps its level, and takes the one of a write that goes through). Handles and display references
-- are numbers. A count is the length of its list. A `double` is the fraction num / 2^exp: the
-- daemon's steps are sixteenths and the products with a 16-bit maximum are exact. The theorems on
-- dimmers bound a level by 2^16 - 1, what the bytes of a display can say, and a step by 2^30. The
-- digits of a number are printed with fuel 10 (decimal) and 8 (hexadecimal), the most
-- that 32 bits need; every other recursion is on its data. `sun_path` has 108 bytes, as on Linux. The
-- controller's operations are modelled on a controller that is not NULL, besides count and current:
-- the daemon calls them on no other.
--
-- Of the loop of macOS it is assumed that it runs until it is stopped, and of the messages of
-- Windows that one that is posted comes; that posting can fail, and that a stop of a loop that does
-- not run yet can be lost, are steps. The window of Windows decodes one message at a time; in the
-- steps of its thread the loop over the messages is one place.
--
-- Not modelled: memory that is only allocated and freed, besides the display handles and in the
-- decoder of Windows; messages on stdout; the modes of buffering.

pub mod Base
pub mod Dimmer
pub mod Command
pub mod Client
pub mod Source
pub mod Ddc
pub mod Brightness
pub mod Controller
pub mod Access
pub mod Input
pub mod Logging
pub mod Compat
pub mod Daemon
pub mod Tests
