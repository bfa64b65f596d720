-- ===== src/Lib.antt =====
-- A verification library of the services of the base system: terminals, local sockets, shared
-- memory, files in memory, the namespaces of processes, the order of services, the tables that
-- the schemes share, the network's ports and routes, and the rings of the USB host controller.
--
-- The parts and how they interact. A scheme is a daemon that answers requests for handles:
-- `openat` and `dup` give a new id, and the other requests name one. ptyd (ptyd/src) keeps a
-- terminal for each control handle; what is written to the control handle goes through the line
-- discipline to the sub-terminal, and what is written to the sub-terminal goes in packets to the
-- control handle. ipcd/src/chan.rs connects two clients over a listener, and ipcd/src/shm.rs maps
-- objects by name. Both write paths with the writer of scheme-utils/src/lib.rs; shared memory and
-- other schemes keep their handles in its table. ramfs/src keeps files by inode number, with the
-- root as the directory from which each path starts. bootstrap/src/initnsmgr.rs gives each
-- process the names of the schemes that it may open, and init/src/scheduler.rs starts the
-- services in order. netstack/src keeps the ports of a protocol and the routes. The driver
-- drivers/usb/xhcid fills the blocks of a ring and gives them to the controller by the cycle bit.
--
-- What models what:
--   Base: numbers, lists, texts, maps by id and by name, the errors, system calls as numbers that
--     are parameters (`Syscall`), the result monad with state (`Exec`), and decimal numbers. A
--     map is an association list in which the first entry of a key counts.
--   SchemeUtils.HandleMap, SchemeUtils.FpathWriter: scheme-utils/src/lib.rs.
--     SchemeUtils.Readiness: scheme-utils/src/readiness_based.rs, the loop in which a request
--     that would block is kept.
--   Ptyd.Termios: the settings of a terminal that the code reads, with the numbers of the
--     system's headers as parameters. Ptyd.Pty and Ptyd.Pty.Input: ptyd/src/pty.rs, with `input`
--     as a row of stages over the byte, as in the code, which sets it to 0 when it is handled.
--     Ptyd.Resource: the resources of ptyd/src (controlterm.rs, subterm.rs, pgrp.rs, termios.rs,
--     winsize.rs, ptlock.rs, ptname.rs). Ptyd.Scheme: ptyd/src/scheme.rs and the loops over the
--     handles of ptyd/src/main.rs.
--   Chan, Chan.Scheme: ipcd/src/chan.rs. Shm.Guard, Shm.Scheme: ipcd/src/shm.rs.
--   Ramfs: ramfs/src/filesystem.rs and scheme.rs. Ramfs has the data and the new numbers,
--     Ramfs.Path `resolve` and what it calls, Ramfs.Permission the rights, Ramfs.Open `openat`
--     (`create` and `open_existing`) and `on_close`, Ramfs.Remove `unlinkat`, Ramfs.Contents
--     `read`, `write` and `ftruncate`, Ramfs.Attributes `fstat`, `fchmod`, `fchown`, `futimens`
--     and `std_fs_call`, Ramfs.Names `fpath`, `relpathat` and `getdents`, Ramfs.Time
--     `current_time`.
--   Initnsmgr: bootstrap/src/initnsmgr.rs. Initnsmgr has the state, with shared namespaces in a
--     table, Initnsmgr.Fork `Namespace::fork`, and Initnsmgr.Scheme the handlers.
--   Init.Scheduler: the loop `step` of init/src/scheduler.rs.
--   Netstack.PortSet: netstack/src/port_set.rs. Netstack.RouteTable:
--     netstack/src/router/route_table.rs.
--   Xhci.Trb, Xhci.Ring: drivers/usb/xhcid/src/xhci/trb.rs and ring.rs.
-- The modules below these prove what they are named for (Ptyd.Scheme.Owners who owns a terminal,
-- Shm.Scheme.Refs the references of objects, Chan.Handshake and Chan.HangUp the life of a
-- connection, Ramfs.Handles that open files stay), and Tests runs them on concrete states. Where
-- a theorem speaks of any requests from the start on, a data type `Request` has the requests that
-- change the state, `handle` runs the handler of one, and `Reach` is any sequence of them. A
-- function of the code has its name here; a piece of a longer function is named for what it does.
--
-- Conventions. A handler is a function of the state to a result and the state after it: a value,
-- an error, or `panic` for an unwrap, an index or an assertion that fails. A buffer that a
-- handler fills is given back beside the result. Shared terminals (`Rc<RefCell<Pty>>`) stand in a
-- table by the id of the control handle that owns them, so that a weak reference is that id.
-- Words wrap around at their width where the code lets them, as in a release build, which also leaves
-- out the checks of `debug_assert_eq!`; a theorem that needs the next id or a count not to wrap
-- says so. Byte strings are lists of numbers.
--
-- Fuel. The searches for a free id (`first_free`, `first_vacant`) have one round more than there
-- are keys, which is enough since each round meets another key; `next_index` of a ring has two
-- rounds, since the second starts at the index 0. The loops of `fpath` and `relpathat` (`chain`)
-- have as many rounds as the inode's number, since a parent's number is less; `fork_loop` has as
-- many as the buffer has bytes, since each round reads a length of eight bytes. For `step` of the
-- scheduler the theorem gives the fuel, where there is one that is enough. The other loops go
-- along a list.
--
-- Parameters: the numbers of the system (`Syscall`, `RedoxTermios`), the answers of the scheme's
-- socket (`sock`), the kernel's mappings (`Kernel`), whether a text is UTF-8 (`utf8`), and the
-- addresses of the smoltcp crate with the standard library's binary search (`Smoltcp`). For
-- ramfs: the flags and mode bits (`FsFlags`), whether memory can be had (`room`), the credentials
-- that the kernel gives of a process, the writer of directory entries, the clock, and the block
-- size. For the namespace manager (`System`): how paths and names are read, and the system calls
-- that it makes. For the loop around a scheme (`SchemeCrate`): how the crate runs an operation on
-- the scheme, and what the socket answers. A hash map is gone through in the order of its keys.
--
-- Not modelled: sockets, event queues and start-up of the daemons, which are input and output;
-- memory that a client writes through its own mapping; the DMA allocation and the registers of
-- the host controller; the network stack beside its two tables, which calls smoltcp; Unix domain
-- sockets, the rest of the bootstrap, what init loads and how it starts it, the archive format of
-- initfs, and the other drivers.
pub mod Base
pub mod SchemeUtils
pub mod Ptyd
pub mod Chan
pub mod Shm
pub mod Ramfs
pub mod Initnsmgr
pub mod Init
pub mod Netstack
pub mod Xhci
pub mod Tests
