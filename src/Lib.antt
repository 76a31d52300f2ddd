-- ===== src/Lib.antt =====
-- The CAN4VSCP level I driver: a serial protocol to a CAN interface, behind the CANAL interface of
-- the VSCP daemon.
--
-- The program. A client calls the Canal functions of src/linux/vscpl1drv-can4vscp.cpp, which find
-- the driver object of a handle in a table and call its operations (CCan4VSCPObj, in
-- src/common/can4vscpobj.h and can4vscpobj.cpp). The client puts messages in a transmit queue and
-- takes messages from a receive queue. A transmit thread sends the first message of the transmit
-- queue in a frame and, if asked to, waits for its ACK. A receive thread feeds the characters of the
-- serial port to a state machine, checks the CRC of a complete frame and acts on it by its type:
-- messages go through the filter to the receive queue, responses to the response queue, where the
-- threads that sent a command wait for them. Frames are built and checked by
-- src/common/can4vscp-protocol.cpp.
--
-- The files, and what they model. An operation of the code has its name in snake_case: readMsg is
-- read_msg, can4vscp_buildFrame is build_frame.
--   Prelude      Boolean tests, lists, byte memory and bits over the native numbers.
--   Frame        src/common/can4vscp-protocol.cpp, whole. Frame/Encode has the
--                specification of a frame on the wire, Frame/Check the laws of the CRC check.
--   Rx           serialData2StateMachine on the list of the results of comm_getc, with the receive
--                buffer m_bufferMsgRcv of 5120 bytes as a function from indices.
--   Message      the CAN message, and its identifier and time stamp as bytes.
--   Platform     what is not part of the repository, as a record of parameters: crc8, the list of
--                dllist.h (with its laws as a separate hypothesis IsFifo), the codes of frame types
--                and flags, the outcome of a write to the port.
--   Driver       the object's fields and constructor, and the outcomes of its operations.
--   Filter       doFilter, setFilter, setMask.
--   Serial       sendMsg, sendACK, sendNACK, sendNoopFrame.
--   Receive      readSerialData. Its parts: Reader (reads from the buffer, delivery, the loop over
--                sub-frames), Kinds (the tests on the frame type), Canal and Multi (the frame types
--                with CAN messages), Responses (addToResponseQueue). The proofs stand in
--                Progress, Safety, Invariant, Unchanged, Untouched, Stored, Packing,
--                Decode, Shared, Line and Rounds (the loop of workThreadReceive).
--   Queues       the client's operations on the queues, with Queues/Fifo and Queues/Bounds.
--   Handles      the table of src/linux/vscpl1drv-can4vscp.cpp and the functions on a handle.
--   Commands     sendCommand, sendConfig, the waits for responses, getDeviceCapabilities.
--   Transmit     transmitMessage, and in Transmit/Worker workThreadTransmit: its start, a round and
--                the loop. Rounds and Resend are about rounds that wait for ACKs, Drain and Acked
--                about the whole thread without and with ACKs.
--   Session      softOpen, and in Session/Open and Session/Close open, OpenSerialInterface, close,
--                cleanup and the destructor. Session/Keeping, Flags, Outcome, Answered, Strict, Configured,
--                Closed, Progress, Returns, Whole and Total have the proofs.
--   Config       nextConfigToken, parseLogLevel, syslogPriority and the fields of the
--                configuration string. Config/Text has the C library functions that they call.
--   Canal        CanalOpen and CanalClose, on the table of Handles.
--   Calls        the functions on a handle as the calls of one interface. Calls/Objects has what they
--                promise for one object; Refines, Isolation and Linux show that they keep it.
--   Dll          src/common/dlldrvobj.cpp: the table of the Windows driver, as an array.
--   Windows      DllMain and the CANAL functions of src/windows/can4vscpdrv.cpp, on the same driver
--                objects. Windows/Laws compares them with the functions of Linux.
--   System       the threads of an open driver as steps on its state, with what holds in every
--                state that they reach. Session/Keeping, System/Keeping and System/Steps are about any
--                relation that the steps keep; Sound (bounds), Flags, Ledger (the transmit queue) and
--                Responses have such relations. Busy and Life put open and close around the steps.
--   Clock        the deadline of semaphoreTimedWait, and the two clocks.
--   Tests        a concrete platform and driver, and the theorems at concrete inputs.
--
-- How the state is read. The object is a record that an operation takes and returns. Numbers are
-- natural numbers, and the wrap of a machine word is written out (% 2 ^ w) where the code can reach
-- it; the counters of the statistics and the semaphores do not wrap. Code that may read outside
-- an array has the outcome fault, and code that may run out of fuel or of polls the outcome starved.
-- The fuel of a loop over sub-frames is the payload size that the frame declares, each round of
-- which takes at least five bytes. A wait for a response has a list of polls, each a clock
-- reading and what the other threads do before the queue is looked at. A blocking wait on a
-- semaphore has its outcome, and what the other threads do meanwhile, as arguments; other threads do
-- not run in between.
--
-- The threads. An operation is one step of the model, though the mutexes of the code guard the
-- queues one by one and not a whole call. The steps of System are calls of clients on an open driver
-- and rounds of the two threads, one after the other in any order. A blocking call that waits is the
-- step at which its wait ends, and what the others do meanwhile are steps before it; during the waits
-- of a transmit round the other threads take steps of their own. The operations of Session take what other threads
-- do during their waits as functions, with hypotheses on them where a theorem needs any; the flags of
-- the session under the steps of the threads are the subject of System/Flags and System/Running.
--
-- Not modelled. Mutexes, the start of the threads, the characters that open reads and logs before it
-- starts them, and calls of the system (their outcomes are arguments); the functions that return a
-- version, a level or a vendor string; the WIN32 branches of src/common/can4vscpobj.cpp (the Windows
-- functions work on the object of the other branches); logging,
-- except that a trace message reads the payload of a frame; memory that cannot be allocated; tests,
-- helper scripts and build files.
pub mod Prelude
pub mod Frame
pub mod Rx
pub mod Message
pub mod Platform
pub mod Driver
pub mod Filter
pub mod Serial
pub mod Receive
pub mod Queues
pub mod Handles
pub mod Commands
pub mod Transmit
pub mod Session
pub mod Config
pub mod Canal
pub mod Calls
pub mod Dll
pub mod Windows
pub mod System
pub mod Clock
pub mod Tests
