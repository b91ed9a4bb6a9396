-- ===== src/Lib.antt =====
-- MeshCommander: the parts of the management console that interpret and produce bytes.
--
-- The console talks to Intel AMT firmware. Its redirection port carries three protocols behind one
-- handshake (redir/): serial over LAN, whose output drives a terminal (terminal/), IDE redirection
-- (ider/) and KVM. A scanner (rmcp/) finds the machines. The application runs one action on many
-- machines through a batch runner (app/src/batchrunner.cpp), whose dispatcher calls WS-Management.
--
-- Files and code:
--   Terminal/Screen        terminal/src/terminalscreen.cpp, class TerminalScreen: the grid (a list of
--                          cells, row by row), the cursor, the pen, and the signals as a list,
--                          latest first. Grid, Places, Valid and Cells hold its lemmas.
--   Terminal/Params        parseParams of terminal/src/vt100parser.cpp.
--   Terminal/Sgr           quantizeRgbTo256, consumeExtendedColor and handleSgr of the same file.
--   Terminal/Parser        class Vt100Parser of the same file: `step` is one byte of feed,
--                          `parser_feed` is Vt100Parser::feed, `feed` is TerminalScreen::feed.
--   Terminal/Html          lineHtml of terminal/src/terminalscreen.cpp, with the palette and escapeHtml.
--   Wire                   the little-endian helpers that ider/src/ider_codec.cpp and
--                          redir/src/redir_codec.cpp both have.
--   Ider/Codec             ider/src/ider_codec.cpp: builders and parsers under their own names.
--   Ider/Scsi              ider/include/ider/scsi.h and ider/src/scsi.cpp.
--   Ider/State             ider/src/ider_session.cpp: the state of the session, failure and the senders;
--                          Ider/Answers has its fixed answers, Ider/Commands the SCSI commands with
--                          the reads, and Ider/Session the frame loop and what is called from outside.
--                          Commands/Branches, Session/Keeps, Answered, Sound, Timer and Reads hold
--                          its lemmas.
--   Redir/Codec            redir/src/redir_codec.cpp: builders, parsers and the digest of the
--                          handshake; Redir/Serial is the part of the file for serial over LAN.
--   Redir/Client           redir/src/redir_client.cpp: the handshake, trust in certificates, and failure.
--                          Fields, Order, Rounds, Handshake, Ends, Login and Failure hold its lemmas.
--   Redir/SolSession       redir/src/sol_session.cpp: the session for serial over LAN. Reading, Frames,
--                          Sending and Closed hold its lemmas. Redir/Link is what a session uses of
--                          the client, with the client as an instance.
--   Inbox                  the loop over the bytes received that the sessions have, and the chunks in
--                          which they arrive.
--   Rmcp/Pong              rmcp/src/pong.cpp.
--   Rmcp/Targets           rmcp/src/target_range.cpp.
--   Kvm/Codec              kvm/src/kvm_codec.cpp: the messages; Kvm/Tiles is decodeRleInner, and Kvm/Rects
--                          the decoding of rectangles around it. Lengths, Sizes, Wire, Runs, Overflow,
--                          Ranges, Blocks, Waiting and Images hold its lemmas.
--   Kvm/Session            kvm/src/kvm_session.cpp: the RFB handshake and the frame loop. Fields, Steps, Fits,
--                          Opening, Handshake and Refusals hold its lemmas.
--   Batch/Runner           app/src/batchrunner.cpp: the jobs, pumpQueue and completeOne. Counts, Moves,
--                          Ends, Replies, Pump and Events hold its lemmas.
--   Prelude                shared names, list and bit lemmas.
--   */Tests                runs on small inputs.
--
-- Conventions. A byte, a UTF-16 unit and an unsigned word are natural numbers; a conversion to a
-- narrower type is a remainder by a power of two, where the code makes one. An int that may be
-- negative is an integer and is clamped where the code clamps it. A parser that returns a bool and
-- fills its outputs is an Option of the outputs. What the code takes from Qt is the record Qt of each
-- component, whose fields name the functions; a theorem that needs it takes it as an argument.
--
-- Bounds and fuel. Most functions are by structural recursion on the bytes, the parameters or the
-- counter of the loop. The loop of pumpQueue starts again inside the dispatcher's call when that
-- answers at once; it has fuel, the square of one more than the number of jobs, and gives `none` when
-- that is spent. Each dispatch takes a pending job and each turn passes one, so it is enough. The
-- run-length loops of the KVM decoder have fuel for each pixel, the loop of sendInput for each byte,
-- and the loops over an inbox one more than its length, since each round that goes on takes a byte;
-- the KVM session's is bounded by the code itself. The row and column counters of the screen are not
-- wrapped, since they stay within the grid; its version counter and the sizes of buffers are not
-- wrapped either. The int that counts a run of the KVM decoder can overflow, and the model has an
-- outcome of its own for that.
--
-- Not modelled: the sockets, the texts of errors and of the log, the loop around zlib, the UDP
-- scanner, WS-Management, SSH, certificates, migration, the application's controllers and its QML, and
-- makeClientNonce, which only draws random numbers. Slots that a signal runs at once are not followed:
-- a signal is an entry of a list.
pub mod Prelude
pub mod Terminal
pub mod Wire
pub mod Inbox
pub mod Ider
pub mod Redir
pub mod Rmcp
pub mod Batch
pub mod Kvm
