-- ===== src/Lib.antt =====
-- The logic of the BMS bridge: a daemon that reads batteries over Bluetooth or a serial line, shows
-- them to a solar inverter as Pylontech modules on RS485, and keeps a history of them for a browser.
--
-- Data flows in one direction. A battery's transport pushes link and frame events; these become
-- calls of its handler (Battery.Delivery, Battery.Handler, src/bms_handler.cpp), which feeds the bytes
-- to the protocol of the battery: the JK BMS protocol (Jk.Driver, src/jk_protocol_driver.cpp, over
-- Jk.Assembler, Jk.Parse and Jk.Wire, src/jk_protocol.cpp), or a Pylontech battery's
-- (Pylontech.Master, src/pylontech_master.cpp). Battery.Assembly (src/battery.cpp) chooses protocol
-- and transport. What they find is kept in the battery's shared state (Battery.State,
-- include/shared_state.hpp) and in the history (History, src/history.cpp). The inverter's requests
-- reach Inverter (src/inverter.cpp), which looks up the module address, takes the shared state of the
-- battery behind it and answers with Pylontech.Responder. Both sides of the Pylontech line stand on
-- the frame codec and payloads (Pylontech.Hex, Frame, Cursor, Payload, Responder, src/pylontech.cpp)
-- and on one receive loop (Pylontech.Stream). Battery.Path puts a JK battery's half and the inverter's
-- half together.
--
-- A Bluetooth battery has a client of its own (Ble.Client, src/ble_client.cpp), a state machine whose
-- handlers are functions of the client and of what SimpleBLE answers. All clients share one adapter
-- by Ble.ScanCoordinator (src/ble_scan_coordinator.cpp); Ble.Client.System has every interleaving
-- of the steps of their handlers, cut at the calls of the coordinator and at the blocking connect,
-- with their callbacks and the coordinator's grants. Their events reach the dispatcher by
-- Ble.EventQueue (src/event_queue.cpp and the pump of src/ble_transport.cpp); Ble.Transport starts and
-- stops the client's thread (Thread, src/thread.cpp and src/event.cpp) and its watch. A serial battery has a
-- port that is reopened when it is lost (Uart, src/uart_transport.cpp).
--
-- History keeps a window in memory and the tables of the database: History.Rows has the rows of a
-- sample, History.Transactions what is asked of the database, History.Range the SELECTs by time,
-- History.Queries what these yield of the tables, History.Months the days of a month,
-- History.Aggregate the energy of past days and the purge, and History.Opening how the database is
-- opened and its statements are prepared. Http (src/http_server.cpp) has the pages of /history
-- (Http.Pages), the static files (Http.Files), /info and /batteries (Http.Info), /daily (Http.Daily)
-- and the request ids (Http.Uuid); Http.Json has the JSON trees of the replies with their status,
-- and a reader of a page, written for the round trip, that has no counterpart in the sources.
--
-- Everything on the main thread is a handler of the dispatcher (Dispatcher, src/dispatcher.cpp), which
-- runs the batches of events that the kernel reports until a signal; its timers are those of Timer
-- (src/timer.cpp). Main (src/main.cpp, src/logger.cpp) has the options, the logger's levels and sinks,
-- and the order in which the parts are made and started. The batteries and the line are named by the
-- configuration (Config, src/config.cpp). Tests has concrete inputs.
--
-- Conventions. An unsigned integer is a natural number, reduced where the source casts or the
-- type wraps; a signed one is an integer. Buffers and strings are lists of bytes. A method that
-- changes its object returns the changed record; what an object sends, appends or calls back is
-- returned or listed. A method that holds a mutex throughout is one step. A delay may be
-- negative: arm() then leaves its timer as it was (Timer.rearm, as Timer.Arming shows). A clock
-- reading is an argument, in milliseconds, and does not run backwards. Base has the shared types
-- and lemmas.
--
-- Code that is not in the repository is a parameter: the tree that libconfuse returns, the outcomes of
-- the calls of SimpleBLE and of the kernel (epoll and timerfd among them), SQLite as a record of
-- statements on an unknown database, doubles as a record of operations, cJSON's printer, the options
-- that getopt finds, the calendar, the file system with its canonical paths. What a theorem needs of
-- them stands among its hypotheses, as a record of what they document.
--
-- Fuel and bounds. The receive loop runs on the length of its buffer, since each round erases a byte
-- or more; the loop of Jk.Driver on two rounds, since at most one frame is ready. Every other loop
-- recurses on a list, such as the outcomes of the calls that it makes, or on a bound that the source
-- itself has. Times are milliseconds since 1970, and dates have years of four digits.
--
-- Not modelled: the making and closing of descriptors; the set-up and the end of libevent's loop; the
-- printing of a JSON tree, which cJSON does; log lines.
pub mod Base
pub mod Config
pub mod Battery
pub mod Jk
pub mod Pylontech
pub mod Inverter
pub mod Ble
pub mod Uart
pub mod Thread
pub mod Timer
pub mod Dispatcher
pub mod Main
pub mod History
pub mod Http
pub mod Tests
